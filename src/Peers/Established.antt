-- ===== src/Peers/Established.antt =====
-- The exchange by which two ends get ready for data channels.
use grpc_over_ayame.Base.{
  ℕ, ◌≡◌, refl, ap, ◌∙◌, true, false, Option, none, some, List, [], ◌∷◌, ◌++◌, append_assoc, Bytes,
  arith,
}
use grpc_over_ayame.Json.{Json, IsJson}
use grpc_over_ayame.Message.{Fault}
use grpc_over_ayame.Signaling.{success, offer, answer, Signaling, create_answer}
use grpc_over_ayame.Signaling.Read.{RtcEnv}
use grpc_over_ayame.Signaling.Peer.{create_channel, on_set_offer}
use grpc_over_ayame.Signaling.History.{Event, read, offer_set, handle, run}
use grpc_over_ayame.Peers.{Item, description, item_message, accept, send_item}
use grpc_over_ayame.Peers.Items.{IsTaken, posted, send_item-posted, on_read-accept}
use grpc_over_ayame.Peers.Introduced.{IsAccept, accepted, on_read-IsAccept}
use grpc_over_ayame.Peers.Exchange.{
  Exchange, item_of, Texts, CanExchange, IsWaiting, first_events, second_events, first_calls,
  second_calls, IsReady,
}

module _ {V : Type 0} (json : Json V) where
  run-cons :
      (e : Event) (es : List Event) (s t : Signaling)
      → handle json e s ≡ (t, none)
      → run json (e ∷ es) s ≡ run json es t
  unfolding run
  run-cons e es s t h =
      ap
        (λ (r : Signaling × Option Fault).
          let u : Signaling = elim r.1 [ none ↦ run json es r.0 | some f ↦ r.0 ] in u)
        h

  abbrev answering : Signaling → Signaling
  answering s = record s { calls = s.calls ++ create_answer ∷ [] }

  on_set_offer_lem :
      (s : Signaling) (p : ℕ)
      → s.connection ≡ some p
      → handle json offer_set s ≡ (answering s, none)
  unfolding handle on_set_offer
  on_set_offer_lem s p n = ground arith

  channels :
      (s : Signaling) (p : ℕ) (label : Bytes) (channel : ℕ)
      → s.ready ≡ true
      → s.connection ≡ some p
      → (create_channel label channel s).1 ≡ (some channel, none)
  unfolding create_channel
  channels s p label channel r n = ground arith

  module _ (laws : IsJson json) (first second : RtcEnv) (x : Exchange) (t : Texts)
      (can : CanExchange json first second x t) (s : Signaling) (p : ℕ) (w : IsWaiting s) where
    handles_read :
        (env : RtcEnv) (i : Item) (text : Bytes) (u : Signaling)
        → json.dump (item_message json i) ≡ some text
        → IsTaken env i
        → u.wss ≡ true
        → u.connection ≡ some p
        → handle json (read env success text) u ≡ (accept i u, none)
    unfolding handle
    handles_read env i text u h k wss n = on_read-accept json laws env i text u p h k wss n

    run-first :
        (accept_text : Bytes)
        → first.peer_connection ≡ some p
        → IsAccept json accept_text false
        → IsReady s (first_calls x t) (run json (first_events first accept_text x t) s)
    unfolding handle send_item
    run-first accept_text n a =
        let c = x.of_first in
        let o = description offer x.offered in
        let m = description answer x.answered in
        let s₁ = accepted first false s in
        let s₂ = accept o s₁ in
        let s₃ = answering s₂ in
        let s₄ = posted m t.answer_text s₃ in
        let s₅ = accept (item_of x.of_second) s₄ in
        let s₆ = posted (item_of c) t.first_text s₅ in
        let whole : run json (first_events first accept_text x t) s ≡ s₆ =
          run-cons _ _ s s₁
            (on_read-IsAccept json first accept_text false s p a w.has_wss w.has_factory n)
          ∙ (run-cons _ _ s₁ s₂
                (handles_read first o t.offer_text s₁ can.offer_is can.offer_taken w.has_wss n)
              ∙ (run-cons _ _ s₂ s₃ (on_set_offer_lem s₂ p n)
                  ∙ (run-cons _ _ s₃ s₄ (send_item-posted json m t.answer_text s₃ p can.answer_is n)
                      ∙ (run-cons _ _ s₄ s₅ (
                            handles_read first (item_of x.of_second) t.second_text s₄ can.second_is
                              can.second_taken w.has_wss n)
                          ∙ (run-cons _ _ s₅ s₆
                                (send_item-posted json (item_of c) t.first_text s₅ p can.first_is n)
                              ∙ (unfold run in refl)))))) in
        rw whole (record {
          ready = refl;
          calls_are = rw w.is_unready (simp append_assoc);
          makes_channels = λ label channel. channels s₆ p label channel refl n;
        })

    run-second :
        (accept_text : Bytes)
        → second.peer_connection ≡ some p
        → IsAccept json accept_text true
        → IsReady s (second_calls x t) (run json (second_events second accept_text x t) s)
    unfolding handle send_item
    run-second accept_text n a =
        let c = x.of_second in
        let o = description offer x.offered in
        let m = description answer x.answered in
        let s₁ = accepted second true s in
        let s₂ = posted o t.offer_text s₁ in
        let s₃ = accept m s₂ in
        let s₄ = posted (item_of c) t.second_text s₃ in
        let s₅ = accept (item_of x.of_first) s₄ in
        let whole : run json (second_events second accept_text x t) s ≡ s₅ =
          run-cons _ _ s s₁
            (on_read-IsAccept json second accept_text true s p a w.has_wss w.has_factory n)
          ∙ (run-cons _ _ s₁ s₂ (send_item-posted json o t.offer_text s₁ p can.offer_is n)
              ∙ (run-cons _ _ s₂ s₃ (
                    handles_read second m t.answer_text s₂ can.answer_is can.answer_taken w.has_wss
                      n)
                  ∙ (run-cons _ _ s₃ s₄
                        (send_item-posted json (item_of c) t.second_text s₃ p can.second_is n)
                      ∙ (run-cons _ _ s₄ s₅ (
                            handles_read second (item_of x.of_first) t.first_text s₄ can.first_is
                              can.first_taken w.has_wss n)
                          ∙ (unfold run in refl))))) in
        rw whole (record {
          ready = refl;
          calls_are = rw w.is_unready (simp append_assoc);
          makes_channels = λ label channel. channels s₅ p label channel refl n;
        })

-- Two ends that the server has introduced to each other get ready, without a fault, if the events
-- of each end are those of `first_events` and `second_events`, in this order: the one that comes
-- second offers, the other answers, and each takes one candidate of the other. Behind it each end
-- has made exactly the calls of `first_calls` and `second_calls`, its listener was told once that
-- it is ready, and it is given every data channel that it asks for. This holds if the texts of the
-- messages are what JSON writes, each end's WebRTC makes a connection and takes what comes from the
-- other, and both ends have a WebSocket and a factory and were not ready before.
pub run-IsReady :
    {V : Type 0} (json : Json V) (first second : RtcEnv) (x : Exchange) (t : Texts)
    (a b : Signaling) (p q : ℕ) (to_first to_second : Bytes)
    → IsJson json
    → CanExchange json first second x t
    → IsWaiting a
    → IsWaiting b
    → first.peer_connection ≡ some p
    → second.peer_connection ≡ some q
    → IsAccept json to_first false
    → IsAccept json to_second true
    → IsReady a (first_calls x t) (run json (first_events first to_first x t) a)
      × IsReady b (second_calls x t) (run json (second_events second to_second x t) b)
run-IsReady json first second x t a b p q to_first to_second laws can wa wb n m fa fb = (
  run-first json laws first second x t can a p wa to_first n fa,
  run-second json laws first second x t can b q wb to_second m fb,
)
