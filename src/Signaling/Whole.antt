-- ===== src/Signaling/Whole.antt =====
-- A relation that holds of the steps of all handlers, the write queue's too, holds of a whole life.
use grpc_over_ayame.Base.{◌≡◌, refl, ◌⊎◌, inl, inr, Option, none, some, List, [], ◌∷◌, ◌++◌, Bytes}
use grpc_over_ayame.Json.{Json}
use grpc_over_ayame.Message.{Fault}
use grpc_over_ayame.Signaling.{
  ErrorCode, success, operation_aborted, ws_closed, other_error, async_write, Signaling, note,
}
use grpc_over_ayame.Signaling.Write.{do_send_text, write_front, on_write, is_empty, erase_front}
use grpc_over_ayame.Signaling.Within.{IsPreorder, Within, at-if, Within-with_wss}
use grpc_over_ayame.Signaling.History.{Event, sends, written, read, handle, run}
use grpc_over_ayame.Signaling.Local.{SendsTexts, IsLocal}
use grpc_over_ayame.Signaling.Handlers.{IsOther, handle-within}

pub record IsWhole (Sent : Bytes → Type 0) (R : Signaling → Signaling → Type 0) : Type 0 where
  pub local : IsLocal Sent R
  pub of_write : (b : Bytes) → Within R (note (async_write b ∷ []))
  pub of_buffer : (s : Signaling) (bs : List Bytes) → R s (record s { write_buffer = bs })

event_kind :
    (e : Event)
    → IsOther e ⊎ ((text : Bytes) × (e ≡ sends text)) ⊎ ((ec : ErrorCode) × (e ≡ written ec))
event_kind (sends text) = inr (inl (text, refl))
event_kind (written ec) = inr (inr (ec, refl))
event_kind (read env ec text) = inl tt
event_kind _ = inl tt

module _ {Sent : Bytes → Type 0} (R : Signaling → Signaling → Type 0) (w : IsWhole Sent R) where
  abbrev p : IsPreorder R
  p = w.local.preorder

  -- A new queue, then its front is written.
  write_front-within :
      (buffer queue : List Bytes) (s : Signaling)
      → R s (write_front buffer (record s { write_buffer = queue })).0
  write_front-within [] queue s = w.of_buffer s queue
  write_front-within (b ∷ rest) queue s =
      let t = record s { write_buffer = queue } in
      p.transitive s t (write_front (b ∷ rest) t).0 (w.of_buffer s queue)
        ((Within-with_wss R p _ (w.of_write b)).at t)

  do_send_text-within : (text : Bytes) (s : Signaling) → R s (do_send_text text s).0
  unfolding do_send_text
  do_send_text-within text s =
      let queue = s.write_buffer ++ text ∷ [] in
      at-if R p (is_empty s.write_buffer) s _ (record s { write_buffer = queue }, none)
        (write_front-within queue queue s) (w.of_buffer s queue)

  on_write-within : (ec : ErrorCode) (s : Signaling) → R s (on_write ec s).0
  unfolding on_write
  on_write-within success s =
      let queue = erase_front s.write_buffer in
      at-if R p (is_empty queue) s (record s { write_buffer = queue }, none) _ (w.of_buffer s queue)
        (write_front-within queue queue s)
  on_write-within operation_aborted s = p.reflexive s
  on_write-within ws_closed s = p.reflexive s
  on_write-within other_error s = p.reflexive s

  module _ {V : Type 0} (json : Json V) (texts : SendsTexts json Sent) where
    handle-whole : (e : Event) (s : Signaling) → R s (handle json e s).0
    handle-whole e s = elim (event_kind e) [
      | inl other ↦ handle-within R w.local json texts e s other
      | inr (inl (text, is)) ↦ rw is (unfold handle in do_send_text-within text s)
      | inr (inr (ec, is)) ↦ rw is (unfold handle in on_write-within ec s)
    ]

    pub run-whole : (es : List Event) (s : Signaling) → R s (run json es s)
    unfolding run
    run-whole [] s = p.reflexive s
    run-whole (e ∷ es) s = after_event (handle json e s) (handle-whole e s) (run-whole es)
      where
        after_event :
            (r : Signaling × Option Fault)
            → R s r.0
            → ((t : Signaling) → R t (run json es t))
            → R s (let u : Signaling = elim r.1 [ none ↦ run json es r.0 | some f ↦ r.0 ] in u)
        after_event (t, none) h k = p.transitive s t (run json es t) h (k t)
        after_event (t, some f) h k = h
