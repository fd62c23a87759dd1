-- ===== src/Stream/Both.antt =====
-- Whatever a stream sends and receives at once, the two do not disturb each other.
use grpc_over_ayame.Base.{
  map, ◌≡◌, refl, ap, ◌∙◌, Bool, Option, none, some, List, [], ◌∷◌, ◌++◌, append_assoc, Bytes, All,
  length, map, take,
}
use grpc_over_ayame.Json.{Json}
use grpc_over_ayame.Metadata.{AddTail}
use grpc_over_ayame.Message.{Fault}
use grpc_over_ayame.Mailbox.{Mailbox, Event, step}
use grpc_over_ayame.Stream.{
  send, StreamOp, Recv, initial_metadata, message, trailing_metadata, Call, Io, Stream, push,
  after_ok,
}
use grpc_over_ayame.Stream.Order.{completion}
use grpc_over_ayame.Stream.Receive.{call}
use grpc_over_ayame.Stream.Schedule.{handle-call, call-some}
use grpc_over_ayame.Stream.Parts.{
  Part, metadata, body, parts_of, IsWhole, Buffers, HasText, Received,
}
use grpc_over_ayame.Stream.Sent.{send_all-Buffers}
use grpc_over_ayame.Stream.Duplex.{
  Shuffle, lefts, rights, Half, sends, queue, do_half, do_halves, Delivery,
}

pub Received-none : (inited : Bool) (fs : List Recv) → Received inited fs [] []
Received-none inited [] = refl
Received-none inited (initial_metadata r ∷ fs) = refl
Received-none inited (message c ∷ fs) = refl
Received-none inited (trailing_metadata r ∷ fs) = refl

module _ {V : Type 0} (json : Json V) where
  pub Buffers-head :
      (p : Part) (ps : List Part) (b : Bytes) (bs : List Bytes)
      → Buffers json (p ∷ ps) (b ∷ bs)
      → Buffers json (p ∷ []) (b ∷ []) × Buffers json ps bs
  Buffers-head (metadata md) ps b bs h = ((h.0, tt), h.1)
  Buffers-head (body t) ps b bs h = ((h.0, tt), h.1)

  -- The calls that these batches are to make by what they send: for each in turn the buffers of
  -- its parts, in order, and then its `on_complete`, once, if it sends anything.
  abbrev pub Sends : List StreamOp → List Call → Type 0
  Sends [] cs = cs ≡ []
  Sends (op ∷ ops) cs =
      (bs : List Bytes) × (rest : List Call) × Buffers json (parts_of op) bs
      × Sends ops rest
      × (cs ≡ (map send bs ++ completion op) ++ rest)

  -- What a stream has done with these functions and buffers of the other end, and with its own
  -- parts.
  pub record Duplex (fs : List Recv) (bs : List Bytes) (ps : List Part) (mine : List StreamOp)
      (s : Stream) (out : Stream × Option Fault) : Type 0 where
    pub no_fault : out.1 ≡ none
    pub calls : List Call
    pub sending : List Call
    pub receiving : List Call
    pub calls_are : out.0.io.calls ≡ s.io.calls ++ calls
    pub shuffled : Shuffle sending receiving calls
    pub receives : Received s.io.recv_inited fs (take (length bs) ps) receiving
    pub sends : Sends mine sending

  module _ (add_tail : AddTail) where
    -- A half of a batch that is sent.
    pub Duplex-sends :
        (op : StreamOp) (hs : List Half) (fs : List Recv) (bs : List Bytes) (ps : List Part)
        (mine : List StreamOp) (s : Stream)
        → All (HasText json) (parts_of op)
        → IsWhole op.send_message
        → ((cs : List Call)
            → Duplex fs bs ps mine
                (record s { io = push s.io cs })
                (do_halves json add_tail hs (record s { io = push s.io cs })))
        → Duplex fs bs ps (op ∷ mine) s (do_halves json add_tail (sends op ∷ hs) s)
    unfolding do_halves do_half
    Duplex-sends op hs fs bs ps mine s texts whole ih =
        let (buffers, k, (cs, sent, _, are)) = send_all-Buffers json op s.io texts whole in
        let s' = record s { io = push s.io cs } in
        let d = ih cs in
        let now : do_half json add_tail (sends op) s ≡ (s', none) =
          ap (λ (r : Io × Option Fault). (record s { io = r.0 }, r.1)) sent in
        let out =
          after_ok (do_half json add_tail (sends op)) (do_halves json add_tail hs) s s' now in
        record {
          no_fault = ap (λ (r : Stream × Option Fault). r.1) out ∙ d.no_fault;
          calls = cs ++ d.calls;
          sending = cs ++ d.sending;
          receiving = d.receiving;
          calls_are =
              ap (λ (r : Stream × Option Fault). r.0.io.calls) out
              ∙ (d.calls_are ∙ append_assoc s.io.calls cs d.calls);
          shuffled = lefts cs d.shuffled;
          receives = d.receives;
          sends = (buffers, d.sending, k, d.sends, ap (λ x. x ++ d.sending) are);
        }

    -- An event by which nothing is delivered.
    pub Duplex-silent :
        (e : Event Recv) (hs : List Half) (fs : List Recv) (bs : List Bytes) (ps : List Part)
        (mine : List StreamOp) (s : Stream) (m : Mailbox Recv)
        → step s.mailbox e ≡ (m, none)
        → Duplex fs bs ps mine
            (record s { mailbox = m })
            (do_halves json add_tail hs (record s { mailbox = m }))
        → Duplex fs bs ps mine s (do_halves json add_tail (queue e ∷ hs) s)
    unfolding do_halves do_half
    Duplex-silent e hs fs bs ps mine s m h d =
        let s' = record s { mailbox = m } in
        let now : do_half json add_tail (queue e) s ≡ (s', none) =
          handle-call json add_tail e s
          ∙ (ap (λ r. call json add_tail r s) h ∙ (unfold call in refl)) in
        let out =
          after_ok (do_half json add_tail (queue e)) (do_halves json add_tail hs) s s' now in
        record {
          no_fault = ap (λ (r : Stream × Option Fault). r.1) out ∙ d.no_fault;
          calls = d.calls;
          sending = d.sending;
          receiving = d.receiving;
          calls_are = ap (λ (r : Stream × Option Fault). r.0.io.calls) out ∙ d.calls_are;
          shuffled = d.shuffled;
          receives = d.receives;
          sends = d.sends;
        }

    -- An event by which the oldest function gets the oldest buffer.
    pub Duplex-delivers :
        (e : Event Recv) (hs : List Half) (f : Recv) (fs : List Recv) (b : Bytes) (bs : List Bytes)
        (p : Part) (ps : List Part) (mine : List StreamOp) (s : Stream) (m : Mailbox Recv)
        (v : Delivery json add_tail f p b s.io)
        → step s.mailbox e ≡ (m, some (f, b))
        → Duplex fs bs ps mine
            (record s { mailbox = m; io = v.io' })
            (do_halves json add_tail hs (record s { mailbox = m; io = v.io' }))
        → Duplex (f ∷ fs) (b ∷ bs) (p ∷ ps) mine s (do_halves json add_tail (queue e ∷ hs) s)
    unfolding do_halves do_half
    Duplex-delivers e hs f fs b bs p ps mine s m v h d =
        let s' = record s { mailbox = m; io = v.io' } in
        let now : do_half json add_tail (queue e) s ≡ (s', none) =
          handle-call json add_tail e s
          ∙ (ap (λ r. call json add_tail r s) h
              ∙ call-some json add_tail m (f, b) s v.io' none v.runs) in
        let out =
          after_ok (do_half json add_tail (queue e)) (do_halves json add_tail hs) s s' now in
        record {
          no_fault = ap (λ (r : Stream × Option Fault). r.1) out ∙ d.no_fault;
          calls = v.made ++ d.calls;
          sending = d.sending;
          receiving = v.made ++ d.receiving;
          calls_are =
              ap (λ (r : Stream × Option Fault). r.0.io.calls) out
              ∙ (d.calls_are
                  ∙ (ap (λ x. x ++ d.calls) v.calls_are ∙ append_assoc s.io.calls v.made d.calls));
          shuffled = rights v.made d.shuffled;
          receives = v.is_received fs (take (length bs) ps) d.receiving d.receives;
          sends = d.sends;
        }
