-- ===== src/Stream/Conversation.antt =====
-- A call in any number of batches and messages, from one end to the other.
use grpc_over_ayame.Base.{
  ◌≡◌, refl, sym, ap, ◌∙◌, true, Option, none, List, [], ◌∷◌, ◌++◌, append_assoc, append-nil, Bytes,
  All, length, take, drop,
}
use mathlib.Core.Path.{subst}
use grpc_over_ayame.Json.{Json, IsJson}
use grpc_over_ayame.Metadata.{AddTail, IsAddTail, no_error}
use grpc_over_ayame.Metadata.RoundTrip.{decode-encode}
use grpc_over_ayame.Message.{Fault}
use grpc_over_ayame.Mailbox.{Mailbox, Event}
use grpc_over_ayame.Mailbox.Pairing.{messages, waits, pairs}
use grpc_over_ayame.Stream.{
  StreamOp, Recv, initial_metadata, message, trailing_metadata, Call, Io, Stream, push,
}
use grpc_over_ayame.Stream.Receive.{deliver, receive_message}
use grpc_over_ayame.Stream.Schedule.{feed, deliver_all, deliver_all-step}
use grpc_over_ayame.Stream.Calls.{sent_buffers, nothing_waits, two, got, deliver_metadata}
use grpc_over_ayame.Stream.Exchange.{run-call, feed-run}
use grpc_over_ayame.Stream.Parts.{
  Part, metadata, body, all_parts, IsWhole, Buffers, HasText, FitAll, Received, send_batches,
}
use grpc_over_ayame.Stream.Sent.{send_batches-Buffers}

module _ {V : Type 0} (json : Json V) (add_tail : AddTail) where
  -- Deliveries without a fault that make the calls which are to be made.
  abbrev Delivers : List Recv → List Bytes → List Part → Io → Type 0
  Delivers fs bs ps io =
      (cs : List Call) × ((deliver_all json add_tail (pairs fs bs) io).1 ≡ none)
      × ((deliver_all json add_tail (pairs fs bs) io).0.calls ≡ io.calls ++ cs)
      × Received io.recv_inited fs (take (length bs) ps) cs

  -- One more delivery in front.
  Delivers-cons :
      (f : Recv) (fs : List Recv) (b : Bytes) (bs : List Bytes) (ps : List Part) (io io' : Io)
      (first : List Call)
      → deliver json add_tail (f, b) io ≡ (io', none)
      → io'.calls ≡ io.calls ++ first
      → Delivers fs bs ps io'
      → (cs : List Call) × ((deliver_all json add_tail (pairs (f ∷ fs) (b ∷ bs)) io).1 ≡ none)
        × ((deliver_all json add_tail (pairs (f ∷ fs) (b ∷ bs)) io).0.calls
            ≡ io.calls ++ (first ++ cs))
        × Received io'.recv_inited fs (take (length bs) ps) cs
  Delivers-cons f fs b bs ps io io' first h c (cs, no_fault, calls, is) =
      let out = deliver_all-step json add_tail (f, b) (pairs fs bs) io io' none h in
      (
        cs,
        ap (λ (r : Io × Option Fault). r.1) out ∙ no_fault,
        ap (λ (r : Io × Option Fault). r.0.calls) out
            ∙ (calls ∙ (ap (λ ds. ds ++ cs) c ∙ append_assoc io.calls first cs)),
        is,
      )

  deliver_all-Delivers :
      (laws : IsJson json) (adds : IsAddTail add_tail) (fs : List Recv) (bs flying : List Bytes)
      (ps : List Part) (io : Io)
      → Buffers json ps (bs ++ flying)
      → FitAll fs ps
      → Delivers fs bs ps io
  unfolding deliver_all deliver
  deliver_all-Delivers laws adds [] bs flying ps io k h =
      ([], refl, sym (append-nil io.calls), refl)
  deliver_all-Delivers laws adds (initial_metadata r ∷ fs) [] flying ps io k h =
      ([], refl, sym (append-nil io.calls), refl)
  deliver_all-Delivers laws adds (message c ∷ fs) [] flying ps io k h =
      ([], refl, sym (append-nil io.calls), refl)
  deliver_all-Delivers laws adds (trailing_metadata r ∷ fs) [] flying ps io k h =
      ([], refl, sym (append-nil io.calls), refl)
  deliver_all-Delivers laws adds (f ∷ fs) (b ∷ bs) flying [] io k h = absurd k
  deliver_all-Delivers laws adds (initial_metadata r ∷ fs) (b ∷ bs) flying (body t ∷ ps) io k h =
      absurd h.0
  deliver_all-Delivers laws adds (trailing_metadata r ∷ fs) (b ∷ bs) flying (body t ∷ ps) io k h =
      absurd h.0
  deliver_all-Delivers laws adds (message c ∷ fs) (b ∷ bs) flying (metadata md ∷ ps) io k h =
      absurd h.0
  deliver_all-Delivers laws adds (message c ∷ fs) (b ∷ bs) flying (body t ∷ ps) io k h =
      let io' : Io = record {
        recv_inited = true;
        recv_message = b ∷ [];
        calls = io.calls ++ got io.recv_inited c b;
      } in
      let (cs, no_fault, calls, is) =
        Delivers-cons (message c) fs b bs ps io io' (got io.recv_inited c b)
          (unfold receive_message in refl) refl
          (deliver_all-Delivers laws adds fs bs flying ps io' k.1 h.1) in
      (
        got io.recv_inited c b ++ cs,
        no_fault,
        calls,
        (cs, ap (λ x. got io.recv_inited c x ++ cs) k.0, is),
      )
  deliver_all-Delivers laws adds (initial_metadata r ∷ fs) (b ∷ bs) flying (metadata md ∷ ps) io k
        h =
      let (got_b, read, distinct, values) = decode-encode json add_tail md b laws adds k.0 in
      let io' = push io (two r got_b) in
      let (cs, no_fault, calls, is) =
        Delivers-cons (initial_metadata r) fs b bs ps io io' (two r got_b)
          (deliver_metadata json add_tail r b io got_b no_error (rw h.0 read)) refl
          (deliver_all-Delivers laws adds fs bs flying ps io' k.1 h.1) in
      (two r got_b ++ cs, no_fault, calls, (got_b, (distinct, values), (cs, refl, is)))
  deliver_all-Delivers laws adds (trailing_metadata r ∷ fs) (b ∷ bs) flying (metadata md ∷ ps) io k
        h =
      let (got_b, read, distinct, values) = decode-encode json add_tail md b laws adds k.0 in
      let io' = push io (two r got_b) in
      let (cs, no_fault, calls, is) =
        Delivers-cons (trailing_metadata r) fs b bs ps io io' (two r got_b)
          (deliver_metadata json add_tail r b io got_b no_error (rw h.0 read)) refl
          (deliver_all-Delivers laws adds fs bs flying ps io' k.1 h.1) in
      (two r got_b ++ cs, no_fault, calls, (got_b, (distinct, values), (cs, refl, is)))

  -- One end sends any number of batches over the open channel, each message in one slice and all
  -- metadata such that JSON can write it; at the other end buffers arrive and receive operations
  -- come, in any interleaving, and some buffers may still be on their way. If nothing was sent or
  -- waited before and the operations are of the kinds of the parts sent, in order, into empty
  -- batches, no step ends in a fault: the n-th operation gets the n-th part as far as both have
  -- come, its closure runs once and without an error, in the order of the parts; a message is the
  -- bytes sent, and a metadata batch holds no key twice and has for each key the value of its last
  -- element sent, up to the first NUL byte. What waits then is the buffers behind the last
  -- operation, or the operations behind the last buffer.
  pub feed-Received :
      (ops : List StreamOp) (io : Io) (r : Stream) (es : List (Event Recv)) (flying : List Bytes)
      → IsJson json
      → IsAddTail add_tail
      → All (HasText json) (all_parts ops)
      → All (λ (op : StreamOp). IsWhole op.send_message) ops
      → io.calls ≡ []
      → r.mailbox ≡ nothing_waits
      → messages es ++ flying ≡ sent_buffers (send_batches json ops io).0.calls
      → FitAll (waits es) (all_parts ops)
      → let end = feed json add_tail es r in
        (cs : List Call) × ((send_batches json ops io).1 ≡ none)
        × (end.1 ≡ none)
        × (end.0.io.calls ≡ r.io.calls ++ cs)
        × Received r.io.recv_inited (waits es) (take (length (messages es)) (all_parts ops)) cs
        × (end.0.mailbox.data_queue ≡ drop (length (waits es)) (messages es))
        × (end.0.mailbox.func_queue ≡ drop (length (messages es)) (waits es))
  feed-Received ops io r es flying laws adds texts whole none_sent m b fit =
      let (bs, k, sent_ok, sent_are) = send_batches-Buffers json ops io texts whole in
      let all : bs ≡ messages es ++ flying =
        sym (b ∙ (sent_are ∙ ap (λ cs. sent_buffers cs ++ bs) none_sent)) in
      let (cs, no_fault, calls, is) =
        deliver_all-Delivers laws adds (waits es) (messages es) flying (all_parts ops) r.io
          (subst (Buffers json (all_parts ops)) all k) fit in
      let paired = run-call json add_tail r es (waits es) (messages es) m refl refl in
      let d = deliver_all json add_tail (pairs (waits es) (messages es)) r.io in
      let (io_is, fault_is, mailbox_is) = feed-run json add_tail r es _ d paired.calls_are refl in
      let queues = mailbox_is no_fault in
      (
        cs,
        sent_ok,
        fault_is ∙ no_fault,
        ap (λ (x : Io). x.calls) io_is ∙ calls,
        is,
        ap (λ (x : Mailbox Recv). x.data_queue) queues ∙ paired.data_left,
        ap (λ (x : Mailbox Recv). x.func_queue) queues ∙ paired.func_left,
      )
