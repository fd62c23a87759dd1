-- ===== src/Stream/Exchange.antt =====
-- Both ends of a data channel, which delivers buffers in the order in which they were sent.
use grpc_over_ayame.Base.{
  ℕ, ◌<◌, ◌≡◌, refl, ap, ◌∙◌, inl, Option, none, some, List, [], ◌∷◌, ◌++◌, map, Bytes, All, length,
  arith,
}
use grpc_over_ayame.Json.{Json, IsJson, lookup, Distinct}
use grpc_over_ayame.Metadata.{Batch, AddTail, IsAddTail, encode}
use grpc_over_ayame.Metadata.Filled.{shown, last_or}
use grpc_over_ayame.Metadata.RoundTrip.{decode-encode}
use grpc_over_ayame.Message.{Fault, threw, slice, Pull, size_mod}
use grpc_over_ayame.Message.Slices.{IsSlice, total, slices, send_message-slices}
use grpc_over_ayame.Mailbox.{Mailbox, Event, run}
use grpc_over_ayame.Mailbox.Pairing.{messages, waits, Pairs, run-Pairs}
use grpc_over_ayame.Stream.{StreamOp, RecvMetadata, Recv, Io, Stream}
use grpc_over_ayame.Stream.Send.{send_all}
use grpc_over_ayame.Stream.Schedule.{feed, deliver_all, feed-deliver_all}
use grpc_over_ayame.Stream.Order.{WritesBody}
use grpc_over_ayame.Stream.Calls.{
  sent_buffers, IsCall, call_waits, nothing_waits, two, got, received, call_buffers,
  deliver_all-call, deliver_all_threw, one_slice,
}

module _ {V : Type 0} (json : Json V) (add_tail : AddTail) where
  pub run-call :
      (r : Stream) (es : List (Event Recv)) (ws : List Recv) (bs : List Bytes)
      → r.mailbox ≡ nothing_waits
      → waits es ≡ ws
      → messages es ≡ bs
      → Pairs ws bs (run r.mailbox es)
  run-call r es ws bs m w b =
      let all = run-Pairs r.mailbox es (rw m (inl refl)) in rw (← w, ← b) (rw m (rw m at all))

  pub feed-run :
      (r : Stream) (es : List (Event Recv)) (cs : List (Recv × Bytes)) (d : Io × Option Fault)
      → (run r.mailbox es).1 ≡ cs
      → deliver_all json add_tail cs r.io ≡ d
      → ((feed json add_tail es r).0.io ≡ d.0)
        × ((feed json add_tail es r).1 ≡ d.1)
        × (d.1 ≡ none → (feed json add_tail es r).0.mailbox ≡ (run r.mailbox es).0)
  feed-run r es cs d h k =
      let (io_is, fault_is, whole) = feed-deliver_all json add_tail es r in
      let same : deliver_all json add_tail (run r.mailbox es).1 r.io ≡ d = rw h k in
      (
        io_is ∙ ap (λ (x : Io × Option Fault). x.0) same,
        fault_is ∙ ap (λ (x : Io × Option Fault). x.1) same,
        λ n. ap (λ (x : Stream). x.mailbox) (whole (ap (λ (x : Io × Option Fault). x.1) same ∙ n)),
      )

  drained : (m : Mailbox Recv) → m.data_queue ≡ [] → m.func_queue ≡ [] → m ≡ nothing_waits
  drained m d f = λ i. record { data_queue = d i; func_queue = f i }

  -- A whole call over the data channel, sent by one batch whose message is one slice. Whatever the
  -- interleaving of the buffers' arrival with the three receive operations, the receiver's closures
  -- run in the order initial metadata, message, trailing metadata, each once and without an error;
  -- the message is the bytes sent; each metadata batch holds no key twice and has for each key the
  -- value of its last element sent, up to the first NUL byte; and nothing is left waiting.
  pub feed_call :
      (op : StreamOp) (md_i md_t : Batch) (body bi bt : Bytes) (rest : List Pull) (io : Io)
      (r : Stream) (ri rt : RecvMetadata) (c : ℕ) (es : List (Event Recv))
      → IsJson json
      → IsAddTail add_tail
      → IsCall op md_i md_t (record { message_length = length body; pulls = slice body ∷ rest })
      → IsSlice body
      → json.dump (encode json md_i) ≡ some bi
      → json.dump (encode json md_t) ≡ some bt
      → io.calls ≡ []
      → r.mailbox ≡ nothing_waits
      → ri.md_batch ≡ []
      → rt.md_batch ≡ []
      → waits es ≡ call_waits ri c rt
      → messages es ≡ sent_buffers (send_all json op io).0.calls
      → (b_i : Batch) × (b_t : Batch) × ((feed json add_tail es r).1 ≡ none)
        × ((feed json add_tail es r).0.io.calls
            ≡ r.io.calls ++ received r.io.recv_inited ri c rt b_i body b_t)
        × ((feed json add_tail es r).0.mailbox ≡ nothing_waits)
        × Distinct b_i
        × Distinct b_t
        × ((k : Bytes) → lookup k b_i ≡ last_or k none (map shown md_i))
        × ((k : Bytes) → lookup k b_t ≡ last_or k none (map shown md_t))
  feed_call op md_i md_t body bi bt rest io r ri rt c es laws adds h sl i t e m ei et w b =
      let frames : WritesBody
          (some (record { message_length = length body; pulls = slice body ∷ rest })) (body ∷ []) =
        one_slice body rest sl in
      let arrived : messages es ≡ bi ∷ body ∷ bt ∷ [] =
        b ∙ call_buffers json add_tail op md_i md_t _ bi bt (body ∷ []) io h i t frames e in
      let paired = run-call r es (call_waits ri c rt) (bi ∷ body ∷ bt ∷ []) m w arrived in
      let (b_i, read_i, distinct_i, lookup_i) = decode-encode json add_tail md_i bi laws adds i in
      let (b_t, read_t, distinct_t, lookup_t) = decode-encode json add_tail md_t bt laws adds t in
      let out = feed-run r es _ _ paired.calls_are (
        deliver_all-call json add_tail ri rt c bi body bt b_i b_t r.io (rw ei read_i)
          (rw et read_t)) in
      (
        b_i,
        b_t,
        out.1,
        ap (λ (x : Io). x.calls) out.0,
        out.2 refl ∙ drained _ paired.data_left paired.func_left,
        distinct_i,
        distinct_t,
        lookup_i,
        lookup_t,
      )

  -- A message that gRPC hands over in two or more slices does not arrive: the receiver takes its
  -- first slice for the message, which is not the whole of it, and reads its second slice as the
  -- trailing metadata; unless that slice is JSON, this throws, and the last closure never runs.
  pub feed_call_slices :
      (op : StreamOp) (md_i md_t : Batch) (s t : Bytes) (ss : List Bytes) (bi bt : Bytes)
      (rest : List Pull) (io : Io) (r : Stream) (ri rt : RecvMetadata) (c : ℕ)
      (es : List (Event Recv))
      → IsJson json
      → IsAddTail add_tail
      → IsCall op md_i md_t
          (record { message_length = total (s ∷ t ∷ ss); pulls = slices (s ∷ t ∷ ss) rest })
      → All IsSlice (s ∷ t ∷ ss)
      → total (s ∷ t ∷ ss) < size_mod
      → json.dump (encode json md_i) ≡ some bi
      → json.dump (encode json md_t) ≡ some bt
      → json.parse t ≡ none
      → io.calls ≡ []
      → r.mailbox ≡ nothing_waits
      → ri.md_batch ≡ []
      → waits es ≡ call_waits ri c rt
      → messages es ≡ sent_buffers (send_all json op io).0.calls
      → (b_i : Batch) × ((feed json add_tail es r).1 ≡ some threw)
        × ((feed json add_tail es r).0.io.calls
            ≡ r.io.calls ++ (two ri b_i ++ got r.io.recv_inited c s))
        × (length s < total (s ∷ t ∷ ss))
  feed_call_slices op md_i md_t s t ss bi bt rest io r ri rt c es laws adds h sl z i t' p e m ei w
        b =
      let arrived : messages es ≡ bi ∷ s ∷ t ∷ (ss ++ bt ∷ []) =
        b
        ∙ call_buffers json add_tail op md_i md_t _ bi bt (s ∷ t ∷ ss) io h i t'
            (send_message-slices s (t ∷ ss) rest sl z) e in
      let paired = run-call r es (call_waits ri c rt) (bi ∷ s ∷ t ∷ (ss ++ bt ∷ [])) m w arrived in
      let (b_i, read_i, _, _) = decode-encode json add_tail md_i bi laws adds i in
      let threw_at = deliver_all_threw json add_tail ri rt c bi s t b_i r.io (rw ei read_i) p in
      let out = feed-run r es _ _ paired.calls_are refl in
      (b_i, out.1 ∙ threw_at.1, ap (λ (x : Io). x.calls) out.0 ∙ threw_at.0, omega arith)
