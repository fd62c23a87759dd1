-- ===== src/Stream/Calls.antt =====
-- The buffers and the closures of a whole call: metadata, one message, trailing metadata.
use grpc_over_ayame.Base.{
  ℕ, ◌≡◌, refl, ap, ◌∙◌, Bool, true, none, some, List, [], ◌∷◌, ◌++◌, append_assoc, map, Bytes,
  if◌then◌else◌, length, arith,
}
use mathlib.Core.Path.{subst}
use grpc_over_ayame.Json.{Json}
use grpc_over_ayame.Metadata.{Batch, GrpcError, no_error, AddTail, encode, decode}
use grpc_over_ayame.Message.{threw, Message, slice, Pull}
use grpc_over_ayame.Message.Slices.{IsSlice, total, send_message-slices}
use grpc_over_ayame.Mailbox.{Mailbox}
use grpc_over_ayame.Mailbox.Pairing.{pairs}
use grpc_over_ayame.Stream.{
  StreamOp, RecvMetadata, Recv, initial_metadata, message, trailing_metadata, Call, send,
  run_closure, fill_batch, reset_message, destroy_buffer, Io, push,
}
use grpc_over_ayame.Stream.Send.{send_all}
use grpc_over_ayame.Stream.Receive.{receive_message, receive_metadata, deliver}
use grpc_over_ayame.Stream.Schedule.{deliver_all, deliver_all-step}
use grpc_over_ayame.Stream.Order.{WritesBody, completion, send_all-Writes}

-- The buffers that calls put on the data channel.
abbrev pub sent_buffers : List Call → List Bytes
sent_buffers [] = []
sent_buffers (send b ∷ cs) = b ∷ sent_buffers cs
sent_buffers (_ ∷ cs) = sent_buffers cs

pub sent_buffers-send :
    (bs : List Bytes) (op : StreamOp) → sent_buffers (map send bs ++ completion op) ≡ bs
sent_buffers-send [] op = ground arith
sent_buffers-send (b ∷ bs) op = ap (◌∷◌ b) (sent_buffers-send bs op)

-- A batch that sends a whole call: metadata, one message, trailing metadata.
pub record IsCall (op : StreamOp) (md_i md_t : Batch) (m : Message) : Type 0 where
  pub initial_is : op.send_initial_metadata ≡ some md_i
  pub message_is : op.send_message ≡ some m
  pub trailing_is : op.send_trailing_metadata ≡ some md_t

-- What the other side waits for.
abbrev pub call_waits : RecvMetadata → ℕ → RecvMetadata → List Recv
call_waits ri c rt = initial_metadata ri ∷ message c ∷ trailing_metadata rt ∷ []

abbrev pub nothing_waits : Mailbox Recv
nothing_waits = record { data_queue = []; func_queue = [] }

abbrev pub freed : Bool → List Call
freed inited = if inited then destroy_buffer ∷ [] else []

abbrev pub two : RecvMetadata → Batch → List Call
two r b = fill_batch r.ready b ∷ run_closure r.ready no_error ∷ []

abbrev pub got : Bool → ℕ → Bytes → List Call
got inited c body = freed inited ++ reset_message c (body ∷ []) ∷ run_closure c no_error ∷ []

-- The calls of receiving a whole call.
abbrev pub received : Bool → RecvMetadata → ℕ → RecvMetadata → Batch → Bytes → Batch → List Call
received inited ri c rt b_i body b_t = two ri b_i ++ (got inited c body ++ two rt b_t)

module _ {V : Type 0} (json : Json V) (add_tail : AddTail) where
  -- The buffers of a whole call, whose message is sent as `frames`.
  pub call_buffers :
      (op : StreamOp) (md_i md_t : Batch) (m : Message) (bi bt : Bytes) (frames : List Bytes)
      (io : Io)
      → IsCall op md_i md_t m
      → json.dump (encode json md_i) ≡ some bi
      → json.dump (encode json md_t) ≡ some bt
      → WritesBody (some m) frames
      → io.calls ≡ []
      → sent_buffers (send_all json op io).0.calls ≡ bi ∷ (frames ++ bt ∷ [])
  call_buffers op md_i md_t m bi bt frames io h i t w e =
      let out =
        send_all-Writes json op io (bi ∷ []) frames (bt ∷ []) (rw h.initial_is (bi, i, refl))
          (rw h.message_is w) (rw h.trailing_is (bt, t, refl)) in
      rw (out, e) (sent_buffers-send (bi ∷ (frames ++ bt ∷ [])) op)

  pub deliver_metadata :
      (r : RecvMetadata) (buffer : Bytes) (io : Io) (b : Batch) (e : GrpcError)
      → decode json add_tail r.md_batch buffer ≡ some (b, e)
      → receive_metadata json add_tail r buffer io
        ≡ (push io (fill_batch r.ready b ∷ run_closure r.ready e ∷ []), none)
  unfolding receive_metadata
  deliver_metadata r buffer io b e h = rw (h, receive_metadata)

  pub deliver_all-call :
      (ri rt : RecvMetadata) (c : ℕ) (bi body bt : Bytes) (b_i b_t : Batch) (io : Io)
      → decode json add_tail ri.md_batch bi ≡ some (b_i, no_error)
      → decode json add_tail rt.md_batch bt ≡ some (b_t, no_error)
      → deliver_all json add_tail (pairs (call_waits ri c rt) (bi ∷ body ∷ bt ∷ [])) io ≡ (
        record {
          recv_inited = true;
          recv_message = body ∷ [];
          calls = io.calls ++ received io.recv_inited ri c rt b_i body b_t;
        },
        none,
      )
  unfolding deliver
  deliver_all-call ri rt c bi body bt b_i b_t io i t =
      let io₁ = push io (two ri b_i) in
      let io₂ : Io = record {
        recv_inited = true;
        recv_message = body ∷ [];
        calls = io₁.calls ++ got io.recv_inited c body;
      } in
      let io₃ = push io₂ (two rt b_t) in
      deliver_all-step json add_tail (initial_metadata ri, bi) _ io io₁ none
        (deliver_metadata ri bi io b_i no_error i)
      ∙ (deliver_all-step json add_tail (message c, body) _ io₁ io₂ none
            (unfold receive_message in refl)
          ∙ (deliver_all-step json add_tail (trailing_metadata rt, bt) _ io₂ io₃ none
                (deliver_metadata rt bt io₂ b_t no_error t)
              ∙ (unfold deliver_all in simp append_assoc)))

  receive_metadata_threw :
      (r : RecvMetadata) (buffer : Bytes) (io : Io)
      → json.parse buffer ≡ none
      → receive_metadata json add_tail r buffer io ≡ (io, some threw)
  unfolding receive_metadata decode
  receive_metadata_threw r buffer io h = rw (h, receive_metadata)

  -- The first two deliveries leave the trailing metadata to whatever buffer is third.
  pub deliver_all_threw :
      (ri rt : RecvMetadata) (c : ℕ) (bi body third : Bytes) (b_i : Batch) (io : Io)
      → decode json add_tail ri.md_batch bi ≡ some (b_i, no_error)
      → json.parse third ≡ none
      → let out =
          deliver_all json add_tail (pairs (call_waits ri c rt) (bi ∷ body ∷ third ∷ [])) io in
        (out.0.calls ≡ io.calls ++ (two ri b_i ++ got io.recv_inited c body)) × (out.1 ≡ some threw)
  unfolding deliver
  deliver_all_threw ri rt c bi body third b_i io i t =
      let io₁ = push io (two ri b_i) in
      let io₂ : Io = record {
        recv_inited = true;
        recv_message = body ∷ [];
        calls = io₁.calls ++ got io.recv_inited c body;
      } in
      let out : deliver_all json add_tail (pairs (call_waits ri c rt) (bi ∷ body ∷ third ∷ [])) io
          ≡ (io₂, some threw) =
        deliver_all-step json add_tail (initial_metadata ri, bi) _ io io₁ none
          (deliver_metadata ri bi io b_i no_error i)
        ∙ (deliver_all-step json add_tail (message c, body) _ io₁ io₂ none
              (unfold receive_message in refl)
            ∙ deliver_all-step json add_tail (trailing_metadata rt, third) _ io₂ io₂ (some threw)
                (receive_metadata_threw rt third io₂ t)) in
      (rw out (append_assoc io.calls (two ri b_i) (got io.recv_inited c body)), rw out)

pub one_slice :
    (body : Bytes) (rest : List Pull)
    → IsSlice body
    → WritesBody
        (some (record { message_length = length body; pulls = slice body ∷ rest }))
        (body ∷ [])
one_slice body rest h =
    let n : total (body ∷ []) ≡ length body = omega arith in
    subst
      (λ (k : ℕ).
        WritesBody (some (record { message_length = k; pulls = slice body ∷ rest })) (body ∷ []))
      n (send_message-slices body [] rest (h, tt) (omega arith))
