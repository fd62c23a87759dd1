-- ===== src/Stream/Receive.antt =====
-- src/ayame_transport.h: the functions that `AyameStream::PerformOp` hands to `WaitForRecv`, and
-- how `WaitForRecv` and the callback of `SetOnMessage` call them.
use grpc_over_ayame.Base.{ℕ, true, Option, none, some, [], ◌∷◌, ◌++◌, Bytes, if◌then◌else◌}
use grpc_over_ayame.Json.{Json}
use grpc_over_ayame.Metadata.{no_error, AddTail, decode}
use grpc_over_ayame.Message.{threw}
use grpc_over_ayame.Mailbox.{Mailbox, on_message, wait_for_recv}
use grpc_over_ayame.Stream.{
  StreamOp, RecvMetadata, Recv, initial_metadata, message, trailing_metadata, run_closure,
  fill_batch, reset_message, destroy_buffer, Io, Stream, push, Action, ◌>>◌,
}

-- The function of `recv_message`: the whole buffer becomes the one slice of the message.
unfoldable pub receive_message : ℕ → Bytes → Action Io
receive_message ready buffer io =
    let destroyed = if io.recv_inited then destroy_buffer ∷ [] else [] in
    let filled = buffer ∷ [] in
    (
      record {
        recv_inited = true;
        recv_message = filled;
        calls =
            io.calls ++ (destroyed ++ reset_message ready filled ∷ run_closure ready no_error ∷ []);
      },
      none,
    )

module _ {V : Type 0} (json : Json V) (add_tail : AddTail) where
  -- The function of `recv_initial_metadata` and `recv_trailing_metadata`.
  unfoldable pub receive_metadata : RecvMetadata → Bytes → Action Io
  receive_metadata r buffer io = elim (decode json add_tail r.md_batch buffer) [
    | none ↦ (io, some threw)
    | some (b, err) ↦ (push io (fill_batch r.ready b ∷ run_closure r.ready err ∷ []), none)
  ]

  unfoldable pub deliver : Recv × Bytes → Action Io
  unfolding receive_message receive_metadata
  deliver (initial_metadata r, buffer) = receive_metadata r buffer
  deliver (message ready, buffer) = receive_message ready buffer
  deliver (trailing_metadata r, buffer) = receive_metadata r buffer

  -- The call that an event of the queues makes, under the lock.
  unfoldable pub call : Mailbox Recv × Option (Recv × Bytes) → Action Stream
  unfolding deliver
  call (m, none) s = (record s { mailbox = m }, none)
  call (m, some c) s =
      let (io, fault) = deliver c s.io in (record s { mailbox = m; io = io }, fault)

  unfoldable pub wait_recv : Recv → Action Stream
  unfolding call
  wait_recv f s = call (wait_for_recv s.mailbox f) s

  unfoldable pub receive : Bytes → Action Stream
  unfolding call
  receive buffer s = call (on_message s.mailbox buffer) s

  abbrev pub wait_set {ℓ} : {A : Type ℓ} → (A → Recv) → Option A → Action Stream
  wait_set f none s = (s, none)
  wait_set f (some a) s = wait_recv (f a) s

  -- The three waits at the end of `PerformOp`.
  unfoldable pub receive_all : StreamOp → Action Stream
  unfolding wait_recv
  receive_all op = do
    wait_set initial_metadata op.recv_initial_metadata
    wait_set message op.recv_message
    wait_set trailing_metadata op.recv_trailing_metadata
