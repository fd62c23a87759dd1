-- ===== src/Stream/Send.antt =====
-- src/ayame_transport.h: the sending half of `AyameStream::PerformOp`.
use grpc_over_ayame.Base.{Bool, true, false, ◌||◌, Option, none, some, [], ◌∷◌, map}
use grpc_over_ayame.Json.{Json}
use grpc_over_ayame.Metadata.{Batch, no_error, encode}
use grpc_over_ayame.Message.{Fault, threw, Message}
use grpc_over_ayame.Message
use grpc_over_ayame.Stream.{StreamOp, send, run_closure, Io, push, Action, ◌>>◌}

module _ {V : Type 0} (json : Json V) where
  -- A metadata batch; `dump` throws before anything is sent.
  unfoldable pub send_metadata : Batch → Action Io
  send_metadata md_batch io = elim (json.dump (encode json md_batch)) [
    | none ↦ (io, some threw)
    | some buffer ↦ (push io (send buffer ∷ []), none)
  ]

  abbrev pub send_if_set : Option Batch → Action Io
  send_if_set none io = (io, none)
  send_if_set (some md_batch) io = send_metadata md_batch io

  unfoldable pub send_initial : StreamOp → Action Io
  unfolding send_metadata
  send_initial op = send_if_set op.send_initial_metadata

  unfoldable pub send_trailing : StreamOp → Action Io
  unfolding send_metadata
  send_trailing op = send_if_set op.send_trailing_metadata

-- The buffers of the message; a failed `Pull` leaves the outer `error` as it is.
abbrev pub send_message_if_set : Option Message → Action Io
send_message_if_set none io = (io, none)
send_message_if_set (some m) io =
    let (frames, fault) = Message.send_message m in (push io (map send frames), fault)

unfoldable pub send_body : StreamOp → Action Io
send_body op = send_message_if_set op.send_message

abbrev pub is_set {ℓ} : {A : Type ℓ} → Option A → Bool
is_set none = false
is_set (some a) = true

abbrev pub has_send : StreamOp → Bool
has_send op =
    is_set op.send_initial_metadata || is_set op.send_message || is_set op.send_trailing_metadata

-- `on_complete` runs, with no error, if the batch sends anything.
unfoldable pub complete : StreamOp → Action Io
complete op io = elim (has_send op) [
  | true ↦ (push io (run_closure op.on_complete no_error ∷ []), none)
  | false ↦ (io, none)
]

module _ {V : Type 0} (json : Json V) where
  unfoldable pub send_all : StreamOp → Action Io
  unfolding send_initial send_body send_trailing complete
  send_all op = do send_initial json op; send_body op; send_trailing json op; complete op
