-- ===== src/Signaling/Write.antt =====
-- src/ayame_signaling.cpp: `SendText`, `DoSendText`, `DoWrite` and `OnWrite`, the queue of texts on
-- their way to the WebSocket, each handler run whole. Signaling/Write/Overlap has their parts, for
-- handlers that run at the same time.
pub mod Stall
pub mod Overlap
use grpc_over_ayame.Base.{Bool, true, false, none, some, List, [], ◌∷◌, ◌++◌, Bytes, if◌then◌else◌}
use grpc_over_ayame.Message.{null_dereference}
use grpc_over_ayame.Stream.{Action, ◌>>◌}
use grpc_over_ayame.Signaling.{
  ErrorCode, success, operation_aborted, ws_closed, other_error, Call, async_write, post_text,
  Signaling, note, with_wss,
}

abbrev pub is_empty {ℓ} : {A : Type ℓ} → List A → Bool
is_empty [] = true
is_empty (x ∷ xs) = false

unfoldable pub send_text : Bytes → Action Signaling
send_text text = note (post_text text ∷ [])

abbrev pub write_front : List Bytes → Action Signaling
write_front [] s = (s, some null_dereference)
write_front (buffer ∷ rest) s = with_wss (note (async_write buffer ∷ [])) s

-- `DoWrite`: the front of the queue; its callers see to it that there is one.
unfoldable pub do_write : Action Signaling
do_write s = write_front s.write_buffer s

unfoldable pub do_send_text : Bytes → Action Signaling
unfolding do_write
do_send_text text s =
    let pushed = record s { write_buffer = s.write_buffer ++ text ∷ [] } in
    if is_empty s.write_buffer then do_write pushed else (pushed, none)

abbrev pub erase_front : List Bytes → List Bytes
erase_front [] = []
erase_front (buffer ∷ rest) = rest

unfoldable pub on_write : ErrorCode → Action Signaling
unfolding do_write
on_write success s =
    let erased = record s { write_buffer = erase_front s.write_buffer } in
    if is_empty erased.write_buffer then (erased, none) else do_write erased
on_write operation_aborted s = (s, none)
on_write ws_closed s = (s, none)
on_write other_error s = (s, none)
