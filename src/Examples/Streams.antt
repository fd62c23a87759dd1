-- ===== src/Examples/Streams.antt =====
-- Runs of streams: a whole call, batches that wait for the channel, and the order of what is sent.
use grpc_over_ayame.Examples.Shared.{add_last, add_last-IsAddTail, member, no_more}
use grpc_over_ayame.Base.{
  inr, ℕ, ◌≡◌, refl, ◌<◌, same, Option, none, some, List, [], ◌∷◌, ◌++◌, Bytes, codes, true, false,
  arith,
}
use grpc_over_ayame.Json.Toy.{toy, toy-IsJson}
use grpc_over_ayame.Json.Toy
use grpc_over_ayame.Metadata.{Batch, no_error, encode, c_string}
use grpc_over_ayame.Message.{Pull, slice, threw, send_message}
use grpc_over_ayame.Mailbox.{Mailbox, Event, run}
use grpc_over_ayame.Mailbox
use grpc_over_ayame.Stream.{
  RecvMetadata, StreamOp, Recv, initial_metadata, message, trailing_metadata, send, run_closure,
  log_has_pending_op, Io, Stream, connecting, open_state, Env, push,
}
use grpc_over_ayame.Stream.Send.{send_all}
use grpc_over_ayame.Stream.Send
use grpc_over_ayame.Stream.Perform.{perform_op, on_state_change, on_ready}
use grpc_over_ayame.Stream.Pending.{
  on_state_change-perform_op, on_ready-perform_op, resume, perform_op_drops,
}
use grpc_over_ayame.Stream.Schedule.{feed}
use grpc_over_ayame.Stream.Order.{send_all-Writes}
use grpc_over_ayame.Stream.Rerun.{on_state_change_again}
use grpc_over_ayame.Stream.Calls.{sent_buffers, nothing_waits, two, got}
use grpc_over_ayame.Stream.Exchange.{feed_call_slices}

abbrev pub start_of_call : Batch
start_of_call = (codes "p", codes "x") ∷ []

abbrev end_of_call : Batch
end_of_call = (codes "s", codes "0") ∷ []

abbrev pub start_text : Bytes
start_text = member (codes "p") (codes "x") ++ no_more

abbrev end_text : Bytes
end_text = member (codes "s") (codes "0") ++ no_more

pub start_text-dump : toy.dump (encode toy start_of_call) ≡ some start_text
unfolding encode Toy.set Toy.dump same c_string
start_text-dump = refl

end_text-dump : toy.dump (encode toy end_of_call) ≡ some end_text
unfolding encode Toy.set Toy.dump same c_string
end_text-dump = refl

abbrev call_with : ℕ → List Pull → StreamOp
call_with n pulls = record {
  address = 1;
  on_complete = 9;
  send_initial_metadata = some start_of_call;
  send_message = some (record { message_length = n; pulls = pulls });
  send_trailing_metadata = some end_of_call;
  recv_initial_metadata = none;
  recv_message = none;
  recv_trailing_metadata = none;
}

abbrev pub hello : Bytes
hello = codes "hello"

abbrev one_slice : StreamOp
one_slice = call_with 5 (slice hello ∷ [])

abbrev pub new_io : Io
new_io = record { recv_inited = false; recv_message = []; calls = [] }

abbrev pub stream : Option ℕ → Stream
stream dc = record {
  is_client = true;
  dc = dc;
  callbacks_set = true;
  waits_ready = false;
  closure_at_destroy = none;
  mailbox = nothing_waits;
  pending_op = none;
  io = new_io;
}

abbrev pub recv_initial : RecvMetadata
recv_initial = record { md_batch = []; ready = 1 }

abbrev recv_trailing : RecvMetadata
recv_trailing = record { md_batch = []; ready = 3 }

-- The second buffer comes before the receiver waits for it.
abbrev interleaved : Bytes → Bytes → Bytes → List (Event Recv)
interleaved a b c =
    Mailbox.wait (initial_metadata recv_initial)
    ∷ Mailbox.message a
    ∷ Mailbox.message b
    ∷ Mailbox.wait (message 2)
    ∷ Mailbox.wait (trailing_metadata recv_trailing)
    ∷ Mailbox.message c
    ∷ []

one_slice-buffers :
    start_text ∷ hello ∷ end_text ∷ [] ≡ sent_buffers (send_all toy one_slice new_io).0.calls
unfolding send_all Send.send_metadata encode Toy.set Toy.dump same c_string send_message
one_slice-buffers = refl

abbrev early : Env
early = record { create_data_channel = none; create_fault = none; state = λ c. connecting }

abbrev late : Env
late = record { create_data_channel = some 7; create_fault = none; state = λ c. open_state }

abbrev two_slices : StreamOp
two_slices = call_with 5 (slice (codes "hel") ∷ slice (codes "lo") ∷ [])

two_slices-buffers :
    start_text ∷ codes "hel" ∷ codes "lo" ∷ end_text ∷ []
    ≡ sent_buffers (send_all toy two_slices new_io).0.calls
unfolding send_all Send.send_metadata encode Toy.set Toy.dump same c_string send_message
two_slices-buffers = refl

abbrev extra_buffer : List (Event Recv)
extra_buffer = interleaved start_text (codes "hel") (codes "lo") ++ Mailbox.message end_text ∷ []

lo_text : toy.parse (codes "lo") ≡ none
unfolding Toy.parse Toy.read
lo_text = refl

feed_call_slices_example :
    let r = feed toy add_last extra_buffer (stream (some 7)) in
    (b_i : Batch) × (r.1 ≡ some threw)
    × (r.0.io.calls ≡ [] ++ (two recv_initial b_i ++ got false 2 (codes "hel")))
    × (3 < 5)
feed_call_slices_example =
    feed_call_slices toy add_last two_slices start_of_call end_of_call (codes "hel") (codes "lo") []
      start_text end_text [] new_io (stream (some 7)) recv_initial recv_trailing 2 extra_buffer
      toy-IsJson add_last-IsAddTail
      (record { initial_is = refl; message_is = refl; trailing_is = refl }) (ground arith)
      (omega arith) start_text-dump end_text-dump lo_text refl refl refl refl two_slices-buffers

on_state_change-perform_op_example :
    let kept = perform_op toy add_last early one_slice (stream (some 7)) in
    (kept ≡ (record (stream (some 7)) { pending_op = some one_slice }, none))
    × (on_state_change toy add_last late kept.0
        ≡ perform_op toy add_last late one_slice (stream (some 7)))
on_state_change-perform_op_example =
    on_state_change-perform_op toy add_last early late one_slice (stream (some 7)) 7 refl refl refl
      refl

on_ready-perform_op_example :
    let kept = perform_op toy add_last early one_slice (stream none) in
    (kept ≡ (record (stream none) { pending_op = some one_slice }, none))
    × (on_ready toy add_last late kept.0 ≡ perform_op toy add_last late one_slice (stream none))
on_ready-perform_op_example =
    on_ready-perform_op toy add_last early late one_slice (stream none) refl refl refl refl

abbrev other_op : StreamOp
other_op = record one_slice { address = 2 }

abbrev waiting : Stream
waiting = record (stream (some 7)) { pending_op = some one_slice }

perform_op_drops_example :
    let kept = perform_op toy add_last early one_slice (stream (some 7)) in
    let dropped = perform_op toy add_last early other_op kept.0 in
    let logged = record (stream (some 7)) { io = push new_io (log_has_pending_op ∷ []) } in
    (kept.1 ≡ none)
    × (dropped.1 ≡ none)
    × (resume toy add_last late dropped.0 ≡ perform_op toy add_last late one_slice logged)
perform_op_drops_example =
    perform_op_drops toy add_last early late one_slice other_op (stream (some 7))
      (inr (7, refl, refl)) refl (ground arith) (inr (7, refl, refl))

send_all-Writes_example : send_all toy one_slice new_io ≡ (
  push new_io (send start_text ∷ send hello ∷ send end_text ∷ run_closure 9 no_error ∷ []),
  none,
)
unfolding send_message
send_all-Writes_example =
    send_all-Writes toy one_slice new_io (start_text ∷ []) (hello ∷ []) (end_text ∷ [])
      (start_text, start_text-dump, refl) refl (end_text, end_text-dump, refl)

on_state_change_again_example :
    let first = on_state_change toy add_last late waiting in
    on_state_change toy add_last early first.0 ≡ (first.0, none)
on_state_change_again_example = on_state_change_again toy add_last late early waiting 7 refl refl
