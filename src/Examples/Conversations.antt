-- ===== src/Examples/Conversations.antt =====
-- A call of several messages, of which some have arrived.
use grpc_over_ayame.Examples.Shared.{add_last, add_last-IsAddTail}
use grpc_over_ayame.Examples.Streams.{
  start_of_call, start_text, start_text-dump, hello, new_io, stream, recv_initial,
}
use grpc_over_ayame.Base.{
  ◌≡◌, refl, same, false, Option, none, some, List, [], ◌∷◌, ◌++◌, Bytes, codes, take, drop, length,
  arith,
}
use grpc_over_ayame.Json.Toy.{toy, toy-IsJson}
use grpc_over_ayame.Json.Toy
use grpc_over_ayame.Metadata.{Batch, encode, c_string}
use grpc_over_ayame.Message.{slice, send_message}
use grpc_over_ayame.Mailbox.{Event}
use grpc_over_ayame.Mailbox
use grpc_over_ayame.Mailbox.Pairing.{messages, waits}
use grpc_over_ayame.Stream.{StreamOp, Recv, initial_metadata, message, Call, Env, open_state}
use grpc_over_ayame.Stream.Send.{send_all}
use grpc_over_ayame.Stream.Send
use grpc_over_ayame.Stream.Schedule.{feed}
use grpc_over_ayame.Stream.Calls.{sent_buffers}
use grpc_over_ayame.Stream.Parts.{Received, all_parts, send_batches}
use grpc_over_ayame.Stream.Conversation.{feed-Received}
use grpc_over_ayame.Stream.Duplex.{half_waits, half_messages, sent_ops}
use grpc_over_ayame.Stream.Both.{Duplex}
use grpc_over_ayame.Stream.FullDuplex.{Act, performs, arrives, all_halves, acts, acts-Duplex}

abbrev sending : Option Batch → Bytes → StreamOp
sending md text = record {
  address = 1;
  on_complete = 9;
  send_initial_metadata = md;
  send_message = some (record { message_length = length text; pulls = slice text ∷ [] });
  send_trailing_metadata = none;
  recv_initial_metadata = none;
  recv_message = none;
  recv_trailing_metadata = none;
}

abbrev again : Bytes
again = codes "again"

abbrev batches : List StreamOp
batches = sending (some start_of_call) hello ∷ sending none again ∷ []

-- The second message is still on its way.
abbrev arriving : List (Event Recv)
arriving =
    Mailbox.message start_text
    ∷ Mailbox.wait (initial_metadata recv_initial)
    ∷ Mailbox.wait (message 2)
    ∷ Mailbox.wait (message 4)
    ∷ Mailbox.message hello
    ∷ []

batches-buffers :
    messages arriving ++ again ∷ [] ≡ sent_buffers (send_batches toy batches new_io).0.calls
unfolding send_batches send_all Send.send_metadata encode Toy.set Toy.dump same c_string
    send_message
batches-buffers = refl

feed-Received_example :
    let end = feed toy add_last arriving (stream (some 7)) in
    (cs : List Call) × ((send_batches toy batches new_io).1 ≡ none)
    × (end.1 ≡ none)
    × (end.0.io.calls ≡ [] ++ cs)
    × Received false (waits arriving) (take (length (messages arriving)) (all_parts batches)) cs
    × (end.0.mailbox.data_queue ≡ drop (length (waits arriving)) (messages arriving))
    × (end.0.mailbox.func_queue ≡ drop (length (messages arriving)) (waits arriving))
feed-Received_example =
    feed-Received toy add_last batches new_io (stream (some 7)) arriving (again ∷ []) toy-IsJson
      add_last-IsAddTail ((start_text, start_text-dump), (tt, (tt, tt)))
      (([], refl, refl, ground arith), (([], refl, refl, ground arith), tt)) refl refl
      batches-buffers (refl, (tt, (tt, tt)))

abbrev opened : Env
opened = record { create_data_channel = none; create_fault = none; state = λ c. open_state }

-- Sends a message and waits for metadata and a message.
abbrev both_ways : StreamOp
both_ways = record (sending none again) {
  recv_initial_metadata = some recv_initial;
  recv_message = some 2;
}

-- The second message comes after both batches.
abbrev duplex_acts : List Act
duplex_acts =
    arrives start_text
    ∷ performs both_ways
    ∷ performs (sending (some start_of_call) hello)
    ∷ arrives hello
    ∷ []

acts-Duplex_example :
    Duplex toy
      (half_waits (all_halves duplex_acts))
      (half_messages (all_halves duplex_acts))
      (all_parts batches)
      (sent_ops (all_halves duplex_acts))
      (stream (some 7))
      (acts toy add_last opened duplex_acts (stream (some 7)))
acts-Duplex_example =
    acts-Duplex toy add_last opened 7 duplex_acts (stream (some 7)) (all_parts batches) (again ∷ [])
      toy-IsJson add_last-IsAddTail refl refl refl refl (start_text-dump, (refl, (refl, tt)))
      (refl, (tt, tt)) (tt, ((start_text, start_text-dump), (tt, tt)))
      (([], refl, refl, ground arith), (([], refl, refl, ground arith), tt))
