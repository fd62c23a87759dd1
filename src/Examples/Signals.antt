-- ===== src/Examples/Signals.antt =====
-- Runs of `AyameSignaling`: opening the connection, the write queue, "bye".
use grpc_over_ayame.Examples.Shared.{
  url, connected, rtc, register_text, register_text-dump, member, no_more,
}
use grpc_over_ayame.Base.{
  ◌≡◌, ◌↔◌, refl, same, none, some, List, [], ◌∷◌, ◌++◌, Bytes, codes, true, false, arith,
}
use grpc_over_ayame.Url.{UrlParts}
use grpc_over_ayame.Url
use grpc_over_ayame.Url.Shape.{Decomposes}
use grpc_over_ayame.Url.Total.{parse-Decomposes}
use grpc_over_ayame.Json.Toy.{Toy, toy}
use grpc_over_ayame.Json.Toy
use grpc_over_ayame.Message.{null_dereference}
use grpc_over_ayame.Signaling.{
  success, other_error, Call, async_resolve, async_connect, async_ssl_handshake, Signaling, create,
}
use grpc_over_ayame.Signaling.Connect.{ConnectEnv, returned, faulted, connect}
use grpc_over_ayame.Signaling.Connect.Opening.{resolving, connect-true_iff, connect_null_factory}
use grpc_over_ayame.Signaling.Connect.Chain.{drive, drive-progress}
use grpc_over_ayame.Signaling.Write.{on_write}
use grpc_over_ayame.Signaling.Write.Overlap.{schedule, idle, send_around, schedule-stalls}
use grpc_over_ayame.Signaling.Write.Stall.{send_after_error, on_write_error-stalls}
use grpc_over_ayame.Signaling.Read.{on_read}
use grpc_over_ayame.Signaling.Peer.{create_channel}
use grpc_over_ayame.Signaling.Peer.Lifetime.{create_channel-bye}
use grpc_over_ayame.Signaling.History.{Event, run, read, connect as connects}
use grpc_over_ayame.Signaling.Ready.{readies, flag, ready_once}

abbrev parts : UrlParts
parts = record {
  scheme = codes "wss";
  user_pass = [];
  host = codes "ayame.io";
  port = [];
  path_query_fragment = codes "/signaling";
}

parts-Decomposes : Decomposes url parts
unfolding Url.parse
parts-Decomposes = (parse-Decomposes url create.parts parts).0 refl

abbrev no_factory : ConnectEnv
no_factory = record { factory_created = false; host_name_set = true }

connect-true_iff_example :
    (connect connected url create ≡ (resolving create parts, returned true)) ↔ (
      (p : UrlParts) × Decomposes url p
      × (p.scheme ≡ codes "wss")
      × (true ≡ true)
      × (true ≡ true)
      × (resolving create parts ≡ resolving create p))
connect-true_iff_example = connect-true_iff connected url create (resolving create parts)

connect_null_factory_example : (connect no_factory url create).1 ≡ faulted null_dereference
connect_null_factory_example =
    connect_null_factory no_factory url create parts parts-Decomposes refl refl

abbrev opened : Signaling
opened =
    resolving
      record {
        parts = parts;
        factory = false;
        wss = false;
        write_buffer = [];
        connection = none;
        datachannel = none;
        ready = false;
        calls = [];
      }
      parts

drive-progress_example :
    drive toy
      (codes "me")
      (success ∷ success ∷ other_error ∷ [])
      (async_resolve parts.host (codes "443"))
      opened
    ≡ (record opened { calls = opened.calls ++ async_connect ∷ async_ssl_handshake ∷ [] }, none)
drive-progress_example =
    drive-progress toy (codes "me") (success ∷ success ∷ other_error ∷ []) parts.host (codes "443")
      register_text opened refl register_text-dump

abbrev writing : Signaling
writing = record opened { write_buffer = codes "a" ∷ [] }

on_write_error-stalls_example :
    send_after_error (codes "b" ∷ codes "c" ∷ []) (on_write other_error writing).0
    ≡ record writing { write_buffer = codes "a" ∷ codes "b" ∷ codes "c" ∷ [] }
on_write_error-stalls_example =
    on_write_error-stalls other_error (codes "b" ∷ codes "c" ∷ []) (codes "a") [] writing
      (ground arith) refl

abbrev bye_text : Bytes
bye_text = member (codes "type") (codes "bye") ++ no_more

abbrev bye : Toy
bye = Toy.field (codes "type") (Toy.text (codes "bye")) Toy.nil

bye_text-parse : toy.parse bye_text ≡ some bye
unfolding Toy.parse Toy.read
bye_text-parse = refl

bye-type : toy.get (codes "type") bye ≡ some (Toy.text (codes "bye"))
unfolding Toy.items same
bye-type = refl

bye-as_text : toy.as_text (Toy.text (codes "bye")) ≡ some (codes "bye")
unfolding Toy.as_text
bye-as_text = refl

abbrev ready_stream : Signaling
ready_stream = record opened { connection = some 1; ready = true }

create_channel-bye_example :
    let after = (on_read toy rtc success bye_text ready_stream).0 in
    create_channel (codes "ayame_transport") 3 after ≡ (after, (none, some null_dereference))
create_channel-bye_example =
    create_channel-bye toy rtc bye_text (codes "ayame_transport") 3 ready_stream refl refl
      (bye, Toy.text (codes "bye"), bye_text-parse, bye-type, bye-as_text)

abbrev opening : List Event
opening = connects connected url ∷ read rtc success bye_text ∷ []

ready_once_example : let s = run toy opening create in readies s.calls ≡ flag s.ready
ready_once_example = ready_once toy opening

abbrev a : Bytes
a = codes "a"

abbrev b : Bytes
b = codes "b"

abbrev with_writes : List Bytes → List Call → Signaling
with_writes bs cs = record opened { write_buffer = bs; calls = opened.calls ++ cs }

schedule-stalls_example :
    let out = schedule (send_around b) (idle writing) in
    (out ≡ (idle (record writing { write_buffer = b ∷ [] }), none))
    × (send_after_error (a ∷ b ∷ []) out.0.signaling
        ≡ record writing { write_buffer = b ∷ a ∷ b ∷ [] })
schedule-stalls_example = schedule-stalls a b (a ∷ b ∷ []) writing refl
