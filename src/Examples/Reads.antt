-- ===== src/Examples/Reads.antt =====
-- Runs of `OnRead`, and of the reads of a life.
use grpc_over_ayame.Examples.Shared.{url, connected, rtc, member, no_more}
use grpc_over_ayame.Base.{
  All, ◌≡◌, ◌≤◌, ◌+◌, refl, same, none, some, List, [], ◌∷◌, ◌++◌, Bytes, codes,
}
use grpc_over_ayame.Json.Toy.{Toy, toy, toy-IsJson}
use grpc_over_ayame.Json.Toy
use grpc_over_ayame.Signaling.{success, ws_closed, create}
use grpc_over_ayame.Signaling.Read.{on_read}
use grpc_over_ayame.Signaling.Read.Ignored.{unknown, on_read-Ignored}
use grpc_over_ayame.Signaling.History.{Event, connect, handshaken, read, run}
use grpc_over_ayame.Signaling.Texts.{IsMessage, posts, run-IsMessage}
use grpc_over_ayame.Signaling.Starts.{starts}
use grpc_over_ayame.Signaling.Starts.Bounded.{run-starts}

abbrev type_key : Bytes
type_key = codes "type"

abbrev notify_text : Bytes
notify_text = member type_key (codes "notify") ++ no_more

abbrev notify : Toy
notify = Toy.field type_key (Toy.text (codes "notify")) Toy.nil

notify_text-parse : toy.parse notify_text ≡ some notify
unfolding Toy.parse Toy.read
notify_text-parse = refl

notify-type : toy.get type_key notify ≡ some (Toy.text (codes "notify"))
unfolding Toy.items same
notify-type = refl

notify-as_text : toy.as_text (Toy.text (codes "notify")) ≡ some (codes "notify")
unfolding Toy.as_text
notify-as_text = refl

on_read-Ignored_example : on_read toy rtc success notify_text create ≡ (create, none)
unfolding same
on_read-Ignored_example =
    on_read-Ignored toy rtc notify_text (codes "notify") notify (Toy.text (codes "notify")) create
      notify_text-parse notify-type notify-as_text
      (unknown (refl, (refl, (refl, (refl, (refl, (refl, tt)))))))

abbrev life : List Event
life =
    connect connected url
    ∷ handshaken (codes "me") success
    ∷ read rtc success notify_text
    ∷ read rtc ws_closed []
    ∷ []

run-starts_example : starts (run toy life create).calls ≤ starts create.calls + 3
run-starts_example = run-starts toy life create

run-IsMessage_example : All (IsMessage toy) (posts (run toy life create).calls)
run-IsMessage_example = run-IsMessage toy life toy-IsJson
