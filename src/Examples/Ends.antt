-- ===== src/Examples/Ends.antt =====
-- Runs of two ends that find each other.
use mathlib.Core.List.{Perm}
use grpc_over_ayame.Examples.Shared.{rtc}
use grpc_over_ayame.Base.{
  Bool, false, same, ◌≡◌, refl, true, none, some, List, [], ◌∷◌, ◌++◌, Bytes, codes,
}
use grpc_over_ayame.Json.{pos}
use grpc_over_ayame.Json.Toy.{Toy, toy, toy-IsJson}
use grpc_over_ayame.Json.Toy
use grpc_over_ayame.Signaling.{Signaling, success, offer, answer, create}
use grpc_over_ayame.Signaling.History
use grpc_over_ayame.Signaling.Read.{on_read}
use grpc_over_ayame.Peers.{
  Item, description, candidate, item_message, send_item, accept, Event, makes, queues, finishes,
  arrives, run,
}
use grpc_over_ayame.Peers.Items.{posted, on_read-send_item}
use grpc_over_ayame.Peers.Carries.{made, accept_all, Refines}
use grpc_over_ayame.Peers.Refines.{fresh}
use grpc_over_ayame.Peers.Delivers.{run-delivers}
use grpc_over_ayame.Peers.Introduced.{IsAccept}
use grpc_over_ayame.Peers.Exchange.{
  Exchange, item_of, Texts, CanExchange, IsWaiting, first_events, second_events, first_calls,
  second_calls, IsReady,
}
use grpc_over_ayame.Peers.Established.{run-IsReady}

abbrev own_offer : Item
own_offer = description offer (codes "v=0")

abbrev own_candidate : Item
own_candidate = candidate (codes "candidate:1 udp") (pos 0) (codes "audio")

abbrev connected_end : Signaling
connected_end = record create { wss = true; connection = some 1 }

abbrev text : Item → Bytes
text i = Toy.write (item_message toy i)

own_offer-dump : toy.dump (item_message toy own_offer) ≡ some (text own_offer)
unfolding Toy.dump
own_offer-dump = refl

own_candidate-dump : toy.dump (item_message toy own_candidate) ≡ some (text own_candidate)
unfolding Toy.dump
own_candidate-dump = refl

on_read-send_item_example :
    (send_item toy own_candidate connected_end
      ≡ (posted own_candidate (text own_candidate) connected_end, none))
    × (on_read toy rtc success (text own_candidate) connected_end
        ≡ (accept own_candidate connected_end, none))
on_read-send_item_example =
    on_read-send_item toy toy-IsJson rtc own_candidate (text own_candidate) connected_end
      connected_end 1 1 own_candidate-dump (refl, refl) refl refl refl

-- The executor runs the second text before the first.
abbrev schedule : List Event
schedule = makes own_offer ∷ makes own_candidate ∷ queues 1 ∷ finishes ∷ queues 0 ∷ arrives ∷ []

run-delivers_example :
    (more : List Event) × (made more ≡ [])
    × ((run toy rtc (schedule ++ more) (fresh connected_end connected_end)).1 ≡ none)
    × ((arrived : List Item) × Perm (made schedule) arrived
        × ((run toy rtc (schedule ++ more) (fresh connected_end connected_end)).0.receiver
            ≡ accept_all arrived connected_end))
unfolding create
run-delivers_example =
    run-delivers toy rtc text schedule connected_end connected_end 1 1 toy-IsJson refl refl refl
      refl refl ((own_offer-dump, refl), ((own_candidate-dump, (refl, refl)), tt))

abbrev accept_object : Bool → Toy
accept_object exists =
    Toy.field (codes "type") (Toy.text (codes "accept"))
      (Toy.field (codes "isExistUser") (Toy.bool exists) Toy.nil)

accept_object-IsAccept : (exists : Bool) → IsAccept toy (Toy.write (accept_object exists)) exists
unfolding Toy.dump Toy.items Toy.as_text Toy.as_bool same
accept_object-IsAccept exists = record {
  js = accept_object exists;
  type_value = Toy.text (codes "accept");
  exists_value = Toy.bool exists;
  parsed = toy-IsJson.parse-dump (accept_object exists) (Toy.write (accept_object exists)) refl;
  has_type = refl;
  type_is = refl;
  has_exists = refl;
  exists_is = refl;
}

abbrev exchange : Exchange
exchange = record {
  offered = codes "v=0";
  answered = codes "v=1";
  of_first = record { sdp = codes "candidate:1"; index = pos 0; mid = codes "audio" };
  of_second = record { sdp = codes "candidate:2"; index = pos 0; mid = codes "audio" };
}

abbrev texts : Texts
texts = record {
  offer_text = text (description offer exchange.offered);
  answer_text = text (description answer exchange.answered);
  first_text = text (item_of exchange.of_first);
  second_text = text (item_of exchange.of_second);
}

exchange-CanExchange : CanExchange toy rtc rtc exchange texts
unfolding Toy.dump
exchange-CanExchange = record {
  offer_is = refl;
  answer_is = refl;
  first_is = refl;
  second_is = refl;
  offer_taken = refl;
  answer_taken = refl;
  first_taken = (refl, refl);
  second_taken = (refl, refl);
}

abbrev registered : Signaling
registered = record create { wss = true; factory = true }

registered-IsWaiting : IsWaiting registered
unfolding create
registered-IsWaiting = record { has_wss = refl; has_factory = refl; is_unready = refl }

abbrev to_first : Bytes
to_first = Toy.write (accept_object false)

abbrev to_second : Bytes
to_second = Toy.write (accept_object true)

run-IsReady_example :
    IsReady registered
      (first_calls exchange texts)
      (History.run toy (first_events rtc to_first exchange texts) registered)
    × IsReady registered
        (second_calls exchange texts)
        (History.run toy (second_events rtc to_second exchange texts) registered)
run-IsReady_example =
    run-IsReady toy rtc rtc exchange texts registered registered 1 1 to_first to_second toy-IsJson
      exchange-CanExchange registered-IsWaiting registered-IsWaiting refl refl
      (accept_object-IsAccept false) (accept_object-IsAccept true)
