-- ===== src/Peers.antt =====
-- Two ends that find each other: what one makes for the other, the way of its texts over the
-- WebSocket, and what the other does with them (src/ayame_signaling.cpp, one direction of the
-- signaling). The Ayame server is taken to pass a text on unchanged and in order.
pub mod Items
pub mod Pipe
pub mod Steps
pub mod Carries
pub mod Lands
pub mod Refines
pub mod Delivers
pub mod Introduced
pub mod Exchange
pub mod Established
use grpc_over_ayame.Base.{ℕ, Option, none, some, List, [], ◌∷◌, ◌++◌, Bytes, length, take, drop}
use grpc_over_ayame.Json.{ℤ, Json}
use grpc_over_ayame.Message.{Fault}
use grpc_over_ayame.Stream.{Action, ◌>>◌}
use grpc_over_ayame.Signaling.{
  success, SdpType, Call, post_text, async_write, set_local_description, Signaling,
}
use grpc_over_ayame.Signaling.Messages.{description_message, candidate_message}
use grpc_over_ayame.Signaling.Write.{do_send_text, on_write}
use grpc_over_ayame.Signaling.Read.{RtcEnv, on_read}
use grpc_over_ayame.Signaling.Read.Accepted.{with_description, with_candidate}
use grpc_over_ayame.Signaling.Peer.{on_create_description, on_ice_candidate}

-- What WebRTC makes for the other end; a candidate is its text, its line and its media id.
pub data Item : Type 0 where
  description : SdpType → Bytes → Item
  candidate : Bytes → ℤ → Bytes → Item

module _ {V : Type 0} (json : Json V) where
  abbrev pub item_message : Item → V
  item_message (description type sdp) = description_message json type sdp
  item_message (candidate sdp index mid) = candidate_message json sdp index mid

  unfoldable pub send_item : Item → Action Signaling
  send_item (description type sdp) = on_create_description json type sdp
  send_item (candidate sdp index mid) = on_ice_candidate json (some sdp) index mid

-- The calls of WebRTC before the text is posted.
abbrev pub before_text : Item → List Call
before_text (description type sdp) = set_local_description ∷ []
before_text (candidate sdp index mid) = []

-- The other end behind an item that it has handed to WebRTC.
abbrev pub accept : Item → Signaling → Signaling
accept (description type sdp) s = with_description type sdp s
accept (candidate sdp index mid) s = with_candidate mid index sdp s

-- Both ends and what is between them: the texts posted to the executor, the texts whose write the
-- WebSocket has not finished, and the texts on their way to the reader.
pub record Room : Type 0 where
  pub sender : Signaling
  pub receiver : Signaling
  pub posted : List Bytes
  pub writing : List Bytes
  pub wire : List Bytes

-- One call of the sender; those that carry a text change what is on its way.
unfoldable pub route : Call → Room → Room
route (post_text text) r = record r { posted = r.posted ++ text ∷ [] }
route (async_write text) r = record r { writing = r.writing ++ text ∷ [] }
route _ r = r

unfoldable pub route_all : List Call → Room → Room
unfolding route
route_all [] r = r
route_all (c ∷ cs) r = route_all cs (route c r)

-- The sender runs a handler.
abbrev pub sender_runs : Action Signaling → Action Room
sender_runs handler r =
    let (sender, fault) = handler r.sender in
    (route_all (drop (length r.sender.calls) sender.calls) (record r { sender = sender }), fault)

pub data Event : Type 0 where
  makes : Item → Event
  -- The executor runs `DoSendText` with the text posted at this place, the oldest at 0: it may take
  -- the texts in any order.
  queues : ℕ → Event
  -- The WebSocket finishes the oldest write.
  finishes : Event
  arrives : Event

module _ {V : Type 0} (json : Json V) (env : RtcEnv) where
  -- One step; `queues`, `finishes` and `arrives` find nothing to do where no text is.
  unfoldable pub step : Event → Action Room
  unfolding send_item route_all
  step (makes i) r = sender_runs (send_item json i) r
  step (queues n) r = elim (drop n r.posted) [
    | [] ↦ (r, none)
    | text ∷ rest ↦ sender_runs (do_send_text text) (record r { posted = take n r.posted ++ rest })
  ]
  step finishes r = elim r.writing [
    | [] ↦ (r, none)
    | text ∷ rest ↦
        sender_runs (on_write success) (record r { writing = rest; wire = r.wire ++ text ∷ [] })
  ]
  step arrives r = elim r.wire [
    | [] ↦ (r, none)
    | text ∷ rest ↦
        let (receiver, fault) = on_read json env success text r.receiver in
        (record r { receiver = receiver; wire = rest }, fault)
  ]

  unfoldable pub run : List Event → Action Room
  unfolding step
  run [] r = (r, none)
  run (e ∷ es) r = (step e >> run es) r
