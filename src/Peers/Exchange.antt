-- ===== src/Peers/Exchange.antt =====
-- What two ends exchange to get ready for data channels, one coming after the other.
use grpc_over_ayame.Base.{ℕ, ◌≡◌, true, false, none, some, List, [], ◌∷◌, ◌++◌, Bytes, codes}
use grpc_over_ayame.Json.{ℤ, Json}
use grpc_over_ayame.Signaling.{
  success, offer, answer, Call, Signaling, create_data_channel, create_offer, create_answer,
  async_read, set_local_description, set_remote_description, add_ice_candidate, post_text, on_ready,
}
use grpc_over_ayame.Signaling.Read.{RtcEnv}
use grpc_over_ayame.Signaling.Peer.{create_channel}
use grpc_over_ayame.Signaling.History.{Event, read, description_created, offer_set, ice_candidate}
use grpc_over_ayame.Peers.{Item, description, candidate, item_message}
use grpc_over_ayame.Peers.Items.{IsTaken}
use grpc_over_ayame.Peers.Introduced.{configured}

pub record IceCandidate : Type 0 where
  pub sdp : Bytes
  pub index : ℤ
  pub mid : Bytes

-- What the WebRTC of the two ends makes: the end that comes second offers.
pub record Exchange : Type 0 where
  pub offered : Bytes
  pub answered : Bytes
  pub of_first : IceCandidate
  pub of_second : IceCandidate

abbrev pub item_of : IceCandidate → Item
item_of c = candidate c.sdp c.index c.mid

-- The texts of the four messages.
pub record Texts : Type 0 where
  pub offer_text : Bytes
  pub answer_text : Bytes
  pub first_text : Bytes
  pub second_text : Bytes

-- They are what JSON writes, and each end's WebRTC takes what comes from the other.
pub record CanExchange {V : Type 0} (json : Json V) (first second : RtcEnv) (x : Exchange)
    (t : Texts) : Type 0 where
  pub offer_is : json.dump (item_message json (description offer x.offered)) ≡ some t.offer_text
  pub answer_is : json.dump (item_message json (description answer x.answered)) ≡ some t.answer_text
  pub first_is : json.dump (item_message json (item_of x.of_first)) ≡ some t.first_text
  pub second_is : json.dump (item_message json (item_of x.of_second)) ≡ some t.second_text
  pub offer_taken : IsTaken first (description offer x.offered)
  pub answer_taken : IsTaken second (description answer x.answered)
  pub first_taken : IsTaken second (item_of x.of_first)
  pub second_taken : IsTaken first (item_of x.of_second)

-- An end that has its WebSocket and its factory, and no peer yet.
pub record IsWaiting (s : Signaling) : Type 0 where
  pub has_wss : s.wss ≡ true
  pub has_factory : s.factory ≡ true
  pub is_unready : s.ready ≡ false

-- What happens at the end that comes first, and at the one that comes second.
abbrev pub first_events : RtcEnv → Bytes → Exchange → Texts → List Event
first_events env accept_text x t =
    read env success accept_text
    ∷ read env success t.offer_text
    ∷ offer_set
    ∷ description_created answer x.answered
    ∷ read env success t.second_text
    ∷ ice_candidate (some x.of_first.sdp) x.of_first.index x.of_first.mid
    ∷ []

abbrev pub second_events : RtcEnv → Bytes → Exchange → Texts → List Event
second_events env accept_text x t =
    read env success accept_text
    ∷ description_created offer x.offered
    ∷ read env success t.answer_text
    ∷ ice_candidate (some x.of_second.sdp) x.of_second.index x.of_second.mid
    ∷ read env success t.first_text
    ∷ []

abbrev pub takes_candidate : IceCandidate → List Call
takes_candidate c = add_ice_candidate c.mid c.index c.sdp ∷ on_ready ∷ async_read ∷ []

abbrev pub first_calls : Exchange → Texts → List Call
first_calls x t =
    configured
    ∷ async_read
    ∷ set_remote_description offer x.offered
    ∷ async_read
    ∷ create_answer
    ∷ set_local_description
    ∷ post_text t.answer_text
    ∷ (takes_candidate x.of_second ++ post_text t.first_text ∷ [])

abbrev pub second_calls : Exchange → Texts → List Call
second_calls x t =
    configured
    ∷ create_data_channel (codes "init")
    ∷ create_offer
    ∷ async_read
    ∷ set_local_description
    ∷ post_text t.offer_text
    ∷ set_remote_description answer x.answered
    ∷ async_read
    ∷ post_text t.second_text
    ∷ takes_candidate x.of_first

-- The end is ready, has made these calls, and is given the data channels that it asks for.
pub record IsReady (s : Signaling) (cs : List Call) (s' : Signaling) : Type 0 where
  pub ready : s'.ready ≡ true
  pub calls_are : s'.calls ≡ s.calls ++ cs
  pub makes_channels :
      (label : Bytes) (channel : ℕ) → (create_channel label channel s').1 ≡ (some channel, none)
