-- ===== src/Signaling/Peer.antt =====
-- src/ayame_signaling.h and src/ayame_signaling.cpp: what WebRTC calls back, and
-- `CreateDataChannel`.
pub mod Lifetime
use grpc_over_ayame.Base.{
  ℕ, Bool, true, false, Option, none, some, List, [], ◌∷◌, ◌++◌, Bytes, codes, same, if◌then◌else◌,
}
use grpc_over_ayame.Json.{ℤ, Json}
use grpc_over_ayame.Message.{Fault, threw, null_dereference}
use grpc_over_ayame.Stream.{Action, ◌>>◌}
use grpc_over_ayame.Signaling.{
  SdpType, Call, on_data_channel, create_data_channel, create_answer, set_local_description,
  Signaling, note, need, with_connection,
}
use grpc_over_ayame.Signaling.Messages.{description_message, candidate_message, send_json}

module _ {V : Type 0} (json : Json V) where
  -- `on_create_offer` and `on_create_answer`, on the description made.
  unfoldable pub on_create_description : SdpType → Bytes → Action Signaling
  unfolding send_json
  on_create_description type sdp = do
    with_connection (note (set_local_description ∷ []))
    send_json json (description_message json type sdp)

  -- `OnIceCandidate`; `none` if the candidate cannot be written as text.
  unfoldable pub on_ice_candidate : Option Bytes → ℤ → Bytes → Action Signaling
  unfolding send_json
  on_ice_candidate none sdp_mline_index sdp_mid s = (s, none)
  on_ice_candidate (some sdp) sdp_mline_index sdp_mid s =
      send_json json (candidate_message json sdp sdp_mline_index sdp_mid) s

-- `on_set_offer`.
unfoldable pub on_set_offer : Action Signaling
on_set_offer = with_connection (note (create_answer ∷ []))

-- `OnDataChannel`, on a channel with this label.
unfoldable pub on_data_channel_opened : Bytes → ℕ → Action Signaling
on_data_channel_opened label channel s =
    if same label (codes "init")
    then (record s { datachannel = some channel }, none)
    else note (on_data_channel channel ∷ []) s

-- `CreateDataChannel(label)`, where WebRTC gives `channel`: no channel before the first candidate,
-- and a call through `connection_` behind it.
unfoldable pub create_channel : Bytes → ℕ → Signaling → Signaling × (Option ℕ × Option Fault)
create_channel label channel s =
    if s.ready
    then elim s.connection [
      | none ↦ (s, (none, some null_dereference))
      | some c ↦
          (record s { calls = s.calls ++ create_data_channel label ∷ [] }, (some channel, none))
    ]
    else (s, (none, none))
