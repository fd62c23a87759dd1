-- ===== src/Signaling/Messages.antt =====
-- src/ayame_signaling.cpp: the JSON messages that the program sends, and `CreateIceServers`.
pub mod Members
pub mod Typed
use grpc_over_ayame.Base.{List, [], ◌∷◌, ◌++◌, Bytes, codes, if◌then◌else◌}
use grpc_over_ayame.Json.{ℤ, Json}
use grpc_over_ayame.Message.{threw}
use grpc_over_ayame.Stream.{Action}
use grpc_over_ayame.Signaling.{Signaling, SdpType, offer, answer, need}
use grpc_over_ayame.Signaling.Write.{send_text, is_empty}

-- `webrtc::SdpTypeToString`, at the types of the descriptions that the program makes.
abbrev pub sdp_type_to_string : SdpType → Bytes
sdp_type_to_string offer = codes "offer"
sdp_type_to_string answer = codes "answer"

-- The answer's STUN server; the servers of the message are commented out in the source.
unfoldable pub create_ice_servers : {V : Type 0} → V → List Bytes
create_ice_servers json_message =
    let ice_servers : List Bytes = [] in
    if is_empty ice_servers
    then ice_servers ++ codes "stun:stun.l.google.com:19302" ∷ []
    else ice_servers

module _ {V : Type 0} (json : Json V) where
  -- A value written as `{{key, value}, ...}`.
  abbrev pub object_from : V → List (Bytes × V) → V
  object_from o [] = o
  object_from o ((k, v) ∷ rest) = object_from (json.set k v o) rest

  abbrev pub object : List (Bytes × V) → V
  object = object_from json.null

  abbrev word : Bytes → V
  word = json.text

  -- `SendText(message.dump())`.
  unfoldable pub send_json : V → Action Signaling
  unfolding send_text
  send_json message s = need threw (json.dump message) send_text s

  abbrev pub register_message : Bytes → V
  register_message client_id = object (
      (codes "type", word (codes "register"))
      ∷ (codes "clientId", word client_id)
      ∷ (codes "roomId", word (codes "grpc-over-ayame-testroom"))
      ∷ (codes "ayameClient", word (codes "grpc-over-ayame"))
      ∷ (codes "libwebrtc", word (codes "libwebrtc"))
      ∷ (codes "environment", word (codes "environment"))
      ∷ [])

  unfoldable pub do_send_register : Bytes → Action Signaling
  unfolding send_json
  do_send_register client_id = send_json (register_message client_id)

  abbrev pub pong_message : V
  pong_message = object ((codes "type", word (codes "pong")) ∷ [])

  unfoldable pub do_send_pong : Action Signaling
  unfolding send_json
  do_send_pong = send_json pong_message

  -- The message of an offer or an answer.
  abbrev pub description_message : SdpType → Bytes → V
  description_message type sdp =
      object ((codes "type", word (sdp_type_to_string type)) ∷ (codes "sdp", word sdp) ∷ [])

  -- The message of an ICE candidate.
  abbrev pub candidate_message : Bytes → ℤ → Bytes → V
  candidate_message sdp sdp_mline_index sdp_mid =
      json.set (codes "ice")
        (object (
          (codes "candidate", word sdp)
          ∷ (codes "sdpMLineIndex", json.int sdp_mline_index)
          ∷ (codes "sdpMid", word sdp_mid)
          ∷ []))
        (object ((codes "type", word (codes "candidate")) ∷ []))
