-- ===== src/Signaling/Messages/Typed.antt =====
-- The members of the messages that the program sends.
use grpc_over_ayame.Base.{◌≡◌, refl, none, some, List, [], ◌∷◌, Bytes, codes, same}
use grpc_over_ayame.Json.{ℤ, Json, IsJson}
use grpc_over_ayame.Signaling.{SdpType}
use grpc_over_ayame.Signaling.Messages.{
  object, sdp_type_to_string, register_message, pong_message, description_message,
  candidate_message,
}
use grpc_over_ayame.Signaling.Messages.Members.{
  last_member, get-object, lookup-object, object_from-TakesKeys,
}

module _ {V : Type 0} (json : Json V) where
  abbrev pub word : Bytes → V
  word = json.text

  abbrev description_rest : Bytes → List (Bytes × V)
  description_rest sdp = (codes "sdp", word sdp) ∷ []

  abbrev pub ice_rest : ℤ → Bytes → List (Bytes × V)
  ice_rest index mid = (codes "sdpMLineIndex", json.int index) ∷ (codes "sdpMid", word mid) ∷ []

  abbrev pub ice_value : Bytes → ℤ → Bytes → V
  ice_value sdp index mid = object json ((codes "candidate", word sdp) ∷ ice_rest index mid)

  abbrev candidate_type : List (Bytes × V)
  candidate_type = (codes "type", word (codes "candidate")) ∷ []

module _ {V : Type 0} (json : Json V) (laws : IsJson json) where
  open laws use {TakesKeys, null-TakesKeys, get-set}

  pub description-type :
      (type : SdpType) (sdp : Bytes)
      → json.get (codes "type") (description_message json type sdp)
        ≡ some (word json (sdp_type_to_string type))
  unfolding same
  description-type type sdp =
      get-object json laws (codes "type") (codes "type") (word json (sdp_type_to_string type))
        (word json (sdp_type_to_string type)) (description_rest json sdp) refl

  candidate_type-TakesKeys : TakesKeys (object json (candidate_type json))
  candidate_type-TakesKeys =
      object_from-TakesKeys json laws (candidate_type json) json.null null-TakesKeys

  pub candidate-type :
      (sdp : Bytes) (index : ℤ) (mid : Bytes)
      → json.get (codes "type") (candidate_message json sdp index mid)
        ≡ some (word json (codes "candidate"))
  unfolding same
  candidate-type sdp index mid =
      get-set (codes "ice") (codes "type") (ice_value json sdp index mid)
        (object json (candidate_type json)) (word json (codes "candidate")) candidate_type-TakesKeys
        (lookup-object json laws (codes "type") (candidate_type json))

  pub ice_member :
      (key : Bytes) (w : V) (sdp : Bytes) (index : ℤ) (mid : Bytes)
      → last_member key none ((codes "candidate", word json sdp) ∷ ice_rest json index mid) ≡ some w
      → json.get key (ice_value json sdp index mid) ≡ some w
  ice_member key w sdp index mid e =
      get-object json laws key (codes "candidate") (word json sdp) w (ice_rest json index mid) e

  pub register-type :
      (client_id : Bytes)
      → json.get (codes "type") (register_message json client_id)
        ≡ some (word json (codes "register"))
  unfolding same
  register-type client_id =
      get-object json laws (codes "type") (codes "type") (word json (codes "register"))
        (word json (codes "register"))
        ((codes "clientId", word json client_id)
          ∷ (codes "roomId", word json (codes "grpc-over-ayame-testroom"))
          ∷ (codes "ayameClient", word json (codes "grpc-over-ayame"))
          ∷ (codes "libwebrtc", word json (codes "libwebrtc"))
          ∷ (codes "environment", word json (codes "environment"))
          ∷ [])
        refl

  pub pong-type : json.get (codes "type") (pong_message json) ≡ some (word json (codes "pong"))
  unfolding same
  pong-type =
      get-object json laws (codes "type") (codes "type") (word json (codes "pong"))
        (word json (codes "pong")) [] refl

  pub description-sdp :
      (type : SdpType) (sdp : Bytes)
      → json.get (codes "sdp") (description_message json type sdp) ≡ some (word json sdp)
  unfolding same
  description-sdp type sdp =
      get-object json laws (codes "sdp") (codes "type") (word json (sdp_type_to_string type))
        (word json sdp) (description_rest json sdp) refl

  pub candidate-ice :
      (sdp : Bytes) (index : ℤ) (mid : Bytes)
      → json.get (codes "ice") (candidate_message json sdp index mid)
        ≡ some (ice_value json sdp index mid)
  unfolding same
  candidate-ice sdp index mid =
      get-set (codes "ice") (codes "ice") (ice_value json sdp index mid)
        (object json (candidate_type json)) (ice_value json sdp index mid) candidate_type-TakesKeys
        refl
