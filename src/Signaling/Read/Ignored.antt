-- ===== src/Signaling/Read/Ignored.antt =====
-- The messages after which `OnRead` neither reads on nor closes.
use grpc_over_ayame.Base.{◌≡◌, refl, false, none, some, List, [], ◌∷◌, Bytes, codes, same, All}
use grpc_over_ayame.Json.{ℤ, Json}
use grpc_over_ayame.Signaling.{success, SdpType, offer, answer, Signaling}
use grpc_over_ayame.Signaling.Messages.{sdp_type_to_string}
use grpc_over_ayame.Signaling.Read.{RtcEnv, on_description_message, on_candidate, dispatch, on_read}

abbrev pub known_types : List Bytes
known_types =
    codes "accept"
    ∷ codes "offer"
    ∷ codes "answer"
    ∷ codes "candidate"
    ∷ codes "ping"
    ∷ codes "bye"
    ∷ []

-- A message of another type; a description that WebRTC cannot parse; such a candidate.
pub data Ignored {V : Type 0} (json : Json V) (env : RtcEnv) (js : V) : Bytes → Type 0 where
  unknown : {type : Bytes} → All (λ t. same type t ≡ false) known_types → Ignored json env js type
  bad_description :
      (type : SdpType) (v : V) (sdp : Bytes)
      → json.get (codes "sdp") js ≡ some v
      → json.as_text v ≡ some sdp
      → env.description_parsed type sdp ≡ false
      → Ignored json env js (sdp_type_to_string type)
  bad_candidate :
      (ice mid_value index_value sdp_value : V) (mid sdp : Bytes) (index : ℤ)
      → json.get (codes "ice") js ≡ some ice
      → json.get (codes "sdpMid") ice ≡ some mid_value
      → json.as_text mid_value ≡ some mid
      → json.get (codes "sdpMLineIndex") ice ≡ some index_value
      → json.as_int index_value ≡ some index
      → json.get (codes "candidate") ice ≡ some sdp_value
      → json.as_text sdp_value ≡ some sdp
      → env.candidate_parsed mid index sdp ≡ false
      → Ignored json env js (codes "candidate")

module _ {V : Type 0} (json : Json V) where
  description_unparsed :
      (env : RtcEnv) (js v : V) (type : SdpType) (sdp : Bytes) (s : Signaling)
      → json.get (codes "sdp") js ≡ some v
      → json.as_text v ≡ some sdp
      → env.description_parsed type sdp ≡ false
      → on_description_message json env type js s ≡ (s, none)
  unfolding on_description_message
  description_unparsed env js v type sdp s g t p = rw (on_description_message, g) (rw t (rw p refl))

  dispatch_unknown :
      (env : RtcEnv) (js : V) (type : Bytes) (s : Signaling)
      → All (λ t. same type t ≡ false) known_types
      → dispatch json env type js s ≡ (s, none)
  unfolding dispatch
  dispatch_unknown env js type s (a, (o, (n, (c, (p, (b, _)))))) =
      rw a (rw o (rw n (rw c (rw p (rw b refl)))))

  dispatch-Ignored :
      (env : RtcEnv) (js : V) (type : Bytes) (s : Signaling)
      → Ignored json env js type
      → dispatch json env type js s ≡ (s, none)
  unfolding dispatch same on_candidate
  dispatch-Ignored env js type s (unknown h) = dispatch_unknown env js type s h
  dispatch-Ignored env js type s (bad_description offer v sdp g t p) =
      description_unparsed env js v offer sdp s g t p
  dispatch-Ignored env js type s (bad_description answer v sdp g t p) =
      description_unparsed env js v answer sdp s g t p
  dispatch-Ignored env js type s (bad_candidate ice mv iv sv mid sdp index i m m' n n' c c' p) =
      rw (on_candidate, i) (rw m (rw m' (rw n (rw n' (rw c (rw c' (rw p refl)))))))

  -- After a message of a type that `OnRead` does not know, and after a description or a candidate
  -- that WebRTC cannot parse, no call is made: neither is the next message read nor is the
  -- connection closed, and the state stays as it is.
  pub on_read-Ignored :
      (env : RtcEnv) (text type : Bytes) (js v : V) (s : Signaling)
      → json.parse text ≡ some js
      → json.get (codes "type") js ≡ some v
      → json.as_text v ≡ some type
      → Ignored json env js type
      → on_read json env success text s ≡ (s, none)
  unfolding on_read
  on_read-Ignored env text type js v s p g t h =
      rw (on_read, p) (rw g (rw t (dispatch-Ignored env js type s h)))
