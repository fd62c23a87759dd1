-- ===== src/Signaling/Read.antt =====
-- src/ayame_signaling.cpp: `OnRead`.
pub mod Ignored
pub mod Accepted
use grpc_over_ayame.Base.{
  ℕ, Bool, true, false, Option, none, some, List, [], ◌∷◌, Bytes, codes, same, if◌then◌else◌,
}
use grpc_over_ayame.Json.{ℤ, Json}
use grpc_over_ayame.Message.{threw, null_dereference}
use grpc_over_ayame.Stream.{Action, ◌>>◌, done}
use grpc_over_ayame.Signaling.{
  ErrorCode, success, operation_aborted, ws_closed, other_error, SdpType, offer, answer, on_ready,
  create_peer_connection, create_data_channel, create_offer, set_remote_description,
  add_ice_candidate, RtcConfiguration, Signaling, note, need, with_connection,
}
use grpc_over_ayame.Signaling.Connect.{close, do_read}
use grpc_over_ayame.Signaling.Messages.{create_ice_servers, do_send_pong}

-- What WebRTC answers: the results of `CreatePeerConnection` and of `CreateDataChannel("init")`,
-- whether a description or a candidate can be parsed, and whether `AddIceCandidate` takes it.
pub record RtcEnv : Type 0 where
  pub peer_connection : Option ℕ
  pub init_channel : Option ℕ
  pub description_parsed : SdpType → Bytes → Bool
  pub candidate_parsed : Bytes → ℤ → Bytes → Bool
  pub candidate_added : Bytes → ℤ → Bytes → Bool

-- What `CreatePeerConnection` asks for.
abbrev pub rtc_configuration : List Bytes → RtcConfiguration
rtc_configuration ice_servers = record {
  servers = ice_servers;
  enable_dtls_srtp = true;
  unified_plan = true;
}

-- `if (!ready_)`.
unfoldable pub become_ready : Action Signaling
become_ready s = if s.ready then (s, none) else note (on_ready ∷ []) (record s { ready = true })

module _ {V : Type 0} (json : Json V) (env : RtcEnv) where
  -- `js[key]`, converted; a missing key or another type throws.
  abbrev pub with_text : Bytes → V → (Bytes → Action Signaling) → Action Signaling
  with_text key js k = need threw (json.get key js) λ v. need threw (json.as_text v) k

  abbrev pub with_bool : Bytes → V → (Bool → Action Signaling) → Action Signaling
  with_bool key js k = need threw (json.get key js) λ v. need threw (json.as_bool v) k

  abbrev pub with_int : Bytes → V → (ℤ → Action Signaling) → Action Signaling
  with_int key js k = need threw (json.get key js) λ v. need threw (json.as_int v) k

  -- `if (is_exist_user)`: the channel "init", and an offer whose description comes to
  -- `on_description`.
  unfoldable pub offer_if_exists : Bool → Action Signaling
  offer_if_exists false s = (s, none)
  offer_if_exists true s =
      with_connection
        (λ t.
          note (create_data_channel (codes "init") ∷ create_offer ∷ [])
            (record t { datachannel = env.init_channel }))
        s

  abbrev pub connected : V → Action Signaling
  connected js s =
      if s.factory
      then note (create_peer_connection (rtc_configuration (create_ice_servers js)) ∷ [])
          (record s { connection = env.peer_connection })
      else (s, some null_dereference)

  unfoldable pub on_accept : V → Action Signaling
  unfolding create_ice_servers offer_if_exists do_read
  on_accept js = do connected js; with_bool (codes "isExistUser") js offer_if_exists; do_read

  -- The common part of the offer and the answer: a description that does not parse ends the
  -- handler with no further read.
  unfoldable pub on_description_message : SdpType → V → Action Signaling
  unfolding do_read
  on_description_message type js = with_text (codes "sdp") js λ sdp s.
      if env.description_parsed type sdp
      then (with_connection (note (set_remote_description type sdp ∷ [])) >> do_read) s
      else (s, none)

  abbrev pub take_candidate : Bytes → ℤ → Bytes → Action Signaling
  take_candidate sdp_mid sdp_mlineindex sdp s =
      if env.candidate_added sdp_mid sdp_mlineindex sdp
      then (become_ready >> do_read) s
      else (s, none)

  unfoldable pub on_candidate : V → Action Signaling
  unfolding become_ready do_read
  on_candidate js = need threw (json.get (codes "ice") js) λ ice.
      with_text (codes "sdpMid") ice λ sdp_mid.
        with_int (codes "sdpMLineIndex") ice λ sdp_mlineindex.
          with_text (codes "candidate") ice λ sdp s.
            if env.candidate_parsed sdp_mid sdp_mlineindex sdp
            then (with_connection (note (add_ice_candidate sdp_mid sdp_mlineindex sdp ∷ []))
                  >> take_candidate sdp_mid sdp_mlineindex sdp)
                s
            else (s, none)

  unfoldable pub on_ping : Action Signaling
  unfolding do_send_pong do_read
  on_ping = do do_send_pong json; do_read

  unfoldable pub on_bye : Action Signaling
  unfolding close
  on_bye s = close (record s { connection = none })

  -- The branches on `type`; any other type does nothing.
  unfoldable pub dispatch : Bytes → V → Action Signaling
  dispatch type js =
      if same type (codes "accept")
      then on_accept js
      else if same type (codes "offer")
      then on_description_message offer js
      else if same type (codes "answer")
      then on_description_message answer js
      else if same type (codes "candidate")
      then on_candidate js
      else if same type (codes "ping")
      then on_ping
      else if same type (codes "bye")
      then on_bye
      else done

  -- `OnRead`, with the text of `read_buffer_`, which it consumes.
  unfoldable pub on_read : ErrorCode → Bytes → Action Signaling
  on_read operation_aborted text s = (s, none)
  on_read ws_closed text s = close s
  on_read other_error text s = close s
  on_read success text s =
      need threw (json.parse text) (λ js. with_text (codes "type") js (λ type. dispatch type js)) s
