-- ===== src/Signaling/Starts/OnRead.antt =====
-- `OnRead` starts at most one read or close of the WebSocket.
use grpc_over_ayame.Base.{
  ℕ, refl, Bool, true, false, Option, none, some, [], ◌∷◌, Bytes, codes, same, arith,
}
use grpc_over_ayame.Json.{ℤ, Json}
use grpc_over_ayame.Message.{threw, null_dereference}
use grpc_over_ayame.Stream.{Action}
use grpc_over_ayame.Signaling.{
  ErrorCode, success, operation_aborted, ws_closed, other_error, SdpType, offer, answer, Signaling,
  need, set_remote_description, add_ice_candidate, create_peer_connection,
}
use grpc_over_ayame.Signaling.Messages.{create_ice_servers, send_json, do_send_pong}
use grpc_over_ayame.Signaling.Write.{send_text}
use grpc_over_ayame.Signaling.Connect.{close, do_read}
use grpc_over_ayame.Signaling.Read.{
  RtcEnv, rtc_configuration, connected, take_candidate, offer_if_exists, on_accept,
  on_description_message, become_ready, on_candidate, on_ping, on_bye, dispatch, on_read,
}
use grpc_over_ayame.Signaling.Starts.{
  Starts, at-note, Starts-note, Starts-seq, at-none, at-if, Starts-none, Starts-need, Starts-if,
  Starts-test, Starts-with_wss, Starts-with_connection,
}

pub Starts-close : Starts 1 close
unfolding close
Starts-close = Starts-with_wss 1 _ (Starts-note 1 _ (omega arith))

pub Starts-do_read : Starts 1 do_read
unfolding do_read
Starts-do_read = Starts-with_wss 1 _ (Starts-note 1 _ (omega arith))

Starts-become_ready : Starts 0 become_ready
unfolding become_ready
Starts-become_ready = record {
  at = λ s.
      at-if 0 s.ready s (s, none) _ (at-none 0 s)
        (at-note 0 _ s (record s { ready = true }) refl (omega arith));
}

module _ {V : Type 0} (json : Json V) where
  pub Starts-send_json : (message : V) → Starts 0 (send_json json message)
  unfolding send_json send_text
  Starts-send_json message =
      Starts-need 0 threw (json.dump message) _ λ text. Starts-note 0 _ (omega arith)

  Starts-convert {κ} :
      {A : Type κ} (n : ℕ) (key : Bytes) (js : V) (as_type : V → Option A)
      (k : A → Action Signaling)
      → ((a : A) → Starts n (k a))
      → Starts n (need threw (json.get key js) (λ v. need threw (as_type v) k))
  Starts-convert n key js as_type k h =
      Starts-need n threw (json.get key js) (λ v. need threw (as_type v) k)
        (λ v. Starts-need n threw (as_type v) k h)

  Starts-offer_if_exists : (env : RtcEnv) (b : Bool) → Starts 0 (offer_if_exists json env b)
  unfolding offer_if_exists
  Starts-offer_if_exists env false = Starts-none 0
  Starts-offer_if_exists env true = Starts-with_connection 0 _ (record {
    at = λ t. at-note 0 _ t (record t { datachannel = env.init_channel }) refl (omega arith);
  })

  Starts-connected : (env : RtcEnv) (js : V) → Starts 0 (connected json env js)
  Starts-connected env js = record {
    at = λ s.
        at-if 0 s.factory s _ (s, some null_dereference)
          (at-note 0 (create_peer_connection (rtc_configuration (create_ice_servers js)) ∷ []) s
            (record s { connection = env.peer_connection }) refl (omega arith))
          (at-none 0 s);
  }

  Starts-on_accept : (env : RtcEnv) (js : V) → Starts 1 (on_accept json env js)
  unfolding on_accept
  Starts-on_accept env js = Starts-seq 0 1 _ _ (Starts-connected env js) (
      Starts-seq 0 1 _ _
        (Starts-convert 0 (codes "isExistUser") js json.as_bool _ (Starts-offer_if_exists env))
        Starts-do_read)

  Starts-on_description_message :
      (env : RtcEnv) (type : SdpType) (js : V) → Starts 1 (on_description_message json env type js)
  unfolding on_description_message
  Starts-on_description_message env type js =
      Starts-convert 1 (codes "sdp") js json.as_text _ λ sdp.
        Starts-if 1 (env.description_parsed type sdp) _ (λ s. (s, none))
          (Starts-seq 0 1 _ _
            (Starts-with_connection 0 _
              (Starts-note 0 (set_remote_description type sdp ∷ []) (omega arith)))
            Starts-do_read)
          (Starts-none 1)

  Starts-take_candidate :
      (env : RtcEnv) (mid : Bytes) (i : ℤ) (sdp : Bytes)
      → Starts 1 (take_candidate json env mid i sdp)
  Starts-take_candidate env mid i sdp =
      Starts-if 1 (env.candidate_added mid i sdp) _ (λ s. (s, none))
        (Starts-seq 0 1 _ _ Starts-become_ready Starts-do_read) (Starts-none 1)

  Starts-on_candidate : (env : RtcEnv) (js : V) → Starts 1 (on_candidate json env js)
  unfolding on_candidate
  Starts-on_candidate env js = Starts-need 1 threw (json.get (codes "ice") js) _ λ ice.
      Starts-convert 1 (codes "sdpMid") ice json.as_text _ λ mid.
        Starts-convert 1 (codes "sdpMLineIndex") ice json.as_int _ λ i.
          Starts-convert 1 (codes "candidate") ice json.as_text _ λ sdp.
            Starts-if 1 (env.candidate_parsed mid i sdp) _ (λ s. (s, none))
              (Starts-seq 0 1 _ _
                (Starts-with_connection 0 _
                  (Starts-note 0 (add_ice_candidate mid i sdp ∷ []) (omega arith)))
                (Starts-take_candidate env mid i sdp))
              (Starts-none 1)

  Starts-on_ping : (env : RtcEnv) → Starts 1 (on_ping json env)
  unfolding on_ping do_send_pong
  Starts-on_ping env = Starts-seq 0 1 _ _ (Starts-send_json _) Starts-do_read

  Starts-on_bye : (env : RtcEnv) → Starts 1 (on_bye json env)
  unfolding on_bye
  Starts-on_bye env = record { at = λ s. Starts-close.at (record s { connection = none }) }

  Starts-dispatch : (env : RtcEnv) (type : Bytes) (js : V) → Starts 1 (dispatch json env type js)
  unfolding dispatch
  Starts-dispatch env type js =
      Starts-test 1 (same type (codes "accept")) _ _ (Starts-on_accept env js) (
        Starts-test 1 (same type (codes "offer")) _ _ (Starts-on_description_message env offer js) (
          Starts-test 1 (same type (codes "answer")) _ _
            (Starts-on_description_message env answer js)
            (Starts-test 1 (same type (codes "candidate")) _ _ (Starts-on_candidate env js) (
              Starts-test 1 (same type (codes "ping")) _ _ (Starts-on_ping env) (
                Starts-test 1 (same type (codes "bye")) _ _ (Starts-on_bye env) (Starts-none 1))))))

  pub Starts-on_read :
      (env : RtcEnv) (ec : ErrorCode) (text : Bytes) → Starts 1 (on_read json env ec text)
  unfolding on_read
  Starts-on_read env operation_aborted text = Starts-none 1
  Starts-on_read env ws_closed text = Starts-close
  Starts-on_read env other_error text = Starts-close
  Starts-on_read env success text =
      Starts-need 1 threw (json.parse text) _
        λ js. Starts-convert 1 (codes "type") js json.as_text _ λ type. Starts-dispatch env type js
