-- ===== src/Signaling/Local/OnRead.antt =====
-- A relation that holds of the shared steps holds of `OnRead`.
use grpc_over_ayame.Base.{Bool, true, false, Option, none, some, [], ◌∷◌, Bytes, codes, same}
use grpc_over_ayame.Json.{ℤ, Json}
use grpc_over_ayame.Message.{threw, null_dereference}
use grpc_over_ayame.Stream.{Action}
use grpc_over_ayame.Signaling.{
  ErrorCode, success, operation_aborted, ws_closed, other_error, SdpType, offer, answer,
  create_peer_connection, set_remote_description, add_ice_candidate, Signaling, need,
}
use grpc_over_ayame.Signaling.Messages.{create_ice_servers, do_send_pong, pong_message}
use grpc_over_ayame.Signaling.Connect.{close}
use grpc_over_ayame.Signaling.Read.{
  RtcEnv, rtc_configuration, connected, take_candidate, offer_if_exists, on_accept,
  on_description_message, on_candidate, on_ping, on_bye, dispatch, on_read,
}
use grpc_over_ayame.Signaling.Within.{
  IsPreorder, Within, Within-test, Within-seq, Within-need, Within-if, Within-none, at-if,
  Within-with_connection,
}
use grpc_over_ayame.Signaling.Local.{
  SendsTexts, IsLocal, of_call, others-note, Within-close, Within-do_read, Within-send_json,
}

module _ {Sent : Bytes → Type 0} (R : Signaling → Signaling → Type 0) (l : IsLocal Sent R) where
  abbrev p : IsPreorder R
  p = l.preorder

  module _ {V : Type 0} (json : Json V) where
    -- The three conversions in front of a handler's rest.
    Within-convert {κ} :
        {A : Type κ} (key : Bytes) (js : V) (as_type : V → Option A) (k : A → Action Signaling)
        → ((a : A) → Within R (k a))
        → Within R (need threw (json.get key js) (λ v. need threw (as_type v) k))
    Within-convert key js as_type k h =
        Within-need R p threw (json.get key js) (λ v. need threw (as_type v) k)
          (λ v. Within-need R p threw (as_type v) k h)

    Within-offer_if_exists : (env : RtcEnv) (b : Bool) → Within R (offer_if_exists json env b)
    unfolding offer_if_exists
    Within-offer_if_exists env false = Within-none R p
    Within-offer_if_exists env true = Within-with_connection R p _ (record {
      at = λ t.
          others-note R l t _ _
            (l.of_others t t.parts t.factory t.wss t.connection env.init_channel) (tt, (tt, tt));
    })

    Within-connected : (env : RtcEnv) (js : V) → Within R (connected json env js)
    Within-connected env js = record {
      at = λ s.
          at-if R p s.factory s _ (s, some null_dereference)
            (others-note R l s _
              (create_peer_connection (rtc_configuration (create_ice_servers js)) ∷ [])
              (l.of_others s s.parts s.factory s.wss env.peer_connection s.datachannel) (tt, tt))
            (p.reflexive s);
    }

    Within-on_accept : (env : RtcEnv) (js : V) → Within R (on_accept json env js)
    unfolding on_accept
    Within-on_accept env js = Within-seq R p _ _ (Within-connected env js) (
        Within-seq R p _ _
          (Within-convert (codes "isExistUser") js json.as_bool _ (Within-offer_if_exists env))
          (Within-do_read R l))

    Within-on_description_message :
        (env : RtcEnv) (type : SdpType) (js : V)
        → Within R (on_description_message json env type js)
    unfolding on_description_message
    Within-on_description_message env type js =
        Within-convert (codes "sdp") js json.as_text _ λ sdp.
          Within-if R p (env.description_parsed type sdp) _ (λ s. (s, none))
            (Within-seq R p _ _
              (Within-with_connection R p _ (of_call R l (set_remote_description type sdp) tt))
              (Within-do_read R l))
            (Within-none R p)

    Within-take_candidate :
        (env : RtcEnv) (mid : Bytes) (i : ℤ) (sdp : Bytes)
        → Within R (take_candidate json env mid i sdp)
    Within-take_candidate env mid i sdp =
        Within-if R p (env.candidate_added mid i sdp) _ (λ s. (s, none))
          (Within-seq R p _ _ l.of_ready (Within-do_read R l)) (Within-none R p)

    Within-on_candidate : (env : RtcEnv) (js : V) → Within R (on_candidate json env js)
    unfolding on_candidate
    Within-on_candidate env js = Within-need R p threw (json.get (codes "ice") js) _ λ ice.
        Within-convert (codes "sdpMid") ice json.as_text _ λ mid.
          Within-convert (codes "sdpMLineIndex") ice json.as_int _ λ i.
            Within-convert (codes "candidate") ice json.as_text _ λ sdp.
              Within-if R p (env.candidate_parsed mid i sdp) _ (λ s. (s, none))
                (Within-seq R p _ _
                  (Within-with_connection R p _ (of_call R l (add_ice_candidate mid i sdp) tt))
                  (Within-take_candidate env mid i sdp))
                (Within-none R p)

    Within-on_ping : (env : RtcEnv) → SendsTexts json Sent → Within R (on_ping json env)
    unfolding on_ping do_send_pong
    Within-on_ping env texts =
        Within-seq R p _ _ (Within-send_json R l json (pong_message json) texts.pongs)
          (Within-do_read R l)

    Within-on_bye : (env : RtcEnv) → Within R (on_bye json env)
    unfolding on_bye
    Within-on_bye env = record {
      at = λ s.
          let t = record s { connection = none } in
          p.transitive s t (close t).0 (l.of_others s s.parts s.factory s.wss none s.datachannel)
            ((Within-close R l).at t);
    }

    Within-dispatch :
        (env : RtcEnv) (type : Bytes) (js : V)
        → SendsTexts json Sent
        → Within R (dispatch json env type js)
    unfolding dispatch
    Within-dispatch env type js texts =
        Within-test R p (same type (codes "accept")) _ _ (Within-on_accept env js) (
          Within-test R p (same type (codes "offer")) _ _
            (Within-on_description_message env offer js)
            (Within-test R p (same type (codes "answer")) _ _
              (Within-on_description_message env answer js)
              (Within-test R p (same type (codes "candidate")) _ _ (Within-on_candidate env js) (
                Within-test R p (same type (codes "ping")) _ _ (Within-on_ping env texts) (
                  Within-test R p (same type (codes "bye")) _ _ (Within-on_bye env)
                    (Within-none R p))))))

    pub Within-on_read :
        (env : RtcEnv) (ec : ErrorCode) (text : Bytes)
        → SendsTexts json Sent
        → Within R (on_read json env ec text)
    unfolding on_read
    Within-on_read env operation_aborted text texts = Within-none R p
    Within-on_read env ws_closed text texts = Within-close R l
    Within-on_read env other_error text texts = Within-close R l
    Within-on_read env success text texts = Within-need R p threw (json.parse text) _ λ js.
        Within-convert (codes "type") js json.as_text _ λ type. Within-dispatch env type js texts
