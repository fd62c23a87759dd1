-- ===== src/Signaling/Handlers.antt =====
-- A relation that holds of the primitive steps holds of every handler but those of the write queue.
use grpc_over_ayame.Base.{ℕ, true, false, Option, none, some, [], ◌∷◌, Bytes, codes, same}
use grpc_over_ayame.Json.{ℤ, Json}
use grpc_over_ayame.Url
use grpc_over_ayame.Url.{UrlParts}
use grpc_over_ayame.Message.{threw, null_dereference}
use grpc_over_ayame.Signaling.{
  ErrorCode, SdpType, create_data_channel, async_connect, async_ssl_handshake, async_handshake,
  on_connect, create_answer, set_local_description, on_data_channel, Signaling,
}
use grpc_over_ayame.Signaling.Messages.{do_send_register}
use grpc_over_ayame.Signaling.Connect.{
  ConnectEnv, faulted, close, do_read, connect_wss, create_peer_connection_factory, on_resolve,
  on_ssl_connect, on_ssl_handshake, on_handshake, on_close, is_success,
}
use grpc_over_ayame.Signaling.Connect
use grpc_over_ayame.Signaling.Peer.{
  on_create_description, on_ice_candidate, on_set_offer, on_data_channel_opened, create_channel,
}
use grpc_over_ayame.Signaling.Within.{
  IsPreorder, Within, Within-seq, Within-none, at-if, Within-with_wss, Within-with_connection,
  at-option,
}
use grpc_over_ayame.Signaling.History.{
  Event, connect, closes, resolved, ssl_connected, ssl_handshaken, close_done, written, handshaken,
  read, sends, description_created, offer_set, ice_candidate, channel_opened, channel_asked, handle,
}
use grpc_over_ayame.Signaling.Local.{
  SendsTexts, IsLocal, of_call, others-note, Within-close, Within-do_read, of_error,
  Within-send_json,
}
use grpc_over_ayame.Signaling.Local.OnRead.{Within-on_read}

-- Every event but a text to send and a finished write.
abbrev pub IsOther : Event → Type 0
IsOther (sends text) = ⊥
IsOther (written ec) = ⊥
IsOther _ = Unit

module _ {Sent : Bytes → Type 0} (R : Signaling → Signaling → Type 0) (l : IsLocal Sent R) where
  abbrev p : IsPreorder R
  p = l.preorder

  module _ {V : Type 0} (json : Json V) (texts : SendsTexts json Sent) where
    Within-on_handshake : (id : Bytes) (ec : ErrorCode) → Within R (on_handshake json id ec)
    unfolding on_handshake do_send_register
    Within-on_handshake id ec = of_error R l ec _ (
        Within-seq R p _ _ (Within-do_read R l) (
          Within-seq R p _ _ (Within-send_json R l json _ (texts.registers id))
            (of_call R l on_connect tt)))

    Within-on_create_description :
        (type : SdpType) (sdp : Bytes) → Within R (on_create_description json type sdp)
    unfolding on_create_description
    Within-on_create_description type sdp =
        Within-seq R p _ _ (Within-with_connection R p _ (of_call R l set_local_description tt))
          (Within-send_json R l json _ (texts.describes type sdp))

    Within-on_ice_candidate :
        (sdp : Option Bytes) (i : ℤ) (mid : Bytes) → Within R (on_ice_candidate json sdp i mid)
    unfolding on_ice_candidate
    Within-on_ice_candidate none i mid = Within-none R p
    Within-on_ice_candidate (some sdp) i mid =
        Within-send_json R l json _ (texts.nominates sdp i mid)

  Within-on_data_channel_opened :
      (label : Bytes) (channel : ℕ) → Within R (on_data_channel_opened label channel)
  unfolding on_data_channel_opened
  Within-on_data_channel_opened label channel = record {
    at = λ s.
        at-if R p (same label (codes "init")) s _ _
          (l.of_others s s.parts s.factory s.wss s.connection (some channel))
          ((of_call R l (on_data_channel channel) tt).at s);
  }

  create_channel-within :
      (label : Bytes) (channel : ℕ) (s : Signaling) → R s (create_channel label channel s).0
  unfolding create_channel
  create_channel-within label channel s =
      at-if R p s.ready s _ (s, (none, none))
        (at-option R p s.connection s (s, (none, some null_dereference)) _ (p.reflexive s)
          (λ _. (of_call R l (create_data_channel label) tt).at s))
        (p.reflexive s)

  connect_wss-within : (env : ConnectEnv) (s : Signaling) → R s (connect_wss env s).0
  unfolding connect_wss
  connect_wss-within env s =
      at-option R p (create_peer_connection_factory env) s (s, faulted null_dereference) _
        (p.reflexive s)
        λ created.
          at-if R p created s _ _
            (at-if R p env.host_name_set s _ _
              (others-note R l s _ (_ ∷ [])
                (l.of_others s s.parts true true s.connection s.datachannel) (tt, tt))
              (l.of_others s s.parts true true s.connection s.datachannel))
            (l.of_others s s.parts false s.wss s.connection s.datachannel)

  connect-within :
      (env : ConnectEnv) (url : Bytes) (s : Signaling) → R s (Connect.connect env url s).0
  unfolding Connect.connect
  connect-within env url s =
      at-option R p (Url.parse url s.parts) s (s, faulted threw) _ (p.reflexive s)
        λ r.
          let t = record s { parts = r.1 } in
          let new = l.of_others s r.1 s.factory s.wss s.connection s.datachannel in
          at-if R p r.0 s _ _
            (at-if R p (same r.1.scheme (codes "wss")) s _ _
              (p.transitive s t (connect_wss env t).0 new (connect_wss-within env t)) new)
            new

  -- Every event but those of the write queue keeps the relation.
  pub handle-within :
      {V : Type 0} (json : Json V) (texts : SendsTexts json Sent) (e : Event) (s : Signaling)
      → IsOther e
      → R s (handle json e s).0
  unfolding handle on_resolve on_ssl_connect on_ssl_handshake on_close on_set_offer
  handle-within json texts (connect env url) s h = connect-within env url s
  handle-within json texts closes s h = (Within-close R l).at s
  handle-within json texts (resolved ec) s h =
      (of_error R l ec _ (Within-with_wss R p _ (of_call R l async_connect tt))).at s
  handle-within json texts (ssl_connected ec) s h =
      (of_error R l ec _ (Within-with_wss R p _ (of_call R l async_ssl_handshake tt))).at s
  handle-within json texts (ssl_handshaken ec) s h =
      (of_error R l ec _ (
          Within-with_wss R p _ (record {
            at = λ t.
                (of_call R l (async_handshake t.parts.host t.parts.path_query_fragment) tt).at t;
          }))).at
        s
  handle-within json texts (close_done ec) s h = p.reflexive s
  handle-within json texts (written ec) s h = absurd h
  handle-within json texts (handshaken id ec) s h = (Within-on_handshake json texts id ec).at s
  handle-within json texts (read env ec text) s h = (Within-on_read R l json env ec text texts).at s
  handle-within json texts (sends text) s h = absurd h
  handle-within json texts (description_created type sdp) s h =
      (Within-on_create_description json texts type sdp).at s
  handle-within json texts offer_set s h =
      (Within-with_connection R p _ (of_call R l create_answer tt)).at s
  handle-within json texts (ice_candidate sdp i mid) s h =
      (Within-on_ice_candidate json texts sdp i mid).at s
  handle-within json texts (channel_opened label channel) s h =
      (Within-on_data_channel_opened label channel).at s
  handle-within json texts (channel_asked label channel) s h = create_channel-within label channel s
