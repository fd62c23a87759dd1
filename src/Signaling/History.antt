-- ===== src/Signaling/History.antt =====
-- A life of `AyameSignaling`: its operations and handlers, in any order.
use grpc_over_ayame.Base.{ℕ, Option, none, some, List, [], ◌∷◌, Bytes}
use grpc_over_ayame.Json.{ℤ, Json}
use grpc_over_ayame.Message.{Fault}
use grpc_over_ayame.Stream.{Action}
use grpc_over_ayame.Signaling.{ErrorCode, SdpType, Signaling}
use grpc_over_ayame.Signaling.Connect
use grpc_over_ayame.Signaling.Connect.{
  ConnectEnv, ConnectResult, returned, faulted, close, on_resolve, on_ssl_connect, on_ssl_handshake,
  on_handshake, on_close,
}
use grpc_over_ayame.Signaling.Write.{do_send_text, on_write}
use grpc_over_ayame.Signaling.Read.{RtcEnv, on_read}
use grpc_over_ayame.Signaling.Peer.{
  on_create_description, on_ice_candidate, on_set_offer, on_data_channel_opened, create_channel,
}

pub data Event : Type 0 where
  connect : ConnectEnv → Bytes → Event
  closes : Event
  resolved ssl_connected ssl_handshaken close_done written : ErrorCode → Event
  handshaken : Bytes → ErrorCode → Event
  read : RtcEnv → ErrorCode → Bytes → Event
  sends : Bytes → Event
  description_created : SdpType → Bytes → Event
  offer_set : Event
  ice_candidate : Option Bytes → ℤ → Bytes → Event
  channel_opened channel_asked : Bytes → ℕ → Event

abbrev fault_of : ConnectResult → Option Fault
fault_of (returned b) = none
fault_of (faulted f) = some f

module _ {V : Type 0} (json : Json V) where
  unfoldable pub handle : Event → Action Signaling
  handle (connect env url) s = let (s', r) = Connect.connect env url s in (s', fault_of r)
  handle closes s = close s
  handle (resolved ec) s = on_resolve ec s
  handle (ssl_connected ec) s = on_ssl_connect ec s
  handle (ssl_handshaken ec) s = on_ssl_handshake ec s
  handle (close_done ec) s = on_close ec s
  handle (written ec) s = on_write ec s
  handle (handshaken client_id ec) s = on_handshake json client_id ec s
  handle (read env ec text) s = on_read json env ec text s
  handle (sends text) s = do_send_text text s
  handle (description_created type sdp) s = on_create_description json type sdp s
  handle offer_set s = on_set_offer s
  handle (ice_candidate sdp sdp_mline_index sdp_mid) s =
      on_ice_candidate json sdp sdp_mline_index sdp_mid s
  handle (channel_opened label channel) s = on_data_channel_opened label channel s
  handle (channel_asked label channel) s = let (s', r) = create_channel label channel s in (s', r.1)

  -- A fault ends the program.
  unfoldable pub run : List Event → Signaling → Signaling
  run [] s = s
  run (e ∷ es) s = elim (handle e s).1 [ none ↦ run es (handle e s).0 | some f ↦ (handle e s).0 ]
