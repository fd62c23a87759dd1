-- ===== src/Signaling/Connect.antt =====
-- src/ayame_signaling.cpp: `Connect`, `Close` and the handlers up to the WebSocket handshake.
pub mod Opening
pub mod Chain
use grpc_over_ayame.Base.{
  ℕ, Bool, true, false, Option, none, some, List, [], ◌∷◌, ◌++◌, Bytes, codes, same, if◌then◌else◌,
}
use grpc_over_ayame.Url
use grpc_over_ayame.Url.{UrlParts}
use grpc_over_ayame.Message.{Fault, threw, null_dereference}
use grpc_over_ayame.Stream.{Action, ◌>>◌}
use grpc_over_ayame.Signaling.{
  ErrorCode, success, operation_aborted, ws_closed, other_error, Call, async_resolve, async_connect,
  async_ssl_handshake, async_handshake, async_read, async_close, on_connect, Signaling, note,
  with_wss,
}
use grpc_over_ayame.Signaling.Write.{is_empty}
use grpc_over_ayame.Signaling.Messages.{do_send_register}
use grpc_over_ayame.Json.{Json}

-- Whether `CreatePeerConnectionFactory` gives a factory, and `SSL_set_tlsext_host_name` succeeds.
pub record ConnectEnv : Type 0 where
  pub factory_created : Bool
  pub host_name_set : Bool

abbrev pub port_or_default : Bytes → Bytes
port_or_default port = if is_empty port then codes "443" else port

-- How `Connect` ends.
pub data ConnectResult : Type 0 where
  returned : Bool → ConnectResult
  faulted : Fault → ConnectResult

abbrev pub resolve : Signaling → Signaling × ConnectResult
resolve s =
    let lookup = async_resolve s.parts.host (port_or_default s.parts.port) in
    (record s { wss = true; calls = s.calls ++ lookup ∷ [] }, returned true)

abbrev pub refuse : Signaling → Signaling × ConnectResult
refuse s = (s, returned false)

-- `CreatePeerConnectionFactory()`: whether its result is not null. It calls `SetOptions` on the
-- factory, which is a call through null where WebRTC gives none: `none`.
unfoldable pub create_peer_connection_factory : ConnectEnv → Option Bool
create_peer_connection_factory env = if env.factory_created then some true else none

-- What `Connect` does from `factory_ = CreatePeerConnectionFactory()` on.
unfoldable pub connect_wss : ConnectEnv → Signaling → Signaling × ConnectResult
unfolding create_peer_connection_factory
connect_wss env s = elim (create_peer_connection_factory env) [
  | none ↦ (s, faulted null_dereference)
  | some created ↦
      if created
      then (if env.host_name_set
          then resolve (record s { factory = true })
          else refuse (record s { factory = true; wss = true }))
      else refuse (record s { factory = false })
]

-- `Connect(signaling_url)`.
unfoldable pub connect : ConnectEnv → Bytes → Signaling → Signaling × ConnectResult
unfolding connect_wss
connect env signaling_url s = elim (Url.parse signaling_url s.parts) [
  | none ↦ (s, faulted threw)
  | some (parsed, parts) ↦
      let s' = record s { parts = parts } in
      if parsed
      then (if same parts.scheme (codes "wss") then connect_wss env s' else refuse s')
      else refuse s'
]

-- `Close()`, through `wss_`.
unfoldable pub close : Action Signaling
close = with_wss (note (async_close ∷ []))

abbrev pub is_success : ErrorCode → Bool
is_success success = true
is_success _ = false

abbrev pub on_success : ErrorCode → Action Signaling → Action Signaling
on_success ec k s = if is_success ec then k s else (s, none)

-- The handlers log an error and return.
unfoldable pub on_resolve : ErrorCode → Action Signaling
on_resolve ec = on_success ec (with_wss (note (async_connect ∷ [])))

unfoldable pub on_ssl_connect : ErrorCode → Action Signaling
on_ssl_connect ec = on_success ec (with_wss (note (async_ssl_handshake ∷ [])))

unfoldable pub on_ssl_handshake : ErrorCode → Action Signaling
on_ssl_handshake ec =
    on_success ec
      (with_wss λ s. note (async_handshake s.parts.host s.parts.path_query_fragment ∷ []) s)

unfoldable pub do_read : Action Signaling
do_read = with_wss (note (async_read ∷ []))

-- `OnHandshake`, with the random client id that `DoSendRegister` makes.
unfoldable pub on_handshake : {V : Type 0} → Json V → Bytes → ErrorCode → Action Signaling
unfolding do_read
on_handshake json client_id ec =
    on_success ec do do_read; do_send_register json client_id; note (on_connect ∷ [])

unfoldable pub on_close : ErrorCode → Action Signaling
on_close ec s = (s, none)
