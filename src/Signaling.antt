-- ===== src/Signaling.antt =====
-- src/ayame_signaling.h and src/ayame_signaling.cpp: `AyameSignaling`. It is its fields and a log
-- of the calls that it makes of Boost, WebRTC and its listener. Peer connections and data channels
-- are numbers; what WebRTC returns to a handler is an argument of that handler.
pub mod Connect
pub mod Write
pub mod Messages
pub mod Read
pub mod Peer
pub mod History
pub mod Within
pub mod Local
pub mod Handlers
pub mod Whole
pub mod Texts
pub mod Ready
pub mod Writes
pub mod Starts
pub mod States
use grpc_over_ayame.Base.{
  ℕ, Bool, true, false, Option, none, some, List, [], ◌∷◌, ◌++◌, Bytes, if◌then◌else◌,
}
use grpc_over_ayame.Json.{ℤ}
use grpc_over_ayame.Message.{Fault, null_dereference}
use grpc_over_ayame.Stream.{Action}
use grpc_over_ayame.Url.{UrlParts}

-- `boost::system::error_code`, as far as the handlers tell it apart.
pub data ErrorCode : Type 0 where
  success operation_aborted ws_closed other_error : ErrorCode

-- `webrtc::SdpType`, as the program names it.
pub data SdpType : Type 0 where
  offer answer : SdpType

-- `RTCConfiguration`, as far as the program sets it; its semantics are the unified plan or not.
pub record RtcConfiguration : Type 0 where
  pub servers : List Bytes
  pub enable_dtls_srtp : Bool
  pub unified_plan : Bool

pub data Call : Type 0 where
  async_resolve : Bytes → Bytes → Call
  async_connect async_ssl_handshake : Call
  async_handshake : Bytes → Bytes → Call
  async_read async_close : Call
  async_write : Bytes → Call
  -- `boost::asio::post` of `DoSendText(text)`.
  post_text : Bytes → Call
  on_connect on_ready : Call
  on_data_channel : ℕ → Call
  create_peer_connection : RtcConfiguration → Call
  create_data_channel : Bytes → Call
  create_offer create_answer set_local_description : Call
  set_remote_description : SdpType → Bytes → Call
  add_ice_candidate : Bytes → ℤ → Bytes → Call

pub record Signaling : Type 0 where
  pub parts : UrlParts
  -- `factory_` and `wss_` are not null.
  pub factory : Bool
  pub wss : Bool
  pub write_buffer : List Bytes
  pub connection : Option ℕ
  pub datachannel : Option ℕ
  pub ready : Bool
  pub calls : List Call

abbrev pub note : List Call → Action Signaling
note cs s = (record s { calls = s.calls ++ cs }, none)

abbrev pub fail : Fault → Action Signaling
fail f s = (s, some f)

-- Go on with a value, or end in a fault where there is none.
abbrev pub need {ℓ} : {A : Type ℓ} → Fault → Option A → (A → Action Signaling) → Action Signaling
need f none k s = (s, some f)
need f (some a) k s = k a s

-- A call through `wss_`.
abbrev pub with_wss : Action Signaling → Action Signaling
with_wss k s = if s.wss then k s else (s, some null_dereference)

-- A call through `connection_`.
abbrev pub with_connection : Action Signaling → Action Signaling
with_connection k s = need null_dereference s.connection (λ _. k) s

-- The constructor, and `Create`.
unfoldable pub create : Signaling
create = record {
  parts = record { scheme = []; user_pass = []; host = []; port = []; path_query_fragment = [] };
  factory = false;
  wss = false;
  write_buffer = [];
  connection = none;
  datachannel = none;
  ready = false;
  calls = [];
}
