-- ===== src/Signaling/Local.antt =====
-- Relations that hold of the steps which the handlers share.
pub mod OnRead
use grpc_over_ayame.Base.{
  ◌≡◌, ℕ, Bool, true, false, Option, none, some, List, [], ◌∷◌, Bytes, codes, same, if◌then◌else◌,
  All,
}
use grpc_over_ayame.Json.{ℤ, Json}
use grpc_over_ayame.Url
use grpc_over_ayame.Url.{UrlParts}
use grpc_over_ayame.Message.{threw, null_dereference}
use grpc_over_ayame.Stream.{Action}
use grpc_over_ayame.Signaling.{
  ErrorCode, success, operation_aborted, ws_closed, other_error, SdpType, offer, answer, Call,
  async_write, on_ready, create_peer_connection, create_data_channel, set_remote_description,
  add_ice_candidate, async_connect, async_ssl_handshake, async_handshake, async_read, async_close,
  on_connect, create_answer, set_local_description, on_data_channel, post_text, Signaling, note,
  need,
}
use grpc_over_ayame.Signaling.Messages.{
  create_ice_servers, send_json, do_send_register, do_send_pong, register_message, pong_message,
  description_message, candidate_message,
}
use grpc_over_ayame.Signaling.Write.{send_text}
use grpc_over_ayame.Signaling.Connect.{
  ConnectEnv, faulted, close, do_read, connect_wss, create_peer_connection_factory, on_resolve,
  on_ssl_connect, on_ssl_handshake, on_handshake, on_close, is_success,
}
use grpc_over_ayame.Signaling.Connect
use grpc_over_ayame.Signaling.Read.{
  RtcEnv, connected, take_candidate, offer_if_exists, on_accept, on_description_message,
  become_ready, on_candidate, on_ping, on_bye, dispatch, on_read,
}
use grpc_over_ayame.Signaling.Peer.{
  on_create_description, on_ice_candidate, on_set_offer, on_data_channel_opened, create_channel,
}
use grpc_over_ayame.Signaling.Within.{
  IsPreorder, Within, Within-test, Within-seq, Within-found, Within-if, Within-none, at-if,
  Within-with_wss, Within-with_connection, at-option,
}
use grpc_over_ayame.Signaling.History.{
  Event, connect, closes, resolved, ssl_connected, ssl_handshaken, close_done, written, handshaken,
  read, sends, description_created, offer_set, ice_candidate, channel_opened, channel_asked, handle,
}

-- The calls that others than the write queue and `become_ready` make, where every text posted is
-- `Sent`.
abbrev pub IsPlain : (Bytes → Type 0) → Call → Type 0
IsPlain Sent (async_write b) = ⊥
IsPlain Sent on_ready = ⊥
IsPlain Sent (post_text text) = Sent text
IsPlain Sent _ = Unit

-- The texts of the messages that the handlers send.
pub record SendsTexts {V : Type 0} (json : Json V) (Sent : Bytes → Type 0) : Type 0 where
  pub registers :
      (client_id text : Bytes) → json.dump (register_message json client_id) ≡ some text → Sent text
  pub pongs : (text : Bytes) → json.dump (pong_message json) ≡ some text → Sent text
  pub describes :
      (type : SdpType) (sdp text : Bytes)
      → json.dump (description_message json type sdp) ≡ some text
      → Sent text
  pub nominates :
      (sdp : Bytes) (i : ℤ) (mid text : Bytes)
      → json.dump (candidate_message json sdp i mid) ≡ some text
      → Sent text

-- The fields that neither of them changes.
abbrev pub others : Signaling → UrlParts → Bool → Bool → Option ℕ → Option ℕ → Signaling
others s parts factory wss connection datachannel = record s {
  parts = parts;
  factory = factory;
  wss = wss;
  connection = connection;
  datachannel = datachannel;
}

pub record IsLocal (Sent : Bytes → Type 0) (R : Signaling → Signaling → Type 0) : Type 0 where
  pub preorder : IsPreorder R
  pub of_note : (cs : List Call) → All (IsPlain Sent) cs → Within R (note cs)
  pub of_ready : Within R become_ready
  pub of_others :
      (s : Signaling) (parts : UrlParts) (factory wss : Bool) (connection datachannel : Option ℕ)
      → R s (others s parts factory wss connection datachannel)

module _ {Sent : Bytes → Type 0} (R : Signaling → Signaling → Type 0) (l : IsLocal Sent R) where
  abbrev p : IsPreorder R
  p = l.preorder

  pub of_call : (c : Call) → IsPlain Sent c → Within R (note (c ∷ []))
  of_call c h = l.of_note (c ∷ []) (h, tt)

  -- New fields, then calls.
  pub others-note :
      (s t : Signaling) (cs : List Call) → R s t → All (IsPlain Sent) cs → R s (note cs t).0
  others-note s t cs h k = p.transitive s t (note cs t).0 h ((l.of_note cs k).at t)

  pub Within-close : Within R close
  unfolding close
  Within-close = Within-with_wss R p _ (of_call async_close tt)

  pub Within-do_read : Within R do_read
  unfolding do_read
  Within-do_read = Within-with_wss R p _ (of_call async_read tt)

  pub of_error :
      (ec : ErrorCode) (a : Action Signaling)
      → Within R a
      → Within R (λ s. if is_success ec then a s else (s, none))
  of_error ec a h = Within-if R p (is_success ec) a (λ s. (s, none)) h (Within-none R p)

  module _ {V : Type 0} (json : Json V) where
    pub Within-send_json :
        (message : V)
        → ((text : Bytes) → json.dump message ≡ some text → Sent text)
        → Within R (send_json json message)
    unfolding send_json send_text
    Within-send_json message sent =
        Within-found R p threw (json.dump message) _
          (λ text e. of_call (post_text text) (sent text e))

-- Where it does not matter which texts are sent.
abbrev pub AnyText : Bytes → Type 0
AnyText text = Unit

pub AnyText-SendsTexts : {V : Type 0} (json : Json V) → SendsTexts json AnyText
AnyText-SendsTexts json = record {
  registers = λ client_id text e. tt;
  pongs = λ text e. tt;
  describes = λ type sdp text e. tt;
  nominates = λ sdp i mid text e. tt;
}
