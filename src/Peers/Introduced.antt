-- ===== src/Peers/Introduced.antt =====
-- What an end does when the server has taken its registration.
use grpc_over_ayame.Base.{
  ℕ, ◌≡◌, refl, ap, ◌∙◌, Bool, true, false, none, some, List, [], ◌∷◌, ◌++◌, append_assoc,
  append-nil, Bytes, codes, same, if◌then◌else◌, arith,
}
use grpc_over_ayame.Json.{Json}
use grpc_over_ayame.Stream.{◌>>◌, after_ok}
use grpc_over_ayame.Signaling.{
  success, Call, Signaling, create_peer_connection, create_data_channel, create_offer, async_read,
}
use grpc_over_ayame.Signaling.Messages.{create_ice_servers}
use grpc_over_ayame.Signaling.Read.{
  RtcEnv, on_read, on_accept, connected, offer_if_exists, dispatch, with_bool,
}
use grpc_over_ayame.Signaling.Read.Accepted.{do_read_lem}
use grpc_over_ayame.Signaling.Connect.{do_read}
use grpc_over_ayame.Peers.Items.{on_read-dispatch}

-- The server's answer to the registration; it says whether the other end is there already.
pub record IsAccept {V : Type 0} (json : Json V) (text : Bytes) (exists : Bool) : Type 0 where
  pub js : V
  pub type_value : V
  pub exists_value : V
  pub parsed : json.parse text ≡ some js
  pub has_type : json.get (codes "type") js ≡ some type_value
  pub type_is : json.as_text type_value ≡ some (codes "accept")
  pub has_exists : json.get (codes "isExistUser") js ≡ some exists_value
  pub exists_is : json.as_bool exists_value ≡ some exists

-- The servers do not depend on the message.
abbrev pub configured : Call
configured = create_peer_connection (record {
  servers = codes "stun:stun.l.google.com:19302" ∷ [];
  enable_dtls_srtp = true;
  unified_plan = true;
})

abbrev pub offers : Bool → List Call
offers exists = if exists then create_data_channel (codes "init") ∷ create_offer ∷ [] else []

-- The signaling behind such an answer.
abbrev pub accepted : RtcEnv → Bool → Signaling → Signaling
accepted env exists s = record s {
  connection = env.peer_connection;
  datachannel = if exists then env.init_channel else s.datachannel;
  calls = s.calls ++ configured ∷ (offers exists ++ async_read ∷ []);
}

module _ {V : Type 0} (json : Json V) (env : RtcEnv) where
  abbrev with_peer : Signaling → Signaling
  with_peer s = record s { connection = env.peer_connection; calls = s.calls ++ configured ∷ [] }

  connected_lem :
      (js : V) (s : Signaling) → s.factory ≡ true → connected json env js s ≡ (with_peer s, none)
  unfolding create_ice_servers
  connected_lem js s f = rw f refl

  abbrev offering : Bool → Signaling → Signaling
  offering exists s = record s {
    datachannel = if exists then env.init_channel else s.datachannel;
    calls = s.calls ++ offers exists;
  }

  offer_if_exists_lem :
      (exists : Bool) (s : Signaling) (p : ℕ)
      → s.connection ≡ some p
      → offer_if_exists json env exists s ≡ (offering exists s, none)
  unfolding offer_if_exists
  offer_if_exists_lem false s p n = ground (arith, append-nil s.calls)
  offer_if_exists_lem true s p n = ground arith

  pub on_read-IsAccept :
      (text : Bytes) (exists : Bool) (s : Signaling) (p : ℕ)
      → IsAccept json text exists
      → s.wss ≡ true
      → s.factory ≡ true
      → env.peer_connection ≡ some p
      → on_read json env success text s ≡ (accepted env exists s, none)
  unfolding dispatch on_accept same
  on_read-IsAccept text exists s p a w f n =
      let asks = with_bool json env (codes "isExistUser") a.js (offer_if_exists json env) in
      let s₁ = with_peer s in
      let s₂ = offering exists s₁ in
      let asked : asks s₁ ≡ (s₂, none) =
        rw a.has_exists (rw a.exists_is (offer_if_exists_lem exists s₁ p n)) in
      on_read-dispatch json env text (codes "accept") a.js a.type_value s a.parsed a.has_type
        a.type_is
      ∙ (after_ok (connected json env a.js) (asks >> do_read) s s₁ (connected_lem a.js s f)
          ∙ (after_ok asks do_read s₁ s₂ asked
              ∙ (do_read_lem s₂ w
                  ∙ ap
                      (λ cs. (
                        record s {
                          connection = env.peer_connection;
                          datachannel = if exists then env.init_channel else s.datachannel;
                          calls = cs;
                        },
                        none,
                      ))
                      (append_assoc (s.calls ++ configured ∷ []) (offers exists) (async_read ∷ [])
                        ∙ append_assoc s.calls (configured ∷ [])
                            (offers exists ++ async_read ∷ [])))))
