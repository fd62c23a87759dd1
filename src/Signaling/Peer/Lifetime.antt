-- ===== src/Signaling/Peer/Lifetime.antt =====
-- When `CreateDataChannel` can be called.
use grpc_over_ayame.Base.{
  ℕ, ◌≡◌, ap, ◌∙◌, true, Option, none, some, [], ◌∷◌, ◌++◌, Bytes, codes, same, arith,
}
use grpc_over_ayame.Json.{Json}
use grpc_over_ayame.Message.{Fault, null_dereference}
use grpc_over_ayame.Signaling.{success, async_close, Signaling}
use grpc_over_ayame.Signaling.Connect.{close}
use grpc_over_ayame.Signaling.Read.{RtcEnv, on_bye, dispatch, on_read}
use grpc_over_ayame.Signaling.Peer.{create_channel}

-- The message is a JSON object with this type.
abbrev pub HasType : {V : Type 0} → Json V → Bytes → Bytes → Type 0
HasType {V} json text type =
    (js : V) × (v : V) × (json.parse text ≡ some js)
    × (json.get (codes "type") js ≡ some v)
    × (json.as_text v ≡ some type)

module _ {V : Type 0} (json : Json V) where
  on_read-bye :
      (env : RtcEnv) (text : Bytes) (s : Signaling)
      → HasType json text (codes "bye")
      → on_read json env success text s ≡ on_bye json env s
  unfolding on_read dispatch same
  on_read-bye env text s (js, v, p, g, t) = rw (p, on_read) (rw g (rw t))

  bye_closed :
      (env : RtcEnv) (s : Signaling)
      → s.wss ≡ true
      → on_bye json env s
        ≡ (record s { connection = none; calls = s.calls ++ async_close ∷ [] }, none)
  unfolding on_bye close
  bye_closed env s w = ground arith

  create_channel-null :
      (label : Bytes) (channel : ℕ) (t : Signaling)
      → t.ready ≡ true
      → t.connection ≡ none
      → create_channel label channel t ≡ (t, (none, some null_dereference))
  unfolding create_channel
  create_channel-null label channel t r c = ground arith

  -- After "bye" the connection is gone and `ready_` stays set: `CreateDataChannel` then calls
  -- through the null `connection_`.
  pub create_channel-bye :
      (env : RtcEnv) (text label : Bytes) (channel : ℕ) (s : Signaling)
      → s.wss ≡ true
      → s.ready ≡ true
      → HasType json text (codes "bye")
      → let after = (on_read json env success text s).0 in
        create_channel label channel after ≡ (after, (none, some null_dereference))
  create_channel-bye env text label channel s w r h =
      let e = on_read-bye env text s h ∙ bye_closed env s w in
      create_channel-null label channel _ (ap (λ (t : Signaling × Option Fault). t.0.ready) e ∙ r)
        (ap (λ (t : Signaling × Option Fault). t.0.connection) e)
