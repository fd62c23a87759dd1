-- ===== src/Session/Opened.antt =====
-- The transport when the WebSocket is open.
use grpc_over_ayame.Base.{ℕ, ◌≡◌, refl, ◌∙◌, true, false, none, some, [], ◌∷◌, ◌++◌, Bytes, arith}
use grpc_over_ayame.Json.{Json}
use grpc_over_ayame.Signaling.{Signaling, success, async_resolve}
use grpc_over_ayame.Signaling.Messages.{register_message}
use grpc_over_ayame.Signaling.Connect.Chain.{drive, drive-progress}
use grpc_over_ayame.Signaling.Peer
use grpc_over_ayame.Transport
use grpc_over_ayame.Transport.{Transport}
use grpc_over_ayame.Session.{listen, listen_all, hear}
use grpc_over_ayame.Session.Seen.{hear-calls}

module _ {V : Type 0} (json : Json V) where
  -- When the four operations of opening the WebSocket succeed, the transport sets the channel's
  -- state to READY, once, and does nothing else. At that time the signaling is not ready, if it was
  -- not before: no data channel can be made. This holds if the text of the registration can be
  -- written.
  pub drive-hear :
      (client_id host port text label : Bytes) (channel : ℕ) (s : Signaling) (t : Transport)
      → s.wss ≡ true
      → s.ready ≡ false
      → json.dump (register_message json client_id) ≡ some text
      → let opened =
          (drive json client_id
            (success ∷ success ∷ success ∷ success ∷ [])
            (async_resolve host port)
            s).0 in
        (hear s opened t
          ≡ (record t { calls = t.calls ++ Transport.set_state Transport.ready ∷ [] }, none))
        × (Peer.create_channel label channel opened ≡ (opened, (none, none)))
  drive-hear client_id host port text label channel s t w r d =
      rw
        (drive-progress json client_id (success ∷ success ∷ success ∷ success ∷ []) host port text s
          w d)
        (
          hear-calls s _ _ t refl ∙ unfold listen_all listen Transport.on_connect in refl,
          unfold Peer.create_channel in ground arith,
        )
