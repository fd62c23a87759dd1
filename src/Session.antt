-- ===== src/Session.antt =====
-- How the parts of one end work together: `AyameTransport` listens to its `AyameSignaling`, and its
-- streams take their data channels from it (src/ayame_transport.h: `CreateDataChannel`;
-- src/ayame_signaling.h: `AyameSignalingListener`).
pub mod Seen
pub mod Opened
pub mod Waiting
use grpc_over_ayame.Base.{ℕ, Option, none, some, List, [], ◌∷◌, codes, length, drop}
use grpc_over_ayame.Message.{Fault}
use grpc_over_ayame.Stream.{Action, ◌>>◌, DataState, Env}
use grpc_over_ayame.Signaling.{Signaling, Call, on_connect, on_ready, on_data_channel}
use grpc_over_ayame.Signaling.Peer.{create_channel}
use grpc_over_ayame.Transport
use grpc_over_ayame.Transport.{Transport}

-- One call of the signaling; only those of the listener reach the transport.
unfoldable pub listen : Call → Action Transport
listen on_connect t = (Transport.on_connect t, none)
listen on_ready t = (Transport.on_ready t, none)
listen (on_data_channel channel) t = Transport.on_data_channel channel t
listen _ t = (t, none)

unfoldable pub listen_all : List Call → Action Transport
unfolding listen
listen_all [] t = (t, none)
listen_all (c ∷ cs) t = (listen c >> listen_all cs) t

-- What the transport hears while the signaling goes from `s` to `s'`.
unfoldable pub hear : Signaling → Signaling → Action Transport
unfolding listen_all
hear s s' = listen_all (drop (length s.calls) s'.calls)

-- What a stream sees of the outside where `CreateDataChannel("ayame_transport")` of this signaling
-- answers it and WebRTC would make `channel`.
unfoldable pub env_of : Signaling → ℕ → (ℕ → DataState) → Env
env_of s channel state =
    let (_, (created, fault)) = create_channel (codes "ayame_transport") channel s in
    record { create_data_channel = created; create_fault = fault; state = state }
