-- ===== src/Session/Seen.antt =====
-- What a transport hears of its signaling, and what its streams see of it.
use grpc_over_ayame.Base.{
  ℕ, ◌≡◌, refl, ap, ◌∙◌, true, false, Option, none, some, List, ◌++◌, length, drop, drop-append,
}
use grpc_over_ayame.Stream.{DataState, Env}
use grpc_over_ayame.Signaling.{
  Signaling, success, async_resolve, async_read, add_ice_candidate, note, with_connection,
}
use grpc_over_ayame.Signaling
use grpc_over_ayame.Signaling.Peer
use grpc_over_ayame.Transport.{Transport}
use grpc_over_ayame.Session.{listen_all, hear, env_of}

pub hear-calls :
    (s s' : Signaling) (cs : List Signaling.Call) (t : Transport)
    → s'.calls ≡ s.calls ++ cs
    → hear s s' t ≡ listen_all cs t
unfolding hear
hear-calls s s' cs t e =
    ap (λ ds. listen_all (drop (length s.calls) ds) t) e
    ∙ ap (λ ds. listen_all ds t) (drop-append s.calls cs)

abbrev pub made : Option ℕ → (ℕ → DataState) → Env
made channel state = record { create_data_channel = channel; create_fault = none; state = state }

pub env_of-unready :
    (s : Signaling) (channel : ℕ) (state : ℕ → DataState)
    → s.ready ≡ false
    → env_of s channel state ≡ made none state
unfolding env_of Peer.create_channel
env_of-unready s channel state r = rw r refl

pub env_of-ready :
    (s : Signaling) (channel p : ℕ) (state : ℕ → DataState)
    → s.ready ≡ true
    → s.connection ≡ some p
    → env_of s channel state ≡ made (some channel) state
unfolding env_of Peer.create_channel
env_of-ready s channel p state r n = rw r (rw n refl)
