-- ===== src/Session/Waiting.antt =====
-- A call that starts before the peer is connected.
use grpc_over_ayame.Base.{ℕ, ◌≡◌, refl, sym, ap, ◌∙◌, true, false, Option, none, some, ◌++◌, arith}
use grpc_over_ayame.Json.{Json}
use grpc_over_ayame.Metadata.{AddTail}
use grpc_over_ayame.Message.{Fault}
use grpc_over_ayame.Stream.{StreamOp, Stream, DataState, connecting, open_state, Env}
use grpc_over_ayame.Stream.Perform.{
  is_open, perform_op, perform_now, on_ready, on_state_change, create_channel, postpone,
}
use grpc_over_ayame.Stream.Pending.{
  on_ready-perform_op, on_state_change-perform_op, perform_op-open,
}
use grpc_over_ayame.Signaling.{Signaling}
use grpc_over_ayame.Signaling.Read.{RtcEnv, on_candidate}
use grpc_over_ayame.Signaling.Read.Accepted.{IsCandidate, candidate_calls, on_candidate-IsCandidate}
use grpc_over_ayame.Transport
use grpc_over_ayame.Transport.{Transport}
use grpc_over_ayame.Session.{listen, listen_all, hear, env_of}
use grpc_over_ayame.Session.Seen.{hear-calls, made, env_of-unready, env_of-ready}

on_candidate-first :
    {V : Type 0} (json : Json V) (env : RtcEnv) (js : V) (s : Signaling) (p : ℕ)
    (c : IsCandidate json env js)
    → s.wss ≡ true
    → s.ready ≡ false
    → s.connection ≡ some p
    → on_candidate json env js s ≡ (
      record s {
        ready = true;
        calls = s.calls ++ candidate_calls false c.sdp_mid c.sdp_mlineindex c.sdp;
      },
      none,
    )
on_candidate-first json env js s p c w r n =
    on_candidate-IsCandidate json env js s p c w n
    ∙ ap
        (λ ready. (
          record s {
            ready = true;
            calls = s.calls ++ candidate_calls ready c.sdp_mid c.sdp_mlineindex c.sdp;
          },
          none,
        ))
        r

-- Every channel in this state.
abbrev pub in_state : DataState → ℕ → DataState
in_state state channel = state

module _ {V : Type 0} (json : Json V) (add_tail : AddTail) where
  perform_op-created :
      (env : Env) (op : StreamOp) (st : Stream) (channel : ℕ)
      → st.dc ≡ none
      → env.create_data_channel ≡ some channel
      → env.create_fault ≡ none
      → is_open env (some channel) ≡ false
      → perform_op json add_tail env op st
        ≡ (postpone op (record st { dc = some channel; callbacks_set = true }), none)
  unfolding perform_op create_channel
  perform_op-created env op st channel d e g o = ground arith

  postpone-again :
      (op : StreamOp) (st : Stream)
      → postpone op (record st { pending_op = some op }) ≡ record st { pending_op = some op }
  unfolding postpone
  postpone-again op st = ground arith

  on_ready-created :
      (env : Env) (op : StreamOp) (st : Stream) (channel : ℕ)
      → st.dc ≡ none
      → env.create_data_channel ≡ some channel
      → env.create_fault ≡ none
      → is_open env (some channel) ≡ false
      → on_ready json add_tail env (record st { pending_op = some op })
        ≡ (record st { dc = some channel; callbacks_set = true; pending_op = some op }, none)
  unfolding on_ready
  on_ready-created env op st channel d e g o =
      perform_op-created env op (record st { pending_op = some op }) channel d e g o
      ∙ ap (λ u. (u, none))
          (postpone-again op (record st { dc = some channel; callbacks_set = true }))

  on_state_change-opened :
      (late opened : Env) (op : StreamOp) (st : Stream) (channel : ℕ)
      → st.dc ≡ some channel
      → st.pending_op ≡ none
      → is_open late (some channel) ≡ false
      → is_open opened (some channel) ≡ true
      → on_state_change json add_tail opened (record st { pending_op = some op })
        ≡ perform_now json add_tail op st
  on_state_change-opened late opened op st channel d q l o =
      let (k, e) = on_state_change-perform_op json add_tail late opened op st channel d q l o in
      ap (λ (u : Stream × Option Fault). on_state_change json add_tail opened u.0) (sym k)
      ∙ (e ∙ perform_op-open json add_tail opened op st channel d o)

  -- A batch that comes before the peer is known waits, with no call made. The first candidate that
  -- WebRTC takes makes the transport run the functions that wait for it; the stream's creates the
  -- data channel and leaves the batch waiting while that connects. When the channel opens, the
  -- batch runs as it would have run over an open channel.
  pub perform_op-waits :
      (env : RtcEnv) (js : V) (op : StreamOp) (s : Signaling) (st : Stream) (t : Transport)
      (p channel : ℕ)
      → IsCandidate json env js
      → s.wss ≡ true
      → s.ready ≡ false
      → s.connection ≡ some p
      → st.dc ≡ none
      → st.pending_op ≡ none
      → let early = env_of s channel (in_state connecting) in
        let s' = (on_candidate json env js s).0 in
        let late = env_of s' channel (in_state connecting) in
        let opened = env_of s' channel (in_state open_state) in
        let waiting = record st { pending_op = some op } in
        let with_channel = record st { dc = some channel; callbacks_set = true } in
        (perform_op json add_tail early op st ≡ (waiting, none))
        × (hear s s' t ≡ (Transport.on_ready t, none))
        × (on_ready json add_tail late waiting
            ≡ (record with_channel { pending_op = some op }, none))
        × (on_state_change json add_tail opened (record with_channel { pending_op = some op })
            ≡ perform_now json add_tail op with_channel)
  perform_op-waits env js op s st t p channel c w r n d q =
      let s' = record s {
        ready = true;
        calls = s.calls ++ candidate_calls false c.sdp_mid c.sdp_mlineindex c.sdp;
      } in
      let early = made none (in_state connecting) in
      let late = made (some channel) (in_state connecting) in
      let opened = made (some channel) (in_state open_state) in
      let with_channel = record st { dc = some channel; callbacks_set = true } in
      rw (on_candidate-first json env js s p c w r n) (
        rw (env_of-unready s channel (in_state connecting) r)
            (on_ready-perform_op json add_tail early late op st d q refl refl).0,
        hear-calls s s' _ t refl ∙ (unfold listen_all listen in refl),
        rw (env_of-ready s' channel p (in_state connecting) refl n)
            (on_ready-created late op st channel d refl refl refl),
        rw (env_of-ready s' channel p (in_state open_state) refl n)
            (on_state_change-opened late opened op with_channel channel refl q refl refl),
      )
