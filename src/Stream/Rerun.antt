-- ===== src/Stream/Rerun.antt =====
-- How often a kept batch runs.
use grpc_over_ayame.Base.{
  ℕ, ◌≡◌, refl, ◌∙◌, inl, inr, Option-cases, true, Option, none, some, Bytes, arith,
}
use grpc_over_ayame.Json.{Json}
use grpc_over_ayame.Metadata.{AddTail}
use grpc_over_ayame.Message.{Fault}
use grpc_over_ayame.Mailbox.{Mailbox, wait_for_recv}
use grpc_over_ayame.Stream.{
  StreamOp, Recv, initial_metadata, message, trailing_metadata, Io, Stream, Env, Action, ◌>>◌,
}
use grpc_over_ayame.Stream.Send.{send_all}
use grpc_over_ayame.Stream.Receive.{call, wait_recv, wait_set, receive_all}
use grpc_over_ayame.Stream.Perform.{is_open, perform_now, on_state_change}
use grpc_over_ayame.Stream.Pending.{perform_op-open}

-- The channel and the kept batch stay.
abbrev Keeps : Stream → Stream → Type 0
Keeps s t = (t.dc ≡ s.dc) × (t.pending_op ≡ s.pending_op)

after-Keeps :
    (q : Action Stream) (s : Stream) (r : Stream × Option Fault)
    → Keeps s r.0
    → ((t : Stream) → Keeps t (q t).0)
    → Keeps s (((λ (_ : Stream). r) >> q) s).0
after-Keeps q s (t, none) h k = ((k t).0 ∙ h.0, (k t).1 ∙ h.1)
after-Keeps q s (t, some f) h k = h

module _ {V : Type 0} (json : Json V) (add_tail : AddTail) where
  call-Keeps :
      (m : Mailbox Recv) (c : Option (Recv × Bytes)) (s : Stream)
      → Keeps s (call json add_tail (m, c) s).0
  unfolding call
  call-Keeps m none s = (refl, refl)
  call-Keeps m (some c) s = (refl, refl)

  wait_set-Keeps {ℓ} :
      {A : Type ℓ} (f : A → Recv) (o : Option A) (s : Stream)
      → Keeps s (wait_set json add_tail f o s).0
  unfolding wait_recv
  wait_set-Keeps f none s = (refl, refl)
  wait_set-Keeps f (some a) s = let r = wait_for_recv s.mailbox (f a) in call-Keeps r.0 r.1 s

  receive_all-Keeps : (op : StreamOp) (s : Stream) → Keeps s (receive_all json add_tail op s).0
  unfolding receive_all
  receive_all-Keeps op s =
      let last = wait_set json add_tail trailing_metadata op.recv_trailing_metadata in
      let second = wait_set json add_tail message op.recv_message in
      after-Keeps (second >> last) s _ (wait_set-Keeps initial_metadata op.recv_initial_metadata s)
        λ t.
          after-Keeps last t _ (wait_set-Keeps message op.recv_message t)
            λ u. wait_set-Keeps trailing_metadata op.recv_trailing_metadata u

  perform_now-Keeps :
      (op : StreamOp) (s : Stream)
      → Keeps (record s { pending_op = none }) (perform_now json add_tail op s).0
  unfolding perform_now
  perform_now-Keeps op s = sent (send_all json op s.io)
    where
      sent :
          (r : Io × Option Fault)
          → let t = record s { pending_op = none; io = r.0 } in
            Keeps
              (record s { pending_op = none })
              (let u : Stream × Option Fault = elim r.1 [
                | none ↦ receive_all json add_tail op t
                | some e ↦ (t, some e)
              ] in
                u).0
      sent (io, none) = receive_all-Keeps op (record s { pending_op = none; io = io })
      sent (io, some e) = (refl, refl)

  on_state_change-idle :
      (env : Env) (s : Stream) (c : ℕ)
      → s.dc ≡ some c
      → s.pending_op ≡ none
      → on_state_change json add_tail env s ≡ (s, none)
  unfolding on_state_change
  on_state_change-idle env s c d p = ground arith

  on_state_change-runs :
      (env : Env) (s : Stream) (c : ℕ) (op : StreamOp)
      → s.dc ≡ some c
      → is_open env (some c) ≡ true
      → s.pending_op ≡ some op
      → on_state_change json add_tail env s ≡ perform_now json add_tail op s
  unfolding on_state_change
  on_state_change-runs env s c op d e p =
      ground (arith, perform_op-open json add_tail env op s c d e)

  -- The batch that waits for the channel runs at most once: when the channel has opened, no later
  -- change of its state, to whatever state, makes any call or changes anything.
  pub on_state_change_again :
      (env later : Env) (s : Stream) (c : ℕ)
      → s.dc ≡ some c
      → is_open env (some c) ≡ true
      → let first = on_state_change json add_tail env s in
        on_state_change json add_tail later first.0 ≡ (first.0, none)
  on_state_change_again env later s c d e = elim (Option-cases s.pending_op) [
    | inl p ↦ rw (on_state_change-idle env s c d p) (on_state_change-idle later s c d p)
    | inr (op, p) ↦
        let (dc, pending) = perform_now-Keeps op s in
        rw (on_state_change-runs env s c op d e p)
          (on_state_change-idle later (perform_now json add_tail op s).0 c (dc ∙ d) pending)
  ]
