-- ===== src/Stream/Pending.antt =====
-- Operation batches that come before the data channel is open.
use grpc_over_ayame.Base.{
  ◌⊎◌, inl, inr, ℕ, ◌≡◌, refl, ap, ◌∙◌, ◌≢◌, true, false, Option, none, some, [], ◌∷◌, arith,
}
use grpc_over_ayame.Json.{Json}
use grpc_over_ayame.Metadata.{AddTail}
use grpc_over_ayame.Message.{Fault}
use grpc_over_ayame.Stream.{StreamOp, log_has_pending_op, Stream, Env, push, Action}
use grpc_over_ayame.Stream.Perform.{
  is_open, create_channel, postpone, perform_now, perform_op, on_ready, on_state_change,
}

-- The fault that ends a batch for want of its channel.
abbrev pub fault_of_channel : Env → Stream → Option Fault
fault_of_channel env s = elim s.dc [ none ↦ env.create_fault | some c ↦ none ]

abbrev pub still_kept : Option Fault → StreamOp → Stream × Option Fault → Stream × Option Fault
still_kept none op r = r
still_kept (some f) op (s, fault) = (record s { pending_op = some op }, fault)

-- No channel can be made, or the one that is there is not open.
abbrev pub IsUnusable : Env → Stream → Type 0
IsUnusable env s =
    ((s.dc ≡ none) × (env.create_data_channel ≡ none) × (env.create_fault ≡ none))
    ⊎ ((c : ℕ) × (s.dc ≡ some c) × (is_open env (some c) ≡ false))

-- There is no channel, or it is open by now.
abbrev pub Resumes : Env → Stream → Type 0
Resumes env s = (s.dc ≡ none) ⊎ ((c : ℕ) × (s.dc ≡ some c) × (is_open env (some c) ≡ true))

module _ {V : Type 0} (json : Json V) (add_tail : AddTail) where
  perform_op-closed :
      (env : Env) (op : StreamOp) (s : Stream) (c : ℕ)
      → s.dc ≡ some c
      → is_open env (some c) ≡ false
      → perform_op json add_tail env op s ≡ (postpone op s, none)
  unfolding perform_op
  perform_op-closed env op s c d e = ground arith

  pub perform_op-open :
      (env : Env) (op : StreamOp) (s : Stream) (c : ℕ)
      → s.dc ≡ some c
      → is_open env (some c) ≡ true
      → perform_op json add_tail env op s ≡ perform_now json add_tail op s
  unfolding perform_op
  perform_op-open env op s c d e = ground arith

  perform_op-missing :
      (env : Env) (op : StreamOp) (s : Stream)
      → s.dc ≡ none
      → env.create_data_channel ≡ none
      → env.create_fault ≡ none
      → perform_op json add_tail env op s ≡ (postpone op s, none)
  unfolding perform_op create_channel
  perform_op-missing env op s d e f = ground arith

  -- The only use of the kept batch in `perform_now` is to forget it.
  perform_now-kept :
      (op : StreamOp) (s : Stream)
      → perform_now json add_tail op (record s { pending_op = some op })
        ≡ perform_now json add_tail op s
  unfolding perform_now
  perform_now-kept op s = refl

  postpone-free :
      (op : StreamOp) (s : Stream)
      → s.pending_op ≡ none
      → postpone op s ≡ record s { pending_op = some op }
  unfolding postpone
  postpone-free op s p = ground arith

  postpone_drops :
      (op kept : StreamOp) (s : Stream)
      → s.pending_op ≡ some kept
      → kept.address ≢ op.address
      → postpone op s ≡ record s { io = push s.io (log_has_pending_op ∷ []) }
  unfolding postpone
  postpone_drops op kept s p n = ground arith

  postpone-kept :
      (op : StreamOp) (s : Stream)
      → s.pending_op ≡ none
      → postpone op (record s { pending_op = some op }) ≡ postpone op s
  unfolding postpone
  postpone-kept op s p = ground arith

  -- To run the kept batch is to run it afresh, whatever the channel does by then; where the channel
  -- cannot be made for a fault, the batch stays kept.
  perform_op-kept :
      (env : Env) (op : StreamOp) (s : Stream)
      → s.pending_op ≡ none
      → perform_op json add_tail env op (record s { pending_op = some op })
        ≡ still_kept (fault_of_channel env s) op (perform_op json add_tail env op s)
  unfolding perform_op create_channel
  perform_op-kept env op s p = ground (
    arith,
    postpone-kept op s p,
    postpone-kept op (opened s) p,
    perform_now-kept op s,
    perform_now-kept op (opened s),
  )
    where
      opened : Stream → Stream
      opened t = record t { dc = env.create_data_channel; callbacks_set = true }

  fault_of_channel-some :
      (env : Env) (s : Stream) (c : ℕ) → s.dc ≡ some c → fault_of_channel env s ≡ none
  fault_of_channel-some env s c d = rw d refl

  on_state_change-kept :
      (env : Env) (op : StreamOp) (s : Stream) (c : ℕ)
      → s.dc ≡ some c
      → is_open env (some c) ≡ true
      → on_state_change json add_tail env (record s { pending_op = some op })
        ≡ perform_op json add_tail env op (record s { pending_op = some op })
  unfolding on_state_change
  on_state_change-kept env op s c d e = ground arith

  -- A batch that comes while the channel is there and not open is kept, with no call made. When the
  -- channel opens, it runs with the calls, the new state and the fault that it would have had if
  -- it had come then.
  pub on_state_change-perform_op :
      (early late : Env) (op : StreamOp) (s : Stream) (c : ℕ)
      → s.dc ≡ some c
      → s.pending_op ≡ none
      → is_open early (some c) ≡ false
      → is_open late (some c) ≡ true
      → let kept = perform_op json add_tail early op s in
        (kept ≡ (record s { pending_op = some op }, none))
        × (on_state_change json add_tail late kept.0 ≡ perform_op json add_tail late op s)
  on_state_change-perform_op early late op s c d p e l =
      let kept : perform_op json add_tail early op s ≡ (record s { pending_op = some op }, none) =
        ground (arith, perform_op-closed early op s c d e, postpone-free op s p) in
      let again = perform_op json add_tail late op s in
      (
        kept,
        rw kept (
            on_state_change-kept late op s c d l
            ∙ (perform_op-kept late op s p
                ∙ ap (λ f. still_kept f op again) (fault_of_channel-some late s c d))),
      )

  -- A batch that comes while no channel can be made is kept too, with no call made, and `OnReady`
  -- does with it what `PerformOp` would do if it came then: create the channel, and run or keep it.
  -- If making the channel ends in a fault, so does `OnReady`, and the batch is still kept.
  pub on_ready-perform_op :
      (early late : Env) (op : StreamOp) (s : Stream)
      → s.dc ≡ none
      → s.pending_op ≡ none
      → early.create_data_channel ≡ none
      → early.create_fault ≡ none
      → let kept = perform_op json add_tail early op s in
        (kept ≡ (record s { pending_op = some op }, none))
        × (on_ready json add_tail late kept.0
            ≡ still_kept late.create_fault op (perform_op json add_tail late op s))
  unfolding on_ready
  on_ready-perform_op early late op s d p e f =
      let kept : perform_op json add_tail early op s ≡ (record s { pending_op = some op }, none) =
        ground (arith, perform_op-missing early op s d e f, postpone-free op s p) in
      let again = perform_op json add_tail late op s in
      let is : fault_of_channel late s ≡ late.create_fault = rw d refl in
      (kept, rw kept (perform_op-kept late op s p ∙ ap (λ g. still_kept g op again) is))

  -- The callback that runs the batch kept: `OnReady`, or that of the channel's state.
  abbrev pub resume : Env → Action Stream
  resume env s = elim s.dc [
    | none ↦ on_ready json add_tail env s
    | some c ↦ on_state_change json add_tail env s
  ]

  resume-kept :
      (env : Env) (op : StreamOp) (s : Stream)
      → Resumes env s
      → resume env (record s { pending_op = some op })
        ≡ perform_op json add_tail env op (record s { pending_op = some op })
  unfolding on_ready on_state_change
  resume-kept env op s (inl d) = ground arith
  resume-kept env op s (inr (c, d, e)) = ground arith

  postpone-next :
      (first second : StreamOp) (s : Stream)
      → first.address ≢ second.address
      → postpone second (record s { pending_op = some first })
        ≡ record s { pending_op = some first; io = push s.io (log_has_pending_op ∷ []) }
  postpone-next first second s n =
      postpone_drops second first (record s { pending_op = some first }) refl n

  perform_op-unusable :
      (env : Env) (op : StreamOp) (s : Stream)
      → IsUnusable env s
      → perform_op json add_tail env op s ≡ (postpone op s, none)
  perform_op-unusable env op s (inl (d, e, f)) = perform_op-missing env op s d e f
  perform_op-unusable env op s (inr (c, d, e)) = perform_op-closed env op s c d e

  -- Of two batches that come before the channel is open, whether it cannot be made yet or is there
  -- and connects, the second is lost, with no fault: it is neither kept nor run, and no closure of
  -- it runs, `on_complete` included. `OnReady` or the opening of the channel then runs the first as
  -- if it came only then; the second has left nothing but a line in the log.
  pub perform_op_drops :
      (early late : Env) (first second : StreamOp) (s : Stream)
      → IsUnusable early s
      → s.pending_op ≡ none
      → first.address ≢ second.address
      → Resumes late s
      → let kept = perform_op json add_tail early first s in
        let dropped = perform_op json add_tail early second kept.0 in
        let logged = record s { io = push s.io (log_has_pending_op ∷ []) } in
        (kept.1 ≡ none)
        × (dropped.1 ≡ none)
        × (resume late dropped.0
            ≡ still_kept
                (fault_of_channel late s)
                first
                (perform_op json add_tail late first logged))
  unfolding on_ready
  perform_op_drops early late first second s u p n r =
      let waiting = record s { pending_op = some first } in
      let logged = record s { io = push s.io (log_has_pending_op ∷ []) } in
      let kept : perform_op json add_tail early first s ≡ (waiting, none) =
        perform_op-unusable early first s u ∙ ap (λ t. (t, none)) (postpone-free first s p) in
      let lost : perform_op json add_tail early second waiting
          ≡ (record logged { pending_op = some first }, none) =
        perform_op-unusable early second waiting u
        ∙ ap (λ t. (t, none)) (postpone-next first second s n) in
      (
        ap (λ (x : Stream × Option Fault). x.1) kept,
        ap (λ (x : Stream × Option Fault). (perform_op json add_tail early second x.0).1) kept
            ∙ ap (λ (x : Stream × Option Fault). x.1) lost,
        ap
              (λ (x : Stream × Option Fault).
                resume late (perform_op json add_tail early second x.0).0)
              kept
            ∙ (ap (λ (x : Stream × Option Fault). resume late x.0) lost
                ∙ (resume-kept late first logged r ∙ perform_op-kept late first logged p)),
      )
