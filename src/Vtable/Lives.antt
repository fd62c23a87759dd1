-- ===== src/Vtable/Lives.antt =====
-- The transport's count over a life.
use grpc_over_ayame.Base.{
  ℕ, ◌+◌, ◌<◌, ◌≡◌, refl, sym, ap, ◌∙◌, Bool, Bool-cases, inl, inr, Option, none, some, List, [],
  ◌∷◌, ◌==◌, arith,
}
use mathlib.Core.Path.{subst}
use grpc_over_ayame.Json.{Json}
use grpc_over_ayame.Metadata.{AddTail}
use grpc_over_ayame.Message.{Fault, dangling}
use grpc_over_ayame.Stream.Perform
use grpc_over_ayame.Transport
use grpc_over_ayame.Transport.{
  Transport, TransportOp, Call, free, if_set, add_watcher, remove_watcher, run_closure, set_state,
  shutdown, run_ready, ref, unref, add_on_ready, log,
}
use grpc_over_ayame.Vtable.Counts.{
  releases, after, Counts, live_count-at_slot, after_none, frees-perform_op, refs-perform_op,
  same-Counts,
}
use grpc_over_ayame.Vtable.{
  Core, new_core, set_pollset, perform_transport_op, perform_stream_op, Event, starts, inits_stream,
  sets_pollset, asks_endpoint, performs_stream_op, performs_transport_op, destroys_stream,
  destroys_transport, hears_ready, handle, step, run,
}
use grpc_over_ayame.Vtable.Kept.{
  init_stream-Counts, destroy_stream-Counts, destroy_transport-Counts, on_ready-Counts,
  start-Counts,
}

module _ {V : Type 0} (json : Json V) (add_tail : AddTail) where
  handle-Counts :
      (e : Event) (released : ℕ) (c : Core)
      → (handle json add_tail e c).1 ≡ none
      → 0 < c.transport.refs
      → Counts released c
      → Counts (after e released) (handle json add_tail e c).0
  unfolding set_pollset perform_transport_op perform_stream_op
  handle-Counts (starts url) released c h pos k = start-Counts released url c h k
  handle-Counts (inits_stream env server_data) released c h pos k =
      init_stream-Counts released env server_data c h pos k
  handle-Counts sets_pollset released c h pos k = k
  handle-Counts asks_endpoint released c h pos k = k
  handle-Counts (performs_stream_op env op i) released c h pos k =
      same-Counts released c (perform_stream_op json add_tail env op i c).0 refl refl
        (live_count-at_slot i (Perform.perform_op json add_tail env op) c.streams) k
  handle-Counts (performs_transport_op op) released c h pos k =
      same-Counts released c (perform_transport_op op c) (refs-perform_op op c.transport)
        (frees-perform_op op c.transport) refl k
  handle-Counts (destroys_stream closure i) released c h pos k =
      destroy_stream-Counts released closure i c h pos k
  handle-Counts destroys_transport released c h pos k = destroy_transport-Counts released c h pos k
  handle-Counts (hears_ready envs) released c h pos k =
      on_ready-Counts json add_tail released envs c h k

  step-handle :
      (e : Event) (c : Core)
      → (step json add_tail e c).1 ≡ none
      → (0 < c.transport.refs) × (step json add_tail e c ≡ handle json add_tail e c)
  unfolding step
  step-handle e c h = elim (Bool-cases (c.transport.refs == 0)) [
    | inl z ↦ let never : some dangling ≡ none = rw z at h in absurd (cc)
    | inr z ↦ (ground arith, rw z refl)
  ]

  releases-after :
      (e : Event) (es : List Event) (n : ℕ) → releases es + after e n ≡ releases (e ∷ es) + n
  releases-after (starts url) es n = omega arith
  releases-after (inits_stream env server_data) es n = omega arith
  releases-after sets_pollset es n = omega arith
  releases-after asks_endpoint es n = omega arith
  releases-after (performs_stream_op env op i) es n = omega arith
  releases-after (performs_transport_op op) es n = omega arith
  releases-after (destroys_stream closure i) es n = omega arith
  releases-after destroys_transport es n = omega arith
  releases-after (hears_ready envs) es n = omega arith

  run-from :
      (es : List Event) (released : ℕ) (c : Core)
      → (run json add_tail es c).1 ≡ none
      → Counts released c
      → Counts (releases es + released) (run json add_tail es c).0
  unfolding run
  run-from [] released c h k = subst (λ n. Counts n c) (omega arith) k
  run-from (e ∷ es) released c h k =
      let (step_ok, is) = after_none (step json add_tail e) (run json add_tail es) c h in
      let (pos, open_is) = step-handle e c step_ok in
      let now =
        handle-Counts e released c (ap (λ (r : Core × Option Fault). r.1) (sym open_is) ∙ step_ok)
          pos k in
      let c' = (step json add_tail e c).0 in
      let now' : Counts (after e released) c' =
        subst (λ (r : Core × Option Fault). Counts (after e released) r.0) (sym open_is) now in
      let rest =
        run-from es (after e released) c' (ap (λ (r : Core × Option Fault). r.1) (sym is) ∙ h)
          now' in
      subst (λ n. Counts n (run json add_tail (e ∷ es) c).0) (releases-after e es released)
        (subst (λ (r : Core × Option Fault). Counts (releases es + after e released) r.0) (sym is)
          rest)

  -- Whatever gRPC calls through the vtable, and whenever the peer gets ready, as long as no call
  -- ends in a fault: the transport's count, with the releases of its owner, is the number of
  -- streams that are not destroyed plus one; and it has been freed exactly once if the count is
  -- zero, and not otherwise.
  pub run-Counts :
      (es : List Event) (is_client : Bool)
      → (run json add_tail es (new_core is_client)).1 ≡ none
      → Counts (releases es) (run json add_tail es (new_core is_client)).0
  unfolding Transport.create
  run-Counts es is_client h =
      let k : Counts 0 (new_core is_client) = record {
        counted = record { refs_are = refl; freed_if = refl };
        balance = refl;
      } in
      subst (λ n. Counts n (run json add_tail es (new_core is_client)).0) (omega arith)
        (run-from es 0 (new_core is_client) h k)
