-- ===== src/Vtable/Kept.antt =====
-- What each call through the vtable does to the transport's count.
use grpc_over_ayame.Base.{
  ℕ, suc, ◌+◌, ◌<◌, ◌≡◌, refl, sym, ap, ◌∙◌, Bool-cases, inl, inr, Option, none, some, List, [],
  ◌∷◌, map, Bytes, length, arith,
}
use mathlib.Core.Path.{subst}
use grpc_over_ayame.Json.{Json}
use grpc_over_ayame.Metadata.{AddTail}
use grpc_over_ayame.Message.{Fault}
use grpc_over_ayame.Stream.{Stream, Env}
use grpc_over_ayame.Stream.Perform
use grpc_over_ayame.Transport
use grpc_over_ayame.Transport.{
  Transport, TransportOp, Call, free, if_set, add_watcher, remove_watcher, run_closure, set_state,
  shutdown, run_ready, ref, unref, add_on_ready, log,
}
use grpc_over_ayame.Transport.Lifetime.{frees, Counted, start-Counted}
use grpc_over_ayame.Vtable.Counts.{
  live_count, Counts, live_count-last, live_count-at_slot, live_count-destroy_slot, frees-append,
  frees-run_ready, after_none, unref-Counts, same-Counts,
}
use grpc_over_ayame.Vtable.{
  Slot, Core, on_live, destroy_slot, at_slot, in_streams, in_transport, await_ready, add_stream,
  init_stream, destroy_stream, destroy_transport, run_waited, on_ready,
}

add_stream-Counts :
    (released : ℕ) (c : Core) (r : Stream × Option Fault)
    → (add_stream c r).1 ≡ none
    → 0 < c.transport.refs
    → Counts released c
    → Counts released (add_stream c r).0
unfolding ref add_on_ready
add_stream-Counts released c (s, some f) h pos k = absurd (cc)
add_stream-Counts released c (s, none) h pos k =
    let waits = s.waits_ready in
    let t = await_ready waits (length c.streams) (ref c.transport) in
    let refs : t.refs ≡ c.transport.refs + 1 = elim (Bool-cases waits) [
      | inl e ↦ rw e refl
      | inr e ↦ rw e refl
    ] in
    let quiet : frees t.calls ≡ frees c.transport.calls = elim (Bool-cases waits) [
      | inl e ↦ rw e refl
      | inr e ↦ rw e refl
    ] in
    record {
      counted = record {
        refs_are = refl;
        freed_if = ground (arith, quiet, refs, k.counted.freed_if);
      };
      balance = omega (arith, k.balance, refs, live_count-last c.streams s);
    }

pub init_stream-Counts :
    (released : ℕ) (env : Env) (server_data : Option ℕ) (c : Core)
    → (init_stream env server_data c).1 ≡ none
    → 0 < c.transport.refs
    → Counts released c
    → Counts released (init_stream env server_data c).0
unfolding init_stream
init_stream-Counts released env server_data c =
    add_stream-Counts released c (Perform.init_stream env server_data)

pub destroy_stream-Counts :
    (released : ℕ) (closure : Option ℕ) (i : ℕ) (c : Core)
    → (destroy_stream closure i c).1 ≡ none
    → 0 < c.transport.refs
    → Counts released c
    → Counts released (destroy_stream closure i c).0
unfolding destroy_stream
destroy_stream-Counts released closure i c h pos k =
    let first = in_streams (at_slot i (destroy_slot closure)) in
    let (slot_ok, is) = after_none first (in_transport unref) c h in
    subst (λ (r : Core × Option Fault). Counts released r.0) (sym is)
      (unref-Counts released (first c).0 (ap (λ (r : Core × Option Fault). r.1) (sym is) ∙ h)
        k.counted pos
        (omega (arith, k.balance, live_count-destroy_slot i closure c.streams slot_ok)))

pub destroy_transport-Counts :
    (released : ℕ) (c : Core)
    → (destroy_transport c).1 ≡ none
    → 0 < c.transport.refs
    → Counts released c
    → Counts (suc released) (destroy_transport c).0
unfolding destroy_transport Transport.destroy
destroy_transport-Counts released c h pos k =
    unref-Counts (suc released) c h k.counted pos (omega (arith, k.balance))

pub start-Counts :
    (released : ℕ) (url : Bytes) (c : Core)
    → (in_transport (Transport.start url) c).1 ≡ none
    → Counts released c
    → Counts released (in_transport (Transport.start url) c).0
start-Counts released url c h k =
    let t' = (Transport.start url c.transport).0 in
    let u = start-Counted c.transport.refs c.transport t' url (λ i. (t', h i)) k.counted in
    record {
      counted = subst (λ m. Counted m t') (sym u.refs_are) u;
      balance = omega (arith, u.refs_are, k.balance);
    }

module _ {V : Type 0} (json : Json V) (add_tail : AddTail) where
  live_count-run_waited :
      (envs : ℕ → Env) (is : List ℕ) (xs : List Slot)
      → live_count (run_waited json add_tail envs is xs).0 ≡ live_count xs
  unfolding run_waited
  live_count-run_waited envs [] xs = refl
  live_count-run_waited envs (i ∷ is) xs =
      let method = Perform.on_ready json add_tail (envs i) in
      go (at_slot i (on_live method) xs) (live_count-at_slot i method xs)
        (live_count-run_waited envs is)
    where
      go :
          (r : List Slot × Option Fault)
          → live_count r.0 ≡ live_count xs
          → ((ys : List Slot) → live_count (run_waited json add_tail envs is ys).0 ≡ live_count ys)
          → live_count
              (elim r.1 as (λ _. List Slot × Option Fault) [
                | none ↦ run_waited json add_tail envs is r.0
                | some f ↦ (r.0, some f)
              ]).0
            ≡ live_count xs
      go (ys, none) e ih = ih ys ∙ e
      go (ys, some f) e ih = e

  pub on_ready-Counts :
      (released : ℕ) (envs : ℕ → Env) (c : Core)
      → (on_ready json add_tail envs c).1 ≡ none
      → Counts released c
      → Counts released (on_ready json add_tail envs c).0
  unfolding on_ready Transport.on_ready
  on_ready-Counts released envs c h k =
      let waited = c.transport.ready_waited in
      let first = in_streams (run_waited json add_tail envs waited) in
      let clear = in_transport (λ t. (Transport.on_ready t, none)) in
      let (streams_ok, is) = after_none first clear c h in
      subst (λ (r : Core × Option Fault). Counts released r.0) (sym is)
        (same-Counts released c (clear (first c).0).0 refl
          (frees-append c.transport.calls (map run_ready waited)
            ∙ omega (arith, frees-run_ready waited))
          (live_count-run_waited envs waited c.streams) k)
