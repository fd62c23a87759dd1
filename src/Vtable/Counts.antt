-- ===== src/Vtable/Counts.antt =====
-- The count of a transport and the streams that hold it.
use grpc_over_ayame.Base.{
  ℕ, zero, suc, ◌+◌, ◌-◌, ◌<◌, ◌≡◌, refl, sym, ap, ◌∙◌, Option, none, some, List, [], ◌∷◌, ◌++◌,
  map, ◌==◌, if◌then◌else◌, arith,
}
use mathlib.Core.Path.{subst}
use grpc_over_ayame.Message.{Fault}
use grpc_over_ayame.Stream.{Stream, Action, ◌>>◌}
use grpc_over_ayame.Transport
use grpc_over_ayame.Transport.{
  Transport, TransportOp, Call, free, if_set, add_watcher, remove_watcher, run_closure, set_state,
  shutdown, run_ready, ref, unref, add_on_ready, log,
}
use grpc_over_ayame.Transport.Lifetime.{frees, Counted, unref-Counted}
use grpc_over_ayame.Vtable.{
  Slot, live, destroyed, Core, on_live, destroy_slot, at_slot, in_transport, Event,
  destroys_transport,
}

abbrev pub live_count : List Slot → ℕ
live_count [] = 0
live_count (live s ∷ xs) = suc (live_count xs)
live_count (destroyed s ∷ xs) = live_count xs

-- How often the owner let go of the transport.
abbrev pub releases : List Event → ℕ
releases [] = 0
releases (destroys_transport ∷ es) = suc (releases es)
releases (_ ∷ es) = releases es

abbrev pub after : Event → ℕ → ℕ
after destroys_transport n = suc n
after _ n = n

-- Behind this many releases of the owner.
pub record Counts (released : ℕ) (c : Core) : Type 0 where
  pub counted : Counted c.transport.refs c.transport
  pub balance : c.transport.refs + released ≡ live_count c.streams + 1

pub live_count-last :
    (xs : List Slot) (s : Stream) → live_count (xs ++ live s ∷ []) ≡ suc (live_count xs)
live_count-last [] s = refl
live_count-last (live t ∷ xs) s = ap suc (live_count-last xs s)
live_count-last (destroyed t ∷ xs) s = live_count-last xs s

pub live_count-at_slot :
    (i : ℕ) (method : Action Stream) (xs : List Slot)
    → live_count (at_slot i (on_live method) xs).0 ≡ live_count xs
unfolding at_slot
live_count-at_slot i method [] = refl
live_count-at_slot zero method (live s ∷ xs) = refl
live_count-at_slot zero method (destroyed s ∷ xs) = refl
live_count-at_slot (suc i) method (live s ∷ xs) = ap suc (live_count-at_slot i method xs)
live_count-at_slot (suc i) method (destroyed s ∷ xs) = live_count-at_slot i method xs

pub live_count-destroy_slot :
    (i : ℕ) (closure : Option ℕ) (xs : List Slot)
    → (at_slot i (destroy_slot closure) xs).1 ≡ none
    → live_count xs ≡ suc (live_count (at_slot i (destroy_slot closure) xs).0)
unfolding at_slot
live_count-destroy_slot i closure [] h = absurd (cc)
live_count-destroy_slot zero closure (live s ∷ xs) h = refl
live_count-destroy_slot zero closure (destroyed s ∷ xs) h = absurd (cc)
live_count-destroy_slot (suc i) closure (live s ∷ xs) h =
    ap suc (live_count-destroy_slot i closure xs h)
live_count-destroy_slot (suc i) closure (destroyed s ∷ xs) h =
    live_count-destroy_slot i closure xs h

pub frees-append : (cs ds : List Call) → frees (cs ++ ds) ≡ frees cs + frees ds
frees-append [] ds = omega arith
frees-append (free ∷ cs) ds = omega (arith, frees-append cs ds)
frees-append (_ ∷ cs) ds = frees-append cs ds

pub frees-run_ready : (fs : List ℕ) → frees (map run_ready fs) ≡ 0
frees-run_ready [] = refl
frees-run_ready (f ∷ fs) = frees-run_ready fs

-- An action that ends without a fault has run its second part behind its first.
pub after_none :
    {S : Type 0} (p q : Action S) (s : S)
    → ((p >> q) s).1 ≡ none
    → ((p s).1 ≡ none) × ((p >> q) s ≡ q (p s).0)
after_none {S} p q s h = go (p s) h
  where
    go :
        (r : S × Option Fault)
        → (((λ (_ : S). r) >> q) s).1 ≡ none
        → (r.1 ≡ none) × (((λ (_ : S). r) >> q) s ≡ q r.0)
    go (t, none) h = (refl, refl)
    go (t, some f) h = (h, absurd (cc))

pub unref-Counts :
    (released : ℕ) (c : Core)
    → (in_transport unref c).1 ≡ none
    → Counted c.transport.refs c.transport
    → 0 < c.transport.refs
    → c.transport.refs + released ≡ live_count c.streams + 2
    → Counts released (in_transport unref c).0
unref-Counts released c h k pos e =
    let n = c.transport.refs - 1 in
    let k' : Counted (suc n) c.transport = subst (λ m. Counted m c.transport) (omega arith) k in
    let t' = (unref c.transport).0 in
    let u = unref-Counted n c.transport t' (λ i. (t', h i)) k' in
    record {
      counted = subst (λ m. Counted m t') (sym u.refs_are) u;
      balance = omega (arith, u.refs_are, e);
    }

pub frees-perform_op :
    (op : TransportOp) (t : Transport) → frees (Transport.perform_op op t).calls ≡ frees t.calls
unfolding Transport.perform_op
frees-perform_op op t =
    let a = if_set op.start_connectivity_watch (add_watcher op.start_connectivity_watch_state) in
    let b = if_set op.stop_connectivity_watch remove_watcher in
    let c = if_set op.on_consumed run_closure in
    ground (
      arith,
      frees-append t.calls a,
      frees-append (t.calls ++ a) b,
      frees-append ((t.calls ++ a) ++ b) c,
      frees-append (((t.calls ++ a) ++ b) ++ c) (set_state shutdown ∷ []),
    )

pub refs-perform_op : (op : TransportOp) (t : Transport) → (Transport.perform_op op t).refs ≡ t.refs
unfolding Transport.perform_op
refs-perform_op op t = ground arith

-- A step that changes neither the counts nor the number of streams.
pub same-Counts :
    (released : ℕ) (c c' : Core)
    → c'.transport.refs ≡ c.transport.refs
    → frees c'.transport.calls ≡ frees c.transport.calls
    → live_count c'.streams ≡ live_count c.streams
    → Counts released c
    → Counts released c'
same-Counts released c c' r f l k = record {
  counted = record {
    refs_are = refl;
    freed_if = f ∙ (k.counted.freed_if ∙ ap (λ (n : ℕ). if n == 0 then 1 else 0) (sym r));
  };
  balance = omega (arith, k.balance, r, l);
}
