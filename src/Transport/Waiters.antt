-- ===== src/Transport/Waiters.antt =====
-- The functions given to `AddOnReady`.
use grpc_over_ayame.Base.{
  ℕ, ◌≡◌, refl, sym, ap, ◌∙◌, List, [], ◌∷◌, ◌++◌, append_assoc, append-nil, map,
}
use grpc_over_ayame.Transport.{Transport, Call, run_ready, on_ready, add_on_ready}

-- The functions run so far, in order.
abbrev pub readies : List Call → List ℕ
readies [] = []
readies (run_ready f ∷ cs) = f ∷ readies cs
readies (_ ∷ cs) = readies cs

pub data Event : Type 0 where
  add : ℕ → Event
  fire : Event

unfoldable pub handle : Event → Transport → Transport
unfolding add_on_ready on_ready
handle (add f) t = add_on_ready f t
handle fire t = on_ready t

unfoldable pub run : List Event → Transport → Transport
unfolding handle
run [] t = t
run (e ∷ es) t = run es (handle e t)

abbrev pub added : List Event → List ℕ
added [] = []
added (add f ∷ es) = f ∷ added es
added (fire ∷ es) = added es

readies-append : (cs ds : List Call) → readies (cs ++ ds) ≡ readies cs ++ readies ds
readies-append [] ds = refl
readies-append (run_ready f ∷ cs) ds = ap (◌∷◌ f) (readies-append cs ds)
readies-append (_ ∷ cs) ds = readies-append cs ds

readies-run_ready : (fs : List ℕ) → readies (map run_ready fs) ≡ fs
readies-run_ready [] = refl
readies-run_ready (f ∷ fs) = ap (◌∷◌ f) (readies-run_ready fs)

-- Under every order of `AddOnReady` and `OnReady` the functions run, then those that still wait,
-- are those that ran or waited before and then all those added, in order: none is lost or run
-- twice.
pub run-added :
    (es : List Event) (t : Transport)
    → readies (run es t).calls ++ (run es t).ready_waited
      ≡ readies t.calls ++ (t.ready_waited ++ added es)
unfolding run handle add_on_ready on_ready
run-added [] t = ap (λ w. readies t.calls ++ w) (sym (append-nil t.ready_waited))
run-added (add f ∷ es) t =
    run-added es (add_on_ready f t)
    ∙ ap (λ w. readies t.calls ++ w) (append_assoc t.ready_waited (f ∷ []) (added es))
run-added (fire ∷ es) t =
    run-added es (on_ready t)
    ∙ (ap (λ r. r ++ added es)
          (readies-append t.calls (map run_ready t.ready_waited)
            ∙ ap (λ w. readies t.calls ++ w) (readies-run_ready t.ready_waited))
        ∙ append_assoc (readies t.calls) t.ready_waited (added es))
