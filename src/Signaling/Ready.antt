-- ===== src/Signaling/Ready.antt =====
-- `ready_` and the listener's `OnReady`.
use grpc_over_ayame.Base.{
  ℕ, suc, ◌+◌, ◌≡◌, refl, Bool, List, [], ◌∷◌, ◌++◌, if◌then◌else◌, All, arith,
}
use grpc_over_ayame.Json.{Json}
use grpc_over_ayame.Signaling.{Call, on_ready, async_write, Signaling, note, create}
use grpc_over_ayame.Signaling.Read.{become_ready}
use grpc_over_ayame.Signaling.Within.{Within}
use grpc_over_ayame.Signaling.History.{Event, run}
use grpc_over_ayame.Signaling.Local.{AnyText, AnyText-SendsTexts, IsPlain, IsLocal}
use grpc_over_ayame.Signaling.Whole.{IsWhole, run-whole}

-- How often `OnReady` was called.
abbrev pub readies : List Call → ℕ
readies [] = 0
readies (on_ready ∷ cs) = suc (readies cs)
readies (_ ∷ cs) = readies cs

abbrev pub flag : Bool → ℕ
flag b = if b then 1 else 0

readies-append : (cs ds : List Call) → readies (cs ++ ds) ≡ readies cs + readies ds
readies-append [] ds = omega arith
readies-append (on_ready ∷ cs) ds = omega (arith, readies-append cs ds)
readies-append (_ ∷ cs) ds = readies-append cs ds

readies-plain : (cs : List Call) → All (IsPlain AnyText) cs → readies cs ≡ 0
readies-plain [] h = refl
readies-plain (on_ready ∷ cs) h = absurd h.0
readies-plain (_ ∷ cs) h = readies-plain cs h.1

-- The calls of `OnReady` and the change of `ready_` go together.
abbrev InStep : Signaling → Signaling → Type 0
InStep s t = readies t.calls + flag s.ready ≡ readies s.calls + flag t.ready

InStep-note : (cs : List Call) → readies cs ≡ 0 → Within InStep (note cs)
InStep-note cs h = record { at = λ s. omega (arith, readies-append s.calls cs) }

InStep-become_ready : (s : Signaling) → InStep s (become_ready s).0
unfolding become_ready
InStep-become_ready s = ground (arith, readies-append s.calls (on_ready ∷ []))

InStep-IsLocal : IsLocal AnyText InStep
InStep-IsLocal = record {
  preorder = record { reflexive = λ s. refl; transitive = λ s t u h k. omega arith };
  of_note = λ cs h. InStep-note cs (readies-plain cs h);
  of_ready = record { at = InStep-become_ready };
  of_others = λ s parts factory wss c d. refl;
}

InStep-IsWhole : IsWhole AnyText InStep
InStep-IsWhole = record {
  local = InStep-IsLocal;
  of_write = λ b. InStep-note (async_write b ∷ []) refl;
  of_buffer = λ s bs. refl;
}

-- Over a whole life, whatever the operations, messages, errors and results of WebRTC, the
-- listener's `OnReady` is called at most once, and it has been called exactly if `ready_` is set.
pub ready_once :
    {V : Type 0} (json : Json V) (es : List Event)
    → let s = run json es create in readies s.calls ≡ flag s.ready
unfolding create
ready_once json es =
    omega (arith, run-whole InStep InStep-IsWhole json (AnyText-SendsTexts json) es create)
