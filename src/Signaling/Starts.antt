-- ===== src/Signaling/Starts.antt =====
-- How many reads and closes of the WebSocket an action starts at most, put together from its parts.
pub mod OnRead
pub mod Bounded
use grpc_over_ayame.Base.{
  ℕ, suc, ◌+◌, ◌≤◌, ◌≡◌, refl, sym, ap, ◌∙◌, Bool, true, false, Option, none, some, List, [], ◌∷◌,
  ◌++◌, if◌then◌else◌, arith,
}
use grpc_over_ayame.Message.{Fault}
use grpc_over_ayame.Stream.{Action, ◌>>◌}
use grpc_over_ayame.Signaling.{
  Signaling, Call, async_read, async_close, note, need, with_wss, with_connection,
}

abbrev pub starts : List Call → ℕ
starts [] = 0
starts (async_read ∷ cs) = suc (starts cs)
starts (async_close ∷ cs) = suc (starts cs)
starts (_ ∷ cs) = starts cs

pub starts-append : (cs ds : List Call) → starts (cs ++ ds) ≡ starts cs + starts ds
starts-append [] ds = omega arith
starts-append (async_read ∷ cs) ds = omega (arith, starts-append cs ds)
starts-append (async_close ∷ cs) ds = omega (arith, starts-append cs ds)
starts-append (_ ∷ cs) ds = starts-append cs ds

-- Between two states at most `n` are started.
abbrev pub AtMost : ℕ → Signaling → Signaling → Type 0
AtMost n s t = starts t.calls ≤ starts s.calls + n

pub record Starts (n : ℕ) (a : Action Signaling) : Type 0 where
  pub at : (s : Signaling) → AtMost n s (a s).0

pub at-note :
    (n : ℕ) (cs : List Call) (s t : Signaling)
    → t.calls ≡ s.calls
    → starts cs ≤ n
    → AtMost n s (note cs t).0
at-note n cs s t e h = rw e (omega (arith, starts-append s.calls cs))

pub Starts-note : (n : ℕ) (cs : List Call) → starts cs ≤ n → Starts n (note cs)
Starts-note n cs h = record { at = λ s. at-note n cs s s refl h }

at-seq :
    (m n : ℕ) (b : Action Signaling) (s : Signaling) (r : Signaling × Option Fault)
    → AtMost m s r.0
    → Starts n b
    → AtMost (m + n) s (((λ (_ : Signaling). r) >> b) s).0
at-seq m n b s (t, none) h k = let next = k.at t in omega arith
at-seq m n b s (t, some f) h k = omega arith

pub Starts-seq :
    (m n : ℕ) (a b : Action Signaling) → Starts m a → Starts n b → Starts (m + n) (a >> b)
Starts-seq m n a b h k = record { at = λ s. at-seq m n b s (a s) (h.at s) k }

module _ (n : ℕ) where
  pub at-none : (s : Signaling) → AtMost n s s
  at-none s = omega arith

  pub Starts-none : Starts n (λ s. (s, none))
  Starts-none = record { at = at-none }

  pub at-if {κ} :
      {B : Type κ} (b : Bool) (s : Signaling) (x y : Signaling × B)
      → AtMost n s x.0
      → AtMost n s y.0
      → AtMost n s (if b then x else y).0
  at-if true s x y h k = h
  at-if false s x y h k = k

  at-need {κ} :
      {A : Type κ} (f : Fault) (o : Option A) (s : Signaling) (k : A → Action Signaling)
      → ((a : A) → AtMost n s (k a s).0)
      → AtMost n s (need f o k s).0
  at-need f none s k h = at-none s
  at-need f (some a) s k h = h a

  pub Starts-need {κ} :
      {A : Type κ} (f : Fault) (o : Option A) (k : A → Action Signaling)
      → ((a : A) → Starts n (k a))
      → Starts n (need f o k)
  Starts-need f o k h = record { at = λ s. at-need f o s k (λ a. (h a).at s) }

  pub Starts-if :
      (b : Bool) (x y : Action Signaling)
      → Starts n x
      → Starts n y
      → Starts n (λ s. if b then x s else y s)
  Starts-if b x y h k = record { at = λ s. at-if b s (x s) (y s) (h.at s) (k.at s) }

  pub Starts-test :
      (b : Bool) (x y : Action Signaling) → Starts n x → Starts n y → Starts n (if b then x else y)
  Starts-test true x y h k = h
  Starts-test false x y h k = k

  pub Starts-with_wss : (a : Action Signaling) → Starts n a → Starts n (with_wss a)
  Starts-with_wss a h = record {
    at = λ s. at-if s.wss s (a s) (s, some Fault.null_dereference) (h.at s) (at-none s);
  }

  pub Starts-with_connection : (a : Action Signaling) → Starts n a → Starts n (with_connection a)
  Starts-with_connection a h = record {
    at = λ s. at-need Fault.null_dereference s.connection s (λ _. a) (λ _. h.at s);
  }
