-- ===== src/Signaling/Within.antt =====
-- What relates the state before and after a handler, put together from its parts: a relation that
-- is reflexive and transitive holds of a sequence if it holds of its actions.
use grpc_over_ayame.Base.{◌≡◌, refl, Bool, true, false, Option, none, some, if◌then◌else◌}
use grpc_over_ayame.Message.{Fault}
use grpc_over_ayame.Stream.{Action, ◌>>◌}
use grpc_over_ayame.Signaling.{Signaling, need, with_wss, with_connection}

pub record IsPreorder {ℓ} (R : Signaling → Signaling → Type ℓ) : Type ℓ where
  pub reflexive : (s : Signaling) → R s s
  pub transitive : (s t u : Signaling) → R s t → R t u → R s u

pub record Within {ℓ} (R : Signaling → Signaling → Type ℓ) (a : Action Signaling) : Type ℓ where
  pub at : (s : Signaling) → R s (a s).0

module _ {ℓ} (R : Signaling → Signaling → Type ℓ) (p : IsPreorder R) where
  after-fault :
      (q : Action Signaling) (s : Signaling) (r : Signaling × Option Fault)
      → R s r.0
      → Within R q
      → R s (((λ (_ : Signaling). r) >> q) s).0
  after-fault q s (t, none) h w = p.transitive s t (q t).0 h (w.at t)
  after-fault q s (t, some f) h w = h

  pub Within-seq : (a b : Action Signaling) → Within R a → Within R b → Within R (a >> b)
  Within-seq a b h k = record { at = λ s. after-fault b s (a s) (h.at s) k }

  -- At the text that a call gives, if it gives one.
  pub Within-found {κ} :
      {A : Type κ} (f : Fault) (o : Option A) (k : A → Action Signaling)
      → ((a : A) → o ≡ some a → Within R (k a))
      → Within R (need f o k)
  Within-found f none k h = record { at = p.reflexive }
  Within-found f (some a) k h = h a refl

  at-need {κ} :
      {A : Type κ} (f : Fault) (o : Option A) (s : Signaling) (k : A → Action Signaling)
      → ((a : A) → R s (k a s).0)
      → R s (need f o k s).0
  at-need f none s k h = p.reflexive s
  at-need f (some a) s k h = h a

  pub Within-need {κ} :
      {A : Type κ} (f : Fault) (o : Option A) (k : A → Action Signaling)
      → ((a : A) → Within R (k a))
      → Within R (need f o k)
  Within-need f o k h = record { at = λ s. at-need f o s k (λ a. (h a).at s) }

  -- At one state, for tests that read it.
  pub at-if {κ} :
      {B : Type κ} (b : Bool) (s : Signaling) (x y : Signaling × B)
      → R s x.0
      → R s y.0
      → R s (if b then x else y).0
  at-if true s x y h k = h
  at-if false s x y h k = k

  pub at-option {κ μ} :
      {A : Type κ} {B : Type μ} (o : Option A) (s : Signaling) (x : Signaling × B)
      (k : A → Signaling × B)
      → R s x.0
      → ((a : A) → R s (k a).0)
      → R s (let r : Signaling × B = elim o [ none ↦ x | some a ↦ k a ] in r).0
  at-option none s x k h g = h
  at-option (some a) s x k h g = g a

  pub Within-if :
      (b : Bool) (x y : Action Signaling)
      → Within R x
      → Within R y
      → Within R (λ s. if b then x s else y s)
  Within-if b x y h k = record { at = λ s. at-if b s (x s) (y s) (h.at s) (k.at s) }

  -- A test that chooses the action.
  pub Within-test :
      (b : Bool) (x y : Action Signaling) → Within R x → Within R y → Within R (if b then x else y)
  Within-test true x y h k = h
  Within-test false x y h k = k

  pub Within-none : Within R (λ s. (s, none))
  Within-none = record { at = p.reflexive }

  pub Within-with_wss : (a : Action Signaling) → Within R a → Within R (with_wss a)
  Within-with_wss a h = record {
    at = λ s. at-if s.wss s (a s) (s, some Fault.null_dereference) (h.at s) (p.reflexive s);
  }

  pub Within-with_connection : (a : Action Signaling) → Within R a → Within R (with_connection a)
  Within-with_connection a h = record {
    at = λ s. at-need Fault.null_dereference s.connection s (λ _. a) (λ _. h.at s);
  }
