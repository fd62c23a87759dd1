-- ===== src/Json.antt =====
-- nlohmann/json, which the program calls and this repository does not hold: a record of the calls
-- that the program makes, and the documented behaviour that proofs rely on. `none` is an exception.
pub mod Toy
use grpc_over_ayame.Base.{
  ℕ, ◌≡◌, Bool, true, Option, none, some, List, [], ◌∷◌, Bytes, same, if◌then◌else◌,
}

-- A C++ `int`; `negsuc n` is -(n + 1).
pub data ℤ : Type 0 where
  pos : ℕ → ℤ
  negsuc : ℕ → ℤ

abbrev pub lookup {ℓ} : {V : Type ℓ} → Bytes → List (Bytes × V) → Option V
lookup k [] = none
lookup k ((j, v) ∷ m) = if same j k then some v else lookup k m

-- No key stands twice.
abbrev pub Distinct {ℓ} : {V : Type ℓ} → List (Bytes × V) → Type ℓ
Distinct [] = Unit
Distinct ((k, v) ∷ m) = (lookup k m ≡ none) × Distinct m

-- `V` is `nlohmann::json`.
pub record Json (V : Type 0) : Type 0 where
  -- A default-constructed value.
  pub null : V
  pub text : Bytes → V
  pub int : ℤ → V
  -- `js[key] = v`, on null or an object.
  pub set : Bytes → V → V → V
  -- `js[key]`, read.
  pub get : Bytes → V → Option V
  -- The members, in the order of `items()`.
  pub items : V → List (Bytes × V)
  pub as_text : V → Option Bytes
  pub as_bool : V → Option Bool
  pub as_int : V → Option ℤ
  -- `dump` throws on a text that is not UTF-8.
  pub dump : V → Option Bytes
  pub parse : Bytes → Option V

pub record IsJson {V : Type 0} (j : Json V) : Type 1 where
  pub TakesKeys : V → Type 0
  pub null-TakesKeys : TakesKeys j.null
  pub set-TakesKeys : (k : Bytes) (v o : V) → TakesKeys o → TakesKeys (j.set k v o)
  pub parse-dump : (v : V) (t : Bytes) → j.dump v ≡ some t → j.parse t ≡ some v
  pub as_text-text : (t : Bytes) → j.as_text (j.text t) ≡ some t
  pub as_int-int : (n : ℤ) → j.as_int (j.int n) ≡ some n
  pub items-null : j.items j.null ≡ []
  pub items-set :
      (k i : Bytes) (v o : V)
      → TakesKeys o
      → lookup i (j.items (j.set k v o)) ≡ (if same k i then some v else lookup i (j.items o))
  pub items-Distinct : (o : V) → TakesKeys o → Distinct (j.items o)
  pub get-set :
      (k i : Bytes) (v o : V) (w : V)
      → TakesKeys o
      → (if same k i then some v else lookup i (j.items o)) ≡ some w
      → j.get i (j.set k v o) ≡ some w
