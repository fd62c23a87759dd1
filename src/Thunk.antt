-- ===== src/Thunk.antt =====
-- src/ayame_signaling.cpp: `CreateSessionDescriptionThunk` and `SetSessionDescriptionThunk`, the
-- observers that WebRTC tells how making or setting a description went. They differ in `A`, what
-- `OnSuccess` gets: a description, or nothing. Functions and errors are numbers. What a function
-- holds after `std::move` is left open by C++: `moved` maps what it held to that.
use grpc_over_ayame.Base.{ℕ, Option, none, some, List, [], ◌∷◌, ◌++◌}

pub data Call (A : Type 0) : Type 0 where
  run_success : ℕ → A → Call A
  run_failure : ℕ → ℕ → Call A

pub record Thunk (A : Type 0) : Type 0 where
  pub on_success : Option ℕ
  pub on_failure : Option ℕ
  pub calls : List (Call A)

-- What WebRTC tells it.
pub data Event (A : Type 0) : Type 0 where
  success : A → Event A
  failure : ℕ → Event A

module _ {A : Type 0} (moved : Option ℕ → Option ℕ) where
  -- `Create(on_success, on_failure)`, where null is `none`.
  unfoldable pub create : Option ℕ → Option ℕ → Thunk A
  create on_success on_failure = record {
    on_success = on_success;
    on_failure = on_failure;
    calls = [];
  }

  -- `if (f) f(...)`.
  abbrev run_if_set : Option ℕ → (ℕ → Call A) → Thunk A → Thunk A
  run_if_set none k t = t
  run_if_set (some f) k t = record t { calls = t.calls ++ k f ∷ [] }

  -- `OnSuccess`: the function is moved out and then called.
  unfoldable pub on_success : A → Thunk A → Thunk A
  on_success a t =
      run_if_set t.on_success (λ f. run_success f a) (record t { on_success = moved t.on_success })

  unfoldable pub on_failure : ℕ → Thunk A → Thunk A
  on_failure e t =
      run_if_set t.on_failure (λ f. run_failure f e) (record t { on_failure = moved t.on_failure })

  unfoldable pub handle : Event A → Thunk A → Thunk A
  unfolding on_success on_failure
  handle (success a) t = on_success a t
  handle (failure e) t = on_failure e t

  unfoldable pub run : List (Event A) → Thunk A → Thunk A
  unfolding handle
  run [] t = t
  run (e ∷ es) t = run es (handle e t)
