-- ===== src/Transport/Lifetime.antt =====
-- When a transport is freed.
use grpc_over_ayame.Base.{
  ℕ, zero, suc, ◌+◌, ◌<◌, ◌≡◌, refl, ap, ◌∙◌, Bool, true, false, Bytes, none, some, List, [], ◌∷◌,
  ◌++◌, ◌==◌, if◌then◌else◌, arith,
}
use mathlib.Core.Path.{subst}
use grpc_over_ayame.Message.{aborted}
use grpc_over_ayame.Transport.{
  Transport, Call, free, connect, create, start, ref, release, unref, destroy,
}

-- How often the transport was freed.
abbrev pub frees : List Call → ℕ
frees [] = 0
frees (free ∷ cs) = suc (frees cs)
frees (_ ∷ cs) = frees cs

abbrev pub owners : Bool → ℕ
owners owned = if owned then 1 else 0

-- A life of the transport, as gRPC and the streams use it: it is started, streams refer to it from
-- their constructor to their destructor, and its owner destroys it once. `live` counts the streams;
-- `owned` says whether the owner still holds it. Nothing is done to it when neither is left, and a
-- fault ends the life.
pub data Life : (live : ℕ) → (owned : Bool) → Transport → Type 0 where
  created : (is_client : Bool) → Life 0 true (create is_client)
  started :
      {live : ℕ} {t t' : Transport} (signaling_url : Bytes)
      → Life live true t
      → start signaling_url t ≡ (t', none)
      → Life live true t'
  stream_created :
      {live : ℕ} {owned : Bool} {t : Transport}
      → Life live owned t
      → 0 < live + owners owned
      → Life (suc live) owned (ref t)
  stream_destroyed :
      {live : ℕ} {owned : Bool} {t t' : Transport}
      → Life (suc live) owned t
      → unref t ≡ (t', none)
      → Life live owned t'
  destroyed :
      {live : ℕ} {t t' : Transport} → Life live true t → destroy t ≡ (t', none) → Life live false t'

-- The transport with this many holders.
pub record Counted (holders : ℕ) (t : Transport) : Type 0 where
  pub refs_are : t.refs ≡ holders
  pub freed_if : frees t.calls ≡ (if holders == 0 then 1 else 0)

frees-concat : (cs : List Call) → frees (cs ++ free ∷ []) ≡ suc (frees cs)
frees-concat [] = refl
frees-concat (free ∷ cs) = ap suc (frees-concat cs)
frees-concat (_ ∷ cs) = frees-concat cs

frees-connect : (cs : List Call) (url : Bytes) → frees (cs ++ connect url ∷ []) ≡ frees cs
frees-connect [] url = refl
frees-connect (free ∷ cs) url = ap suc (frees-connect cs url)
frees-connect (_ ∷ cs) url = frees-connect cs url

pub unref-Counted :
    (n : ℕ) (t t' : Transport) → unref t ≡ (t', none) → Counted (suc n) t → Counted n t'
unfolding unref release
unref-Counted zero t t' e c = record {
  refs_are = ground arith;
  freed_if = ground (arith, frees-concat t.calls);
}
unref-Counted (suc n) t t' e c = record { refs_are = ground arith; freed_if = ground arith }

pub ref-Counted : (n m : ℕ) (t : Transport) → m ≡ suc n → 0 < n → Counted n t → Counted m (ref t)
unfolding ref
ref-Counted n m t e pos c = record { refs_are = ground arith; freed_if = ground arith }

pub start-Counted :
    (n : ℕ) (t t' : Transport) (signaling_url : Bytes)
    → start signaling_url t ≡ (t', none)
    → Counted n t
    → Counted n t'
unfolding start
start-Counted n t t' signaling_url e c = record {
  refs_are = ground arith;
  freed_if = ground (arith, frees-connect t.calls signaling_url);
}

-- However streams are created and destroyed and the owner starts and destroys the transport, its
-- count is the number of streams plus one for the owner, and it was freed exactly once when neither
-- is left and never while one is.
Life-Counted :
    {live : ℕ} {owned : Bool} {t : Transport} → Life live owned t → Counted (live + owners owned) t
unfolding create destroy
Life-Counted (created is_client) = record { refs_are = refl; freed_if = refl }
Life-Counted (started {live} {t} {t'} signaling_url l e) =
    start-Counted (live + 1) t t' signaling_url e (Life-Counted l)
Life-Counted (stream_created {live} {owned} {t} l pos) =
    ref-Counted (live + owners owned) (suc live + owners owned) t (omega arith) pos (Life-Counted l)
Life-Counted (stream_destroyed {live} {owned} {t} {t'} l e) =
    unref-Counted (live + owners owned) t t' e
      (subst (λ n. Counted n t) (omega arith) (Life-Counted l))
Life-Counted (destroyed {live} {t} {t'} l e) =
    unref-Counted (live + 0) t t' e (subst (λ n. Counted n t) (omega arith) (Life-Counted l))

-- A transport that was started cannot be freed: when the last of its streams and its owner lets go
-- of it, the destruction of its running thread ends the program.
pub unref-aborts :
    {live : ℕ} {owned : Bool} {t : Transport}
    → Life live owned t
    → t.th ≡ true
    → live + owners owned ≡ 1
    → (unref t).1 ≡ some aborted
unfolding unref release
unref-aborts {live} {owned} {t} l h one =
    let c = Life-Counted l in let refs : t.refs ≡ 1 = c.refs_are ∙ one in rw (refs, h) refl
