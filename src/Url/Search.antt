-- ===== src/Url/Search.antt =====
-- What the searches of `Parse` find.
use grpc_over_ayame.Base.{
  ℕ, suc, ◌≤◌, ◌≡◌, refl, ap, ◌≢◌, ◌⊎◌, inl, inr, true, none, some, [], ◌∷◌, ◌++◌, Bytes,
  Bool-cases, Option-cases, ◌==◌, length, drop, All, arith,
}
use grpc_over_ayame.Url.{starts, find_text, find_char, separator}

abbrev pub Lacks : ℕ → Bytes → Type 0
Lacks c = All (λ x. x ≢ c)

pub find_char-append :
    (c : ℕ) (pre post : Bytes) → Lacks c pre → find_char c (pre ++ c ∷ post) ≡ some (length pre)
unfolding find_char
find_char-append c [] post h = ground arith
find_char-append c (x ∷ pre) post h = ground (arith, find_char-append c pre post)

pub find_char-Lacks : (c : ℕ) (xs : Bytes) → Lacks c xs → find_char c xs ≡ none
unfolding find_char
find_char-Lacks c [] h = refl
find_char-Lacks c (x ∷ xs) h = ground (arith, find_char-Lacks c xs)

-- A byte string lacks the byte, or splits at its first occurrence.
abbrev pub SplitAt : ℕ → Bytes → Type 0
SplitAt c xs = (pre : Bytes) × (post : Bytes) × (xs ≡ pre ++ c ∷ post) × Lacks c pre

cons-SplitAt : (c x : ℕ) (xs : Bytes) → x ≢ c → SplitAt c xs → SplitAt c (x ∷ xs)
cons-SplitAt c x xs ne (pre, post, e, h) = (x ∷ pre, post, ap (◌∷◌ x) e, (ne, h))

pub split_cases : (c : ℕ) (xs : Bytes) → Lacks c xs ⊎ SplitAt c xs
split_cases c [] = inl tt
split_cases c (x ∷ xs) = elim (Bool-cases (x == c)) [
  | inl hit ↦ inr ([], xs, ground arith, tt)
  | inr miss ↦ elim (split_cases c xs) [
    | inl h ↦ inl (ground arith, h)
    | inr s ↦ inr (cons-SplitAt c x xs (ground arith) s)
  ]
]

pub starts-append : (text post : Bytes) → starts text (text ++ post) ≡ true
unfolding starts
starts-append [] post = refl
starts-append (x ∷ text) post = ground (arith, starts-append text post)

pub starts-split : (text s : Bytes) → starts text s ≡ true → s ≡ text ++ drop (length text) s
unfolding starts
starts-split [] s h = refl
starts-split (x ∷ text) [] h = ground arith
starts-split (x ∷ text) (y ∷ s) h = ground (arith, starts-split text s)

-- A found position splits the text there.
pub find_text-split :
    (text s : Bytes) (n : ℕ)
    → find_text text s ≡ some n
    → (pre : Bytes) × (post : Bytes) × (s ≡ pre ++ text ++ post) × (n ≡ length pre)
unfolding find_text
find_text-split text [] n h = elim (Bool-cases (starts text [])) [
  | inl hit ↦ ([], drop (length text) [], starts-split text [] hit, ground arith)
  | inr miss ↦ absurd (ground arith)
]
find_text-split text (x ∷ s) n h = elim (Bool-cases (starts text (x ∷ s))) [
  | inl hit ↦ ([], drop (length text) (x ∷ s), starts-split text (x ∷ s) hit, ground arith)
  | inr miss ↦ elim (Option-cases (find_text text s)) [
    | inl missing ↦ absurd (ground arith)
    | inr (i, found) ↦
        let (pre, post, e, at) = find_text-split text s i found in
        (x ∷ pre, post, ap (◌∷◌ x) e, ground arith)
  ]
]

-- The search finds an occurrence no later than any given one.
pub find_text-le :
    (text pre post : Bytes)
    → (n : ℕ) × (find_text text (pre ++ text ++ post) ≡ some n) × (n ≤ length pre)
unfolding find_text
find_text-le [] [] [] = (0, refl, omega arith)
find_text-le [] [] (x ∷ post) = (0, ground arith, omega arith)
find_text-le (x ∷ text) [] post = (0, ground (arith, starts-append (x ∷ text) post), omega arith)
find_text-le text (x ∷ pre) post = elim (Bool-cases (starts text (x ∷ (pre ++ text ++ post)))) [
  | inl hit ↦ (0, ground arith, omega arith)
  | inr miss ↦ let (i, found, at) = find_text-le text pre post in (suc i, ground arith, omega arith)
]

-- Behind a scheme with no colon the separator is found at once.
pub find_text-scheme :
    (scheme post : Bytes)
    → Lacks b':' scheme
    → find_text separator (scheme ++ separator ++ post) ≡ some (length scheme)
unfolding find_text starts
find_text-scheme [] post h = ground arith
find_text-scheme (x ∷ scheme) post h = ground (arith, find_text-scheme scheme post)
