-- ===== src/Metadata/Added.antt =====
-- The receive callbacks' loop on members that are texts.
use mathlib.Core.Option
use grpc_over_ayame.Base.{
  ◌≡◌, refl, ◌∙◌, inl, inr, false, none, some, List, [], ◌∷◌, ◌++◌, append_assoc, append-nil, Bytes,
  same, same_iff, Bool-cases, arith,
}
use grpc_over_ayame.Json.{Json, IsJson, lookup, Distinct}
use grpc_over_ayame.Metadata.{Batch, no_error, AddTail, IsAddTail, add_items}

-- No key of `new` stands in `old`.
abbrev pub Apart : Batch → Batch → Type 0
Apart old [] = Unit
Apart old ((k, v) ∷ new) = (lookup k old ≡ none) × Apart old new

Apart-nil : (new : Batch) → Apart [] new
Apart-nil [] = tt
Apart-nil ((k, v) ∷ new) = (refl, Apart-nil new)

lookup-concat :
    (k j v : Bytes) (old : Batch)
    → lookup k old ≡ none
    → same j k ≡ false
    → lookup k (old ++ (j, v) ∷ []) ≡ none
lookup-concat k j v [] h n = rw n
lookup-concat k j v ((i, w) ∷ old) h n = ground (arith, lookup-concat k j v old)

same_comm : (a b : Bytes) → same a b ≡ false → same b a ≡ false
same_comm a b h = ground (arith, same_iff a b, same_iff b a)

Apart-concat :
    (j v : Bytes) (old new : Batch)
    → Apart old new
    → lookup j new ≡ none
    → Apart (old ++ (j, v) ∷ []) new
Apart-concat j v old [] h n = tt
Apart-concat j v old ((k, w) ∷ new) h n =
    ground (arith, lookup-concat k j v old, same_comm k j, Apart-concat j v old new h.1)

module _ {V : Type 0} (json : Json V) where
  abbrev pub texts : Batch → List (Bytes × V)
  texts [] = []
  texts ((k, v) ∷ b) = (k, json.text v) ∷ texts b

  pub lookup-texts :
      (k : Bytes) (b : Batch) → lookup k (texts b) ≡ Option.map json.text (lookup k b)
  lookup-texts k [] = refl
  lookup-texts k ((j, v) ∷ b) = elim (Bool-cases (same j k)) [
    | inl hit ↦ rw hit
    | inr miss ↦ rw miss (lookup-texts k b)
  ]

  lookup-none_of_texts : (k : Bytes) (b : Batch) → lookup k (texts b) ≡ none → lookup k b ≡ none
  lookup-none_of_texts k b h = ground (arith, lookup-texts k b)

  pub Distinct-of_texts : (b : Batch) → Distinct (texts b) → Distinct b
  Distinct-of_texts [] h = tt
  Distinct-of_texts ((k, v) ∷ b) h = (lookup-none_of_texts k b h.0, Distinct-of_texts b h.1)

  -- Every member found by its key is a text.
  abbrev pub AllTexts : List (Bytes × V) → Type 0
  AllTexts ms = (k : Bytes) (v : V) → lookup k ms ≡ some v → (t : Bytes) × (v ≡ json.text t)

  AllTexts-tail :
      (k : Bytes) (v : V) (ms : List (Bytes × V))
      → lookup k ms ≡ none
      → AllTexts ((k, v) ∷ ms)
      → AllTexts ms
  AllTexts-tail k v ms n h j w e = elim (Bool-cases (same k j)) [
    | inl hit ↦ absurd (ground (arith, same_iff k j))
    | inr miss ↦ h j w (rw miss e)
  ]

  -- Then the members are the texts of a batch.
  pub AllTexts-texts :
      (ms : List (Bytes × V)) → Distinct ms → AllTexts ms → (b : Batch) × (ms ≡ texts b)
  AllTexts-texts [] d h = ([], refl)
  AllTexts-texts ((k, v) ∷ ms) d h =
      let (t, e) = h k v (rw ((same_iff k k).1 refl)) in
      let (b, es) = AllTexts-texts ms d.1 (AllTexts-tail k v ms d.0 h) in ((k, t) ∷ b, rw (e, es))

pub add_items-cons :
    {V : Type 0} (json : Json V) (add_tail : AddTail) (old old' : Batch) (k t : Bytes) (v : V)
    (rest : List (Bytes × V))
    → json.as_text v ≡ some t
    → add_tail old (k, t) ≡ (old', no_error)
    → add_items json add_tail old ((k, v) ∷ rest) ≡ add_items json add_tail old' rest
unfolding add_items
add_items-cons json add_tail old old' k t v rest e h = ground arith

module _ {V : Type 0} (json : Json V) (laws : IsJson json) (add_tail : AddTail)
    (h : IsAddTail add_tail) where
  -- The loop links every text at the end of the batch.
  pub add_items-texts :
      (old new : Batch)
      → Distinct new
      → Apart old new
      → add_items json add_tail old (texts json new) ≡ some (old ++ new, no_error)
  add_items-texts old [] d a = rw (append-nil old) (unfold add_items in refl)
  add_items-texts old ((k, v) ∷ new) d a =
      add_items-cons json add_tail old (old ++ (k, v) ∷ []) k v (json.text v) (texts json new)
        (laws.as_text-text v) (h old (k, v) a.0)
      ∙ (add_items-texts (old ++ (k, v) ∷ []) new d.1 (Apart-concat k v old new a.1 d.0)
          ∙ rw (append_assoc old ((k, v) ∷ []) new))

  pub add_items-all :
      (new : Batch)
      → Distinct new
      → add_items json add_tail [] (texts json new) ≡ some (new, no_error)
  add_items-all new d = add_items-texts [] new d (Apart-nil new)
