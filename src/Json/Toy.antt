-- ===== src/Json/Toy.antt =====
-- A small value of `Json`, which shows that its documented behaviour can be met: objects as lists
-- of members in the order of their first assignment, written with each text behind its length.
use grpc_over_ayame.Base.{
  ℕ, zero, suc, ◌≤◌, ◌<◌, ◌≡◌, sym, ap, append_assoc, append-nil, true, false, refl, ◌∙◌, inl, inr,
  Bool, Option, none, some, List, [], ◌∷◌, ◌++◌, Bytes, same, same_iff, if◌then◌else◌, Bool-cases,
  length, take, drop, length-append, take-append, drop-append, arith,
}
use grpc_over_ayame.Json.{ℤ, pos, negsuc, lookup, Distinct, Json, IsJson}

pub data Toy : Type 0 where
  null : Toy
  text : Bytes → Toy
  bool : Bool → Toy
  int : ℤ → Toy
  nil : Toy
  field : Bytes → Toy → Toy → Toy

unfoldable pub set : Bytes → Toy → Toy → Toy
set k v null = field k v nil
set k v nil = field k v nil
set k v (field j w o) = if same j k then field j v o else field j w (set k v o)
set k v other = other

unfoldable pub items : Toy → List (Bytes × Toy)
items (field k v o) = (k, v) ∷ items o
items _ = []

abbrev TakesKeys : Toy → Type 0
TakesKeys null = Unit
TakesKeys nil = Unit
TakesKeys (field k v o) = (lookup k (items o) ≡ none) × TakesKeys o
TakesKeys _ = ⊥

unfoldable pub as_text : Toy → Option Bytes
as_text (text t) = some t
as_text _ = none

unfoldable pub as_bool : Toy → Option Bool
as_bool (bool b) = some b
as_bool _ = none

unfoldable pub as_int : Toy → Option ℤ
as_int (int n) = some n
as_int _ = none

-- A tag, then the parts, texts and keys behind their length.
unfoldable pub write : Toy → Bytes
write null = 0 ∷ []
write (text t) = 1 ∷ length t ∷ t
write (bool true) = 2 ∷ 1 ∷ []
write (bool false) = 2 ∷ 0 ∷ []
write (int (pos n)) = 3 ∷ 0 ∷ n ∷ []
write (int (negsuc n)) = 3 ∷ 1 ∷ n ∷ []
write nil = 4 ∷ []
write (field k v o) = 5 ∷ length k ∷ (k ++ (write v ++ write o))

unfoldable pub dump : Toy → Option Bytes
unfolding write
dump v = some (write v)

-- A value at the front, and what follows it.
abbrev pub Parsed : Type 0
Parsed = Option (Toy × Bytes)

abbrev read_text : Bytes → Parsed
read_text [] = none
read_text (n ∷ bs) = some (text (take n bs), drop n bs)

abbrev read_bool : Bytes → Parsed
read_bool [] = none
read_bool (zero ∷ bs) = some (bool false, bs)
read_bool (suc n ∷ bs) = some (bool true, bs)

abbrev read_int : Bytes → Parsed
read_int (zero ∷ n ∷ bs) = some (int (pos n), bs)
read_int (suc s ∷ n ∷ bs) = some (int (negsuc n), bs)
read_int _ = none

-- A key, and the value and the other members, each read by `rest`.
abbrev read_field : (Bytes → Parsed) → Bytes → Parsed
read_field rest [] = none
read_field rest (n ∷ bs) = elim (rest (drop n bs)) [
  | none ↦ none
  | some (v, bs') ↦ elim (rest bs') [
    | none ↦ none
    | some (o, bs'') ↦ some (field (take n bs) v o, bs'')
  ]
]

unfoldable pub read : ℕ → Bytes → Parsed
read zero bs = none
read (suc fuel) [] = none
read (suc fuel) (zero ∷ bs) = some (null, bs)
read (suc fuel) (suc zero ∷ bs) = read_text bs
read (suc fuel) (suc (suc zero) ∷ bs) = read_bool bs
read (suc fuel) (suc (suc (suc zero)) ∷ bs) = read_int bs
read (suc fuel) (suc (suc (suc (suc zero))) ∷ bs) = some (nil, bs)
read (suc fuel) (suc (suc (suc (suc (suc zero)))) ∷ bs) = read_field (read fuel) bs
read (suc fuel) _ = none

abbrev whole : Parsed → Option Toy
whole (some (v, [])) = some v
whole _ = none

unfoldable pub parse : Bytes → Option Toy
unfolding read
parse bs = whole (read (length bs) bs)

abbrev pub toy : Json Toy
toy = record {
  null = null;
  text = text;
  int = int;
  set = set;
  get = λ k o. lookup k (items o);
  items = items;
  as_text = as_text;
  as_bool = as_bool;
  as_int = as_int;
  dump = dump;
  parse = parse;
}

items-set :
    (k i : Bytes) (v o : Toy)
    → TakesKeys o
    → lookup i (items (set k v o)) ≡ (if same k i then some v else lookup i (items o))
unfolding set items
items-set k i v null h = refl
items-set k i v nil h = refl
items-set k i v (field j w o) h = elim (Bool-cases (same j k)) [
  | inl hit ↦ ground (arith, same_iff j k)
  | inr miss ↦ ground (arith, items-set k i v o h.1, same_iff j k, same_iff j i, same_iff k i)
]
items-set k i v (text t) h = absurd h
items-set k i v (bool t) h = absurd h
items-set k i v (int t) h = absurd h

set-TakesKeys : (k : Bytes) (v o : Toy) → TakesKeys o → TakesKeys (set k v o)
unfolding set items
set-TakesKeys k v null h = (refl, tt)
set-TakesKeys k v nil h = (refl, tt)
set-TakesKeys k v (field j w o) h =
    ground (arith, items-set k j v o h.1, set-TakesKeys k v o h.1, same_iff j k, same_iff k j)
set-TakesKeys k v (text t) h = absurd h
set-TakesKeys k v (bool t) h = absurd h
set-TakesKeys k v (int t) h = absurd h

items-Distinct : (o : Toy) → TakesKeys o → Distinct (items o)
unfolding items
items-Distinct (field k v o) h = (h.0, items-Distinct o h.1)
items-Distinct null h = tt
items-Distinct nil h = tt
items-Distinct (text t) h = tt
items-Distinct (bool t) h = tt
items-Distinct (int t) h = tt

read_field-written :
    (rest : Bytes → Parsed) (k : Bytes) (v o : Toy) (bs bs' bs'' : Bytes)
    → rest bs ≡ some (v, bs')
    → rest bs' ≡ some (o, bs'')
    → read_field rest (length k ∷ (k ++ bs)) ≡ some (field k v o, bs'')
read_field-written rest k v o bs bs' bs'' h h' =
    rw (drop-append k bs, read_field) (rw h (rw h' (rw (take-append k bs) refl)))

write_positive : (v : Toy) → 0 < length (write v)
unfolding write
write_positive (bool true) = omega arith
write_positive (bool false) = omega arith
write_positive (int (pos n)) = omega arith
write_positive (int (negsuc n)) = omega arith
write_positive _ = omega arith

-- A written value is read back, whatever follows it.
read-write :
    (v : Toy) (fuel : ℕ) (r : Bytes)
    → length (write v) ≤ fuel
    → read fuel (write v ++ r) ≡ some (v, r)
unfolding write read
read-write null (suc f) r h = refl
read-write nil (suc f) r h = refl
read-write (text t) (suc f) r h = rw (take-append t r, drop-append t r) refl
read-write (bool true) (suc f) r h = refl
read-write (bool false) (suc f) r h = refl
read-write (int (pos n)) (suc f) r h = refl
read-write (int (negsuc n)) (suc f) r h = refl
read-write (field k v o) (suc f) r h =
    let rest = write v ++ (write o ++ r) in
    let regroup : (k ++ (write v ++ write o)) ++ r ≡ k ++ rest =
      append_assoc k (write v ++ write o) r
      ∙ ap (λ bs. k ++ bs) (append_assoc (write v) (write o) r) in
    let lengths = length-append k (write v ++ write o) in
    let lengths' = length-append (write v) (write o) in
    ap (λ bs. read_field (read f) (length k ∷ bs)) regroup
    ∙ read_field-written (read f) k v o rest (write o ++ r) r
        (read-write v f (write o ++ r) (omega (arith, lengths, lengths')))
        (read-write o f r (omega (arith, lengths, lengths')))
read-write v zero r h = absurd (omega (arith, write_positive v))

parse-dump : (o : Toy) (t : Bytes) → dump o ≡ some t → parse t ≡ some o
unfolding dump parse
parse-dump o t e =
    let bs = write o in
    let h : t ≡ bs = ground arith in
    rw h (
      ap whole (
        ap (λ cs. read (length bs) cs) (sym (append-nil bs))
        ∙ read-write o (length bs) [] (omega arith)))

pub toy-IsJson : IsJson toy
unfolding items as_text as_int
toy-IsJson = record {
  TakesKeys = TakesKeys;
  null-TakesKeys = tt;
  set-TakesKeys = set-TakesKeys;
  parse-dump = parse-dump;
  as_text-text = λ t. refl;
  as_int-int = λ n. refl;
  items-null = refl;
  items-set = items-set;
  items-Distinct = items-Distinct;
  get-set = λ k i v o w h e. items-set k i v o h ∙ e;
}
