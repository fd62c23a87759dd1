-- ===== src/Metadata/Filled.antt =====
-- `jmeta`: what the members of the written object are.
use mathlib.Core.Option
use grpc_over_ayame.Base.{
  ◌≡◌, ap, ◌∙◌, inl, inr, Option, none, some, [], ◌∷◌, map, Bytes, same, if◌then◌else◌, Bool-cases,
}
use grpc_over_ayame.Json.{Json, IsJson, lookup}
use grpc_over_ayame.Metadata.{Elem, Batch, c_string, fill, encode}

-- An element as the C strings show it.
abbrev pub shown : Elem → Elem
shown e = (c_string e.0, c_string e.1)

-- The value that the last element with this key sets, over a start `d`.
abbrev pub last_or : Bytes → Option Bytes → Batch → Option Bytes
last_or k d [] = d
last_or k d ((j, v) ∷ rest) = last_or k (if same j k then some v else d) rest

module _ {V : Type 0} (json : Json V) where
  -- The member `k` of `o` is the text `d`, or is missing.
  abbrev pub Holds : V → Bytes → Option Bytes → Type 0
  Holds o k d = lookup k (json.items o) ≡ Option.map json.text d

module _ {V : Type 0} (json : Json V) (laws : IsJson json) where
  fill-TakesKeys : (md : Batch) (o : V) → laws.TakesKeys o → laws.TakesKeys (fill json o md)
  unfolding fill
  fill-TakesKeys [] o h = h
  fill-TakesKeys ((k, v) ∷ md) o h = fill-TakesKeys md _ (laws.set-TakesKeys _ _ o h)

  pub encode-TakesKeys : (md : Batch) → laws.TakesKeys (encode json md)
  unfolding encode
  encode-TakesKeys md = fill-TakesKeys md json.null laws.null-TakesKeys

  set-Holds :
      (j v k : Bytes) (o : V) (d : Option Bytes)
      → laws.TakesKeys o
      → Holds json o k d
      → Holds json (json.set j (json.text v) o) k (if same j k then some v else d)
  set-Holds j v k o d h e = elim (Bool-cases (same j k)) [
    | inl hit ↦ laws.items-set j k (json.text v) o h ∙ rw hit
    | inr miss ↦ laws.items-set j k (json.text v) o h ∙ rw miss e
  ]

  fill-Holds :
      (md : Batch) (k : Bytes) (o : V) (d : Option Bytes)
      → laws.TakesKeys o
      → Holds json o k d
      → Holds json (fill json o md) k (last_or k d (map shown md))
  unfolding fill
  fill-Holds [] k o d h e = e
  fill-Holds ((j, v) ∷ md) k o d h e =
      fill-Holds md k _ _ (laws.set-TakesKeys _ _ o h)
        (set-Holds (c_string j) (c_string v) k o d h e)

  pub encode-Holds :
      (md : Batch) (k : Bytes) → Holds json (encode json md) k (last_or k none (map shown md))
  unfolding encode
  encode-Holds md k =
      fill-Holds md k json.null none laws.null-TakesKeys (ap (lookup k) laws.items-null)
