-- ===== src/Metadata/RoundTrip.antt =====
-- What a metadata batch becomes on the other side of the data channel.
use mathlib.Core.Option
use grpc_over_ayame.Base.{◌≡◌, refl, sym, ap, ◌∙◌, Option, none, some, [], map, Bytes}
use grpc_over_ayame.Json.{Json, IsJson, lookup, Distinct}
use grpc_over_ayame.Metadata.{Batch, no_error, AddTail, IsAddTail, encode, decode}
use grpc_over_ayame.Metadata.Filled.{shown, last_or, encode-Holds, encode-TakesKeys}
use grpc_over_ayame.Metadata.Added.{
  lookup-texts, Distinct-of_texts, AllTexts, AllTexts-texts, add_items-all,
}

module _ {V : Type 0} (json : Json V) (laws : IsJson json) where
  text-injective : (a b : Option Bytes) → Option.map json.text a ≡ Option.map json.text b → a ≡ b
  text-injective none none e = refl
  text-injective none (some b) e = cc
  text-injective (some a) none e = cc
  text-injective (some a) (some b) e =
      let e' : json.text a ≡ json.text b = cc in
      sym (laws.as_text-text a) ∙ (ap json.as_text e' ∙ laws.as_text-text b)

  text_of_map :
      (o : Option Bytes) (v : V) → Option.map json.text o ≡ some v → (t : Bytes) × (v ≡ json.text t)
  text_of_map none v e = cc
  text_of_map (some t) v e = (t, cc)

  encode-AllTexts : (md : Batch) → AllTexts json (json.items (encode json md))
  encode-AllTexts md k v e =
      text_of_map (last_or k none (map shown md)) v (sym (encode-Holds json laws md k) ∙ e)

-- A batch written as JSON, as one side does for initial or trailing metadata, and read from the
-- buffer by the other side into an empty batch: if writing throws no exception, reading succeeds
-- without error, no key is linked twice, and each key has the value of its last element in the
-- batch sent, where keys and values end at their first NUL byte.
pub decode-encode :
    {V : Type 0} (json : Json V) (add_tail : AddTail) (md : Batch) (buffer : Bytes)
    → IsJson json
    → IsAddTail add_tail
    → json.dump (encode json md) ≡ some buffer
    → (b : Batch) × (decode json add_tail [] buffer ≡ some (b, no_error))
      × Distinct b
      × ((k : Bytes) → lookup k b ≡ last_or k none (map shown md))
unfolding decode
decode-encode json add_tail md buffer laws adds e =
    let ms = json.items (encode json md) in
    let d : Distinct ms = laws.items-Distinct (encode json md) (encode-TakesKeys json laws md) in
    let (b, es) = AllTexts-texts json ms d (encode-AllTexts json laws md) in
    let d' : Distinct b = Distinct-of_texts json b (rw es at d) in
    (
      b,
      rw (laws.parse-dump (encode json md) buffer e)
          (rw es (add_items-all json laws add_tail adds b d')),
      d',
      λ k.
          text-injective json laws (lookup k b) (last_or k none (map shown md))
            (sym (lookup-texts json k b) ∙ (ap (lookup k) (sym es) ∙ encode-Holds json laws md k)),
    )
