-- ===== src/Signaling/Messages/Members.antt =====
-- What is read of the objects that the program builds.
use grpc_over_ayame.Base.{
  ◌≡◌, refl, ap, ◌∙◌, Option, none, some, List, [], ◌∷◌, Bytes, same, if◌then◌else◌,
}
use grpc_over_ayame.Json.{Json, IsJson, lookup}
use grpc_over_ayame.Signaling.Messages.{object_from, object}

-- The value of a key's last member, or else `old`.
abbrev pub last_member {ℓ} : {V : Type ℓ} → Bytes → Option V → List (Bytes × V) → Option V
last_member i old [] = old
last_member i old ((k, v) ∷ rest) = last_member i (if same k i then some v else old) rest

module _ {V : Type 0} (json : Json V) (laws : IsJson json) where
  open laws use {TakesKeys, null-TakesKeys, set-TakesKeys, items-null, items-set, get-set}

  pub object_from-TakesKeys :
      (ms : List (Bytes × V)) (o : V) → TakesKeys o → TakesKeys (object_from json o ms)
  object_from-TakesKeys [] o h = h
  object_from-TakesKeys ((k, v) ∷ rest) o h =
      object_from-TakesKeys rest (json.set k v o) (set-TakesKeys k v o h)

  lookup-object_from :
      (i : Bytes) (ms : List (Bytes × V)) (o : V)
      → TakesKeys o
      → lookup i (json.items (object_from json o ms)) ≡ last_member i (lookup i (json.items o)) ms
  lookup-object_from i [] o h = refl
  lookup-object_from i ((k, v) ∷ rest) o h =
      lookup-object_from i rest (json.set k v o) (set-TakesKeys k v o h)
      ∙ ap (λ w. last_member i w rest) (items-set k i v o h)

  pub lookup-object :
      (i : Bytes) (ms : List (Bytes × V))
      → lookup i (json.items (object json ms)) ≡ last_member i none ms
  lookup-object i ms =
      lookup-object_from i ms json.null null-TakesKeys
      ∙ ap (λ m. last_member i (lookup i m) ms) items-null

  get-object_from :
      (i k : Bytes) (v w : V) (rest : List (Bytes × V)) (o : V)
      → TakesKeys o
      → last_member i (lookup i (json.items o)) ((k, v) ∷ rest) ≡ some w
      → json.get i (object_from json (json.set k v o) rest) ≡ some w
  get-object_from i k v w [] o h e = get-set k i v o w h e
  get-object_from i k v w ((k', v') ∷ rest) o h e =
      get-object_from i k' v' w rest (json.set k v o) (set-TakesKeys k v o h)
        (ap (λ x. last_member i x ((k', v') ∷ rest)) (items-set k i v o h) ∙ e)

  -- A member of an object that is built of at least one.
  pub get-object :
      (i k : Bytes) (v w : V) (rest : List (Bytes × V))
      → last_member i none ((k, v) ∷ rest) ≡ some w
      → json.get i (object json ((k, v) ∷ rest)) ≡ some w
  get-object i k v w rest e =
      get-object_from i k v w rest json.null null-TakesKeys
        (ap (λ m. last_member i (lookup i m) ((k, v) ∷ rest)) items-null ∙ e)
