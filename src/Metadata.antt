-- ===== src/Metadata.antt =====
-- src/ayame_transport.h: how `AyameStream::PerformOp` writes a metadata batch as JSON, and how its
-- receive callbacks read one. A batch is its elements in list order; `grpc_metadata_batch_add_tail`
-- is a parameter.
pub mod Filled
pub mod Added
pub mod RoundTrip
use grpc_over_ayame.Base.{
  ℕ, ◌≡◌, Option, none, some, List, [], ◌∷◌, ◌++◌, Bytes, ◌==◌, if◌then◌else◌,
}
use grpc_over_ayame.Json.{Json, lookup}

abbrev pub Elem : Type 0
Elem = Bytes × Bytes

abbrev pub Batch : Type 0
Batch = List Elem

pub data GrpcError : Type 0 where
  no_error : GrpcError
  error : ℕ → GrpcError

-- `grpc_metadata_batch_add_tail`: the batch behind it and the error returned.
abbrev pub AddTail : Type 0
AddTail = Batch → Elem → Batch × GrpcError

-- What gRPC documents: an element whose key is not yet in the batch is linked at its end.
abbrev pub IsAddTail : AddTail → Type 0
IsAddTail add_tail =
    (b : Batch) (e : Elem) → lookup e.0 b ≡ none → add_tail b e ≡ (b ++ e ∷ [], no_error)

-- What a C string from `grpc_slice_to_c_string` shows of a slice: the bytes before the first NUL.
unfoldable pub c_string : Bytes → Bytes
c_string [] = []
c_string (c ∷ cs) = if c == 0 then [] else c ∷ c_string cs

infixl 5 ◌>>=◌
abbrev ◌>>=◌ {ℓ κ} : {A : Type ℓ} {B : Type κ} → Option A → (A → Option B) → Option B
m >>= f = elim m [ none ↦ none | some a ↦ f a ]

module _ {V : Type 0} (json : Json V) where
  -- The loop over `md_batch->list` that fills `jmeta`.
  unfoldable pub fill : V → Batch → V
  fill jmeta [] = jmeta
  fill jmeta ((key, value) ∷ rest) =
      fill (json.set (c_string key) (json.text (c_string value)) jmeta) rest

  -- `jmeta` for a whole batch.
  unfoldable pub encode : Batch → V
  unfolding fill
  encode md_batch = fill json.null md_batch

  -- The loop over `js.items()` that fills `md_batch`; it stops at the first error.
  unfoldable pub add_items : AddTail → Batch → List (Bytes × V) → Option (Batch × GrpcError)
  add_items add_tail md_batch [] = some (md_batch, no_error)
  add_items add_tail md_batch ((key, v) ∷ rest) =
      let go : Batch × GrpcError → Option (Batch × GrpcError) =
        λ r. elim r.1 [ no_error ↦ add_items add_tail r.0 rest | error e ↦ some (r.0, error e) ] in
      do value ← json.as_text v; go (add_tail md_batch (key, value))

  -- A received buffer into a batch; `none` if an exception is thrown.
  unfoldable pub decode : AddTail → Batch → Bytes → Option (Batch × GrpcError)
  unfolding add_items
  decode add_tail md_batch buffer = do
    js ← json.parse buffer
    add_items add_tail md_batch (json.items js)
