-- ===== src/Stream/Parts.antt =====
-- A call in any number of batches and messages: what is sent, and what is to be received.
use grpc_over_ayame.Base.{
  ◌≡◌, Bool, true, Option, none, some, List, [], ◌∷◌, ◌++◌, map, Bytes, length,
}
use grpc_over_ayame.Json.{Json, lookup, Distinct}
use grpc_over_ayame.Metadata.{Batch, encode}
use grpc_over_ayame.Metadata.Filled.{shown, last_or}
use grpc_over_ayame.Message.{Message, Pull, slice}
use grpc_over_ayame.Message.Slices.{IsSlice}
use grpc_over_ayame.Stream.{
  StreamOp, Recv, initial_metadata, message, trailing_metadata, Call, Io, Action, ◌>>◌,
}
use grpc_over_ayame.Stream.Send.{send_all}
use grpc_over_ayame.Stream.Calls.{two, got}

-- What one buffer carries.
pub data Part : Type 0 where
  metadata : Batch → Part
  body : Bytes → Part

abbrev pub first_slice : List Pull → Bytes
first_slice (slice b ∷ rest) = b
first_slice _ = []

abbrev pub metadata_part : Option Batch → List Part
metadata_part none = []
metadata_part (some md) = metadata md ∷ []

abbrev pub body_part : Option Message → List Part
body_part none = []
body_part (some m) = body (first_slice m.pulls) ∷ []

-- The parts of a batch, in the order in which they are sent.
abbrev pub parts_of : StreamOp → List Part
parts_of op =
    metadata_part op.send_initial_metadata
    ++ (body_part op.send_message ++ metadata_part op.send_trailing_metadata)

abbrev pub all_parts : List StreamOp → List Part
all_parts [] = []
all_parts (op ∷ ops) = parts_of op ++ all_parts ops

-- The message is one slice.
abbrev pub IsWhole : Option Message → Type 0
IsWhole none = Unit
IsWhole (some m) =
    (rest : List Pull) × (m.pulls ≡ slice (first_slice m.pulls) ∷ rest)
    × (m.message_length ≡ length (first_slice m.pulls))
    × IsSlice (first_slice m.pulls)

-- The buffers are those of the parts.
abbrev pub Buffers : {V : Type 0} → Json V → List Part → List Bytes → Type 0
Buffers json [] [] = Unit
Buffers json (metadata md ∷ ps) (b ∷ bs) =
    (json.dump (encode json md) ≡ some b) × Buffers json ps bs
Buffers json (body bytes ∷ ps) (b ∷ bs) = (b ≡ bytes) × Buffers json ps bs
Buffers json _ _ = ⊥

-- A metadata part can be written as JSON.
abbrev pub HasText : {V : Type 0} → Json V → Part → Type 0
HasText json (metadata md) = (b : Bytes) × (json.dump (encode json md) ≡ some b)
HasText json (body bytes) = Unit

-- A function waits for the kind of its part; its metadata batch is empty.
abbrev pub Fits : Recv → Part → Type 0
Fits (initial_metadata r) (metadata md) = r.md_batch ≡ []
Fits (message ready) (body bytes) = Unit
Fits (trailing_metadata r) (metadata md) = r.md_batch ≡ []
Fits _ _ = ⊥

abbrev pub FitAll : List Recv → List Part → Type 0
FitAll (f ∷ fs) (p ∷ ps) = Fits f p × FitAll fs ps
FitAll _ _ = Unit

-- A batch of metadata as the other end has it.
abbrev pub Shows : Batch → Batch → Type 0
Shows md b = Distinct b × ((k : Bytes) → lookup k b ≡ last_or k none (map shown md))

-- The calls that are to be made: each function in turn has its part and runs its closure once,
-- without an error.
abbrev pub Received : Bool → List Recv → List Part → List Call → Type 0
Received inited (initial_metadata r ∷ fs) (metadata md ∷ ps) cs =
    (b : Batch) × Shows md b
    × ((rest : List Call) × (cs ≡ two r b ++ rest) × Received inited fs ps rest)
Received inited (message ready ∷ fs) (body bytes ∷ ps) cs =
    (rest : List Call) × (cs ≡ got inited ready bytes ++ rest) × Received true fs ps rest
Received inited (trailing_metadata r ∷ fs) (metadata md ∷ ps) cs =
    (b : Batch) × Shows md b
    × ((rest : List Call) × (cs ≡ two r b ++ rest) × Received inited fs ps rest)
Received inited [] ps cs = cs ≡ []
Received inited fs [] cs = cs ≡ []
Received inited _ _ cs = ⊥

-- Batches over an open channel, one after the other.
unfoldable pub send_batches : {V : Type 0} → Json V → List StreamOp → Action Io
send_batches json [] io = (io, none)
send_batches json (op ∷ ops) io = (send_all json op >> send_batches json ops) io
