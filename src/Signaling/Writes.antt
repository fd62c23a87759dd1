-- ===== src/Signaling/Writes.antt =====
-- The order of the texts on the WebSocket.
use grpc_over_ayame.Base.{ℕ, suc, ◌<◌, ◌≡◌, none, List, [], ◌∷◌, ◌++◌, Bytes, length}
use grpc_over_ayame.Json.{Json}
use grpc_over_ayame.Signaling.{Call, async_write, Signaling, create}
use grpc_over_ayame.Signaling.Write.Overlap.{schedule, idle, sends_whole, finishes_whole}
use grpc_over_ayame.Signaling.Within.{Within}
use grpc_over_ayame.Signaling.History.{Event, handle}
use grpc_over_ayame.Signaling.Handlers.{IsOther}

-- The texts of the writes started, in order.
abbrev pub writes : List Call → List Bytes
writes [] = []
writes (async_write b ∷ cs) = b ∷ writes cs
writes (_ ∷ cs) = writes cs

abbrev pub front : List Bytes → List Bytes
front [] = []
front (b ∷ bs) = b ∷ []

-- A life of the write queue in which no two handlers overlap: texts handed to it and writes
-- finished by the WebSocket, of those started, each handler's parts run with no other under way,
-- and anything else; with the texts so far and the number of writes finished.
pub data Life {V : Type 0} (json : Json V) : List Bytes → ℕ → Signaling → Type 0 where
  born : Life json [] 0 create
  sent :
      {asked : List Bytes} {n : ℕ} {s t : Signaling} (text : Bytes)
      → Life json asked n s
      → schedule (sends_whole text) (idle s) ≡ (idle t, none)
      → Life json (asked ++ text ∷ []) n t
  finished :
      {asked : List Bytes} {n : ℕ} {s t : Signaling}
      → Life json asked n s
      → n < length (writes s.calls)
      → schedule finishes_whole (idle s) ≡ (idle t, none)
      → Life json asked (suc n) t
  other :
      {asked : List Bytes} {n : ℕ} {s t : Signaling} (e : Event)
      → Life json asked n s
      → IsOther e
      → handle json e s ≡ (t, none)
      → Life json asked n t

-- What is known of the queue: the finished texts, in front of the waiting ones.
pub record InOrder (asked : List Bytes) (n : ℕ) (s : Signaling) : Type 0 where
  pub finished_texts : List Bytes
  pub count : length finished_texts ≡ n
  pub all_texts : asked ≡ finished_texts ++ s.write_buffer
  pub started : writes s.calls ≡ finished_texts ++ front s.write_buffer

-- Neither the queue nor the writes started change.
abbrev Untouched : Signaling → Signaling → Type 0
Untouched s t = (t.write_buffer ≡ s.write_buffer) × (writes t.calls ≡ writes s.calls)
