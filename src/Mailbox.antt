-- ===== src/Mailbox.antt =====
-- src/ayame_transport.h: `data_queue_` and `func_queue_` of `AyameStream`, with the two functions
-- that change them under `mutex_`: the `SetOnMessage` callback and `WaitForRecv`. Each returns the
-- call that it makes, a waiting function and the data that it gets; what that call does is in
-- Stream.
pub mod Pairing
use grpc_over_ayame.Base.{Option, none, some, List, [], ◌∷◌, ◌++◌, Bytes}

pub record Mailbox (F : Type 0) : Type 0 where
  pub data_queue : List Bytes
  pub func_queue : List F

-- What can happen to the queues; the mutex makes each event atomic.
pub data Event (F : Type 0) : Type 0 where
  message : Bytes → Event F
  wait : F → Event F

module _ {F : Type 0} where
  -- The callback: the oldest waiting function takes the buffer, or the buffer waits.
  unfoldable pub on_message : Mailbox F → Bytes → Mailbox F × Option (F × Bytes)
  on_message m buffer = elim m.func_queue [
    | f ∷ fs ↦ (record m { func_queue = fs }, some (f, buffer))
    | [] ↦ (record m { data_queue = m.data_queue ++ buffer ∷ [] }, none)
  ]

  -- `WaitForRecv(f)`: `f` takes the oldest waiting buffer, or `f` waits.
  unfoldable pub wait_for_recv : Mailbox F → F → Mailbox F × Option (F × Bytes)
  wait_for_recv m f = elim m.data_queue [
    | data' ∷ rest ↦ (record m { data_queue = rest }, some (f, data'))
    | [] ↦ (record m { func_queue = m.func_queue ++ f ∷ [] }, none)
  ]

  unfoldable pub step : Mailbox F → Event F → Mailbox F × Option (F × Bytes)
  unfolding on_message wait_for_recv
  step m (message buffer) = on_message m buffer
  step m (wait f) = wait_for_recv m f

  abbrev pub logged : Option (F × Bytes) → List (F × Bytes) → List (F × Bytes)
  logged none calls = calls
  logged (some c) calls = c ∷ calls

  -- A schedule of both threads, with the calls made in order.
  unfoldable pub run : Mailbox F → List (Event F) → Mailbox F × List (F × Bytes)
  run m [] = (m, [])
  run m (e ∷ es) = let (m', c) = step m e in let (m'', calls) = run m' es in (m'', logged c calls)
