-- ===== src/Message.antt =====
-- src/ayame_transport.h: the loop of `AyameStream::PerformOp` that sends a message. The byte stream
-- is gRPC's: it enters as the slices that `Next` and `Pull` give, one for each round.
pub mod Slices
use grpc_over_ayame.Base.{
  ℕ, ◌+◌, ◌-◌, ◌%◌, Option, none, some, List, [], ◌∷◌, Bytes, if◌then◌else◌, ◌==◌, ltb, length,
  take,
}

-- What ends the program or unwinds the call: an exception, a failed `GPR_ASSERT`, a call through a
-- null pointer, a call of an object that was destroyed.
pub data Fault : Type 0 where
  threw aborted null_dereference dangling : Fault

-- A round of the byte stream; where the list ends, `Next` returns false.
pub data Pull : Type 0 where
  slice : Bytes → Pull
  pull_failed : Pull

pub record Message : Type 0 where
  pub message_length : ℕ
  pub pulls : List Pull

abbrev pub size_mod : ℕ
size_mod = 18446744073709551616

abbrev pub int_max : ℕ
int_max = 2147483647

-- `int length = GRPC_SLICE_LENGTH(s); std::string(buf, length)`: the length is cut to 32 bits, and
-- a negative one is too long for a string, which throws.
unfoldable pub to_frame : Bytes → Option Bytes
to_frame s = let n = length s % 4294967296 in if ltb int_max n then none else some (take n s)

-- The buffers sent, and the fault that ended the loop, if any.
abbrev pub Sent : Type 0
Sent = List Bytes × Option Fault

abbrev pub before : Bytes → Sent → Sent
before frame rest = (frame ∷ rest.0, rest.1)

-- The do-while loop. `remaining` is a `size_t`, and wraps; the loop ends where it is 0.
unfoldable pub send_loop : List Pull → ℕ → Sent
unfolding to_frame
send_loop [] remaining = ([], some aborted)
send_loop (pull_failed ∷ pulls) remaining = ([], none)
send_loop (slice s ∷ pulls) remaining =
    let left = (remaining + size_mod - length s) % size_mod in
    let rest = send_loop pulls left in
    elim (to_frame s) [
      | none ↦ ([], some threw)
      | some frame ↦ before frame (if left == 0 then ([], none) else rest)
    ]

unfoldable pub send_message : Message → Sent
unfolding send_loop
send_message m = send_loop m.pulls m.message_length
