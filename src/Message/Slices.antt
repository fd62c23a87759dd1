-- ===== src/Message/Slices.antt =====
-- A message that is cut into slices is sent slice by slice.
use grpc_over_ayame.Base.{
  ℕ, ◌+◌, ◌-◌, ◌%◌, ◌≤◌, ◌<◌, ◌≡◌, refl, ◌∙◌, none, some, true, false, Option, ltb, ap, append-nil,
  ◌++◌, List, [], ◌∷◌, Bytes, if◌then◌else◌, ◌==◌, length, take-length, All, arith,
}
use grpc_over_ayame.Message.{
  Fault, aborted, threw, Pull, slice, pull_failed, size_mod, int_max, to_frame, before, send_loop,
  send_message,
}

abbrev pub total : List Bytes → ℕ
total [] = 0
total (s ∷ ss) = length s + total ss

-- A slice that is not empty and whose length fits an `int`.
abbrev pub IsSlice : Bytes → Type 0
IsSlice s = (0 < length s) × (length s ≤ int_max)

abbrev pub slices : List Bytes → List Pull → List Pull
slices [] rest = rest
slices (s ∷ ss) rest = slice s ∷ slices ss rest

pub to_frame-slice : (s : Bytes) → length s ≤ int_max → to_frame s ≡ some s
unfolding to_frame
to_frame-slice s h =
    let n : length s % 4294967296 ≡ length s = omega arith in rw n (ground (arith, take-length s))

send_loop-slice :
    (s : Bytes) (pulls : List Pull) (remaining left : ℕ)
    → length s ≤ int_max
    → remaining ≡ length s + left
    → remaining < size_mod
    → send_loop (slice s ∷ pulls) remaining
      ≡ before s (if left == 0 then ([], none) else send_loop pulls left)
unfolding send_loop
send_loop-slice s pulls remaining left h e b =
    let l : (remaining + size_mod - length s) % size_mod ≡ left = omega arith in
    rw (to_frame-slice s h, send_loop) (rw l)

send_loop-slices :
    (s : Bytes) (ss : List Bytes) (rest : List Pull)
    → All IsSlice (s ∷ ss)
    → total (s ∷ ss) < size_mod
    → send_loop (slices (s ∷ ss) rest) (total (s ∷ ss)) ≡ (s ∷ ss, none)
send_loop-slices s [] rest h b = send_loop-slice s rest (total (s ∷ [])) 0 h.0.1 refl b
send_loop-slices s (t ∷ ts) rest h b =
    let more : (total (t ∷ ts) == 0) ≡ false = ground arith in
    send_loop-slice s (slices (t ∷ ts) rest) (total (s ∷ t ∷ ts)) (total (t ∷ ts)) h.0.1 refl b
    ∙ rw more (rw (send_loop-slices t ts rest h.1 (omega arith)))

-- A message whose length is that of its slices, none of them empty and each at most 2^31 - 1 bytes
-- long, is sent as exactly these slices, one buffer each, in order, and the loop ends there without
-- a fault, whatever the byte stream would still give.
pub send_message-slices :
    (s : Bytes) (ss : List Bytes) (rest : List Pull)
    → All IsSlice (s ∷ ss)
    → total (s ∷ ss) < size_mod
    → send_message (record { message_length = total (s ∷ ss); pulls = slices (s ∷ ss) rest })
      ≡ (s ∷ ss, none)
unfolding send_message
send_message-slices s ss rest h b = send_loop-slices s ss rest h b

-- The loop inside a message: what is sent so far, and then what the rest of the stream gives.
send_loop-prefix :
    (ss : List Bytes) (rest : List Pull) (n left : ℕ)
    → All IsSlice ss
    → n ≡ total ss + left
    → 0 < left
    → n < size_mod
    → send_loop (slices ss rest) n ≡ (ss ++ (send_loop rest left).0, (send_loop rest left).1)
send_loop-prefix [] rest n left h e pos b =
    let same_left : n ≡ left = omega arith in rw same_left refl
send_loop-prefix (s ∷ ss) rest n left h e pos b =
    let more : (total ss + left == 0) ≡ false = ground arith in
    send_loop-slice s (slices ss rest) n (total ss + left) h.0.1 (omega arith) b
    ∙ rw more
        (ap (before s) (send_loop-prefix ss rest (total ss + left) left h.1 refl pos (omega arith)))

-- The stream ends in a call that gives no more slices.
send_loop-end :
    (ss : List Bytes) (rest : List Pull) (n : ℕ) (fault : Option Fault)
    → All IsSlice ss
    → total ss < n
    → n < size_mod
    → send_loop rest (n - total ss) ≡ ([], fault)
    → send_loop (slices ss rest) n ≡ (ss, fault)
send_loop-end ss rest n fault h b c e =
    send_loop-prefix ss rest n (n - total ss) h (omega arith) (omega arith) c
    ∙ (ap (λ (r : List Bytes × Option Fault). (ss ++ r.0, r.1)) e
        ∙ ap (λ sent. (sent, fault)) (append-nil ss))

-- Where `Pull` fails inside a message, the slices before it are sent and the loop just ends.
pub send_message-pull_failed :
    (ss : List Bytes) (rest : List Pull) (n : ℕ)
    → All IsSlice ss
    → total ss < n
    → n < size_mod
    → send_message (record { message_length = n; pulls = slices ss (pull_failed ∷ rest) })
      ≡ (ss, none)
unfolding send_message
send_message-pull_failed ss rest n h b c =
    send_loop-end ss (pull_failed ∷ rest) n none h b c (unfold send_loop in refl)

send_loop-threw :
    (s : Bytes) (rest : List Pull) (n : ℕ)
    → int_max < length s % 4294967296
    → send_loop (slice s ∷ rest) n ≡ ([], some threw)
unfolding send_loop to_frame
send_loop-threw s rest n h =
    let over : ltb int_max (length s % 4294967296) ≡ true = ground arith in
    rw (over, send_loop, to_frame) refl

-- Inside a message, a stream that ends too early fails the assertion on `Next`, and a slice whose
-- length, cut to 32 bits, is negative as an `int` throws; in both cases exactly the slices before
-- were sent.
pub send_message-stops :
    (ss : List Bytes) (s : Bytes) (rest : List Pull) (n : ℕ)
    → All IsSlice ss
    → total ss < n
    → n < size_mod
    → int_max < length s % 4294967296
    → (send_message (record { message_length = n; pulls = slices ss [] }) ≡ (ss, some aborted))
      × (send_message (record { message_length = n; pulls = slices ss (slice s ∷ rest) })
          ≡ (ss, some threw))
unfolding send_message
send_message-stops ss s rest n h b c over = (
  send_loop-end ss [] n (some aborted) h b c (unfold send_loop in refl),
  send_loop-end ss (slice s ∷ rest) n (some threw) h b c
      (send_loop-threw s rest (n - total ss) over),
)
