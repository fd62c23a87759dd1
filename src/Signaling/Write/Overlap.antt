-- ===== src/Signaling/Write/Overlap.antt =====
-- src/ayame_signaling.cpp: `DoSendText` and `OnWrite` in parts. `SendText` posts to the system's
-- executor, and no lock guards `write_buffer_`: the parts of one can run between those of another.
use grpc_over_ayame.Base.{
  ℕ, zero, suc, Bool, Option, none, some, List, [], ◌∷◌, ◌++◌, Bytes, ◌≡◌, refl, ap, ◌∙◌,
  if◌then◌else◌, arith,
}
use grpc_over_ayame.Message.{Fault}
use grpc_over_ayame.Stream.{Action, ◌>>◌}
use grpc_over_ayame.Signaling.{success, Signaling}
use grpc_over_ayame.Signaling.Write.Stall.{send_after_error, send_after_error-stuck}
use grpc_over_ayame.Signaling.Write.{is_empty, erase_front, do_write, do_send_text, on_write}

-- Where a handler stands.
pub data Task : Type 0 where
  -- `DoSendText`: before `write_buffer_.empty()`, before `push_back`, and before `if (empty)`.
  tests : Bytes → Task
  pushes : Bool → Bytes → Task
  writes_if : Bool → Task
  -- `OnWrite` without an error: before `erase`, and before the test behind it.
  erases : Task
  writes_next : Task

-- The part that comes next, and where the handler stands behind it, if it has not returned.
unfoldable pub advance : Task → Signaling → (Signaling × Option Fault) × Option Task
advance (tests text) s = ((s, none), some (pushes (is_empty s.write_buffer) text))
advance (pushes empty text) s =
    ((record s { write_buffer = s.write_buffer ++ text ∷ [] }, none), some (writes_if empty))
advance (writes_if empty) s = (if empty then do_write s else (s, none), none)
advance erases s =
    ((record s { write_buffer = erase_front s.write_buffer }, none), some writes_next)
advance writes_next s = (if is_empty s.write_buffer then (s, none) else do_write s, none)

-- The signaling and the handlers under way.
pub record Threads : Type 0 where
  pub signaling : Signaling
  pub tasks : List Task

abbrev pub put_back : Option Task → List Task → List Task
put_back none ts = ts
put_back (some t) ts = t ∷ ts

-- The handler at this place runs its next part.
unfoldable pub advance_at : ℕ → List Task → Signaling → (Signaling × Option Fault) × List Task
advance_at n [] s = ((s, none), [])
advance_at zero (t ∷ ts) s = let (r, t') = advance t s in (r, put_back t' ts)
advance_at (suc n) (t ∷ ts) s = let (r, ts') = advance_at n ts s in (r, t ∷ ts')

pub data Move : Type 0 where
  -- A thread starts on a handler, behind those under way.
  begins : Task → Move
  continues : ℕ → Move

unfoldable pub move : Move → Action Threads
unfolding advance_at
move (begins t) c = (record c { tasks = c.tasks ++ t ∷ [] }, none)
move (continues n) c =
    let (r, ts) = advance_at n c.tasks c.signaling in (record { signaling = r.0; tasks = ts }, r.1)

unfoldable pub schedule : List Move → Action Threads
unfolding move
schedule [] c = (c, none)
schedule (m ∷ ms) c = (move m >> schedule ms) c

abbrev pub idle : Signaling → Threads
idle s = record { signaling = s; tasks = [] }

-- A handler of three parts, or of two, with no other under way.
abbrev pub sends_whole : Bytes → List Move
sends_whole text = begins (tests text) ∷ continues 0 ∷ continues 0 ∷ continues 0 ∷ []

abbrev pub finishes_whole : List Move
finishes_whole = begins erases ∷ continues 0 ∷ continues 0 ∷ []

-- The second `DoSendText` tests the queue between the test and the push of the first.
abbrev pub two_sends : Bytes → Bytes → List Move
two_sends a b =
    begins (tests a)
    ∷ begins (tests b)
    ∷ continues 0
    ∷ continues 1
    ∷ continues 0
    ∷ continues 1
    ∷ continues 0
    ∷ continues 0
    ∷ []

-- `OnWrite` runs whole between the test and the push of a `DoSendText`.
abbrev pub send_around : Bytes → List Move
send_around a =
    begins (tests a)
    ∷ continues 0
    ∷ begins erases
    ∷ continues 1
    ∷ continues 1
    ∷ continues 0
    ∷ continues 0
    ∷ []

abbrev pub at_rest : Signaling × Option Fault → Threads × Option Fault
at_rest (s, fault) = (idle s, fault)

-- Run with no other under way, the parts of a handler make up the handler.
pub schedule-whole :
    (text : Bytes) (s : Signaling)
    → (schedule (sends_whole text) (idle s) ≡ at_rest (do_send_text text s))
      × (schedule finishes_whole (idle s) ≡ at_rest (on_write success s))
unfolding schedule advance do_send_text on_write
schedule-whole text s = (ground arith, ground arith)

-- A text that comes while the last write of the queue finishes can be left behind: `DoSendText` has
-- found the queue not empty, `OnWrite` then empties it, and neither starts a write. The text, and
-- whatever texts come after it, wait in the queue with no write under way.
pub schedule-stalls :
    (written text : Bytes) (texts : List Bytes) (s : Signaling)
    → s.write_buffer ≡ written ∷ []
    → let out = schedule (send_around text) (idle s) in
      (out ≡ (idle (record s { write_buffer = text ∷ [] }), none))
      × (send_after_error texts out.0.signaling ≡ record s { write_buffer = text ∷ texts })
unfolding schedule advance
schedule-stalls written text texts s e =
    let left = record s { write_buffer = text ∷ [] } in
    let out : schedule (send_around text) (idle s) ≡ (idle left, none) = ground arith in
    (
      out,
      ap (λ (r : Threads × Option Fault). send_after_error texts r.0.signaling) out
          ∙ send_after_error-stuck texts text [] left refl,
    )
