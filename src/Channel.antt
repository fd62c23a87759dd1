-- ===== src/Channel.antt =====
-- src/ayame_signaling.h: `AyameDataChannel`, the observer of a WebRTC data channel. It is its
-- fields and a log of its calls of the data channel and of the functions set; functions are
-- numbers.
pub mod Handed
use grpc_over_ayame.Base.{ℕ, Option, none, some, List, [], ◌∷◌, ◌++◌, Bytes}

pub data Call : Type 0 where
  register_observer unregister_observer : Call
  send : Bytes → Call
  run_state_change : ℕ → Call
  run_message : ℕ → Bytes → Call
  run_buffered_amount_change : ℕ → ℕ → Call

pub record DataChannel : Type 0 where
  pub on_state_change : Option ℕ
  pub on_message : Option ℕ
  pub on_buffered_amount_change : Option ℕ
  pub calls : List Call

-- The constructor.
unfoldable pub create : DataChannel
create = record {
  on_state_change = none;
  on_message = none;
  on_buffered_amount_change = none;
  calls = register_observer ∷ [];
}

-- What is done to it: the setters, the observer's callbacks, and a send.
pub data Event : Type 0 where
  set_on_state_change set_on_message set_on_buffered_amount_change : ℕ → Event
  state_change : Event
  message : Bytes → Event
  buffered_amount_change : ℕ → Event
  sends : Bytes → Event

abbrev pub log : List Call → DataChannel → DataChannel
log cs c = record c { calls = c.calls ++ cs }

-- `if (f) f(...)`.
abbrev pub if_set : Option ℕ → (ℕ → Call) → DataChannel → DataChannel
if_set none k c = c
if_set (some f) k c = log (k f ∷ []) c

unfoldable pub handle : Event → DataChannel → DataChannel
handle (set_on_state_change f) c = record c { on_state_change = some f }
handle (set_on_message f) c = record c { on_message = some f }
handle (set_on_buffered_amount_change f) c = record c { on_buffered_amount_change = some f }
handle state_change c = if_set c.on_state_change run_state_change c
handle (message buffer) c = if_set c.on_message (λ f. run_message f buffer) c
handle (buffered_amount_change sent_data_size) c =
    if_set c.on_buffered_amount_change (λ f. run_buffered_amount_change f sent_data_size) c
handle (sends buffer) c = log (send buffer ∷ []) c

unfoldable pub run : List Event → DataChannel → DataChannel
unfolding handle
run [] c = c
run (e ∷ es) c = run es (handle e c)

-- The destructor.
unfoldable pub destroy : DataChannel → DataChannel
destroy c = log (unregister_observer ∷ []) c
