-- ===== src/Stream/Perform.antt =====
-- src/ayame_transport.h: `AyameStream`'s constructor, `PerformOp`, its callbacks and `Destroy`.
use grpc_over_ayame.Base.{
  ℕ, Bool, true, false, Option, none, some, List, [], ◌∷◌, ◌++◌, ◌==◌, if◌then◌else◌,
}
use grpc_over_ayame.Json.{Json}
use grpc_over_ayame.Metadata.{AddTail, no_error}
use grpc_over_ayame.Message.{Fault, null_dereference}
use grpc_over_ayame.Stream.{
  StreamOp, Call, run_closure, destroy_buffer, transport_ref, transport_unref, stream_ref,
  unregister_observer, log_has_pending_op, Stream, DataState, open_state, Env, push, Action, ◌>>◌,
}
use grpc_over_ayame.Stream.Send.{send_all}
use grpc_over_ayame.Stream.Receive.{receive_all}

-- `InitDataChannel`; the callbacks that it sets are `on_state_change` below and `receive`.
unfoldable pub init_data_channel : Stream → Stream
init_data_channel s = record s { callbacks_set = true }

-- `dc_ = transport_->CreateDataChannel("ayame_transport")`, and `InitDataChannel` if there is one.
abbrev take_channel : Option ℕ → Stream → Stream
take_channel none s = s
take_channel (some c) s = init_data_channel (record s { dc = some c })

unfoldable pub create_channel : Env → Action Stream
unfolding init_data_channel
create_channel env s = elim env.create_fault [
  | some f ↦ (s, some f)
  | none ↦ (take_channel env.create_data_channel s, none)
]

abbrev new_stream : Bool → Option ℕ → Stream
new_stream is_client dc = record {
  is_client = is_client;
  dc = dc;
  callbacks_set = false;
  waits_ready = false;
  closure_at_destroy = none;
  mailbox = record { data_queue = []; func_queue = [] };
  pending_op = none;
  io = record { recv_inited = false; recv_message = []; calls = transport_ref ∷ [] };
}

-- `if (!dc_) AddOnReady(...) else InitDataChannel()`.
abbrev await_or_init : Stream → Stream
await_or_init s = elim s.dc [
  | none ↦ record s { waits_ready = true }
  | some c ↦ init_data_channel s
]

-- The constructor; `server_data` is the data channel that `OnDataChannel` passes on, or null.
unfoldable pub construct : Env → Option ℕ → Stream × Option Fault
unfolding init_data_channel
construct env server_data = elim server_data [
  | none ↦ elim env.create_fault [
    | some f ↦ (new_stream true none, some f)
    | none ↦ (await_or_init (new_stream true env.create_data_channel), none)
  ]
  | some c ↦ (await_or_init (new_stream false (some c)), none)
]

-- `init_stream`: the constructor, then `Ref`.
unfoldable pub init_stream : Env → Option ℕ → Stream × Option Fault
unfolding construct
init_stream env server_data =
    let (s, fault) = construct env server_data in
    elim fault [
      | none ↦ (record s { io = push s.io (stream_ref ∷ []) }, none)
      | some f ↦ (s, some f)
    ]

abbrev is_open_state : DataState → Bool
is_open_state open_state = true
is_open_state _ = false

-- `dc_ && dc_->state() == kOpen`.
abbrev pub is_open : Env → Option ℕ → Bool
is_open env none = false
is_open env (some c) = is_open_state (env.state c)

-- The channel is not usable yet: keep the batch, or drop it if another one is kept.
unfoldable pub postpone : StreamOp → Stream → Stream
postpone op s = elim s.pending_op [
  | none ↦ record s { pending_op = some op }
  | some p ↦
      if p.address == op.address
      then record s { pending_op = some op }
      else record s { io = push s.io (log_has_pending_op ∷ []) }
]

module _ {V : Type 0} (json : Json V) (add_tail : AddTail) where
  -- The rest of `PerformOp`, over an open channel.
  unfoldable pub perform_now : StreamOp → Action Stream
  perform_now op s =
      let (io, fault) = send_all json op s.io in
      let sent = record s { pending_op = none; io = io } in
      elim fault [ none ↦ receive_all json add_tail op sent | some e ↦ (sent, some e) ]

  abbrev with_channel : Env → Action Stream
  with_channel env s = elim s.dc [ none ↦ create_channel env s | some c ↦ (s, none) ]

  abbrev perform_or_postpone : Env → StreamOp → Action Stream
  perform_or_postpone env op s = elim (is_open env s.dc) [
    | true ↦ perform_now op s
    | false ↦ (postpone op s, none)
  ]

  unfoldable pub perform_op : Env → StreamOp → Action Stream
  perform_op env op = with_channel env >> perform_or_postpone env op

  abbrev rerun : Env → Option StreamOp → Action Stream
  rerun env none s = (s, none)
  rerun env (some op) s = perform_op env op s

  -- The function that the constructor gives to `AddOnReady`.
  unfoldable pub on_ready : Env → Action Stream
  on_ready env s = rerun env s.pending_op s

  -- The callback of `SetOnStateChange`; it reads `dc_->state()`.
  unfoldable pub on_state_change : Env → Action Stream
  on_state_change env s = elim s.dc [
    | none ↦ (s, some null_dereference)
    | some c ↦ if is_open_state (env.state c) then rerun env s.pending_op s else (s, none)
  ]

abbrev run_if_set : Option ℕ → List Call
run_if_set none = []
run_if_set (some c) = run_closure c no_error ∷ []

abbrev unregister_if_set : Option ℕ → List Call
unregister_if_set none = []
unregister_if_set (some c) = unregister_observer c ∷ []

-- `Destroy(then_schedule_closure)`, the destructor, and that of its member `dc_`.
unfoldable pub destroy : Option ℕ → Stream → Stream
destroy closure s =
    let freed = if s.io.recv_inited then destroy_buffer ∷ [] else [] in
    record s {
      closure_at_destroy = closure;
      io = push s.io (freed ++ transport_unref ∷ (run_if_set closure ++ unregister_if_set s.dc));
    }
