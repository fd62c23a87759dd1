-- ===== src/Vtable.antt =====
-- src/ayame_transport.h: the functions of `ayame_vtable`, by which gRPC calls a transport and its
-- streams. The streams are kept in a list, in the order of their creation, and a `grpc_stream*` is
-- a place in it.
pub mod Counts
pub mod Kept
pub mod Lives
pub mod Dangling
use grpc_over_ayame.Base.{
  ℕ, zero, suc, Bool, Option, none, some, List, [], ◌∷◌, ◌++◌, Bytes, length, ◌==◌, if◌then◌else◌,
}
use grpc_over_ayame.Json.{Json}
use grpc_over_ayame.Metadata.{AddTail}
use grpc_over_ayame.Message.{Fault, dangling}
use grpc_over_ayame.Stream.{StreamOp, Stream, Env, Action, ◌>>◌}
use grpc_over_ayame.Stream.Perform
use grpc_over_ayame.Transport
use grpc_over_ayame.Transport.{Transport, TransportOp, ref, unref, add_on_ready}

pub data Slot : Type 0 where
  live : Stream → Slot
  -- Behind its destructor.
  destroyed : Stream → Slot

pub record Core : Type 0 where
  pub transport : Transport
  pub streams : List Slot

abbrev pub new_core : Bool → Core
new_core is_client = record { transport = Transport.create is_client; streams = [] }

-- A method of the stream in this slot.
abbrev pub on_live : Action Stream → Slot → Slot × Option Fault
on_live method (live s) = let (s', fault) = method s in (live s', fault)
on_live method (destroyed s) = (destroyed s, some dangling)

abbrev pub destroy_slot : Option ℕ → Slot → Slot × Option Fault
destroy_slot closure (live s) = (destroyed (Perform.destroy closure s), none)
destroy_slot closure (destroyed s) = (destroyed s, some dangling)

unfoldable pub at_slot : ℕ → (Slot → Slot × Option Fault) → List Slot → List Slot × Option Fault
at_slot i f [] = ([], some dangling)
at_slot zero f (x ∷ xs) = let (x', fault) = f x in (x' ∷ xs, fault)
at_slot (suc i) f (x ∷ xs) = let (xs', fault) = at_slot i f xs in (x ∷ xs', fault)

abbrev pub in_streams : (List Slot → List Slot × Option Fault) → Action Core
in_streams f c = let (xs, fault) = f c.streams in (record c { streams = xs }, fault)

abbrev pub in_transport : Action Transport → Action Core
in_transport f c = let (t, fault) = f c.transport in (record c { transport = t }, fault)

-- The constructor's `AddOnReady`, by a stream that got no channel.
abbrev pub await_ready : Bool → ℕ → Transport → Transport
await_ready waits i t = if waits then add_on_ready i t else t

-- With the new stream behind the others; a fault of its constructor leaves the transport counted
-- up.
abbrev pub add_stream : Core → Stream × Option Fault → Core × Option Fault
add_stream c (s, none) = (
  record {
    transport = await_ready s.waits_ready (length c.streams) (ref c.transport);
    streams = c.streams ++ live s ∷ [];
  },
  none,
)
add_stream c (s, some f) = (record c { transport = ref c.transport }, some f)

unfoldable pub init_stream : Env → Option ℕ → Action Core
init_stream env server_data c = add_stream c (Perform.init_stream env server_data)

-- `set_pollset` and `set_pollset_set`.
unfoldable pub set_pollset : Core → Core
set_pollset c = c

unfoldable pub perform_transport_op : TransportOp → Core → Core
perform_transport_op op c = record c { transport = Transport.perform_op op c.transport }

unfoldable pub destroy_stream : Option ℕ → ℕ → Action Core
unfolding at_slot
destroy_stream closure i = in_streams (at_slot i (destroy_slot closure)) >> in_transport unref

unfoldable pub destroy_transport : Action Core
destroy_transport = in_transport Transport.destroy

unfoldable pub get_endpoint : Core → Option ℕ
get_endpoint c = none

-- What happens to a transport and its streams.
pub data Event : Type 0 where
  starts : Bytes → Event
  inits_stream : Env → Option ℕ → Event
  sets_pollset asks_endpoint : Event
  performs_stream_op : Env → StreamOp → ℕ → Event
  performs_transport_op : TransportOp → Event
  destroys_stream : Option ℕ → ℕ → Event
  destroys_transport : Event
  hears_ready : (ℕ → Env) → Event

module _ {V : Type 0} (json : Json V) (add_tail : AddTail) where
  unfoldable pub perform_stream_op : Env → StreamOp → ℕ → Action Core
  unfolding at_slot
  perform_stream_op env op i =
      in_streams (at_slot i (on_live (Perform.perform_op json add_tail env op)))

  -- The functions that wait for the peer, in order; each calls its stream.
  unfoldable pub run_waited : (ℕ → Env) → List ℕ → List Slot → List Slot × Option Fault
  unfolding at_slot
  run_waited envs [] xs = (xs, none)
  run_waited envs (i ∷ is) xs =
      let (xs', fault) = at_slot i (on_live (Perform.on_ready json add_tail (envs i))) xs in
      elim fault [ none ↦ run_waited envs is xs' | some f ↦ (xs', some f) ]

  abbrev clear_waited : Action Transport
  clear_waited t = (Transport.on_ready t, none)

  -- `AyameTransport::OnReady`, with what the waiting functions do.
  unfoldable pub on_ready : (ℕ → Env) → Action Core
  unfolding run_waited
  on_ready envs c =
      (in_streams (run_waited envs c.transport.ready_waited) >> in_transport clear_waited) c

  abbrev handle : Event → Action Core
  handle (starts url) c = in_transport (Transport.start url) c
  handle (inits_stream env server_data) c = init_stream env server_data c
  handle sets_pollset c = (set_pollset c, none)
  handle asks_endpoint c = (c, none)
  handle (performs_stream_op env op i) c = perform_stream_op env op i c
  handle (performs_transport_op op) c = (perform_transport_op op c, none)
  handle (destroys_stream closure i) c = destroy_stream closure i c
  handle destroys_transport c = destroy_transport c
  handle (hears_ready envs) c = on_ready envs c

  -- A call of a transport that was freed is a call of an object that is gone.
  unfoldable pub step : Event → Action Core
  unfolding init_stream set_pollset perform_transport_op destroy_stream destroy_transport on_ready
      perform_stream_op
  step e c = if c.transport.refs == 0 then (c, some dangling) else handle e c

  unfoldable pub run : List Event → Action Core
  unfolding step
  run [] c = (c, none)
  run (e ∷ es) c = (step e >> run es) c
