-- ===== src/Program.antt =====
-- src/goa_server.cpp, src/goa_client.cpp and the functions at the end of src/ayame_transport.h: how
-- the two programs make and start their transports. Transports are kept in a list, in the order of
-- their creation, and a pointer to one is its place in it.
pub mod Ports
pub mod Mains
use grpc_over_ayame.Base.{
  ℕ, zero, suc, Bool, true, false, Option, none, some, List, [], ◌∷◌, ◌++◌, Bytes, codes, length,
}
use grpc_over_ayame.Message.{Fault, null_dereference}
use grpc_over_ayame.Stream.{Action}
use grpc_over_ayame.Transport
use grpc_over_ayame.Transport.{Transport, start}

pub data Call : Type 0 where
  -- `grpc_server_setup_transport` and `grpc_server_add_listener`.
  setup_transport : ℕ → Call
  add_listener : Call
  -- `grpc_channel_create`, with the default authority added to the arguments.
  channel_create : Bytes → ℕ → Call

-- `AyameServerCredentialsImpl`, the transports made and the calls of gRPC.
pub record Program : Type 0 where
  pub url : Bytes
  -- `transport_`, which is not set before `AddPortToServer`.
  pub transport : Option ℕ
  pub transports : List Transport
  pub calls : List Call

-- A method of the transport at this place.
unfoldable pub at_place : ℕ → Action Transport → List Transport → List Transport × Option Fault
at_place i method [] = ([], some null_dereference)
at_place zero method (t ∷ ts) = let (t', fault) = method t in (t' ∷ ts, fault)
at_place (suc i) method (t ∷ ts) = let (ts', fault) = at_place i method ts in (t ∷ ts', fault)

-- `goa_create_ayame_transport`: the program behind it and the new place.
unfoldable pub goa_create_ayame_transport : Bool → Program → Program × ℕ
goa_create_ayame_transport is_client p =
    (record p { transports = p.transports ++ Transport.create is_client ∷ [] }, length p.transports)

abbrev pub start_at : Bytes → ℕ → Action Program
start_at signaling_url i p =
    let (ts, fault) = at_place i (start signaling_url) p.transports in
    (record p { transports = ts }, fault)

-- `AddPortToServer(addr, server)`.
unfoldable pub add_port_to_server : Bytes → Program → Program
unfolding goa_create_ayame_transport
add_port_to_server addr p =
    let (p', i) = goa_create_ayame_transport false p in
    record p' {
      url = addr;
      transport = some i;
      calls = p'.calls ++ setup_transport i ∷ add_listener ∷ [];
    }

-- `StartListener`.
unfoldable pub start_listener : Action Program
unfolding at_place
start_listener p = elim p.transport [
  | none ↦ (p, some null_dereference)
  | some i ↦ start_at p.url i p
]

-- `goa_create_ayame_channel(target, args, is_client)`.
unfoldable pub goa_create_ayame_channel : Bytes → Bool → Action Program
unfolding goa_create_ayame_transport at_place
goa_create_ayame_channel target is_client p =
    let (p', i) = goa_create_ayame_transport is_client p in
    start_at target i
      (record p' { calls = p'.calls ++ channel_create (codes "ayame.authority") i ∷ [] })

-- `CreateChannelWithInterceptors(target, args, ...)`.
unfoldable pub create_channel_with_interceptors : Bytes → Action Program
unfolding goa_create_ayame_channel
create_channel_with_interceptors target = goa_create_ayame_channel target true

-- `SayHelloHandler::OnAccept`: the message of the response to a request with this name.
unfoldable pub on_accept : Bytes → Bytes
on_accept name = codes "Hello, " ++ name
