-- ===== src/Program/Ports.antt =====
-- Which transports the programs start.
use grpc_over_ayame.Base.{
  ◌≡◌, refl, ap, ◌∙◌, Bool, true, false, Option, none, some, List, [], ◌∷◌, ◌++◌, Bytes, codes,
  length,
}
use grpc_over_ayame.Message.{Fault, aborted}
use grpc_over_ayame.Stream.{Action}
use grpc_over_ayame.Transport
use grpc_over_ayame.Transport.{Transport, start}
use grpc_over_ayame.Program.{
  Program, setup_transport, add_listener, channel_create, at_place, add_port_to_server,
  start_listener, create_channel_with_interceptors,
}

at_place-last :
    (ts : List Transport) (t : Transport) (method : Action Transport)
    → at_place (length ts) method (ts ++ t ∷ []) ≡ (ts ++ (method t).0 ∷ [], (method t).1)
unfolding at_place
at_place-last [] t method = refl
at_place-last (u ∷ ts) t method =
    ap (λ (r : List Transport × Option Fault). (u ∷ r.0, r.1)) (at_place-last ts t method)

-- A transport that was made, with the state CONNECTING, and has then made its thread and one call:
-- `Connect` of its signaling, to this URL.
abbrev pub connecting_to : Bytes → Bool → Transport
connecting_to url is_client = record (Transport.create is_client) {
  th = true;
  calls = Transport.set_state Transport.connecting ∷ Transport.connect url ∷ [];
}

start-connecting_to :
    (url : Bytes) (is_client : Bool)
    → start url (Transport.create is_client) ≡ (connecting_to url is_client, none)
unfolding start Transport.create
start-connecting_to url is_client = refl

-- `AddPortToServer` makes a server's transport that does nothing yet, sets it up with gRPC and adds
-- a listener; `StartListener` then makes this transport connect to the port's URL, with no other
-- call of gRPC. A client's channel is created by one call of gRPC over a new client's transport,
-- which connects to its target at once. The transports made before stay as they are, and neither
-- ends in a fault.
pub start_listener-add_port_to_server :
    (url : Bytes) (p : Program)
    → let added = add_port_to_server url p in
      let (listening, fault) = start_listener added in
      let (client, client_fault) = create_channel_with_interceptors url p in
      let i = length p.transports in
      (added.transports ≡ p.transports ++ Transport.create false ∷ [])
      × (added.calls ≡ p.calls ++ setup_transport i ∷ add_listener ∷ [])
      × (listening.transports ≡ p.transports ++ connecting_to url false ∷ [])
      × (listening.calls ≡ added.calls)
      × (fault ≡ none)
      × (client.transports ≡ p.transports ++ connecting_to url true ∷ [])
      × (client.calls ≡ p.calls ++ channel_create (codes "ayame.authority") i ∷ [])
      × (client_fault ≡ none)
unfolding start_listener add_port_to_server create_channel_with_interceptors
start_listener-add_port_to_server url p =
    let e = at_place-last p.transports (Transport.create false) (start url) in
    let e' = at_place-last p.transports (Transport.create true) (start url) in
    let started = start-connecting_to url in
    let after : List Transport → Transport × Option Fault → List Transport × Option Fault =
      λ ts r. (ts ++ r.0 ∷ [], r.1) in
    let server = e ∙ ap (after p.transports) (started false) in
    let client = e' ∙ ap (after p.transports) (started true) in
    let places : List Transport × Option Fault → List Transport = λ r. r.0 in
    let fault_of : List Transport × Option Fault → Option Fault = λ r. r.1 in
    (
      refl,
      refl,
      ap places server,
      refl,
      ap fault_of server,
      ap places client,
      refl,
      ap fault_of client,
    )

-- With two ports of the same credentials, both listeners start the second port's transport: the
-- second start ends the program, since it drops a running thread, and the first port's transport is
-- never started.
pub start_listener_twice :
    (first second : Bytes) (p : Program)
    → let one = start_listener (add_port_to_server second (add_port_to_server first p)) in
      let two = start_listener one.0 in
      (one.1 ≡ none)
      × (two.1 ≡ some aborted)
      × ((t : Transport) × (two.0.transports
            ≡ (p.transports ++ Transport.create false ∷ []) ++ t ∷ []))
unfolding start_listener add_port_to_server
start_listener_twice first second p =
    let ts = p.transports ++ Transport.create false ∷ [] in
    let t = Transport.create false in
    let u = (start second t).0 in
    let e = at_place-last ts t (start second) in
    let e' = at_place-last ts u (start second) in
    (
      ap (λ (r : List Transport × Option Fault). r.1) e ∙ (unfold start Transport.create in refl),
      rw e (
          ap (λ (r : List Transport × Option Fault). r.1) e'
          ∙ (unfold start Transport.create in refl)),
      ((start second u).0, rw e (ap (λ (r : List Transport × Option Fault). r.0) e')),
    )
