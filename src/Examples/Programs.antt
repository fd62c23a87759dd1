-- ===== src/Examples/Programs.antt =====
-- Runs of one end as a whole, of the programs, and of the small observers.
use grpc_over_ayame.Examples.Shared.{add_last, url, rtc, register_text, register_text-dump}
use grpc_over_ayame.Base.{
  ◌≡◌, refl, same, true, false, none, some, [], ◌∷◌, ◌++◌, Bytes, codes, arith,
}
use grpc_over_ayame.Json.{pos}
use grpc_over_ayame.Json.Toy.{Toy, toy}
use grpc_over_ayame.Json.Toy
use grpc_over_ayame.Message.{aborted}
use grpc_over_ayame.Stream.{StreamOp, Stream, connecting, open_state}
use grpc_over_ayame.Stream.Perform.{perform_op, perform_now, on_ready, on_state_change}
use grpc_over_ayame.Signaling.{Signaling, success, async_resolve}
use grpc_over_ayame.Signaling.Connect.Chain.{drive}
use grpc_over_ayame.Signaling.Read.{on_candidate}
use grpc_over_ayame.Signaling.Peer
use grpc_over_ayame.Transport
use grpc_over_ayame.Session.{hear, env_of}
use grpc_over_ayame.Session.Opened.{drive-hear}
use grpc_over_ayame.Signaling.Read.Accepted.{IsCandidate}
use grpc_over_ayame.Session.Waiting.{in_state, perform_op-waits}
use grpc_over_ayame.Program.{
  Program, setup_transport, add_listener, channel_create, add_port_to_server, start_listener,
  create_channel_with_interceptors,
}
use grpc_over_ayame.Program.Ports.{
  connecting_to, start_listener-add_port_to_server, start_listener_twice,
}
use grpc_over_ayame.Channel
use grpc_over_ayame.Channel.{set_on_message, set_on_state_change, message, state_change, sends}
use grpc_over_ayame.Channel.Handed.{handed, run-handed}

abbrev buf : Bytes
buf = codes "x"

run-handed_example :
    handed
      (Channel.run
        (message buf
          ∷ set_on_state_change 1
          ∷ set_on_message 2
          ∷ state_change
          ∷ message buf
          ∷ sends buf
          ∷ [])
        Channel.create).calls
    ≡ (2, buf) ∷ []
run-handed_example =
    run-handed (message buf ∷ set_on_state_change 1 ∷ [])
      (state_change ∷ message buf ∷ sends buf ∷ []) 2 (ground arith) (ground arith)

abbrev no_program : Program
no_program = record { url = []; transport = none; transports = []; calls = [] }

start_listener-add_port_to_server_example :
    let added = add_port_to_server url no_program in
    let (listening, fault) = start_listener added in
    let (client, client_fault) = create_channel_with_interceptors url no_program in
    (added.transports ≡ Transport.create false ∷ [])
    × (added.calls ≡ setup_transport 0 ∷ add_listener ∷ [])
    × (listening.transports ≡ connecting_to url false ∷ [])
    × (listening.calls ≡ added.calls)
    × (fault ≡ none)
    × (client.transports ≡ connecting_to url true ∷ [])
    × (client.calls ≡ channel_create (codes "ayame.authority") 0 ∷ [])
    × (client_fault ≡ none)
start_listener-add_port_to_server_example = start_listener-add_port_to_server url no_program

start_listener_twice_example :
    let one = start_listener (add_port_to_server buf (add_port_to_server url no_program)) in
    let two = start_listener one.0 in
    (one.1 ≡ none)
    × (two.1 ≡ some aborted)
    × ((t : Transport.Transport) × (two.0.transports ≡ Transport.create false ∷ t ∷ []))
start_listener_twice_example = start_listener_twice url buf no_program

abbrev signaling : Signaling
signaling = record {
  parts = record {
    scheme = codes "wss";
    user_pass = [];
    host = codes "h";
    port = [];
    path_query_fragment = [];
  };
  factory = true;
  wss = true;
  write_buffer = [];
  connection = some 1;
  datachannel = none;
  ready = false;
  calls = [];
}

drive-hear_example :
    let opened =
      (drive toy
        (codes "me")
        (success ∷ success ∷ success ∷ success ∷ [])
        (async_resolve (codes "h") (codes "443"))
        signaling).0 in
    (hear signaling opened (Transport.create true) ≡ (
      record (Transport.create true) {
        calls = (Transport.create true).calls ++ Transport.set_state Transport.ready ∷ [];
      },
      none,
    ))
    × (Peer.create_channel buf 7 opened ≡ (opened, (none, none)))
drive-hear_example =
    drive-hear toy (codes "me") (codes "h") (codes "443") register_text buf 7 signaling
      (Transport.create true) refl refl register_text-dump

abbrev ice : Toy
ice = Toy.field (codes "candidate") (Toy.text buf) (
    Toy.field (codes "sdpMLineIndex") (Toy.int (pos 0))
      (Toy.field (codes "sdpMid") (Toy.text (codes "0")) Toy.nil))

abbrev candidate : Toy
candidate = Toy.field (codes "ice") ice Toy.nil

candidate-IsCandidate : IsCandidate toy rtc candidate
unfolding same Toy.items Toy.as_text Toy.as_int
candidate-IsCandidate = record {
  ice = ice;
  sdp_mid_value = Toy.text (codes "0");
  sdp_mlineindex_value = Toy.int (pos 0);
  sdp_value = Toy.text buf;
  sdp_mid = codes "0";
  sdp = buf;
  sdp_mlineindex = pos 0;
  has_ice = refl;
  has_mid = refl;
  mid_is = refl;
  has_index = refl;
  index_is = refl;
  has_sdp = refl;
  sdp_is = refl;
  parsed = refl;
  taken = refl;
}

abbrev op : StreamOp
op = record {
  address = 1;
  on_complete = 9;
  send_initial_metadata = some [];
  send_message = none;
  send_trailing_metadata = none;
  recv_initial_metadata = none;
  recv_message = none;
  recv_trailing_metadata = none;
}

abbrev stream : Stream
stream = record {
  is_client = true;
  dc = none;
  callbacks_set = false;
  waits_ready = true;
  closure_at_destroy = none;
  mailbox = record { data_queue = []; func_queue = [] };
  pending_op = none;
  io = record { recv_inited = false; recv_message = []; calls = [] };
}

perform_op-waits_example :
    let early = env_of signaling 7 (in_state connecting) in
    let s' = (on_candidate toy rtc candidate signaling).0 in
    let late = env_of s' 7 (in_state connecting) in
    let opened = env_of s' 7 (in_state open_state) in
    let waiting = record stream { pending_op = some op } in
    let with_channel = record stream { dc = some 7; callbacks_set = true } in
    (perform_op toy add_last early op stream ≡ (waiting, none))
    × (hear signaling s' (Transport.create true)
        ≡ (Transport.on_ready (Transport.create true), none))
    × (on_ready toy add_last late waiting ≡ (record with_channel { pending_op = some op }, none))
    × (on_state_change toy add_last opened (record with_channel { pending_op = some op })
        ≡ perform_now toy add_last op with_channel)
perform_op-waits_example =
    perform_op-waits toy add_last rtc candidate op signaling stream (Transport.create true) 1 7
      candidate-IsCandidate refl refl refl refl refl
