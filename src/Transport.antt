-- ===== src/Transport.antt =====
-- src/ayame_transport.h: `AyameTransport`. A transport is its fields and a log of the calls that it
-- makes of gRPC, of its `AyameSignaling` and of its callbacks. Watchers, closures, callbacks and
-- data channels are numbers.
pub mod Lifetime
pub mod Waiters
use grpc_over_ayame.Base.{
  ℕ, zero, suc, ◌+◌, ◌-◌, Bool, true, false, ◌||◌, Option, none, some, List, [], ◌∷◌, ◌++◌, Bytes,
  map, ◌==◌, if◌then◌else◌,
}
use grpc_over_ayame.Metadata.{GrpcError, no_error}
use grpc_over_ayame.Message.{Fault, aborted, null_dereference}
use grpc_over_ayame.Stream.{Action}

-- `grpc_connectivity_state`.
pub data ConnectivityState : Type 0 where
  idle connecting ready transient_failure shutdown : ConnectivityState

pub data Call : Type 0 where
  add_watcher : ConnectivityState → ℕ → Call
  remove_watcher : ℕ → Call
  set_state : ConnectivityState → Call
  run_closure : ℕ → Call
  -- `accept_stream_cb_(accept_stream_data_, this, channel)`.
  accept_stream : ℕ → ℕ → ℕ → Call
  -- A function that `AddOnReady` was given.
  run_ready : ℕ → Call
  -- On the new thread: `ayame_->Connect(url)`, then `ioc_.run()`.
  connect : Bytes → Call
  -- The destructor and `gpr_free`.
  free : Call

-- `accept_stream_cb_` and `accept_stream_data_`, which the constructor leaves unset.
pub record AcceptStream : Type 0 where
  pub callback : ℕ
  pub user_data : ℕ

pub record Transport : Type 0 where
  pub is_client : Bool
  pub refs : ℕ
  -- `th_` holds a thread, which is never joined.
  pub th : Bool
  pub accept : Option AcceptStream
  pub ready_waited : List ℕ
  pub calls : List Call

-- `grpc_transport_op`.
pub record TransportOp : Type 0 where
  pub start_connectivity_watch : Option ℕ
  pub start_connectivity_watch_state : ConnectivityState
  pub stop_connectivity_watch : Option ℕ
  pub set_accept_stream : Option AcceptStream
  pub on_consumed : Option ℕ
  pub goaway_error : GrpcError
  pub disconnect_with_error : GrpcError

-- `Create`; the state tracker starts as connecting.
unfoldable pub create : Bool → Transport
create is_client = record {
  is_client = is_client;
  th = false;
  refs = 1;
  accept = none;
  ready_waited = [];
  calls = set_state connecting ∷ [];
}

abbrev pub log : List Call → Transport → Transport
log cs t = record t { calls = t.calls ++ cs }

-- `Start(signaling_url)`. Its `th_.reset` destroys the thread that `th_` holds, if any, and a
-- thread that can still be joined ends the program when it is destroyed.
unfoldable pub start : Bytes → Action Transport
start signaling_url t =
    let started = log (connect signaling_url ∷ []) (record t { th = true }) in
    if t.th then (started, some aborted) else (started, none)

unfoldable pub ref : Transport → Transport
ref t = record t { refs = t.refs + 1 }

-- The destructor, which destroys `th_`, and `gpr_free`.
unfoldable pub release : Action Transport
release t = if t.th then (t, some aborted) else (log (free ∷ []) t, none)

-- `Unref`; the count is positive before it.
unfoldable pub unref : Action Transport
unfolding release
unref t =
    let counted = record t { refs = t.refs - 1 } in
    if counted.refs == 0 then release counted else (counted, none)

unfoldable pub destroy : Action Transport
unfolding unref
destroy t = unref t

abbrev pub if_set {ℓ} : {A : Type ℓ} → Option A → (A → Call) → List Call
if_set none f = []
if_set (some a) f = f a ∷ []

abbrev is_error : GrpcError → Bool
is_error no_error = false
is_error (GrpcError.error e) = true

abbrev keep_accept : Option AcceptStream → Option AcceptStream → Option AcceptStream
keep_accept none old = old
keep_accept (some a) old = some a

-- `PerformOp(op)`.
unfoldable pub perform_op : TransportOp → Transport → Transport
perform_op op t =
    let t₁ =
      log (if_set op.start_connectivity_watch (add_watcher op.start_connectivity_watch_state)) t in
    let t₂ = log (if_set op.stop_connectivity_watch remove_watcher) t₁ in
    let t₃ = record t₂ { accept = keep_accept op.set_accept_stream t₂.accept } in
    let t₄ = log (if_set op.on_consumed run_closure) t₃ in
    let do_close = is_error op.goaway_error || is_error op.disconnect_with_error in
    if do_close then log (set_state shutdown ∷ []) t₄ else t₄

unfoldable pub on_connect : Transport → Transport
on_connect = log (set_state ready ∷ [])

-- `OnReady`: each waiting function, in order, and none remains.
unfoldable pub on_ready : Transport → Transport
on_ready t = record (log (map run_ready t.ready_waited) t) { ready_waited = [] }

-- `OnDataChannel`; before `PerformOp` has set a callback, the call goes through an unset pointer.
unfoldable pub on_data_channel : ℕ → Action Transport
on_data_channel channel t = elim t.accept [
  | none ↦ (t, some null_dereference)
  | some a ↦ (log (accept_stream a.callback a.user_data channel ∷ []) t, none)
]

unfoldable pub add_on_ready : ℕ → Transport → Transport
add_on_ready f t = record t { ready_waited = t.ready_waited ++ f ∷ [] }
