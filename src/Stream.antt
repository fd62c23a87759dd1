-- ===== src/Stream.antt =====
-- src/ayame_transport.h: `AyameStream`. A stream is its fields and a log of the calls that it makes
-- of gRPC and of the data channel. Closures and data channels are numbers, operation batches carry
-- the address by which `PerformOp` compares them.
pub mod Send
pub mod Receive
pub mod Perform
pub mod Pending
pub mod Schedule
pub mod Order
pub mod Calls
pub mod Exchange
pub mod Batches
pub mod Rerun
pub mod Parts
pub mod Sent
pub mod Conversation
pub mod Duplex
pub mod Both
pub mod Halves
pub mod Halved
pub mod FullDuplex
use grpc_over_ayame.Base.{
  ℕ, Bool, true, false, Option, none, some, List, [], ◌∷◌, ◌++◌, Bytes, map, ◌≡◌, refl, ap,
}
use grpc_over_ayame.Metadata.{Batch, GrpcError}
use grpc_over_ayame.Message.{Fault, Message}
use grpc_over_ayame.Mailbox.{Mailbox}

-- `payload->recv_initial_metadata` or `payload->recv_trailing_metadata`.
pub record RecvMetadata : Type 0 where
  pub md_batch : Batch
  pub ready : ℕ

-- `grpc_transport_stream_op_batch`.
pub record StreamOp : Type 0 where
  pub address : ℕ
  pub on_complete : ℕ
  pub send_initial_metadata : Option Batch
  pub send_message : Option Message
  pub send_trailing_metadata : Option Batch
  pub recv_initial_metadata : Option RecvMetadata
  pub recv_message : Option ℕ
  pub recv_trailing_metadata : Option RecvMetadata

-- The functions that `PerformOp` hands to `WaitForRecv`.
pub data Recv : Type 0 where
  initial_metadata : RecvMetadata → Recv
  message : ℕ → Recv
  trailing_metadata : RecvMetadata → Recv

pub data Call : Type 0 where
  -- `dc_->Send(buffer)`.
  send : Bytes → Call
  -- `ExecCtx::Run(closure, error)`.
  run_closure : ℕ → GrpcError → Call
  -- The batch that a receive closure will find.
  fill_batch : ℕ → Batch → Call
  -- The byte stream, over these slices, that a receive closure will find.
  reset_message : ℕ → List Bytes → Call
  destroy_buffer transport_ref transport_unref stream_ref : Call
  -- The destruction of `dc_`.
  unregister_observer : ℕ → Call
  -- `RTC_LOG(LS_ERROR) << "has pending op"`.
  log_has_pending_op : Call

-- What the receive functions and the sends change.
pub record Io : Type 0 where
  pub recv_inited : Bool
  -- The slices of `recv_message_`.
  pub recv_message : List Bytes
  pub calls : List Call

pub record Stream : Type 0 where
  pub is_client : Bool
  pub dc : Option ℕ
  -- `InitDataChannel` has set the callbacks of `dc_`.
  pub callbacks_set : Bool
  -- The constructor has called `AddOnReady`.
  pub waits_ready : Bool
  pub closure_at_destroy : Option ℕ
  pub mailbox : Mailbox Recv
  pub pending_op : Option StreamOp
  pub io : Io

-- `webrtc::DataChannelInterface::DataState`.
pub data DataState : Type 0 where
  connecting open_state closing closed : DataState

-- What a call of the stream reads of the outside: the result of `transport_->CreateDataChannel`
-- and the state of each data channel.
pub record Env : Type 0 where
  pub create_data_channel : Option ℕ
  -- The fault that ends this call instead, if any.
  pub create_fault : Option Fault
  pub state : ℕ → DataState

abbrev pub push : Io → List Call → Io
push io cs = record io { calls = io.calls ++ cs }

-- An action may end in a fault.
abbrev pub Action : Type 0 → Type 0
Action S = S → S × Option Fault

infixl 5 ◌>>◌
abbrev pub ◌>>◌ : {S : Type 0} → Action S → Action S → Action S
◌>>◌ p q s = let (s', fault) = p s in elim fault [ none ↦ q s' | some e ↦ (s', some e) ]

abbrev pub done : {S : Type 0} → Action S
done s = (s, none)

-- What follows an action sees only its result.
pub after-eq :
    {S : Type 0} (p q : Action S) (s : S) (r : S × Option Fault)
    → p s ≡ r
    → (p >> q) s ≡ ((λ _. r) >> q) s
after-eq {S} p q s r e =
    ap (λ (t : S × Option Fault). elim t.1 [ none ↦ q t.0 | some f ↦ (t.0, some f) ]) e

pub after_ok : {S : Type 0} (p q : Action S) (s s' : S) → p s ≡ (s', none) → (p >> q) s ≡ q s'
after_ok p q s s' e = after-eq p q s (s', none) e

pub after_cong :
    {S : Type 0} (p q q' : Action S) (s : S) → ((t : S) → q t ≡ q' t) → (p >> q) s ≡ (p >> q') s
after_cong {S} p q q' s h = go (p s)
  where
    go : (r : S × Option Fault) → ((λ (_ : S). r) >> q) s ≡ ((λ (_ : S). r) >> q') s
    go (t, none) = h t
    go (t, some f) = refl
