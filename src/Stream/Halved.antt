-- ===== src/Stream/Halved.antt =====
-- A batch as its halves: what it sends, and each operation that waits.
use grpc_over_ayame.Base.{◌≡◌, refl, sym, ◌∙◌, Option, none, some, List, [], ◌∷◌, ◌++◌}
use grpc_over_ayame.Json.{Json}
use grpc_over_ayame.Metadata.{AddTail}
use grpc_over_ayame.Message.{Fault}
use grpc_over_ayame.Mailbox.{Mailbox, Event, step}
use grpc_over_ayame.Mailbox
use grpc_over_ayame.Stream.{
  after_cong, StreamOp, Recv, initial_metadata, message, trailing_metadata, Stream, Action, ◌>>◌,
  after-eq,
}
use grpc_over_ayame.Stream.Receive.{receive_all, wait_set, wait_recv}
use grpc_over_ayame.Stream.Schedule.{handle}
use grpc_over_ayame.Stream.Duplex.{Half, queue, do_half, do_halves}

abbrev pub wait_if : {A : Type 0} → (A → Recv) → Option A → List Half
wait_if f none = []
wait_if f (some a) = queue (Mailbox.wait (f a)) ∷ []

-- The receive operations of a batch, in the order in which they come to wait.
abbrev pub op_halves : StreamOp → List Half
op_halves op =
    wait_if initial_metadata op.recv_initial_metadata
    ++ (wait_if message op.recv_message ++ wait_if trailing_metadata op.recv_trailing_metadata)

module _ {V : Type 0} (json : Json V) (add_tail : AddTail) where
  -- An action is these halves.
  abbrev pub Is : Action Stream → List Half → Type 0
  Is p hs = (s : Stream) → p s ≡ do_halves json add_tail hs s

  pub do_halves-append :
      (hs gs : List Half) (s : Stream)
      → do_halves json add_tail (hs ++ gs) s
        ≡ (do_halves json add_tail hs >> do_halves json add_tail gs) s
  unfolding do_halves
  do_halves-append [] gs s = refl
  do_halves-append (h ∷ hs) gs s = go (do_half json add_tail h s) (do_halves-append hs gs)
    where
      go :
          (r : Stream × Option Fault)
          → ((t : Stream)
              → do_halves json add_tail (hs ++ gs) t
                ≡ (do_halves json add_tail hs >> do_halves json add_tail gs) t)
          → ((λ (_ : Stream). r) >> do_halves json add_tail (hs ++ gs)) s
            ≡ (((λ (_ : Stream). r) >> do_halves json add_tail hs) >> do_halves json add_tail gs) s
      go (t, none) k = k t
      go (t, some f) k = refl

  Is-seq : (p q : Action Stream) (hs gs : List Half) → Is p hs → Is q gs → Is (p >> q) (hs ++ gs)
  Is-seq p q hs gs h k s =
      after-eq p q s (do_halves json add_tail hs s) (h s)
      ∙ (after_cong (do_halves json add_tail hs) q (do_halves json add_tail gs) s k
          ∙ sym (do_halves-append hs gs s))

  Is-wait : (f : Recv) → Is (wait_recv json add_tail f) (queue (Mailbox.wait f) ∷ [])
  unfolding do_halves do_half handle
  Is-wait f s = go (wait_recv json add_tail f s)
    where
      go : (r : Stream × Option Fault) → r ≡ ((λ (_ : Stream). r) >> do_halves json add_tail []) s
      go (t, none) = refl
      go (t, some e) = refl

  Is-wait_set :
      {A : Type 0} (f : A → Recv) (o : Option A) → Is (wait_set json add_tail f o) (wait_if f o)
  unfolding do_halves
  Is-wait_set f none s = refl
  Is-wait_set f (some a) s = Is-wait (f a) s

  pub Is-receive_all : (op : StreamOp) → Is (receive_all json add_tail op) (op_halves op)
  unfolding receive_all
  Is-receive_all op =
      let set_message = wait_set json add_tail message op.recv_message in
      let set_trailing = wait_set json add_tail trailing_metadata op.recv_trailing_metadata in
      Is-seq (wait_set json add_tail initial_metadata op.recv_initial_metadata)
        (set_message >> set_trailing) (wait_if initial_metadata op.recv_initial_metadata)
        (wait_if message op.recv_message ++ wait_if trailing_metadata op.recv_trailing_metadata)
        (Is-wait_set initial_metadata op.recv_initial_metadata)
        (Is-seq set_message set_trailing (wait_if message op.recv_message)
          (wait_if trailing_metadata op.recv_trailing_metadata)
          (Is-wait_set message op.recv_message)
          (Is-wait_set trailing_metadata op.recv_trailing_metadata))
