-- ===== src/Stream/Schedule.antt =====
-- Both threads on one stream: buffers arrive and receive functions come to wait, in any order.
use grpc_over_ayame.Base.{◌≡◌, refl, ◌∙◌, Option, none, some, List, [], ◌∷◌, Bytes, arith}
use grpc_over_ayame.Json.{Json}
use grpc_over_ayame.Metadata.{AddTail}
use grpc_over_ayame.Message.{Fault}
use grpc_over_ayame.Mailbox.{Mailbox, Event, wait, step, run, logged}
use grpc_over_ayame.Mailbox
use grpc_over_ayame.Stream.{Recv, Io, Stream, Action, ◌>>◌, after-eq}
use grpc_over_ayame.Stream.Receive.{deliver, call, wait_recv, receive}

module _ {V : Type 0} (json : Json V) (add_tail : AddTail) where
  unfoldable pub handle : Event Recv → Action Stream
  handle (Mailbox.message buffer) = receive json add_tail buffer
  handle (wait f) = wait_recv json add_tail f

  unfoldable pub feed : List (Event Recv) → Action Stream
  unfolding handle
  feed [] s = (s, none)
  feed (e ∷ es) s = (handle e >> feed es) s

  unfoldable pub deliver_all : List (Recv × Bytes) → Action Io
  deliver_all [] io = (io, none)
  deliver_all (c ∷ cs) io = (deliver json add_tail c >> deliver_all cs) io

  pub handle-call :
      (e : Event Recv) (s : Stream) → handle e s ≡ call json add_tail (step s.mailbox e) s
  unfolding handle receive wait_recv step
  handle-call (Mailbox.message buffer) s = refl
  handle-call (wait f) s = refl

  -- A schedule makes the calls that its queues make, in their order.
  abbrev pub Agrees : Action Stream → Mailbox Recv × List (Recv × Bytes) → Stream → Type 0
  Agrees p r s =
      let d = deliver_all r.1 s.io in
      ((p s).0.io ≡ d.0)
      × ((p s).1 ≡ d.1)
      × (d.1 ≡ none → (p s).0 ≡ record s { mailbox = r.0; io = d.0 })

  feed-cons :
      (e : Event Recv) (es : List (Event Recv)) (s : Stream)
      → feed (e ∷ es) s ≡ (call json add_tail (step s.mailbox e) >> feed es) s
  unfolding feed
  feed-cons e es s = after-eq (handle e) (feed es) s _ (handle-call e s)

  run-cons :
      (e : Event Recv) (es : List (Event Recv)) (m m' : Mailbox Recv) (c : Option (Recv × Bytes))
      → step m e ≡ (m', c)
      → run m (e ∷ es) ≡ ((run m' es).0, logged c (run m' es).1)
  unfolding run
  run-cons e es m m' c h = rw (h, run)

  feed-silent :
      (e : Event Recv) (es : List (Event Recv)) (s : Stream) (m' : Mailbox Recv)
      → step s.mailbox e ≡ (m', none)
      → Agrees (feed es) (run m' es) (record s { mailbox = m' })
      → Agrees (feed (e ∷ es)) (run s.mailbox (e ∷ es)) s
  unfolding call
  feed-silent e es s m' h ih = rw (run-cons e es s.mailbox m' none h, feed-cons e es s) (rw h ih)

  pub call-some :
      (m : Mailbox Recv) (c : Recv × Bytes) (s : Stream) (io : Io) (fault : Option Fault)
      → deliver json add_tail c s.io ≡ (io, fault)
      → call json add_tail (m, some c) s ≡ (record s { mailbox = m; io = io }, fault)
  unfolding call
  call-some m c s io fault k = ground arith

  feed-step :
      (e : Event Recv) (es : List (Event Recv)) (s t : Stream) (m' : Mailbox Recv)
      (c : Option (Recv × Bytes)) (fault : Option Fault)
      → step s.mailbox e ≡ (m', c)
      → call json add_tail (m', c) s ≡ (t, fault)
      → feed (e ∷ es) s ≡ ((λ (_ : Stream). (t, fault)) >> feed es) s
  feed-step e es s t m' c fault h k =
      feed-cons e es s ∙ rw h (after-eq (call json add_tail (m', c)) (feed es) s (t, fault) k)

  pub deliver_all-step :
      (c : Recv × Bytes) (cs : List (Recv × Bytes)) (io io' : Io) (fault : Option Fault)
      → deliver json add_tail c io ≡ (io', fault)
      → deliver_all (c ∷ cs) io ≡ ((λ (_ : Io). (io', fault)) >> deliver_all cs) io
  unfolding deliver_all
  deliver_all-step c cs io io' fault k = after-eq (deliver json add_tail c) (deliver_all cs) io _ k

  feed-called :
      (e : Event Recv) (es : List (Event Recv)) (s : Stream) (m' : Mailbox Recv) (c : Recv × Bytes)
      (io : Io) (fault : Option Fault)
      → step s.mailbox e ≡ (m', some c)
      → deliver json add_tail c s.io ≡ (io, fault)
      → Agrees (feed es) (run m' es) (record s { mailbox = m'; io = io })
      → Agrees (feed (e ∷ es)) (run s.mailbox (e ∷ es)) s
  feed-called e es s m' c io none h k ih =
      let f = feed-step e es s _ m' (some c) none h (call-some m' c s io none k) in
      rw (run-cons e es s.mailbox m' (some c) h, f) (rw (deliver_all-step c _ s.io io none k) ih)
  feed-called e es s m' c io (some fault) h k ih =
      let f = feed-step e es s _ m' (some c) (some fault) h (call-some m' c s io (some fault) k) in
      rw (run-cons e es s.mailbox m' (some c) h, f)
        (rw (deliver_all-step c _ s.io io (some fault) k) (refl, refl, λ z. cc))

  -- A schedule ends in the fault, and with the calls and buffers, of delivering what its queues
  -- pair, one after the other; without a fault its queues are those of the queues' own run.
  pub feed-deliver_all :
      (es : List (Event Recv)) (s : Stream) → Agrees (feed es) (run s.mailbox es) s
  feed-deliver_all [] s = unfold feed deliver_all run in (refl, refl, λ _. refl)
  feed-deliver_all (e ∷ es) s = next (step s.mailbox e) refl (λ t. feed-deliver_all es t)
    where
      next :
          (r : Mailbox Recv × Option (Recv × Bytes))
          → step s.mailbox e ≡ r
          → ((t : Stream) → Agrees (feed es) (run t.mailbox es) t)
          → Agrees (feed (e ∷ es)) (run s.mailbox (e ∷ es)) s
      next (m', none) h ih = feed-silent e es s m' h (ih (record s { mailbox = m' }))
      next (m', some c) h ih =
          let d = deliver json add_tail c s.io in
          feed-called e es s m' c d.0 d.1 h refl (ih (record s { mailbox = m'; io = d.0 }))
