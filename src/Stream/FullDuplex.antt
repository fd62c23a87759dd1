-- ===== src/Stream/FullDuplex.antt =====
-- Batches that send and receive, over an open channel, while buffers arrive.
use grpc_over_ayame.Base.{
  ℕ, ◌≡◌, refl, sym, ap, ◌∙◌, true, inl, Option, none, some, List, [], ◌∷◌, ◌++◌, Bytes, All,
}
use mathlib.Core.Path.{subst}
use grpc_over_ayame.Json.{Json, IsJson}
use grpc_over_ayame.Metadata.{AddTail, IsAddTail}
use grpc_over_ayame.Message.{Fault}
use grpc_over_ayame.Mailbox.{Mailbox, Event, step}
use grpc_over_ayame.Mailbox
use grpc_over_ayame.Stream.{after_cong, StreamOp, Recv, Stream, Env, Action, ◌>>◌, after-eq}
use grpc_over_ayame.Stream.Send.{send_all}
use grpc_over_ayame.Stream.Receive.{receive_all, receive, call}
use grpc_over_ayame.Stream.Perform.{is_open, perform_now, perform_op}
use grpc_over_ayame.Stream.Pending.{perform_op-open}
use grpc_over_ayame.Stream.Schedule.{handle, handle-call}
use grpc_over_ayame.Stream.Calls.{nothing_waits}
use grpc_over_ayame.Stream.Parts.{Part, all_parts, IsWhole, Buffers, HasText, FitAll}
use grpc_over_ayame.Stream.Duplex.{
  Half, sends, queue, sent_ops, half_waits, half_messages, in_io, do_half, do_halves,
}
use grpc_over_ayame.Stream.Both.{Duplex}
use grpc_over_ayame.Stream.Halves.{do_halves-Duplex}
use grpc_over_ayame.Stream.Halved.{op_halves, do_halves-append, Is-receive_all}

pub data Act : Type 0 where
  performs : StreamOp → Act
  arrives : Bytes → Act

abbrev pub halves_of : Act → List Half
halves_of (performs op) = sends op ∷ op_halves op
halves_of (arrives b) = queue (Mailbox.message b) ∷ []

abbrev pub all_halves : List Act → List Half
all_halves [] = []
all_halves (a ∷ as_) = halves_of a ++ all_halves as_

module _ {V : Type 0} (json : Json V) (add_tail : AddTail) where
  abbrev pub act : Env → Act → Action Stream
  act env (performs op) = perform_op json add_tail env op
  act env (arrives b) = receive json add_tail b

  unfoldable pub acts : Env → List Act → Action Stream
  acts env [] s = (s, none)
  acts env (a ∷ rest) s = (act env a >> acts env rest) s

  -- The channel of a stream that has none waiting.
  abbrev Opened : ℕ → Stream → Type 0
  Opened channel s = (s.dc ≡ some channel) × (s.pending_op ≡ none)

  call-Opened :
      (channel : ℕ) (r : Mailbox Recv × Option (Recv × Bytes)) (s : Stream)
      → Opened channel s
      → Opened channel (call json add_tail r s).0
  unfolding call
  call-Opened channel (m, none) s h = h
  call-Opened channel (m, some c) s h = h

  do_half-Opened :
      (channel : ℕ) (h : Half) (s : Stream)
      → Opened channel s
      → Opened channel (do_half json add_tail h s).0
  unfolding do_half
  do_half-Opened channel (sends op) s o = o
  do_half-Opened channel (queue e) s o =
      subst (λ (r : Stream × Option Fault). Opened channel r.0)
        (sym (handle-call json add_tail e s)) (call-Opened channel (step s.mailbox e) s o)

  do_halves-Opened :
      (channel : ℕ) (hs : List Half) (s : Stream)
      → Opened channel s
      → Opened channel (do_halves json add_tail hs s).0
  unfolding do_halves
  do_halves-Opened channel [] s o = o
  do_halves-Opened channel (h ∷ hs) s o =
      go (do_half json add_tail h s) (do_half-Opened channel h s o) (do_halves-Opened channel hs)
    where
      go :
          (r : Stream × Option Fault)
          → Opened channel r.0
          → ((t : Stream) → Opened channel t → Opened channel (do_halves json add_tail hs t).0)
          → Opened channel (((λ (_ : Stream). r) >> do_halves json add_tail hs) s).0
      go (t, none) o k = k t o
      go (t, some f) o k = o

  perform_now-halves :
      (op : StreamOp) (s : Stream)
      → s.pending_op ≡ none
      → perform_now json add_tail op s ≡ do_halves json add_tail (sends op ∷ op_halves op) s
  unfolding perform_now do_halves do_half
  perform_now-halves op s n =
      ap
        (λ (q : Option StreamOp).
          let r = send_all json op s.io in
          let sent = record s { pending_op = q; io = r.0 } in
          let out : Stream × Option Fault = elim r.1 [
            | none ↦ receive_all json add_tail op sent
            | some e ↦ (sent, some e)
          ] in
          out)
        (sym n)
      ∙ after_cong (in_io json add_tail (send_all json op)) (receive_all json add_tail op)
          (do_halves json add_tail (op_halves op)) s (Is-receive_all json add_tail op)

  act-halves :
      (env : Env) (channel : ℕ) (a : Act) (s : Stream)
      → is_open env (some channel) ≡ true
      → Opened channel s
      → act env a s ≡ do_halves json add_tail (halves_of a) s
  act-halves env channel (performs op) s e o =
      perform_op-open json add_tail env op s channel o.0 e ∙ perform_now-halves op s o.1
  act-halves env channel (arrives b) s e o =
      unfold do_halves do_half handle in go (receive json add_tail b s)
    where
      go : (r : Stream × Option Fault) → r ≡ ((λ (_ : Stream). r) >> do_halves json add_tail []) s
      go (t, none) = unfold do_halves in refl
      go (t, some f) = refl

  acts-halves :
      (env : Env) (channel : ℕ) (as_ : List Act) (s : Stream)
      → is_open env (some channel) ≡ true
      → Opened channel s
      → acts env as_ s ≡ do_halves json add_tail (all_halves as_) s
  unfolding acts
  acts-halves env channel [] s e o = unfold do_halves in refl
  acts-halves env channel (a ∷ as_) s e o =
      after-eq (act env a) (acts env as_) s (do_halves json add_tail (halves_of a) s)
        (act-halves env channel a s e o)
      ∙ (go (do_halves json add_tail (halves_of a) s) (do_halves-Opened channel (halves_of a) s o)
            (λ t. acts-halves env channel as_ t e)
          ∙ sym (do_halves-append json add_tail (halves_of a) (all_halves as_) s))
    where
      go :
          (r : Stream × Option Fault)
          → Opened channel r.0
          → ((t : Stream)
              → Opened channel t
              → acts env as_ t ≡ do_halves json add_tail (all_halves as_) t)
          → ((λ (_ : Stream). r) >> acts env as_) s
            ≡ ((λ (_ : Stream). r) >> do_halves json add_tail (all_halves as_)) s
      go (t, none) o k = k t o
      go (t, some f) o k = refl

  -- A stream over its open channel, with batches that send, receive or do both, while buffers of
  -- the other end arrive, in any order; nothing waited before. If the buffers that have come are a
  -- beginning of those of the other end's parts, the receive operations are of the kinds of these
  -- parts in order and into empty batches, and each own message is one slice and all own metadata
  -- is such that JSON can write it, then no step ends in a fault, and the calls made are an
  -- interleaving of two sequences: one puts the buffers of each own batch's parts on the channel,
  -- in order, and then runs its `on_complete` without an error, once, if it sends anything; the
  -- other hands the n-th part to the n-th receive operation as far as both have come, runs its
  -- closure once and without an error, and changes no bytes of a message and no last value of a
  -- metadata key, up to its first NUL byte.
  pub acts-Duplex :
      (env : Env) (channel : ℕ) (as_ : List Act) (s : Stream) (ps : List Part) (flying : List Bytes)
      → IsJson json
      → IsAddTail add_tail
      → is_open env (some channel) ≡ true
      → s.dc ≡ some channel
      → s.pending_op ≡ none
      → s.mailbox ≡ nothing_waits
      → Buffers json ps (half_messages (all_halves as_) ++ flying)
      → FitAll (half_waits (all_halves as_)) ps
      → All (HasText json) (all_parts (sent_ops (all_halves as_)))
      → All (λ (op : StreamOp). IsWhole op.send_message) (sent_ops (all_halves as_))
      → Duplex json
          (half_waits (all_halves as_))
          (half_messages (all_halves as_))
          ps
          (sent_ops (all_halves as_))
          s
          (acts env as_ s)
  acts-Duplex env channel as_ s ps flying laws adds e d n m k fit texts whole =
      let hs = all_halves as_ in
      subst (Duplex json (half_waits hs) (half_messages hs) ps (sent_ops hs) s)
        (sym (acts-halves env channel as_ s e (d, n)))
        (do_halves-Duplex json add_tail laws adds hs [] [] flying ps s m (inl refl) k fit texts
          whole)
