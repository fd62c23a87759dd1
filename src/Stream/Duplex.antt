-- ===== src/Stream/Duplex.antt =====
-- A stream that sends and receives at once.
use grpc_over_ayame.Base.{◌≡◌, refl, ap, true, none, List, [], ◌∷◌, ◌++◌, Bytes}
use grpc_over_ayame.Json.{Json, IsJson}
use grpc_over_ayame.Metadata.{AddTail, IsAddTail, no_error}
use grpc_over_ayame.Metadata.RoundTrip.{decode-encode}
use grpc_over_ayame.Mailbox.{Mailbox, Event, step}
use grpc_over_ayame.Mailbox
use grpc_over_ayame.Stream.{
  StreamOp, Recv, initial_metadata, message, trailing_metadata, Call, Io, Stream, push, Action,
  ◌>>◌,
}
use grpc_over_ayame.Stream.Send.{send_all}
use grpc_over_ayame.Stream.Receive.{deliver, receive_message}
use grpc_over_ayame.Stream.Schedule.{handle}
use grpc_over_ayame.Stream.Calls.{two, got, deliver_metadata}
use grpc_over_ayame.Stream.Parts.{Part, metadata, body, Buffers, Fits, Received}

-- `zs` is `xs` and `ys`, interleaved.
pub data Shuffle : List Call → List Call → List Call → Type 0 where
  nothing : Shuffle [] [] []
  left : {xs ys zs : List Call} (x : Call) → Shuffle xs ys zs → Shuffle (x ∷ xs) ys (x ∷ zs)
  right : {xs ys zs : List Call} (y : Call) → Shuffle xs ys zs → Shuffle xs (y ∷ ys) (y ∷ zs)

pub lefts :
    {xs ys zs : List Call} (ks : List Call) → Shuffle xs ys zs → Shuffle (ks ++ xs) ys (ks ++ zs)
lefts [] h = h
lefts (k ∷ ks) h = left k (lefts ks h)

pub rights :
    {xs ys zs : List Call} (ks : List Call) → Shuffle xs ys zs → Shuffle xs (ks ++ ys) (ks ++ zs)
rights [] h = h
rights (k ∷ ks) h = right k (rights ks h)

-- One half of a batch, or an event of the queues.
pub data Half : Type 0 where
  sends : StreamOp → Half
  queue : Event Recv → Half

abbrev pub sent_ops : List Half → List StreamOp
sent_ops [] = []
sent_ops (sends op ∷ hs) = op ∷ sent_ops hs
sent_ops (queue e ∷ hs) = sent_ops hs

abbrev pub half_waits : List Half → List Recv
half_waits [] = []
half_waits (sends op ∷ hs) = half_waits hs
half_waits (queue (Mailbox.message b) ∷ hs) = half_waits hs
half_waits (queue (Mailbox.wait f) ∷ hs) = f ∷ half_waits hs

abbrev pub half_messages : List Half → List Bytes
half_messages [] = []
half_messages (sends op ∷ hs) = half_messages hs
half_messages (queue (Mailbox.message b) ∷ hs) = b ∷ half_messages hs
half_messages (queue (Mailbox.wait f) ∷ hs) = half_messages hs

module _ {V : Type 0} (json : Json V) (add_tail : AddTail) where
  abbrev pub in_io : Action Io → Action Stream
  in_io p s = let (io, fault) = p s.io in (record s { io = io }, fault)

  unfoldable pub do_half : Half → Action Stream
  unfolding handle
  do_half (sends op) s = in_io (send_all json op) s
  do_half (queue e) s = handle json add_tail e s

  unfoldable pub do_halves : List Half → Action Stream
  unfolding do_half
  do_halves [] s = (s, none)
  do_halves (h ∷ hs) s = (do_half h >> do_halves hs) s

  -- One delivery, of whatever kind.
  pub record Delivery (f : Recv) (p : Part) (b : Bytes) (io : Io) : Type 0 where
    pub io' : Io
    pub made : List Call
    pub runs : deliver json add_tail (f, b) io ≡ (io', none)
    pub calls_are : io'.calls ≡ io.calls ++ made
    pub is_received :
        (fs : List Recv) (ps : List Part) (cs : List Call)
        → Received io'.recv_inited fs ps cs
        → Received io.recv_inited (f ∷ fs) (p ∷ ps) (made ++ cs)

  pub deliver-Fits :
      (laws : IsJson json) (adds : IsAddTail add_tail) (f : Recv) (p : Part) (b : Bytes) (io : Io)
      → Buffers json (p ∷ []) (b ∷ [])
      → Fits f p
      → Delivery f p b io
  unfolding deliver
  deliver-Fits laws adds (message c) (metadata md) b io k h = absurd h
  deliver-Fits laws adds (initial_metadata r) (body t) b io k h = absurd h
  deliver-Fits laws adds (trailing_metadata r) (body t) b io k h = absurd h
  deliver-Fits laws adds (message c) (body t) b io k h = record {
    io' = record {
      recv_inited = true;
      recv_message = b ∷ [];
      calls = io.calls ++ got io.recv_inited c b;
    };
    made = got io.recv_inited c b;
    runs = unfold receive_message in refl;
    calls_are = refl;
    is_received = λ fs ps cs r. (cs, ap (λ x. got io.recv_inited c x ++ cs) k.0, r);
  }
  deliver-Fits laws adds (initial_metadata r) (metadata md) b io k h =
      let (got_b, read, distinct, values) = decode-encode json add_tail md b laws adds k.0 in
      record {
        io' = push io (two r got_b);
        made = two r got_b;
        runs = deliver_metadata json add_tail r b io got_b no_error (rw h read);
        calls_are = refl;
        is_received = λ fs ps cs r. (got_b, (distinct, values), (cs, refl, r));
      }
  deliver-Fits laws adds (trailing_metadata r) (metadata md) b io k h =
      let (got_b, read, distinct, values) = decode-encode json add_tail md b laws adds k.0 in
      record {
        io' = push io (two r got_b);
        made = two r got_b;
        runs = deliver_metadata json add_tail r b io got_b no_error (rw h read);
        calls_are = refl;
        is_received = λ fs ps cs r. (got_b, (distinct, values), (cs, refl, r));
      }
