-- ===== src/Stream/Batches.antt =====
-- A whole call between two batches: one sends it, the other one receives it.
use grpc_over_ayame.Base.{
  ℕ, ◌≡◌, refl, sym, ap, ◌∙◌, true, Option, none, some, List, [], ◌∷◌, ◌++◌, append_assoc,
  append-nil, map, Bytes, length,
}
use grpc_over_ayame.Json.{Json, IsJson, lookup, Distinct}
use grpc_over_ayame.Metadata.{Batch, AddTail, IsAddTail, encode}
use grpc_over_ayame.Metadata.Filled.{shown, last_or}
use grpc_over_ayame.Message.{Fault, Pull, slice}
use grpc_over_ayame.Message.Slices.{IsSlice}
use grpc_over_ayame.Mailbox.{Event, message, wait, on_message}
use grpc_over_ayame.Mailbox.Pairing.{messages, waits}
use grpc_over_ayame.Stream.{
  after_cong, StreamOp, RecvMetadata, Recv, initial_metadata, trailing_metadata, Io, Stream, Env,
  Action, ◌>>◌, after_ok, after-eq,
}
use grpc_over_ayame.Stream
use grpc_over_ayame.Stream.Send.{send_all}
use grpc_over_ayame.Stream.Receive.{receive_all, receive, wait_recv}
use grpc_over_ayame.Stream.Perform.{is_open, perform_now, perform_op}
use grpc_over_ayame.Stream.Pending.{perform_op-open}
use grpc_over_ayame.Stream.Schedule.{handle, feed}
use grpc_over_ayame.Stream.Calls.{sent_buffers, IsCall, call_waits, nothing_waits, received}
use grpc_over_ayame.Stream.Exchange.{feed_call}

-- A batch that receives a whole call and sends nothing.
abbrev receive_op : ℕ → ℕ → RecvMetadata → ℕ → RecvMetadata → StreamOp
receive_op address on_complete ri c rt = record {
  address = address;
  on_complete = on_complete;
  send_initial_metadata = none;
  send_message = none;
  send_trailing_metadata = none;
  recv_initial_metadata = some ri;
  recv_message = some c;
  recv_trailing_metadata = some rt;
}

abbrev arrivals : List Bytes → List (Event Recv)
arrivals = map message

messages-call :
    (before after : List Bytes) (fs : List Recv)
    → messages (arrivals before ++ (map wait fs ++ arrivals after)) ≡ before ++ after
messages-call (b ∷ before) after fs = ap (◌∷◌ b) (messages-call before after fs)
messages-call [] after (f ∷ fs) = messages-call [] after fs
messages-call [] (b ∷ after) [] = ap (◌∷◌ b) (messages-call [] after [])
messages-call [] [] [] = refl

waits-call :
    (before after : List Bytes) (fs : List Recv)
    → waits (arrivals before ++ (map wait fs ++ arrivals after)) ≡ fs
waits-call (b ∷ before) after fs = waits-call before after fs
waits-call [] after (f ∷ fs) = ap (◌∷◌ f) (waits-call [] after fs)
waits-call [] (b ∷ after) [] = waits-call [] after []
waits-call [] [] [] = refl

module _ {V : Type 0} (json : Json V) (add_tail : AddTail) where
  feed-append :
      (es fs : List (Event Recv)) (s : Stream)
      → feed json add_tail (es ++ fs) s ≡ (feed json add_tail es >> feed json add_tail fs) s
  unfolding feed
  feed-append [] fs s = refl
  feed-append (e ∷ es) fs s = go (handle json add_tail e s) (feed-append es fs)
    where
      go :
          (r : Stream × Option Fault)
          → ((t : Stream)
              → feed json add_tail (es ++ fs) t
                ≡ (feed json add_tail es >> feed json add_tail fs) t)
          → ((λ (_ : Stream). r) >> feed json add_tail (es ++ fs)) s
            ≡ (((λ (_ : Stream). r) >> feed json add_tail es) >> feed json add_tail fs) s
      go (t, none) h = h t
      go (t, some f) h = refl

  after_nothing : (p : Action Stream) (s : Stream) → p s ≡ (p >> feed json add_tail []) s
  unfolding feed
  after_nothing p s = go (p s)
    where
      go : (r : Stream × Option Fault) → r ≡ ((λ (_ : Stream). r) >> feed json add_tail []) s
      go (t, none) = refl
      go (t, some f) = refl

  receive_all-feed :
      (a o c : ℕ) (ri rt : RecvMetadata) (s : Stream)
      → receive_all json add_tail (receive_op a o ri c rt) s
        ≡ feed json add_tail (map wait (call_waits ri c rt)) s
  unfolding receive_all feed handle
  receive_all-feed a o c ri rt s =
      let wait_for = wait_recv json add_tail in
      let last = wait_for (trailing_metadata rt) in
      let closed = last >> feed json add_tail [] in
      let second = wait_for (Stream.message c) in
      after_cong (wait_for (initial_metadata ri)) (second >> last) (second >> closed) s
        λ t. after_cong second last closed t (after_nothing last)

  perform_now-receive :
      (a o c : ℕ) (ri rt : RecvMetadata) (s : Stream)
      → perform_now json add_tail (receive_op a o ri c rt) s
        ≡ receive_all json add_tail (receive_op a o ri c rt) (record s { pending_op = none })
  unfolding perform_now send_all
  perform_now-receive a o c ri rt s = refl

  -- The batch comes after some buffers and before the others.
  abbrev receiving : Env → StreamOp → List Bytes → List Bytes → Action Stream
  receiving env op before after =
      feed json add_tail (arrivals before)
      >> (perform_op json add_tail env op >> feed json add_tail (arrivals after))

  abbrev holding : Stream → List Bytes → Stream
  holding r bs = record r { mailbox = record { data_queue = bs; func_queue = [] } }

  feed-arrivals :
      (bs ds : List Bytes) (r : Stream)
      → feed json add_tail (arrivals bs) (holding r ds) ≡ (holding r (ds ++ bs), none)
  unfolding feed handle receive on_message
  feed-arrivals [] ds r = ap (λ w. (holding r w, none)) (sym (append-nil ds))
  feed-arrivals (b ∷ bs) ds r =
      feed-arrivals bs (ds ++ b ∷ []) r
      ∙ ap (λ w. (holding r w, none)) (append_assoc ds (b ∷ []) bs)

  receiving-feed :
      (env : Env) (channel a o c : ℕ) (ri rt : RecvMetadata) (r : Stream)
      (before after : List Bytes)
      → r.mailbox ≡ nothing_waits
      → r.pending_op ≡ none
      → r.dc ≡ some channel
      → is_open env (some channel) ≡ true
      → receiving env (receive_op a o ri c rt) before after r
        ≡ feed json add_tail
            (arrivals before ++ (map wait (call_waits ri c rt) ++ arrivals after))
            r
  receiving-feed env channel a o c ri rt r before after m q d e =
      let op = receive_op a o ri c rt in
      let waiting = map wait (call_waits ri c rt) in
      let feed_all = feed json add_tail in
      let r' = holding r before in
      let come : feed_all (arrivals before) r ≡ (r', none) =
        ap (λ w. feed_all (arrivals before) (record r { mailbox = w })) m
        ∙ feed-arrivals before [] r in
      let taken : perform_op json add_tail env op r' ≡ feed_all waiting r' =
        perform_op-open json add_tail env op r' channel d e
        ∙ (perform_now-receive a o c ri rt r'
            ∙ (receive_all-feed a o c ri rt (record r' { pending_op = none })
                ∙ ap (λ w. feed_all waiting (record r' { pending_op = w })) (sym q))) in
      after_ok (feed_all (arrivals before))
        (perform_op json add_tail env op >> feed_all (arrivals after)) r r' come
      ∙ (after-eq (perform_op json add_tail env op) (feed_all (arrivals after)) r'
            (feed_all waiting r') taken
          ∙ (sym (feed-append waiting (arrivals after) r')
              ∙ (sym (
                    after_ok (feed_all (arrivals before)) (feed_all (waiting ++ arrivals after)) r
                      r' come)
                  ∙ sym (feed-append (arrivals before) (waiting ++ arrivals after) r))))

  -- One end sends a whole call by one batch, its message in one slice; the other receives it by one
  -- batch, over its open channel, when some of the buffers have come and the others have not.
  -- However they are split so, the receiver's closures run in the order initial metadata, message,
  -- trailing metadata, each once and without an error; the message is the bytes sent; each metadata
  -- batch holds no key twice and has for each key the value of its last element sent, up to the
  -- first NUL byte; and nothing is left waiting.
  perform_op-received :
      (op : StreamOp) (md_i md_t : Batch) (body bi bt : Bytes) (rest : List Pull) (io : Io)
      (env : Env) (channel a o c : ℕ) (ri rt : RecvMetadata) (r : Stream)
      (before after : List Bytes)
      → IsJson json
      → IsAddTail add_tail
      → IsCall op md_i md_t (record { message_length = length body; pulls = slice body ∷ rest })
      → IsSlice body
      → json.dump (encode json md_i) ≡ some bi
      → json.dump (encode json md_t) ≡ some bt
      → io.calls ≡ []
      → r.mailbox ≡ nothing_waits
      → r.pending_op ≡ none
      → r.dc ≡ some channel
      → is_open env (some channel) ≡ true
      → ri.md_batch ≡ []
      → rt.md_batch ≡ []
      → before ++ after ≡ sent_buffers (send_all json op io).0.calls
      → let end = receiving env (receive_op a o ri c rt) before after r in
        (b_i : Batch) × (b_t : Batch) × (end.1 ≡ none)
        × (end.0.io.calls ≡ r.io.calls ++ received r.io.recv_inited ri c rt b_i body b_t)
        × (end.0.mailbox ≡ nothing_waits)
        × Distinct b_i
        × Distinct b_t
        × ((k : Bytes) → lookup k b_i ≡ last_or k none (map shown md_i))
        × ((k : Bytes) → lookup k b_t ≡ last_or k none (map shown md_t))
  perform_op-received op md_i md_t body bi bt rest io env channel a o c ri rt r before after laws
        adds h sl i t e m q d op_en ei et b =
      let es = arrivals before ++ (map wait (call_waits ri c rt) ++ arrivals after) in
      let whole = receiving-feed env channel a o c ri rt r before after m q d op_en in
      rw whole (
        feed_call json add_tail op md_i md_t body bi bt rest io r ri rt c es laws adds h sl i t e m
          ei et (waits-call before after (call_waits ri c rt))
          (messages-call before after (call_waits ri c rt) ∙ b))
