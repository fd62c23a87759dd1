-- ===== src/Peers/Steps.antt =====
-- What each step between the two ends does.
use grpc_over_ayame.Base.{
  ℕ, ◌≡◌, refl, ap, ◌∙◌, true, none, some, List, [], ◌∷◌, ◌++◌, append-nil, map, Bytes, length,
  take, drop, drop-append, arith,
}
use grpc_over_ayame.Json.{Json, IsJson}
use grpc_over_ayame.Stream.{Action}
use grpc_over_ayame.Signaling.{success, Call, Signaling, async_write, post_text}
use grpc_over_ayame.Signaling.Write.{do_send_text, on_write}
use grpc_over_ayame.Signaling.Writes.{front}
use grpc_over_ayame.Signaling.Read.{RtcEnv}
use grpc_over_ayame.Peers.{
  Item, description, candidate, item_message, send_item, before_text, accept, Room, route,
  route_all, sender_runs, makes, queues, finishes, arrives, step,
}
use grpc_over_ayame.Peers.Items.{IsTaken, posted, send_item-posted, on_read-accept}

sender_runs-calls :
    (handler : Action Signaling) (r : Room) (s : Signaling) (cs : List Call)
    → handler r.sender ≡ (s, none)
    → s.calls ≡ r.sender.calls ++ cs
    → sender_runs handler r ≡ (route_all cs (record r { sender = s }), none)
sender_runs-calls handler r s cs h e = rw h (
    ap (λ ds. (route_all (drop (length r.sender.calls) ds) (record r { sender = s }), none)) e
    ∙ ap (λ ds. (route_all ds (record r { sender = s }), none)) (drop-append r.sender.calls cs))

route_all-posted :
    (i : Item) (text : Bytes) (r : Room)
    → route_all (before_text i ++ post_text text ∷ []) r
      ≡ record r { posted = r.posted ++ text ∷ [] }
unfolding route_all route
route_all-posted (description type sdp) text r = refl
route_all-posted (candidate sdp index mid) text r = refl

route_all-writes :
    (bs : List Bytes) (r : Room)
    → r.writing ≡ []
    → route_all (map async_write (front bs)) r ≡ record r { writing = front bs }
unfolding route_all route
route_all-writes [] r e = λ i. record r { writing = e i }
route_all-writes (b ∷ bs) r e = ap (λ w. record r { writing = w ++ b ∷ [] }) e

-- The queue behind a text, and the write that this starts.
abbrev pub queued : Bytes → List Bytes → List Bytes
queued text buffer = buffer ++ text ∷ []

abbrev pub started : Bytes → List Bytes → List Call
started text [] = async_write text ∷ []
started text (b ∷ bs) = []

route_all-started :
    (text : Bytes) (buffer : List Bytes) (r : Room)
    → r.writing ≡ front buffer
    → route_all (started text buffer) r ≡ record r { writing = front (queued text buffer) }
unfolding route_all route
route_all-started text [] r e = ap (λ w. record r { writing = w ++ text ∷ [] }) e
route_all-started text (b ∷ bs) r e = ap (λ w. record r { writing = w }) e

do_send_text_lem :
    (text : Bytes) (s : Signaling) (buffer : List Bytes)
    → s.write_buffer ≡ buffer
    → s.wss ≡ true
    → do_send_text text s ≡ (
      record s { write_buffer = queued text buffer; calls = s.calls ++ started text buffer },
      none,
    )
unfolding do_send_text
do_send_text_lem text s [] e w = ground arith
do_send_text_lem text s (b ∷ bs) e w = ground (arith, append-nil s.calls)

on_write_lem :
    (s : Signaling) (text : Bytes) (rest : List Bytes)
    → s.write_buffer ≡ text ∷ rest
    → s.wss ≡ true
    → on_write success s
      ≡ (record s { write_buffer = rest; calls = s.calls ++ map async_write (front rest) }, none)
unfolding on_write
on_write_lem s text [] e w = ground (arith, append-nil s.calls)
on_write_lem s text (b ∷ bs) e w = ground arith

module _ {V : Type 0} (json : Json V) (env : RtcEnv) where
  pub step-makes :
      (i : Item) (text : Bytes) (r : Room) (p : ℕ)
      → json.dump (item_message json i) ≡ some text
      → r.sender.connection ≡ some p
      → step json env (makes i) r
        ≡ (record r { sender = posted i text r.sender; posted = r.posted ++ text ∷ [] }, none)
  unfolding step
  step-makes i text r p h n =
      sender_runs-calls (send_item json i) r (posted i text r.sender)
        (before_text i ++ post_text text ∷ []) (send_item-posted json i text r.sender p h n) refl
      ∙ ap (λ q. (q, none)) (route_all-posted i text (record r { sender = posted i text r.sender }))

  abbrev pub behind_text : Bytes → List Bytes → Signaling → Signaling
  behind_text text buffer s = record s {
    write_buffer = queued text buffer;
    calls = s.calls ++ started text buffer;
  }

  pub step-queues-none :
      (n : ℕ) (r : Room) → drop n r.posted ≡ [] → step json env (queues n) r ≡ (r, none)
  unfolding step
  step-queues-none n r e = rw (e, step) refl

  pub step-queues :
      (n : ℕ) (s b : Signaling) (text : Bytes) (posted rest writing wire buffer : List Bytes)
      → drop n posted ≡ text ∷ rest
      → s.write_buffer ≡ buffer
      → s.wss ≡ true
      → writing ≡ front buffer
      → step json env
          (queues n)
          (record { sender = s; receiver = b; posted = posted; writing = writing; wire = wire })
        ≡ (
          record {
            sender = behind_text text buffer s;
            receiver = b;
            posted = take n posted ++ rest;
            writing = front (queued text buffer);
            wire = wire;
          },
          none,
        )
  unfolding step
  step-queues n s b text posted rest writing wire buffer at_n e w f =
      let r : Room = record {
        sender = s;
        receiver = b;
        posted = take n posted ++ rest;
        writing = writing;
        wire = wire;
      } in
      rw (at_n, step)
        (sender_runs-calls (do_send_text text) r (behind_text text buffer s) (started text buffer)
            (do_send_text_lem text s buffer e w) refl
          ∙ ap (λ q. (q, none))
              (route_all-started text buffer (record r { sender = behind_text text buffer s }) f))

  pub step-finishes :
      (s b : Signaling) (text : Bytes) (rest posted wire : List Bytes)
      → s.write_buffer ≡ text ∷ rest
      → s.wss ≡ true
      → step json env finishes
          (record { sender = s; receiver = b; posted = posted; writing = text ∷ []; wire = wire })
        ≡ (
          record {
            sender = record s {
              write_buffer = rest;
              calls = s.calls ++ map async_write (front rest);
            };
            receiver = b;
            posted = posted;
            writing = front rest;
            wire = wire ++ text ∷ [];
          },
          none,
        )
  unfolding step
  step-finishes s b text rest posted wire e w =
      let s' = record s { write_buffer = rest; calls = s.calls ++ map async_write (front rest) } in
      let r : Room = record {
        sender = s;
        receiver = b;
        posted = posted;
        writing = [];
        wire = wire ++ text ∷ [];
      } in
      sender_runs-calls (on_write success) r s' (map async_write (front rest))
        (on_write_lem s text rest e w) refl
      ∙ ap (λ q. (q, none)) (route_all-writes rest (record r { sender = s' }) refl)

  pub step-arrives :
      (laws : IsJson json) (i : Item) (text : Bytes) (s b : Signaling)
      (posted writing rest : List Bytes) (p : ℕ)
      → json.dump (item_message json i) ≡ some text
      → IsTaken env i
      → b.wss ≡ true
      → b.connection ≡ some p
      → step json env arrives (record {
        sender = s;
        receiver = b;
        posted = posted;
        writing = writing;
        wire = text ∷ rest;
      })
        ≡ (
          record {
            sender = s;
            receiver = accept i b;
            posted = posted;
            writing = writing;
            wire = rest;
          },
          none,
        )
  unfolding step
  step-arrives laws i text s b posted writing rest p h t w n =
      rw (on_read-accept json laws env i text b p h t w n) refl
