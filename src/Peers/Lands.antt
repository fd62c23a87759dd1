-- ===== src/Peers/Lands.antt =====
-- No step between two ends leaves the bag and the queue of items.
use mathlib.Core.List.{map-append}
use grpc_over_ayame.Base.{
  ℕ, zero, suc, take, drop, ◌≡◌, refl, sym, ap, ◌∙◌, true, Option, none, some, List, [], ◌∷◌, ◌++◌,
  append_assoc, append-nil, map, Bytes, All, All-append, All-left, All-right,
}
use mathlib.Core.Path.{subst}
use grpc_over_ayame.Json.{Json, IsJson}
use grpc_over_ayame.Message.{Fault}
use grpc_over_ayame.Stream.{◌>>◌, after_ok}
use grpc_over_ayame.Signaling.{Signaling}
use grpc_over_ayame.Signaling.Writes.{front}
use grpc_over_ayame.Signaling.Read.{RtcEnv}
use grpc_over_ayame.Peers.{Item, accept, Room, Event, makes, queues, finishes, arrives, step, run}
use grpc_over_ayame.Peers.Pipe.{give, gives, starts, takes}
use grpc_over_ayame.Peers.Carries.{
  room, made, accept_all-last, accept_all-wss, accept_all-connection, IsSound, IsOpen, Refines,
}
use grpc_over_ayame.Peers.Steps.{
  step-makes, step-queues-none, step-queues, step-finishes, step-arrives,
}

map-last :
    {A B : Type 0} (f : A → B) (xs : List A) (x : A) → map f (xs ++ x ∷ []) ≡ map f xs ++ f x ∷ []
map-last f [] x = refl
map-last f (y ∷ xs) x = ap (◌∷◌ (f y)) (map-last f xs x)

take-drop : {A : Type 0} (n : ℕ) (xs : List A) → take n xs ++ drop n xs ≡ xs
take-drop zero xs = refl
take-drop (suc n) [] = refl
take-drop (suc n) (x ∷ xs) = ap (◌∷◌ x) (take-drop n xs)

take-map : {A B : Type 0} (f : A → B) (n : ℕ) (xs : List A) → take n (map f xs) ≡ map f (take n xs)
take-map f zero xs = refl
take-map f (suc n) [] = refl
take-map f (suc n) (x ∷ xs) = ap (◌∷◌ (f x)) (take-map f n xs)

drop-map : {A B : Type 0} (f : A → B) (n : ℕ) (xs : List A) → drop n (map f xs) ≡ map f (drop n xs)
drop-map f zero xs = refl
drop-map f (suc n) [] = refl
drop-map f (suc n) (x ∷ xs) = drop-map f n xs

abbrev head_or : Bytes → List Bytes → Bytes
head_or t [] = t
head_or t (u ∷ us) = u

abbrev tail : List Bytes → List Bytes
tail [] = []
tail (u ∷ us) = us

module _ {V : Type 0} (json : Json V) (laws : IsJson json) (env : RtcEnv) (text : Item → Bytes)
    (receiver : Signaling) (p q : ℕ) (w : receiver.wss ≡ true)
    (n : receiver.connection ≡ some q) where
  abbrev pub Reached : List Item → Room → Type 0
  Reached given r = Refines json env text receiver p given r

  -- A step without a fault to a room that still carries a queue.
  abbrev pub Lands : List Item → Room × Option Fault → Type 0
  Lands given out = (out.1 ≡ none) × Reached given out.0

  Lands-step :
      {given : List Item} {out : Room × Option Fault} {r' : Room}
      → out ≡ (r', none)
      → Reached given r'
      → Lands given out
  Lands-step h c = rw h (refl, c)

  keeps_IsOpen :
      (s s' : Signaling) → s'.wss ≡ s.wss → s'.connection ≡ s.connection → IsOpen p s → IsOpen p s'
  keeps_IsOpen s s' e f o = record {
    has_wss = e ∙ o.has_wss;
    has_connection = f ∙ o.has_connection;
  }

  makes-Lands :
      (i : Item) (given : List Item) (r : Room)
      → IsSound json env text i
      → Reached given r
      → Lands (given ++ i ∷ []) (step json env (makes i) r)
  makes-Lands i given r s c =
      Lands-step (step-makes json env i (text i) r p s.0 c.sender_open.has_connection) record {
        pipe = give i c.pipe;
        moves = gives i c.moves;
        carries = record {
          texts_are = c.carries.texts_are;
          posted_are =
              ap (λ bs. bs ++ text i ∷ []) c.carries.posted_are
              ∙ sym (map-last text c.pipe.waiting i);
          one_write = c.carries.one_write;
          receiver_is = c.carries.receiver_is;
        };
        sound = c.sound;
        waiting_sound =
            All-append (IsSound json env text) c.pipe.waiting (i ∷ []) c.waiting_sound (s, tt);
        sender_open = keeps_IsOpen r.sender _ refl refl c.sender_open;
      }

  -- The executor finds nothing at this place, or the text of the item that waits there.
  queues-Lands-at :
      (m : ℕ) (given : List Item) (s b : Signaling) (posted writing wire behind : List Bytes)
      (items : List Item) (c : Reached given (room s b posted writing wire))
      → drop m posted ≡ behind
      → drop m c.pipe.waiting ≡ items
      → behind ≡ map text items
      → Lands given (step json env (queues m) (room s b posted writing wire))
  queues-Lands-at m given s b posted writing wire [] items c e f k =
      Lands-step (step-queues-none json env m (room s b posted writing wire) e) c
  queues-Lands-at m given s b posted writing wire (t ∷ rest) [] c e f k = absurd (cc)
  queues-Lands-at m given s b posted writing wire (t ∷ rest) (i ∷ is) c e f k =
      let sounds = IsSound json env text in
      let early = take m c.pipe.waiting in
      let here : c.pipe.waiting ≡ early ++ i ∷ is =
        sym (take-drop m c.pipe.waiting) ∙ ap (λ js. early ++ js) f in
      let sound : All sounds (early ++ i ∷ is) = subst (All sounds) here c.waiting_sound in
      let late_sound : All sounds (i ∷ is) = All-right sounds early (i ∷ is) sound in
      Lands-step
        (step-queues json env m s b t posted rest writing wire s.write_buffer e refl
          c.sender_open.has_wss c.carries.one_write)
        record {
          pipe = record {
            taken = c.pipe.taken;
            flying = c.pipe.flying ++ i ∷ [];
            waiting = early ++ is;
          };
          moves = starts early i is here c.moves;
          carries = record {
            texts_are =
                sym (append_assoc wire s.write_buffer (t ∷ []))
                ∙ (ap (λ bs. bs ++ t ∷ []) c.carries.texts_are
                    ∙ (ap (λ u. map text c.pipe.flying ++ u ∷ []) (ap (head_or t) k)
                        ∙ sym (map-last text c.pipe.flying i)));
            posted_are =
                ap (λ bs. take m bs ++ rest) c.carries.posted_are
                ∙ (ap (λ bs. bs ++ rest) (take-map text m c.pipe.waiting)
                    ∙ (ap (λ bs. map text early ++ bs) (ap tail k)
                        ∙ sym (map-append text early is)));
            one_write = refl;
            receiver_is = c.carries.receiver_is;
          };
          sound = All-append sounds c.pipe.flying (i ∷ []) c.sound (late_sound.0, tt);
          waiting_sound =
              All-append sounds early is (All-left sounds early (i ∷ is) sound) late_sound.1;
          sender_open = keeps_IsOpen s _ refl refl c.sender_open;
        }

  pub queues-Lands :
      (m : ℕ) (given : List Item) (s b : Signaling) (posted writing wire : List Bytes)
      → Reached given (room s b posted writing wire)
      → Lands given (step json env (queues m) (room s b posted writing wire))
  queues-Lands m given s b posted writing wire c =
      queues-Lands-at m given s b posted writing wire (drop m posted) (drop m c.pipe.waiting) c refl
        refl (ap (drop m) c.carries.posted_are ∙ drop-map text m c.pipe.waiting)

  pub finishes-Lands :
      (given : List Item) (s b : Signaling) (posted writing wire buffer : List Bytes)
      → s.write_buffer ≡ buffer
      → writing ≡ front buffer
      → Reached given (room s b posted writing wire)
      → Lands given (step json env finishes (room s b posted writing wire))
  finishes-Lands given s b posted writing wire [] e f c =
      subst
        (λ ws.
          Reached given (room s b posted ws wire)
          → Lands given (step json env finishes (room s b posted ws wire)))
        (sym f) (unfold step in λ d. (refl, d)) c
  finishes-Lands given s b posted writing wire (u ∷ us) e f c =
      subst (λ ws. Lands given (step json env finishes (room s b posted ws wire))) (sym f)
        (Lands-step (step-finishes json env s b u us posted wire e c.sender_open.has_wss) record {
          pipe = c.pipe;
          moves = c.moves;
          carries = record {
            texts_are =
                append_assoc wire (u ∷ []) us
                ∙ (ap (λ bs. wire ++ bs) (sym e) ∙ c.carries.texts_are);
            posted_are = c.carries.posted_are;
            one_write = refl;
            receiver_is = c.carries.receiver_is;
          };
          sound = c.sound;
          waiting_sound = c.waiting_sound;
          sender_open = keeps_IsOpen s _ refl refl c.sender_open;
        })

  pub arrives-Lands :
      (given : List Item) (s b : Signaling) (posted writing wire : List Bytes) (flying : List Item)
      (c : Reached given (room s b posted writing wire))
      → c.pipe.flying ≡ flying
      → Lands given (step json env arrives (room s b posted writing wire))
  arrives-Lands given s b posted writing [] flying c e = unfold step in (refl, c)
  arrives-Lands given s b posted writing (t ∷ rest) [] c e =
      let nothing : t ∷ (rest ++ s.write_buffer) ≡ [] = c.carries.texts_are ∙ ap (map text) e in
      absurd (cc)
  arrives-Lands given s b posted writing (t ∷ rest) (i ∷ is) c e =
      let here : t ∷ (rest ++ s.write_buffer) ≡ text i ∷ map text is =
        c.carries.texts_are ∙ ap (map text) e in
      let sound : All (IsSound json env text) (i ∷ is) = rw e at c.sound in
      let taken = c.pipe.taken in
      subst (λ u. Lands given (step json env arrives (room s b posted writing (u ∷ rest))))
        (sym (ap (head_or t) here))
        (Lands-step
          (step-arrives json env laws i (text i) s b posted writing rest q sound.0.0 sound.0.1
            (ap (λ (x : Signaling). x.wss) c.carries.receiver_is
              ∙ (accept_all-wss taken receiver ∙ w))
            (ap (λ (x : Signaling). x.connection) c.carries.receiver_is
              ∙ (accept_all-connection taken receiver ∙ n)))
          record {
            pipe = record c.pipe { taken = taken ++ i ∷ []; flying = is };
            moves = takes i is e c.moves;
            carries = record {
              texts_are = ap tail here;
              posted_are = c.carries.posted_are;
              one_write = c.carries.one_write;
              receiver_is =
                  ap (accept i) c.carries.receiver_is ∙ sym (accept_all-last taken i receiver);
            };
            sound = sound.1;
            waiting_sound = c.waiting_sound;
            sender_open = keeps_IsOpen s s refl refl c.sender_open;
          })

  step-Lands :
      (e : Event) (given : List Item) (r : Room)
      → All (IsSound json env text) (made (e ∷ []))
      → Reached given r
      → Lands (given ++ made (e ∷ [])) (step json env e r)
  step-Lands (makes i) given r s c = makes-Lands i given r s.0 c
  step-Lands (queues m) given r s c =
      rw (append-nil given) (queues-Lands m given r.sender r.receiver r.posted r.writing r.wire c)
  step-Lands finishes given r s c = rw (append-nil given) (
      finishes-Lands given r.sender r.receiver r.posted r.writing r.wire r.sender.write_buffer refl
        c.carries.one_write c)
  step-Lands arrives given r s c =
      rw (append-nil given)
        (arrives-Lands given r.sender r.receiver r.posted r.writing r.wire c.pipe.flying c refl)

  made-cons : (e : Event) (es : List Event) → made (e ∷ es) ≡ made (e ∷ []) ++ made es
  made-cons (makes i) es = refl
  made-cons (queues m) es = refl
  made-cons finishes es = refl
  made-cons arrives es = refl

  pub run-Lands :
      (es : List Event) (given : List Item) (r : Room)
      → All (IsSound json env text) (made es)
      → Reached given r
      → Lands (given ++ made es) (run json env es r)
  unfolding run
  run-Lands [] given r s c = rw (append-nil given) (refl, c)
  run-Lands (e ∷ es) given r s c =
      let parts : All (IsSound json env text) (made (e ∷ []) ++ made es) =
        subst (All (IsSound json env text)) (made-cons e es) s in
      let first =
        step-Lands e given r (All-left (IsSound json env text) (made (e ∷ [])) (made es) parts) c in
      let r' = (step json env e r).0 in
      let rest =
        run-Lands es (given ++ made (e ∷ [])) r'
          (All-right (IsSound json env text) (made (e ∷ [])) (made es) parts) first.1 in
      subst (λ is. Lands is ((step json env e >> run json env es) r))
        (append_assoc given (made (e ∷ [])) (made es)
          ∙ ap (λ is. given ++ is) (sym (made-cons e es)))
        (rw (after_ok (step json env e) (run json env es) r r' (λ i. (r', first.0 i))) rest)
