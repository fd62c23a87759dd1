-- ===== src/Peers/Delivers.antt =====
-- What one end has made reaches the other.
use grpc_over_ayame.Base.{
  ℕ, ◌≡◌, refl, sym, ap, ◌∙◌, true, Option, none, some, List, [], ◌∷◌, ◌++◌, append-nil, map, Bytes,
  All,
}
use mathlib.Core.Path.{subst}
use mathlib.Core.List.{Perm}
use grpc_over_ayame.Json.{Json, IsJson}
use grpc_over_ayame.Message.{Fault}
use grpc_over_ayame.Stream.{◌>>◌, after_ok}
use grpc_over_ayame.Signaling.{Signaling, success, async_write}
use grpc_over_ayame.Signaling.Writes.{front}
use grpc_over_ayame.Signaling.Read.{RtcEnv, on_read}
use grpc_over_ayame.Peers.{Item, Room, Event, queues, finishes, arrives, step, run}
use grpc_over_ayame.Peers.Pipe.{all_items, Moves-Perm}
use grpc_over_ayame.Peers.Carries.{room, made, accept_all, IsSound, Refines}
use grpc_over_ayame.Peers.Steps.{step-queues, step-finishes, behind_text}
use grpc_over_ayame.Peers.Lands.{queues-Lands, finishes-Lands, arrives-Lands}
use grpc_over_ayame.Peers.Refines.{run-Refines, fresh}

-- Steps that make nothing, end in no fault and leave the other end behind these items, in some
-- order.
abbrev Clears : {V : Type 0} → Json V → RtcEnv → Signaling → List Item → Room → Type 0
Clears json env receiver given r =
    (more : List Event) × (made more ≡ [])
    × ((run json env more r).1 ≡ none)
    × ((arrived : List Item) × Perm given arrived
        × ((run json env more r).0.receiver ≡ accept_all arrived receiver))

no_items : (text : Item → Bytes) (flying : List Item) → [] ≡ map text flying → flying ≡ []
no_items text [] e = refl
no_items text (i ∷ is) e = absurd (cc)

module _ {V : Type 0} (json : Json V) (env : RtcEnv) where
  Clears-step :
      (receiver : Signaling) (given : List Item) (e : Event) (r r' : Room)
      → ((es : List Event) → made (e ∷ es) ≡ made es)
      → step json env e r ≡ (r', none)
      → Clears json env receiver given r'
      → Clears json env receiver given r
  unfolding run
  Clears-step receiver given e r r' m h (more, makes_none, no_fault, (arrived, perm, is)) =
      let out : run json env (e ∷ more) r ≡ run json env more r' =
        after_ok (step json env e) (run json env more) r r' h in
      (
        e ∷ more,
        m more ∙ makes_none,
        ap (λ (o : Room × Option Fault). o.1) out ∙ no_fault,
        (arrived, perm, ap (λ (o : Room × Option Fault). o.0.receiver) out ∙ is),
      )

  run-append :
      (es more : List Event) (r r' : Room)
      → run json env es r ≡ (r', none)
      → run json env (es ++ more) r ≡ run json env more r'
  unfolding run
  run-append [] more r r' h = ap (λ (o : Room × Option Fault). run json env more o.0) h
  run-append (e ∷ es) more r r' h = go (step json env e r) h (λ r₁ k. run-append es more r₁ r' k)
    where
      go :
          (o : Room × Option Fault)
          → ((λ (_ : Room). o) >> run json env es) r ≡ (r', none)
          → ((r₁ : Room)
              → run json env es r₁ ≡ (r', none)
              → run json env (es ++ more) r₁ ≡ run json env more r')
          → ((λ (_ : Room). o) >> run json env (es ++ more)) r ≡ run json env more r'
      go (r₁, none) h k = k r₁ h
      go (r₁, some f) h k =
          let fault_is : some f ≡ none = ap (λ (o : Room × Option Fault). o.1) h in absurd (cc)

module _ {V : Type 0} (json : Json V) (laws : IsJson json) (env : RtcEnv) (text : Item → Bytes)
    (receiver : Signaling) (p q : ℕ) (w : receiver.wss ≡ true)
    (n : receiver.connection ≡ some q) where
  abbrev Holds : List Item → Room → Type 0
  Holds given r = Refines json env text receiver p given r

  moved :
      (given : List Item) (out : Room × Option Fault) (r' : Room)
      → out ≡ (r', none)
      → (out.1 ≡ none) × Holds given out.0
      → Holds given r'
  moved given out r' h c = subst (λ (o : Room × Option Fault). Holds given o.0) h c.1

  wire-Clears :
      (given : List Item) (s b : Signaling) (wire : List Bytes)
      → s.write_buffer ≡ []
      → Holds given (room s b [] [] wire)
      → Clears json env receiver given (room s b [] [] wire)
  unfolding step run
  wire-Clears given s b [] e c =
      let none_left = no_items text c.pipe.flying (sym e ∙ c.carries.texts_are) in
      let none_wait = no_items text c.pipe.waiting c.carries.posted_are in
      let all : all_items c.pipe ≡ c.pipe.taken =
        ap (λ is. c.pipe.taken ++ (is ++ c.pipe.waiting)) none_left
        ∙ (ap (λ is. c.pipe.taken ++ is) none_wait ∙ append-nil c.pipe.taken) in
      let arrived = c.pipe.taken in
      (
        [],
        refl,
        refl,
        (arrived, subst (Perm given) all (Moves-Perm c.moves), c.carries.receiver_is),
      )
  wire-Clears given s b (t ∷ rest) e c =
      let r = room s b [] [] (t ∷ rest) in
      let r' = room s (on_read json env success t b).0 [] [] rest in
      let landed =
        arrives-Lands json laws env text receiver p q w n given s b [] [] (t ∷ rest) c.pipe.flying c
          refl in
      let goes : step json env arrives r ≡ (r', none) = λ i. (r', landed.0 i) in
      Clears-step json env receiver given arrives r r' (λ es. refl) goes
        (wire-Clears given s (on_read json env success t b).0 rest e (moved given _ r' goes landed))

  writing-Clears :
      (given : List Item) (s b : Signaling) (wire buffer : List Bytes)
      → s.write_buffer ≡ buffer
      → Holds given (room s b [] (front buffer) wire)
      → Clears json env receiver given (room s b [] (front buffer) wire)
  writing-Clears given s b wire [] e c = wire-Clears given s b wire e c
  writing-Clears given s b wire (u ∷ us) e c =
      let s' = record s { write_buffer = us; calls = s.calls ++ map async_write (front us) } in
      let r = room s b [] (u ∷ []) wire in
      let r' = room s' b [] (front us) (wire ++ u ∷ []) in
      let goes = step-finishes json env s b u us [] wire e c.sender_open.has_wss in
      let landed =
        finishes-Lands json laws env text receiver p q w n given s b [] (u ∷ []) wire (u ∷ us) e
          refl c in
      Clears-step json env receiver given finishes r r' (λ es. refl) goes
        (writing-Clears given s' b (wire ++ u ∷ []) us refl (moved given _ r' goes landed))

  posted-Clears :
      (given : List Item) (s b : Signaling) (posted wire : List Bytes)
      → Holds given (room s b posted (front s.write_buffer) wire)
      → Clears json env receiver given (room s b posted (front s.write_buffer) wire)
  posted-Clears given s b [] wire c = writing-Clears given s b wire s.write_buffer refl c
  posted-Clears given s b (t ∷ rest) wire c =
      let s' = behind_text json env t s.write_buffer s in
      let r = room s b (t ∷ rest) (front s.write_buffer) wire in
      let r' = room s' b rest (front s'.write_buffer) wire in
      let goes =
        step-queues json env 0 s b t (t ∷ rest) rest (front s.write_buffer) wire s.write_buffer refl
          refl c.sender_open.has_wss refl in
      let landed =
        queues-Lands json laws env text receiver p q w n 0 given s b (t ∷ rest)
          (front s.write_buffer) wire c in
      Clears-step json env receiver given (queues 0) r r' (λ es. refl) goes
        (posted-Clears given s' b rest wire (moved given _ r' goes landed))

  room-Clears : (given : List Item) (r : Room) → Holds given r → Clears json env receiver given r
  room-Clears given r c =
      subst
        (λ ws.
          Holds given (room r.sender r.receiver r.posted ws r.wire)
          → Clears json env receiver given (room r.sender r.receiver r.posted ws r.wire))
        (sym c.carries.one_write) (posted-Clears given r.sender r.receiver r.posted r.wire) c

-- Whatever has been made, queued, written and read between two ends that have a WebSocket and a
-- connection, from the state where no text waits, with an executor that runs the texts posted in
-- any order, there are further steps of the executor, the WebSocket and the wire, in which nothing
-- new is made, after which the other end has taken all the items that the one end made, in some
-- order, each once, and nothing else; no step ends in a fault. The sender's handlers must not
-- overlap, and each item must be such that JSON can write it and the other end's WebRTC takes it.
pub run-delivers :
    {V : Type 0} (json : Json V) (env : RtcEnv) (text : Item → Bytes) (es : List Event)
    (sender receiver : Signaling) (p q : ℕ)
    → IsJson json
    → sender.wss ≡ true
    → sender.connection ≡ some p
    → sender.write_buffer ≡ []
    → receiver.wss ≡ true
    → receiver.connection ≡ some q
    → All (IsSound json env text) (made es)
    → (more : List Event) × (made more ≡ [])
      × ((run json env (es ++ more) (fresh sender receiver)).1 ≡ none)
      × ((arrived : List Item) × Perm (made es) arrived
          × ((run json env (es ++ more) (fresh sender receiver)).0.receiver
              ≡ accept_all arrived receiver))
run-delivers json env text es sender receiver p q laws ws ns empty w n sound =
    let (no_fault, c) =
      run-Refines json env text es sender receiver p q laws ws ns empty w n sound in
    let r' = (run json env es (fresh sender receiver)).0 in
    let (more, makes_none, more_ok, (arrived, perm, is)) =
      room-Clears json laws env text receiver p q w n (made es) r' c in
    let all = run-append json env es more (fresh sender receiver) r' (λ i. (r', no_fault i)) in
    (
      more,
      makes_none,
      ap (λ (o : Room × Option Fault). o.1) all ∙ more_ok,
      (arrived, perm, ap (λ (o : Room × Option Fault). o.0.receiver) all ∙ is),
    )
