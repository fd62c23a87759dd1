-- ===== src/Peers/Carries.antt =====
-- How both ends show the items that wait and a queue of those on their way.
use grpc_over_ayame.Base.{ℕ, ◌≡◌, refl, true, some, List, [], ◌∷◌, ◌++◌, map, Bytes, All}
use grpc_over_ayame.Json.{Json}
use grpc_over_ayame.Signaling.{Signaling}
use grpc_over_ayame.Signaling.Writes.{front}
use grpc_over_ayame.Signaling.Read.{RtcEnv}
use grpc_over_ayame.Peers.{Item, description, candidate, item_message, accept, Room, Event, makes}
use grpc_over_ayame.Peers.Items.{IsTaken}
use grpc_over_ayame.Peers.Pipe.{Pipe, Moves}

-- The items that the sender makes.
abbrev pub made : List Event → List Item
made [] = []
made (makes i ∷ es) = i ∷ made es
made (_ ∷ es) = made es

-- The other end behind these items, in order.
abbrev pub accept_all : List Item → Signaling → Signaling
accept_all [] s = s
accept_all (i ∷ is) s = accept_all is (accept i s)

pub accept_all-last :
    (is : List Item) (i : Item) (s : Signaling)
    → accept_all (is ++ i ∷ []) s ≡ accept i (accept_all is s)
accept_all-last [] i s = refl
accept_all-last (j ∷ is) i s = accept_all-last is i (accept j s)

pub accept_all-wss : (is : List Item) (s : Signaling) → (accept_all is s).wss ≡ s.wss
accept_all-wss [] s = refl
accept_all-wss (description type sdp ∷ is) s = accept_all-wss is (accept (description type sdp) s)
accept_all-wss (candidate sdp index mid ∷ is) s =
    accept_all-wss is (accept (candidate sdp index mid) s)

pub accept_all-connection :
    (is : List Item) (s : Signaling) → (accept_all is s).connection ≡ s.connection
accept_all-connection [] s = refl
accept_all-connection (description type sdp ∷ is) s =
    accept_all-connection is (accept (description type sdp) s)
accept_all-connection (candidate sdp index mid ∷ is) s =
    accept_all-connection is (accept (candidate sdp index mid) s)

-- An item that JSON writes as `text`, and that WebRTC takes.
abbrev pub IsSound : {V : Type 0} → Json V → RtcEnv → (Item → Bytes) → Item → Type 0
IsSound json env text i = (json.dump (item_message json i) ≡ some (text i)) × IsTaken env i

-- What is known of both ends behind the moves: the texts on the wire, then those in the sender's
-- queue are those of the items on their way; those posted are those of the items that wait for the
-- executor; at most the first of the queue is being written; and the other end has taken the others
-- in order.
pub record Carries (text : Item → Bytes) (receiver : Signaling) (pipe : Pipe) (r : Room)
    : Type 0 where
  pub texts_are : r.wire ++ r.sender.write_buffer ≡ map text pipe.flying
  pub posted_are : r.posted ≡ map text pipe.waiting
  pub one_write : r.writing ≡ front r.sender.write_buffer
  pub receiver_is : r.receiver ≡ accept_all pipe.taken receiver

-- The sender has its WebSocket and its connection.
pub record IsOpen (p : ℕ) (s : Signaling) : Type 0 where
  pub has_wss : s.wss ≡ true
  pub has_connection : s.connection ≡ some p

pub record Refines {V : Type 0} (json : Json V) (env : RtcEnv) (text : Item → Bytes)
    (receiver : Signaling) (p : ℕ) (given : List Item) (r : Room) : Type 0 where
  pub pipe : Pipe
  pub moves : Moves given pipe
  pub carries : Carries text receiver pipe r
  pub sound : All (IsSound json env text) pipe.flying
  pub waiting_sound : All (IsSound json env text) pipe.waiting
  pub sender_open : IsOpen p r.sender

abbrev pub room : Signaling → Signaling → List Bytes → List Bytes → List Bytes → Room
room s b posted writing wire = record {
  sender = s;
  receiver = b;
  posted = posted;
  writing = writing;
  wire = wire;
}
