-- ===== src/Peers/Refines.antt =====
-- The texts between two ends carry the items through a bag and a queue.
use grpc_over_ayame.Base.{ℕ, ◌≡◌, refl, sym, ap, true, none, some, List, [], Bytes, All}
use grpc_over_ayame.Json.{Json, IsJson}
use grpc_over_ayame.Signaling.{Signaling}
use grpc_over_ayame.Signaling.Writes.{front}
use grpc_over_ayame.Signaling.Read.{RtcEnv}
use grpc_over_ayame.Peers.{Item, Room, Event, run}
use grpc_over_ayame.Peers.Pipe.{empty_pipe, at_rest}
use grpc_over_ayame.Peers.Carries.{made, IsSound, Refines}
use grpc_over_ayame.Peers.Lands.{run-Lands}

-- Nothing is on its way.
abbrev pub fresh : Signaling → Signaling → Room
fresh sender receiver = record {
  sender = sender;
  receiver = receiver;
  posted = [];
  writing = [];
  wire = [];
}

pub run-Refines :
    {V : Type 0} (json : Json V) (env : RtcEnv) (text : Item → Bytes) (es : List Event)
    (sender receiver : Signaling) (p q : ℕ)
    → IsJson json
    → sender.wss ≡ true
    → sender.connection ≡ some p
    → sender.write_buffer ≡ []
    → receiver.wss ≡ true
    → receiver.connection ≡ some q
    → All (IsSound json env text) (made es)
    → let out = run json env es (fresh sender receiver) in
      (out.1 ≡ none) × Refines json env text receiver p (made es) out.0
run-Refines json env text es sender receiver p q laws ws ns empty w n sound =
    run-Lands json laws env text receiver p q w n es [] (fresh sender receiver) sound record {
      pipe = empty_pipe;
      moves = at_rest;
      carries = record {
        texts_are = empty;
        posted_are = refl;
        one_write = ap front (sym empty);
        receiver_is = refl;
      };
      sound = tt;
      waiting_sound = tt;
      sender_open = record { has_wss = ws; has_connection = ns };
    }
