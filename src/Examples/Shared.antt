-- ===== src/Examples/Shared.antt =====
-- Values that several runs share.
use grpc_over_ayame.Base.{◌≡◌, refl, same, true, some, [], ◌∷◌, ◌++◌, Bytes, codes, length}
use grpc_over_ayame.Json.Toy.{toy}
use grpc_over_ayame.Json.Toy
use grpc_over_ayame.Metadata.{AddTail, IsAddTail, no_error}
use grpc_over_ayame.Signaling.Messages.{register_message}
use grpc_over_ayame.Signaling.Connect.{ConnectEnv}
use grpc_over_ayame.Signaling.Read.{RtcEnv}

abbrev pub add_last : AddTail
add_last b e = (b ++ e ∷ [], no_error)

pub add_last-IsAddTail : IsAddTail add_last
add_last-IsAddTail b e h = refl

-- A text member as `toy` writes it, and the end of the members.
abbrev pub member : Bytes → Bytes → Bytes
member k t = 5 ∷ length k ∷ (k ++ (1 ∷ length t ∷ t))

abbrev pub no_more : Bytes
no_more = 4 ∷ []

abbrev pub url : Bytes
url = codes "wss://ayame.io/signaling"

abbrev pub connected : ConnectEnv
connected = record { factory_created = true; host_name_set = true }

abbrev pub rtc : RtcEnv
rtc = record {
  peer_connection = some 1;
  init_channel = some 2;
  description_parsed = λ _ _. true;
  candidate_parsed = λ _ _ _. true;
  candidate_added = λ _ _ _. true;
}

abbrev pub register_text : Bytes
register_text =
    member (codes "type") (codes "register")
    ++ (member (codes "clientId") (codes "me")
        ++ (member (codes "roomId") (codes "grpc-over-ayame-testroom")
            ++ (member (codes "ayameClient") (codes "grpc-over-ayame")
                ++ (member (codes "libwebrtc") (codes "libwebrtc")
                    ++ (member (codes "environment") (codes "environment") ++ no_more)))))

pub register_text-dump : toy.dump (register_message toy (codes "me")) ≡ some register_text
unfolding Toy.set Toy.dump same
register_text-dump = refl
