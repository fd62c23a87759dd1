-- ===== src/Examples/Parts.antt =====
-- Runs of the URL parser, of metadata, of a message and of the receive queues.
use grpc_over_ayame.Examples.Shared.{add_last, add_last-IsAddTail, member, no_more}
use grpc_over_ayame.Base.{
  ℕ, zero, suc, ◌<◌, ◌%◌, length, ap, ◌≡◌, refl, inl, same, ◌↔◌, ◌⊎◌, none, some, List, [], ◌∷◌,
  ◌++◌, map, Bytes, codes, true, false, arith,
}
use grpc_over_ayame.Url.{UrlParts, parse}
use grpc_over_ayame.Url.Shape.{Decomposes, LacksSeparator}
use grpc_over_ayame.Url.Total.{parse-Decomposes, parse_total}
use grpc_over_ayame.Json.{lookup, Distinct}
use grpc_over_ayame.Json.Toy.{toy, toy-IsJson}
use grpc_over_ayame.Json.Toy
use grpc_over_ayame.Metadata.{Batch, no_error, encode, decode, c_string}
use grpc_over_ayame.Metadata.Filled.{shown, last_or}
use grpc_over_ayame.Metadata.RoundTrip.{decode-encode}
use grpc_over_ayame.Message.{aborted, threw, int_max, slice, pull_failed, send_message}
use grpc_over_ayame.Message.Slices.{
  send_message-slices, send_message-pull_failed, send_message-stops,
}
use grpc_over_ayame.Mailbox.{Mailbox, Event, run}
use grpc_over_ayame.Mailbox
use grpc_over_ayame.Mailbox.Pairing.{Pairs, run-Pairs}

abbrev no_parts : UrlParts
no_parts = record { scheme = []; user_pass = []; host = []; port = []; path_query_fragment = [] }

abbrev signaling_url : Bytes
signaling_url = codes "wss://user@ayame.io:4430/signaling"

abbrev signaling_parts : UrlParts
signaling_parts = record {
  scheme = codes "wss";
  user_pass = codes "user";
  host = codes "ayame.io";
  port = codes "4430";
  path_query_fragment = codes "/signaling";
}

parse-Decomposes_example :
    (parse signaling_url no_parts ≡ some (true, signaling_parts))
    ↔ Decomposes signaling_url signaling_parts
parse-Decomposes_example = parse-Decomposes signaling_url no_parts signaling_parts

parse_total_example :
    ((parse signaling_url no_parts ≡ some (false, no_parts)) × LacksSeparator signaling_url)
    ⊎ ((p : UrlParts) × (parse signaling_url no_parts ≡ some (true, p))
        × Decomposes signaling_url p)
parse_total_example = parse_total signaling_url no_parts

abbrev header : Batch
header = (codes "a", codes "1") ∷ (codes "b", codes "2") ∷ (codes "a", codes "3") ∷ []

abbrev header_text : Bytes
header_text = member (codes "a") (codes "3") ++ (member (codes "b") (codes "2") ++ no_more)

header-encoded : toy.dump (encode toy header) ≡ some header_text
unfolding encode Toy.set Toy.dump same c_string
header-encoded = refl

decode-encode_example :
    (b : Batch) × (decode toy add_last [] header_text ≡ some (b, no_error))
    × Distinct b
    × ((k : Bytes) → lookup k b ≡ last_or k none (map shown header))
decode-encode_example =
    decode-encode toy add_last header header_text toy-IsJson add_last-IsAddTail header-encoded

send_message-slices_example :
    send_message (record {
      message_length = 5;
      pulls = slice (codes "abc") ∷ slice (codes "de") ∷ pull_failed ∷ [];
    })
    ≡ (codes "abc" ∷ codes "de" ∷ [], none)
send_message-slices_example =
    send_message-slices (codes "abc") (codes "de" ∷ []) (pull_failed ∷ []) (ground arith)
      (omega arith)

send_message-pull_failed_example :
    send_message (record { message_length = 5; pulls = slice (codes "abc") ∷ pull_failed ∷ [] })
    ≡ (codes "abc" ∷ [], none)
send_message-pull_failed_example =
    send_message-pull_failed (codes "abc" ∷ []) [] 5 (ground arith) (omega arith) (omega arith)

abbrev both_empty : Mailbox ℕ
both_empty = record { data_queue = []; func_queue = [] }

abbrev schedule : List (Event ℕ)
schedule =
    Mailbox.message (codes "x")
    ∷ Mailbox.wait 1
    ∷ Mailbox.wait 2
    ∷ Mailbox.wait 3
    ∷ Mailbox.message (codes "y")
    ∷ []

run-Pairs_example : Pairs (1 ∷ 2 ∷ 3 ∷ []) (codes "x" ∷ codes "y" ∷ []) (run both_empty schedule)
run-Pairs_example = run-Pairs both_empty schedule (inl refl)

-- A slice of zeros, too long to be written out.
zeros : ℕ → Bytes
zeros zero = []
zeros (suc n) = 0 ∷ zeros n

length-zeros : (n : ℕ) → length (zeros n) ≡ n
unfolding zeros
length-zeros zero = refl
length-zeros (suc n) = ap suc (length-zeros n)

zeros-int_max : int_max < length (zeros 2147483648) % 4294967296
zeros-int_max = omega (arith, length-zeros 2147483648)

send_message-stops_example :
    (send_message (record { message_length = 5; pulls = slice (codes "abc") ∷ [] })
      ≡ (codes "abc" ∷ [], some aborted))
    × (send_message (record {
      message_length = 5;
      pulls = slice (codes "abc") ∷ slice (zeros 2147483648) ∷ [];
    })
        ≡ (codes "abc" ∷ [], some threw))
send_message-stops_example =
    send_message-stops (codes "abc" ∷ []) (zeros 2147483648) [] 5 (ground arith) (omega arith)
      (omega arith) zeros-int_max
