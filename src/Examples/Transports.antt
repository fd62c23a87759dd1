-- ===== src/Examples/Transports.antt =====
-- Runs of `AyameTransport`.
use grpc_over_ayame.Base.{◌≡◌, refl, true, some, List, [], ◌∷◌, ◌++◌, Bytes, codes}
use grpc_over_ayame.Message.{aborted}
use grpc_over_ayame.Transport.{Transport, create, start, unref}
use grpc_over_ayame.Transport.Waiters.{Event, add, fire, readies, run, run-added}
use grpc_over_ayame.Transport.Lifetime.{Life, created, started, unref-aborts}

abbrev events : List Event
events = add 1 ∷ add 2 ∷ fire ∷ add 3 ∷ fire ∷ fire ∷ add 4 ∷ []

run-added_example :
    let t = run events (create true) in readies t.calls ++ t.ready_waited ≡ 1 ∷ 2 ∷ 3 ∷ 4 ∷ []
unfolding create
run-added_example = run-added events (create true)

abbrev url : Bytes
url = codes "wss://ayame.io/signaling"

abbrev running : Transport
running = (start url (create true)).0

running-Life : Life 0 true running
unfolding create start
running-Life = started url (created true) refl

unref-aborts_example : (unref running).1 ≡ some aborted
unfolding create start
unref-aborts_example = unref-aborts running-Life refl refl
