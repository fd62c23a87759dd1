-- ===== src/Examples/Vtables.antt =====
-- Runs of a transport and its streams, as gRPC calls them.
use grpc_over_ayame.Examples.Shared.{add_last}
use grpc_over_ayame.Base.{ℕ, ◌≡◌, refl, true, false, none, some, List, [], ◌∷◌}
use grpc_over_ayame.Json.Toy.{toy}
use grpc_over_ayame.Message.{dangling}
use grpc_over_ayame.Stream.{Env, connecting}
use grpc_over_ayame.Stream.Perform
use grpc_over_ayame.Transport
use grpc_over_ayame.Vtable.{
  Event, inits_stream, sets_pollset, destroys_stream, destroys_transport, hears_ready, new_core,
  init_stream, destroy_stream, on_ready, run,
}
use grpc_over_ayame.Vtable.Counts.{Counts, releases}
use grpc_over_ayame.Vtable.Lives.{run-Counts}
use grpc_over_ayame.Vtable.Dangling.{on_ready-dangles}

abbrev no_channel : Env
no_channel = record { create_data_channel = none; create_fault = none; state = λ _. connecting }

abbrev some_channel : ℕ → Env
some_channel i = record {
  create_data_channel = some i;
  create_fault = none;
  state = λ _. connecting;
}

abbrev events : List Event
events =
    inits_stream no_channel none
    ∷ sets_pollset
    ∷ inits_stream (some_channel 7) none
    ∷ hears_ready some_channel
    ∷ destroys_transport
    ∷ destroys_stream none 1
    ∷ destroys_stream (some 4) 0
    ∷ []

events-run : (run toy add_last events (new_core false)).1 ≡ none
unfolding run Transport.create Transport.on_ready Transport.add_on_ready Transport.ref
    Transport.destroy Perform.init_stream Perform.on_ready
events-run = refl

run-Counts_example : Counts (releases events) (run toy add_last events (new_core false)).0
run-Counts_example = run-Counts toy add_last events false events-run

on_ready-dangles_example :
    let created = init_stream no_channel none (new_core true) in
    let gone = destroy_stream none 0 created.0 in
    (created.1 ≡ none)
    × (gone.1 ≡ none)
    × ((on_ready toy add_last some_channel gone.0).1 ≡ some dangling)
unfolding Transport.create
on_ready-dangles_example =
    on_ready-dangles toy add_last no_channel some_channel none (new_core true) 0 refl refl refl refl
