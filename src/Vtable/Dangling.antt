-- ===== src/Vtable/Dangling.antt =====
-- A stream that is destroyed while it waits for the peer.
use grpc_over_ayame.Base.{
  ℕ, suc, ◌≡◌, refl, true, ap, ◌∙◌, Option, none, some, List, [], ◌∷◌, ◌++◌, length, arith,
}
use grpc_over_ayame.Json.{Json}
use grpc_over_ayame.Metadata.{AddTail}
use grpc_over_ayame.Message.{Fault, dangling}
use grpc_over_ayame.Stream.{Stream, Env, after_ok, after-eq}
use grpc_over_ayame.Stream.Perform
use grpc_over_ayame.Transport
use grpc_over_ayame.Transport.{Transport, ref, unref, release, add_on_ready}
use grpc_over_ayame.Vtable.{
  Slot, live, destroyed, Core, on_live, destroy_slot, at_slot, in_streams, in_transport, add_stream,
  init_stream, destroy_stream, run_waited, on_ready,
}

at_slot-last :
    (f : Slot → Slot × Option Fault) (xs : List Slot) (x : Slot)
    → at_slot (length xs) f (xs ++ x ∷ []) ≡ (xs ++ (f x).0 ∷ [], (f x).1)
unfolding at_slot
at_slot-last f [] x = refl
at_slot-last f (y ∷ xs) x =
    ap (λ (r : List Slot × Option Fault). (y ∷ r.0, r.1)) (at_slot-last f xs x)

unref-waiting :
    (n i : ℕ) (t : Transport)
    → t.refs ≡ suc n
    → t.ready_waited ≡ []
    → ((unref (add_on_ready i (ref t))).1 ≡ none)
      × ((unref (add_on_ready i (ref t))).0.ready_waited ≡ i ∷ [])
unfolding unref ref release add_on_ready
unref-waiting n i t e w = (ground arith, ground arith)

waiting :
    (env : Env)
    → env.create_data_channel ≡ none
    → env.create_fault ≡ none
    → ((Perform.init_stream env none).1 ≡ none)
      × ((Perform.init_stream env none).0.waits_ready ≡ true)
unfolding Perform.init_stream Perform.construct
waiting env e f = rw (f, e) (refl, refl)

module _ {V : Type 0} (json : Json V) (add_tail : AddTail) where
  run_waited-destroyed :
      (envs : ℕ → Env) (xs : List Slot) (s : Stream)
      → (run_waited json add_tail envs (length xs ∷ []) (xs ++ destroyed s ∷ [])).1 ≡ some dangling
  unfolding run_waited
  run_waited-destroyed envs xs s =
      let method = Perform.on_ready json add_tail (envs (length xs)) in
      rw (at_slot-last (on_live method) xs (destroyed s), run_waited) refl

  on_ready-run_waited :
      (envs : ℕ → Env) (c : Core) (f : Fault)
      → (run_waited json add_tail envs c.transport.ready_waited c.streams).1 ≡ some f
      → (on_ready json add_tail envs c).1 ≡ some f
  unfolding on_ready
  on_ready-run_waited envs c f h =
      let first = in_streams (run_waited json add_tail envs c.transport.ready_waited) in
      let clear = in_transport (λ t. (Transport.on_ready t, none)) in
      ap (λ (x : Core × Option Fault). x.1)
        (after-eq first clear c ((first c).0, some f) (λ i. ((first c).0, h i)))

  -- A stream that is created before the peer is known waits for it. If gRPC destroys the stream
  -- first, the transport keeps the waiting function, and `OnReady` then calls the destroyed stream:
  -- if nothing else waits and the stream is not the transport's last holder.
  pub on_ready-dangles :
      (env : Env) (envs : ℕ → Env) (closure : Option ℕ) (c : Core) (n : ℕ)
      → c.transport.refs ≡ suc n
      → c.transport.ready_waited ≡ []
      → env.create_data_channel ≡ none
      → env.create_fault ≡ none
      → let created = init_stream env none c in
        let gone = destroy_stream closure (length c.streams) created.0 in
        (created.1 ≡ none)
        × (gone.1 ≡ none)
        × ((on_ready json add_tail envs gone.0).1 ≡ some dangling)
  unfolding init_stream destroy_stream
  on_ready-dangles env envs closure c n r w e g =
      let i = length c.streams in
      let (fine, waits) = waiting env e g in
      let s = (Perform.init_stream env none).0 in
      let s' = Perform.destroy closure s in
      let t = add_on_ready i (ref c.transport) in
      let created : Core = record { transport = t; streams = c.streams ++ live s ∷ [] } in
      let middle : Core = record { transport = t; streams = c.streams ++ destroyed s' ∷ [] } in
      let last : Core = record {
        transport = (unref t).0;
        streams = c.streams ++ destroyed s' ∷ [];
      } in
      let (unref_ok, waited) = unref-waiting n i c.transport r w in
      let waited_for : add_stream c (s, none) ≡ (created, none) = rw waits refl in
      let is : init_stream env none c ≡ (created, none) =
        (λ j. add_stream c (s, fine j)) ∙ waited_for in
      let first : in_streams (at_slot i (destroy_slot closure)) created ≡ (middle, none) =
        ap (λ (x : List Slot × Option Fault). (record created { streams = x.0 }, x.1))
          (at_slot-last (destroy_slot closure) c.streams (live s)) in
      let gone : destroy_stream closure i (init_stream env none c).0 ≡ (last, none) =
        ap (λ (x : Core × Option Fault). destroy_stream closure i x.0) is
        ∙ (after_ok (in_streams (at_slot i (destroy_slot closure))) (in_transport unref) created
              middle first
            ∙ (λ j. (last, unref_ok j))) in
      (
        ap (λ (x : Core × Option Fault). x.1) is,
        ap (λ (x : Core × Option Fault). x.1) gone,
        ap (λ (x : Core × Option Fault). (on_ready json add_tail envs x.0).1) gone
            ∙ on_ready-run_waited envs last dangling (
                ap (λ is. (run_waited json add_tail envs is last.streams).1) waited
                ∙ run_waited-destroyed envs c.streams s'),
      )
