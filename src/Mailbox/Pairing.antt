-- ===== src/Mailbox/Pairing.antt =====
-- Whatever the interleaving, the n-th waiting function gets the n-th buffer.
use grpc_over_ayame.Base.{
  ℕ, zero, suc, ◌≡◌, refl, ap, ◌⊎◌, inl, inr, List, [], ◌∷◌, ◌++◌, append_assoc, append-nil, Bytes,
  length, drop, arith,
}
use grpc_over_ayame.Mailbox.{Mailbox, Event, message, wait, step, run}

module _ {F : Type 0} where
  abbrev pub messages : List (Event F) → List Bytes
  messages [] = []
  messages (message b ∷ es) = b ∷ messages es
  messages (wait f ∷ es) = messages es

  abbrev pub waits : List (Event F) → List F
  waits [] = []
  waits (message b ∷ es) = waits es
  waits (wait f ∷ es) = f ∷ waits es

  abbrev pub pairs : List F → List Bytes → List (F × Bytes)
  pairs [] bs = []
  pairs (f ∷ fs) [] = []
  pairs (f ∷ fs) (b ∷ bs) = (f, b) ∷ pairs fs bs

  -- Not both queues hold something.
  abbrev pub IsOneSided : Mailbox F → Type 0
  IsOneSided m = (m.data_queue ≡ []) ⊎ (m.func_queue ≡ [])

  -- What the run has paired and what it leaves over, in terms of all functions and all buffers.
  pub record Pairs (fs : List F) (bs : List Bytes) (r : Mailbox F × List (F × Bytes)) : Type 0 where
    pub calls_are : r.1 ≡ pairs fs bs
    pub data_left : r.0.data_queue ≡ drop (length fs) bs
    pub func_left : r.0.func_queue ≡ drop (length bs) fs

  pairs-nil : (fs : List F) → pairs fs [] ≡ []
  pairs-nil [] = refl
  pairs-nil (f ∷ fs) = refl

drop-nil {ℓ} : {A : Type ℓ} (n : ℕ) → drop {A = A} n [] ≡ []
drop-nil zero = refl
drop-nil (suc n) = refl

module _ {F : Type 0} where
  abbrev pub queues : List Bytes → List F → Mailbox F
  queues ds fs = record { data_queue = ds; func_queue = fs }

  ended :
      (ds : List Bytes) (fs : List F) → IsOneSided (queues ds fs) → Pairs fs ds (queues ds fs, [])
  ended [] [] h = record { calls_are = refl; data_left = refl; func_left = refl }
  ended [] (f ∷ fs) h = record { calls_are = refl; data_left = refl; func_left = refl }
  ended (d ∷ ds) [] h = record { calls_are = refl; data_left = refl; func_left = refl }
  ended (d ∷ ds) (f ∷ fs) h = absurd (ground arith)

  called :
      (f : F) (b : Bytes) (fs : List F) (bs : List Bytes) (r : Mailbox F × List (F × Bytes))
      → Pairs fs bs r
      → Pairs (f ∷ fs) (b ∷ bs) (r.0, (f, b) ∷ r.1)
  called f b fs bs r p = record {
    calls_are = ap (◌∷◌ (f, b)) p.calls_are;
    data_left = p.data_left;
    func_left = p.func_left;
  }

  run-queues :
      (es : List (Event F)) (ds : List Bytes) (fs : List F)
      → IsOneSided (queues ds fs)
      → Pairs (fs ++ waits es) (ds ++ messages es) (run (queues ds fs) es)
  unfolding run step
  run-queues [] ds fs h = rw (append-nil fs, append-nil ds) (ended ds fs h)
  run-queues (message b ∷ es) [] [] h = run-queues es (b ∷ []) [] (inr refl)
  run-queues (message b ∷ es) [] (f ∷ fs) h =
      called f b (fs ++ waits es) (messages es) _ (run-queues es [] fs (inl refl))
  run-queues (message b ∷ es) (d ∷ ds) [] h =
      rw (← append_assoc (d ∷ ds) (b ∷ []) (messages es))
        (run-queues es ((d ∷ ds) ++ b ∷ []) [] (inr refl))
  run-queues (message b ∷ es) (d ∷ ds) (f ∷ fs) h = absurd (ground arith)
  run-queues (wait f ∷ es) [] fs h =
      rw (← append_assoc fs (f ∷ []) (waits es)) (run-queues es [] (fs ++ f ∷ []) (inl refl))
  run-queues (wait f ∷ es) (d ∷ ds) [] h =
      called f d (waits es) (ds ++ messages es) _ (run-queues es ds [] (inr refl))
  run-queues (wait f ∷ es) (d ∷ ds) (g ∷ fs) h = absurd (ground arith)

-- Under every schedule of arriving buffers and waiting functions the calls made are the n-th
-- function on the n-th buffer, in order, counting what the queues held at the start; the buffers
-- left are those behind the last function, the functions left those behind the last buffer.
pub run-Pairs :
    {F : Type 0} (m : Mailbox F) (es : List (Event F))
    → IsOneSided m
    → Pairs (m.func_queue ++ waits es) (m.data_queue ++ messages es) (run m es)
run-Pairs m es h = run-queues es m.data_queue m.func_queue h

-- One event keeps at least one of the two queues empty.
step-IsOneSided :
    {F : Type 0} (m : Mailbox F) (e : Event F) → IsOneSided m → IsOneSided (step m e).0
unfolding step
step-IsOneSided m (message b) h = ground arith
step-IsOneSided m (wait f) h = ground arith

-- After any schedule that begins with at most one queue in use, at most one is in use.
run-IsOneSided :
    {F : Type 0} (m : Mailbox F) (es : List (Event F)) → IsOneSided m → IsOneSided (run m es).0
unfolding run
run-IsOneSided m [] h = h
run-IsOneSided m (e ∷ es) h = run-IsOneSided (step m e).0 es (step-IsOneSided m e h)
