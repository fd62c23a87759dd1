-- ===== src/Stream/Halves.antt =====
-- Halves of batches and events of the queues, in any order.
use grpc_over_ayame.Base.{
  ◌≡◌, refl, sym, ap, ◌∙◌, Bool, inl, inr, ◌⊎◌, Option, none, some, List, [], ◌∷◌, ◌++◌,
  append_assoc, append-nil, Bytes, All, All-left, All-right, length, take,
}
use mathlib.Core.Path.{subst}
use grpc_over_ayame.Json.{Json, IsJson}
use grpc_over_ayame.Metadata.{AddTail, IsAddTail}
use grpc_over_ayame.Mailbox.{Mailbox, Event, step}
use grpc_over_ayame.Mailbox
use grpc_over_ayame.Mailbox.Pairing.{queues}
use grpc_over_ayame.Stream.{StreamOp, Recv, Stream, push}
use grpc_over_ayame.Stream.Parts.{
  Part, parts_of, all_parts, IsWhole, Buffers, HasText, FitAll, Received,
}
use grpc_over_ayame.Stream.Duplex.{
  nothing, Half, sends, queue, sent_ops, half_waits, half_messages, do_halves, deliver-Fits,
}
use grpc_over_ayame.Stream.Both.{
  Received-none, Buffers-head, Duplex, Duplex-sends, Duplex-silent, Duplex-delivers,
}

step-is :
    (m : Mailbox Recv) (ds : List Bytes) (fs : List Recv) (e : Event Recv)
    (r : Mailbox Recv × Option (Recv × Bytes))
    → m ≡ queues ds fs
    → step (queues ds fs) e ≡ r
    → step m e ≡ r
step-is m ds fs e r h k = ap (λ n. step n e) h ∙ k

module _ {V : Type 0} (json : Json V) (add_tail : AddTail) (laws : IsJson json)
    (adds : IsAddTail add_tail) where
  abbrev Goal : List Half → List Recv → List Bytes → List Part → Stream → Type 0
  Goal hs fs ds ps s =
      Duplex json (fs ++ half_waits hs) (ds ++ half_messages hs) ps (sent_ops hs) s
        (do_halves json add_tail hs s)

  ended :
      (fs : List Recv) (ds : List Bytes) (ps : List Part) (s : Stream)
      → (ds ≡ []) ⊎ (fs ≡ [])
      → Duplex json fs ds ps [] s (s, none)
  ended fs ds ps s one = record {
    no_fault = refl;
    calls = [];
    sending = [];
    receiving = [];
    calls_are = sym (append-nil s.io.calls);
    shuffled = nothing;
    receives = nothing_due s.io.recv_inited fs ds one;
    sends = refl;
  }
    where
      nothing_due :
          (inited : Bool) (gs : List Recv) (cs : List Bytes)
          → (cs ≡ []) ⊎ (gs ≡ [])
          → Received inited gs (take (length cs) ps) []
      nothing_due inited gs [] h = Received-none inited gs
      nothing_due inited [] (c ∷ cs) h = refl
      nothing_due inited (g ∷ gs) (c ∷ cs) (inl e) = absurd (cc)
      nothing_due inited (g ∷ gs) (c ∷ cs) (inr e) = absurd (cc)

  pub do_halves-Duplex :
      (hs : List Half) (fs : List Recv) (ds flying : List Bytes) (ps : List Part) (s : Stream)
      → s.mailbox ≡ queues ds fs
      → (ds ≡ []) ⊎ (fs ≡ [])
      → Buffers json ps ((ds ++ half_messages hs) ++ flying)
      → FitAll (fs ++ half_waits hs) ps
      → All (HasText json) (all_parts (sent_ops hs))
      → All (λ (op : StreamOp). IsWhole op.send_message) (sent_ops hs)
      → Goal hs fs ds ps s
  unfolding step
  do_halves-Duplex [] fs ds flying ps s m one k fit t w =
      subst (λ gs. Duplex json gs (ds ++ []) ps [] s (do_halves json add_tail [] s))
        (sym (append-nil fs))
        (subst (λ cs. Duplex json fs cs ps [] s (do_halves json add_tail [] s))
          (sym (append-nil ds)) (unfold do_halves in ended fs ds ps s one))
  do_halves-Duplex (sends op ∷ hs) fs ds flying ps s m one k fit t w =
      Duplex-sends json add_tail op hs (fs ++ half_waits hs) (ds ++ half_messages hs) ps
        (sent_ops hs) s (All-left (HasText json) (parts_of op) (all_parts (sent_ops hs)) t) w.0
        λ cs.
          do_halves-Duplex hs fs ds flying ps (record s { io = push s.io cs }) m one k fit
            (All-right (HasText json) (parts_of op) (all_parts (sent_ops hs)) t) w.1
  do_halves-Duplex (queue (Mailbox.message b) ∷ hs) [] ds flying ps s m one k fit t w =
      let ds' = ds ++ b ∷ [] in
      let s' = record s { mailbox = queues ds' [] } in
      let all : ds' ++ half_messages hs ≡ ds ++ b ∷ half_messages hs =
        append_assoc ds (b ∷ []) (half_messages hs) in
      Duplex-silent json add_tail (Mailbox.message b) hs (half_waits hs)
        (ds ++ b ∷ half_messages hs) ps (sent_ops hs) s (queues ds' [])
        (step-is s.mailbox ds [] (Mailbox.message b) (queues ds' [], none) m refl)
        (subst
          (λ cs. Duplex json (half_waits hs) cs ps (sent_ops hs) s' (do_halves json add_tail hs s'))
          all
          (do_halves-Duplex hs [] ds' flying ps s' refl (inr refl)
            (subst (λ cs. Buffers json ps (cs ++ flying)) (sym all) k) fit t w))
  do_halves-Duplex (queue (Mailbox.message b) ∷ hs) (f ∷ fs) [] flying [] s m one k fit t w =
      absurd k
  do_halves-Duplex (queue (Mailbox.message b) ∷ hs) (f ∷ fs) [] flying (p ∷ ps) s m one k fit t w =
      let (here, later) = Buffers-head json p ps b (half_messages hs ++ flying) k in
      let v = deliver-Fits json add_tail laws adds f p b s.io here fit.0 in
      let s' = record s { mailbox = queues [] fs; io = v.io' } in
      Duplex-delivers json add_tail (Mailbox.message b) hs f (fs ++ half_waits hs) b
        (half_messages hs) p ps (sent_ops hs) s (queues [] fs) v
        (step-is s.mailbox [] (f ∷ fs) (Mailbox.message b) (queues [] fs, some (f, b)) m refl)
        (do_halves-Duplex hs fs [] flying ps s' refl (inl refl) later fit.1 t w)
  do_halves-Duplex (queue (Mailbox.message b) ∷ hs) (f ∷ fs) (d ∷ ds) flying ps s m (inl e) k fit t
        w =
      absurd (cc)
  do_halves-Duplex (queue (Mailbox.message b) ∷ hs) (f ∷ fs) (d ∷ ds) flying ps s m (inr e) k fit t
        w =
      absurd (cc)
  do_halves-Duplex (queue (Mailbox.wait f) ∷ hs) fs [] flying ps s m one k fit t w =
      let fs' = fs ++ f ∷ [] in
      let s' = record s { mailbox = queues [] fs' } in
      let all : fs' ++ half_waits hs ≡ fs ++ f ∷ half_waits hs =
        append_assoc fs (f ∷ []) (half_waits hs) in
      Duplex-silent json add_tail (Mailbox.wait f) hs (fs ++ f ∷ half_waits hs) (half_messages hs)
        ps (sent_ops hs) s (queues [] fs')
        (step-is s.mailbox [] fs (Mailbox.wait f) (queues [] fs', none) m refl)
        (subst
          (λ gs.
            Duplex json gs (half_messages hs) ps (sent_ops hs) s' (do_halves json add_tail hs s'))
          all
          (do_halves-Duplex hs fs' [] flying ps s' refl (inl refl) k
            (subst (λ gs. FitAll gs ps) (sym all) fit) t w))
  do_halves-Duplex (queue (Mailbox.wait f) ∷ hs) [] (d ∷ ds) flying [] s m one k fit t w = absurd k
  do_halves-Duplex (queue (Mailbox.wait f) ∷ hs) [] (d ∷ ds) flying (p ∷ ps) s m one k fit t w =
      let (here, later) = Buffers-head json p ps d ((ds ++ half_messages hs) ++ flying) k in
      let v = deliver-Fits json add_tail laws adds f p d s.io here fit.0 in
      let s' = record s { mailbox = queues ds []; io = v.io' } in
      Duplex-delivers json add_tail (Mailbox.wait f) hs f (half_waits hs) d (ds ++ half_messages hs)
        p ps (sent_ops hs) s (queues ds []) v
        (step-is s.mailbox (d ∷ ds) [] (Mailbox.wait f) (queues ds [], some (f, d)) m refl)
        (do_halves-Duplex hs [] ds flying ps s' refl (inr refl) later fit.1 t w)
  do_halves-Duplex (queue (Mailbox.wait f) ∷ hs) (g ∷ fs) (d ∷ ds) flying ps s m (inl e) k fit t w =
      absurd (cc)
  do_halves-Duplex (queue (Mailbox.wait f) ∷ hs) (g ∷ fs) (d ∷ ds) flying ps s m (inr e) k fit t w =
      absurd (cc)
