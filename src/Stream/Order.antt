-- ===== src/Stream/Order.antt =====
-- What a batch puts on the data channel.
use mathlib.Core.List.{map-append}
use grpc_over_ayame.Base.{
  ℕ, ◌≡◌, refl, sym, ap, ◌∙◌, true, false, ◌||◌, Option, none, some, List, [], ◌∷◌, ◌++◌,
  append_assoc, append-nil, map, Bytes,
}
use grpc_over_ayame.Json.{Json}
use grpc_over_ayame.Metadata.{Batch, no_error, encode}
use grpc_over_ayame.Message.{Fault, Message, pull_failed, Pull, size_mod}
use grpc_over_ayame.Message
use grpc_over_ayame.Stream.{StreamOp, Call, send, run_closure, Io, push, ◌>>◌, after_ok}
use grpc_over_ayame.Stream.Send.{
  send_metadata, send_if_set, send_message_if_set, send_initial, send_body, send_trailing, complete,
  is_set, send_all,
}

-- The buffers that a metadata field stands for: none, or its JSON, if writing that does not throw.
abbrev pub Writes : {V : Type 0} → Json V → Option Batch → List Bytes → Type 0
Writes json none bs = bs ≡ []
Writes json (some md) bs =
    (buffer : Bytes) × (json.dump (encode json md) ≡ some buffer) × (bs ≡ buffer ∷ [])

-- Those of a message field: none, or what the loop sends, if it ends without a fault.
abbrev pub WritesBody : Option Message → List Bytes → Type 0
WritesBody none bs = bs ≡ []
WritesBody (some m) bs = Message.send_message m ≡ (bs, none)

-- `on_complete`, without an error, unless all three fields that a batch can send are null.
abbrev pub completes : Option Batch → Option Message → Option Batch → ℕ → List Call
completes none none none closure = []
completes none none (some md) closure = run_closure closure no_error ∷ []
completes none (some m) trailing closure = run_closure closure no_error ∷ []
completes (some md) body trailing closure = run_closure closure no_error ∷ []

abbrev pub completion : StreamOp → List Call
completion op =
    completes op.send_initial_metadata op.send_message op.send_trailing_metadata op.on_complete

complete-completes :
    (i : Option Batch) (b : Option Message) (t : Option Batch) (closure : ℕ) (io : Io)
    → let out : Io × Option Fault = elim (is_set i || is_set b || is_set t) [
      | true ↦ (push io (run_closure closure no_error ∷ []), none)
      | false ↦ (io, none)
    ] in
      out ≡ (push io (completes i b t closure), none)
complete-completes none none none closure io =
    ap (λ cs. (record io { calls = cs }, none)) (sym (append-nil io.calls))
complete-completes none none (some md) closure io = refl
complete-completes none (some m) t closure io = refl
complete-completes (some md) b t closure io = refl

complete-completion : (op : StreamOp) (io : Io) → complete op io ≡ (push io (completion op), none)
unfolding complete
complete-completion op io =
    complete-completes op.send_initial_metadata op.send_message op.send_trailing_metadata
      op.on_complete io

module _ {V : Type 0} (json : Json V) where
  send_if_set-Writes :
      (o : Option Batch) (bs : List Bytes) (io : Io)
      → Writes json o bs
      → send_if_set json o io ≡ (push io (map send bs), none)
  unfolding send_metadata
  send_if_set-Writes none bs io w = rw (w, append-nil io.calls)
  send_if_set-Writes (some md) bs io (buffer, e, w) = rw (e, send_metadata) (rw w)

  send_message-WritesBody :
      (o : Option Message) (bs : List Bytes) (io : Io)
      → WritesBody o bs
      → send_message_if_set o io ≡ (push io (map send bs), none)
  send_message-WritesBody none bs io w = rw (w, append-nil io.calls)
  send_message-WritesBody (some m) bs io w = rw w

  send_all-steps :
      (op : StreamOp) (io io₁ io₂ io₃ : Io)
      → send_if_set json op.send_initial_metadata io ≡ (io₁, none)
      → send_message_if_set op.send_message io₁ ≡ (io₂, none)
      → send_if_set json op.send_trailing_metadata io₂ ≡ (io₃, none)
      → send_all json op io ≡ (push io₃ (completion op), none)
  unfolding send_all
  send_all-steps op io io₁ io₂ io₃ i b t =
      after_ok (send_initial json op) (send_body op >> (send_trailing json op >> complete op)) io
        io₁ (unfold send_initial in i)
      ∙ (after_ok (send_body op) (send_trailing json op >> complete op) io₁ io₂
            (unfold send_body in b)
          ∙ (after_ok (send_trailing json op) (complete op) io₂ io₃ (unfold send_trailing in t)
              ∙ complete-completion op io₃))

  -- A batch over an open channel sends its initial metadata, its message and its trailing metadata
  -- in this order, whatever of them it has, and then runs `on_complete` with no error, once, if any
  -- of the three fields is set; provided that no metadata throws and the message's loop ends
  -- without a fault.
  pub send_all-Writes :
      (op : StreamOp) (io : Io) (initial body trailing : List Bytes)
      → Writes json op.send_initial_metadata initial
      → WritesBody op.send_message body
      → Writes json op.send_trailing_metadata trailing
      → send_all json op io
        ≡ (push io (map send (initial ++ (body ++ trailing)) ++ completion op), none)
  send_all-Writes op io initial body trailing i b t =
      let io₁ = push io (map send initial) in
      let io₂ = push io₁ (map send body) in
      let io₃ = push io₂ (map send trailing) in
      let parts : push io₃ (completion op)
          ≡ push io (map send (initial ++ (body ++ trailing)) ++ completion op) =
        simp (map-append, append_assoc) in
      send_all-steps op io io₁ io₂ io₃ (send_if_set-Writes op.send_initial_metadata initial io i)
        (send_message-WritesBody op.send_message body io₁ b)
        (send_if_set-Writes op.send_trailing_metadata trailing io₂ t)
      ∙ ap (λ x. (x, none)) parts
