-- ===== src/Channel/Handed.antt =====
-- Which buffers an `AyameDataChannel` hands on.
use mathlib.Core.List.{map-append}
use mathlib.Core.Path.{ap₂}
use grpc_over_ayame.Base.{
  ℕ, ◌≡◌, refl, sym, ap, inl, inr, Option-cases, ◌∙◌, Option, none, some, List, [], ◌∷◌, ◌++◌,
  append-nil, append_assoc, map, Bytes, All,
}
use grpc_over_ayame.Channel.{
  Call, run_message, DataChannel, log, if_set, create, Event, run_state_change,
  run_buffered_amount_change, send, message, set_on_state_change, set_on_buffered_amount_change,
  state_change, buffered_amount_change, sends, set_on_message, handle, run,
}

-- The calls of the message function.
abbrev pub handed : List Call → List (ℕ × Bytes)
handed [] = []
handed (run_message f b ∷ cs) = (f, b) ∷ handed cs
handed (_ ∷ cs) = handed cs

abbrev pub messages : List Event → List Bytes
messages [] = []
messages (message b ∷ es) = b ∷ messages es
messages (_ ∷ es) = messages es

-- The event leaves the message function alone.
abbrev pub IsKeeping : Event → Type 0
IsKeeping (set_on_message f) = ⊥
IsKeeping _ = Unit

handed-append : (cs ds : List Call) → handed (cs ++ ds) ≡ handed cs ++ handed ds
handed-append [] ds = refl
handed-append (run_message f b ∷ cs) ds = ap (◌∷◌ (f, b)) (handed-append cs ds)
handed-append (_ ∷ cs) ds = handed-append cs ds

-- What an event hands on, under this message function.
abbrev handing : Option ℕ → List Bytes → List (ℕ × Bytes)
handing none bs = []
handing (some f) bs = map (λ b. (f, b)) bs

handing_none : (o : Option ℕ) → handing o [] ≡ []
handing_none none = refl
handing_none (some f) = refl

-- The function stays, and this is handed on.
abbrev HandsOn : DataChannel → List Bytes → DataChannel → Type 0
HandsOn c bs d =
    (d.on_message ≡ c.on_message) × (handed d.calls ≡ handed c.calls ++ handing c.on_message bs)

same-HandsOn : (c : DataChannel) → handed c.calls ≡ handed c.calls ++ handing c.on_message []
same-HandsOn c =
    sym (ap (λ bs. handed c.calls ++ bs) (handing_none c.on_message) ∙ append-nil (handed c.calls))

log-HandsOn : (c : DataChannel) (k : Call) → handed (k ∷ []) ≡ [] → HandsOn c [] (log (k ∷ []) c)
log-HandsOn c k plain = (
  refl,
  handed-append c.calls (k ∷ [])
      ∙ (ap (λ bs. handed c.calls ++ bs) plain ∙ (append-nil (handed c.calls) ∙ same-HandsOn c)),
)

if_set-HandsOn :
    (c : DataChannel) (o : Option ℕ) (k : ℕ → Call)
    → ((f : ℕ) → handed (k f ∷ []) ≡ [])
    → HandsOn c [] (if_set o k c)
if_set-HandsOn c none k plain = (refl, same-HandsOn c)
if_set-HandsOn c (some f) k plain = log-HandsOn c (k f) (plain f)

message-HandsOn : (c : DataChannel) (b : Bytes) → HandsOn c (b ∷ []) (handle (message b) c)
unfolding handle
message-HandsOn c b = elim (Option-cases c.on_message) [
  | inl e ↦ rw e (refl, sym (append-nil (handed c.calls)))
  | inr (f, e) ↦ rw e (refl, handed-append c.calls (run_message f b ∷ []))
]

handle-HandsOn :
    (e : Event) (c : DataChannel) → IsKeeping e → HandsOn c (messages (e ∷ [])) (handle e c)
unfolding handle
handle-HandsOn (set_on_state_change f) c k = (refl, same-HandsOn c)
handle-HandsOn (set_on_message f) c k = absurd k
handle-HandsOn (set_on_buffered_amount_change f) c k = (refl, same-HandsOn c)
handle-HandsOn state_change c k = if_set-HandsOn c c.on_state_change run_state_change λ f. refl
handle-HandsOn (message b) c k = message-HandsOn c b
handle-HandsOn (buffered_amount_change n) c k =
    if_set-HandsOn c c.on_buffered_amount_change (λ f. run_buffered_amount_change f n) λ f. refl
handle-HandsOn (sends b) c k = log-HandsOn c (send b) refl

messages-cons : (e : Event) (es : List Event) → messages (e ∷ es) ≡ messages (e ∷ []) ++ messages es
messages-cons (message b) es = refl
messages-cons (set_on_state_change f) es = refl
messages-cons (set_on_message f) es = refl
messages-cons (set_on_buffered_amount_change f) es = refl
messages-cons state_change es = refl
messages-cons (buffered_amount_change n) es = refl
messages-cons (sends b) es = refl

handing-append :
    (o : Option ℕ) (xs bs : List Bytes) → handing o (xs ++ bs) ≡ handing o xs ++ handing o bs
handing-append none xs bs = refl
handing-append (some f) xs bs = map-append (λ b. (f, b)) xs bs

run-HandsOn :
    (es : List Event) (c : DataChannel) → All IsKeeping es → HandsOn c (messages es) (run es c)
unfolding run
run-HandsOn [] c k = (refl, same-HandsOn c)
run-HandsOn (e ∷ es) c k =
    let (f, h) = handle-HandsOn e c k.0 in
    let (f', h') = run-HandsOn es (handle e c) k.1 in
    (
      f' ∙ f,
      h'
          ∙ (ap₂ (λ xs o. xs ++ handing o (messages es)) h f
              ∙ (append_assoc (handed c.calls) (handing c.on_message (messages (e ∷ [])))
                    (handing c.on_message (messages es))
                  ∙ ap (λ bs. handed c.calls ++ bs)
                      (sym (handing-append c.on_message (messages (e ∷ [])) (messages es))
                        ∙ ap (handing c.on_message) (sym (messages-cons e es))))),
    )

run-append : (es fs : List Event) (c : DataChannel) → run (es ++ fs) c ≡ run fs (run es c)
unfolding run
run-append [] fs c = refl
run-append (e ∷ es) fs c = run-append es fs (handle e c)

-- The buffers that arrive before a message function is set are lost; those that arrive later go to
-- it, each once and in order, whatever else happens to the channel, as long as no other is set.
pub run-handed :
    (before after : List Event) (f : ℕ)
    → All IsKeeping before
    → All IsKeeping after
    → handed (run (before ++ set_on_message f ∷ after) create).calls
      ≡ map (λ b. (f, b)) (messages after)
unfolding create run handle
run-handed before after f kb ka =
    let c = run before create in
    let (n, h) = run-HandsOn before create kb in
    let (g, h') = run-HandsOn after (handle (set_on_message f) c) ka in
    ap (λ (d : DataChannel). handed d.calls) (run-append before (set_on_message f ∷ after) create)
    ∙ (h' ∙ ap (λ xs. xs ++ map (λ b. (f, b)) (messages after)) h)
