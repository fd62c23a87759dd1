-- ===== src/Signaling/Connect/Chain.antt =====
-- The asynchronous operations that open the connection, each completed in turn.
use grpc_over_ayame.Base.{
  ◌≡◌, refl, sym, ap, ◌∙◌, true, Option, none, some, List, [], ◌∷◌, ◌++◌, append_assoc, append-nil,
  Bytes, length, drop, drop-append, arith,
}
use grpc_over_ayame.Json.{Json}
use grpc_over_ayame.Message.{Fault}
use grpc_over_ayame.Stream.{Action, ◌>>◌, done, after_ok}
use grpc_over_ayame.Signaling.{
  ErrorCode, success, operation_aborted, ws_closed, other_error, Call, async_resolve, async_connect,
  async_ssl_handshake, async_handshake, async_read, on_connect, post_text, Signaling, note,
}
use grpc_over_ayame.Signaling.Messages.{register_message, send_json, do_send_register}
use grpc_over_ayame.Signaling.Connect.{
  on_resolve, on_ssl_connect, on_ssl_handshake, on_handshake, do_read,
}

module _ {V : Type 0} (json : Json V) (client_id : Bytes) where
  -- The handler bound to an operation.
  unfoldable pub completion : Call → ErrorCode → Action Signaling
  completion (async_resolve host port) ec = on_resolve ec
  completion async_connect ec = on_ssl_connect ec
  completion async_ssl_handshake ec = on_ssl_handshake ec
  completion (async_handshake host path) ec = on_handshake json client_id ec
  completion _ ec = done

  -- The operation `c` completes with the first code; if its handler starts an operation, that one
  -- completes with the next.
  unfoldable pub drive : List ErrorCode → Call → Action Signaling
  drive [] c s = (s, none)
  drive (ec ∷ ecs) c s =
      let (s', fault) = completion c ec s in
      elim fault [
        | some f ↦ (s', some f)
        | none ↦ elim (drop (length s.calls) s'.calls) [
          | [] ↦ (s', none)
          | c' ∷ _ ↦ drive ecs c' s'
        ]
      ]

  abbrev pub with_calls : Signaling → List Call → Signaling
  with_calls s cs = record s { calls = s.calls ++ cs }

  drive-next :
      (ecs : List ErrorCode) (c c' : Call) (ec : ErrorCode) (cs : List Call) (s : Signaling)
      → completion c ec s ≡ (with_calls s (c' ∷ cs), none)
      → drive (ec ∷ ecs) c s ≡ drive ecs c' (with_calls s (c' ∷ cs))
  unfolding drive
  drive-next ecs c c' ec cs s e = ground (arith, drop-append s.calls (c' ∷ cs))

  drive-stop :
      (ecs : List ErrorCode) (c : Call) (ec : ErrorCode) (s : Signaling)
      → completion c ec s ≡ (s, none)
      → drive (ec ∷ ecs) c s ≡ (s, none)
  unfolding drive
  drive-stop ecs c ec s e = ground (arith, drop-append s.calls [], append-nil s.calls)

  -- The calls of the operations that complete, up to the first error.
  abbrev pub progress : List ErrorCode → List (List Call) → List Call
  progress (success ∷ ecs) (cs ∷ css) = cs ++ progress ecs css
  progress (success ∷ ecs) [] = []
  progress (operation_aborted ∷ ecs) css = []
  progress (ws_closed ∷ ecs) css = []
  progress (other_error ∷ ecs) css = []
  progress [] css = []

  Drives : Call → List (List Call) → Signaling → Type 0
  Drives c css s = (ecs : List ErrorCode) → drive ecs c s ≡ (with_calls s (progress ecs css), none)

  none-done : (s : Signaling) → ◌≡◌ {A = Signaling × Option Fault} (s, none) (with_calls s [], none)
  none-done s = ap (λ cs. (record s { calls = cs }, none)) (sym (append-nil s.calls))

  Drives-step :
      (c c' : Call) (cs : List Call) (css : List (List Call)) (s : Signaling)
      → completion c success s ≡ (with_calls s (c' ∷ cs), none)
      → completion c operation_aborted s ≡ (s, none)
      → completion c ws_closed s ≡ (s, none)
      → completion c other_error s ≡ (s, none)
      → Drives c' css (with_calls s (c' ∷ cs))
      → Drives c ((c' ∷ cs) ∷ css) s
  unfolding Drives
  Drives-step c c' cs css s ok a w o next [] = unfold drive in none-done s
  Drives-step c c' cs css s ok a w o next (success ∷ ecs) =
      drive-next ecs c c' success cs s ok
      ∙ (next ecs
          ∙ ap (λ k. (record s { calls = k }, none))
              (append_assoc s.calls (c' ∷ cs) (progress ecs css)))
  Drives-step c c' cs css s ok a w o next (operation_aborted ∷ ecs) =
      drive-stop ecs c operation_aborted s a ∙ none-done s
  Drives-step c c' cs css s ok a w o next (ws_closed ∷ ecs) =
      drive-stop ecs c ws_closed s w ∙ none-done s
  Drives-step c c' cs css s ok a w o next (other_error ∷ ecs) =
      drive-stop ecs c other_error s o ∙ none-done s

  Drives-read : (s : Signaling) → Drives async_read [] s
  unfolding Drives completion
  Drives-read s [] = unfold drive in none-done s
  Drives-read s (success ∷ ecs) = drive-stop ecs async_read success s refl ∙ none-done s
  Drives-read s (operation_aborted ∷ ecs) =
      drive-stop ecs async_read operation_aborted s refl ∙ none-done s
  Drives-read s (ws_closed ∷ ecs) = drive-stop ecs async_read ws_closed s refl ∙ none-done s
  Drives-read s (other_error ∷ ecs) = drive-stop ecs async_read other_error s refl ∙ none-done s

  do_read-calls :
      (s : Signaling) → s.wss ≡ true → do_read s ≡ (with_calls s (async_read ∷ []), none)
  unfolding do_read
  do_read-calls s w = ground arith

  send_json-calls :
      (message : V) (text : Bytes) (s : Signaling)
      → json.dump message ≡ some text
      → send_json json message s ≡ (with_calls s (post_text text ∷ []), none)
  unfolding send_json
  send_json-calls message text s d = rw (d, send_json)

  on_handshake-calls :
      (text : Bytes) (s : Signaling)
      → s.wss ≡ true
      → json.dump (register_message json client_id) ≡ some text
      → on_handshake json client_id success s
        ≡ (with_calls s (async_read ∷ post_text text ∷ on_connect ∷ []), none)
  unfolding on_handshake do_send_register
  on_handshake-calls text s w d =
      let s₁ = with_calls s (async_read ∷ []) in
      let register = send_json json (register_message json client_id) in
      let s₂ = with_calls s₁ (post_text text ∷ []) in
      after_ok do_read (register >> note (on_connect ∷ [])) s s₁ (do_read-calls s w)
      ∙ (after_ok register (note (on_connect ∷ [])) s₁ s₂ (send_json-calls _ text s₁ d)
          ∙ ap (λ k. (record s { calls = k }, none))
              (ap (λ k. k ++ on_connect ∷ [])
                  (append_assoc s.calls (async_read ∷ []) (post_text text ∷ []))
                ∙ append_assoc s.calls (async_read ∷ post_text text ∷ []) (on_connect ∷ [])))

  -- The calls of opening the connection, by the operation whose completion makes them.
  abbrev pub opening_calls : Signaling → Bytes → List (List Call)
  opening_calls s text =
      (async_connect ∷ [])
      ∷ (async_ssl_handshake ∷ [])
      ∷ (async_handshake s.parts.host s.parts.path_query_fragment ∷ [])
      ∷ (async_read ∷ post_text text ∷ on_connect ∷ [])
      ∷ []

  -- The operations that open the connection follow one another: DNS lookup, TCP, TLS, WebSocket.
  -- Each starts the next when it completes, the WebSocket handshake with the URL's host and path;
  -- behind it come the first read, the registration and the listener's `OnConnect`. At the first
  -- error the chain stops, with no call made for it and none after it.
  pub drive-progress :
      (ecs : List ErrorCode) (host port text : Bytes) (s : Signaling)
      → s.wss ≡ true
      → json.dump (register_message json client_id) ≡ some text
      → drive ecs (async_resolve host port) s
        ≡ (with_calls s (progress ecs (opening_calls s text)), none)
  unfolding Drives completion on_resolve on_ssl_connect on_ssl_handshake on_handshake
  drive-progress ecs host port text s w d =
      let s₁ = with_calls s (async_connect ∷ []) in
      let s₂ = with_calls s₁ (async_ssl_handshake ∷ []) in
      let shake = async_handshake s.parts.host s.parts.path_query_fragment in
      let s₃ = with_calls s₂ (shake ∷ []) in
      let last = async_read ∷ post_text text ∷ on_connect ∷ [] in
      let s₄ = with_calls s₃ last in
      Drives-step (async_resolve host port) async_connect [] _ s (ground arith) refl refl refl
        (Drives-step async_connect async_ssl_handshake [] _ s₁ (ground arith) refl refl refl (
          Drives-step async_ssl_handshake shake [] _ s₂ (ground arith) refl refl refl (
            Drives-step shake async_read (post_text text ∷ on_connect ∷ []) [] s₃
              (on_handshake-calls text s₃ w d) refl refl refl (Drives-read s₄))))
        ecs
