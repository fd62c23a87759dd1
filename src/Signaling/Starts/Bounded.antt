-- ===== src/Signaling/Starts/Bounded.antt =====
-- How many reads and closes of the WebSocket are started over a life.
use grpc_over_ayame.Base.{
  ℕ, ◌+◌, ◌≤◌, refl, inl, inr, Option-cases, false, Option, none, some, List, [], ◌∷◌, ◌++◌, Bytes,
  codes, same, if◌then◌else◌, arith,
}
use grpc_over_ayame.Json.{Json}
use grpc_over_ayame.Url
use grpc_over_ayame.Message.{Fault}
use grpc_over_ayame.Stream.{Action}
use grpc_over_ayame.Signaling.{
  ErrorCode, success, operation_aborted, ws_closed, other_error, Signaling, on_connect,
  async_connect, async_ssl_handshake, async_handshake, create_answer, set_local_description,
  on_data_channel, create_data_channel, async_resolve, async_write,
}
use grpc_over_ayame.Signaling.Messages.{do_send_register}
use grpc_over_ayame.Signaling.Write.{do_send_text, write_front, on_write, is_empty, erase_front}
use grpc_over_ayame.Signaling.Connect.{
  ConnectEnv, port_or_default, ConnectResult, faulted, returned, close, do_read, connect_wss,
  create_peer_connection_factory, on_resolve, on_ssl_connect, on_ssl_handshake, on_handshake,
  on_close, is_success,
}
use grpc_over_ayame.Signaling.Connect
use grpc_over_ayame.Signaling.Peer.{
  on_create_description, on_ice_candidate, on_set_offer, on_data_channel_opened, create_channel,
}
use grpc_over_ayame.Signaling.History.{
  Event, connect, closes, resolved, ssl_connected, ssl_handshaken, close_done, written, handshaken,
  read, sends, description_created, offer_set, ice_candidate, channel_opened, channel_asked, handle,
  run,
}
use grpc_over_ayame.Signaling.Starts.{
  starts, AtMost, Starts, starts-append, at-note, Starts-note, Starts-seq, at-none, at-if,
  Starts-none, Starts-if, Starts-with_wss, Starts-with_connection,
}
use grpc_over_ayame.Signaling.Starts.OnRead.{
  Starts-close, Starts-do_read, Starts-send_json, Starts-on_read,
}

-- The reads and closes that an event may start: one for each finished read, for the finished
-- handshake, and for a call of `Close`.
abbrev pub allowed : Event → ℕ
allowed (read env ec text) = 1
allowed (handshaken client_id ec) = 1
allowed closes = 1
allowed _ = 0

abbrev pub allowed_all : List Event → ℕ
allowed_all [] = 0
allowed_all (e ∷ es) = allowed e + allowed_all es

of_error :
    (n : ℕ) (ec : ErrorCode) (a : Action Signaling)
    → Starts n a
    → Starts n (λ s. if is_success ec then a s else (s, none))
of_error n ec a h = Starts-if n (is_success ec) a (λ s. (s, none)) h (Starts-none n)

at-write_front : (bs : List Bytes) (s : Signaling) → AtMost 0 s (write_front bs s).0
at-write_front [] s = at-none 0 s
at-write_front (b ∷ bs) s =
    (Starts-with_wss 0 _ (Starts-note 0 (async_write b ∷ []) (omega arith))).at s

at-do_send_text : (text : Bytes) (s : Signaling) → AtMost 0 s (do_send_text text s).0
unfolding do_send_text
at-do_send_text text s =
    let pushed = record s { write_buffer = s.write_buffer ++ text ∷ [] } in
    at-if 0 (is_empty s.write_buffer) s _ (pushed, none) (at-write_front pushed.write_buffer pushed)
      (at-none 0 s)

at-on_write : (ec : ErrorCode) (s : Signaling) → AtMost 0 s (on_write ec s).0
unfolding on_write
at-on_write success s =
    let erased = record s { write_buffer = erase_front s.write_buffer } in
    at-if 0 (is_empty erased.write_buffer) s (erased, none) _ (at-none 0 s)
      (at-write_front erased.write_buffer erased)
at-on_write operation_aborted s = at-none 0 s
at-on_write ws_closed s = at-none 0 s
at-on_write other_error s = at-none 0 s

at-connect_wss : (env : ConnectEnv) (s : Signaling) → AtMost 0 s (connect_wss env s).0
unfolding connect_wss
at-connect_wss env s =
    ground (
      arith,
      starts-append s.calls (async_resolve s.parts.host (port_or_default s.parts.port) ∷ []),
    )

at-connect :
    (env : ConnectEnv) (url : Bytes) (s : Signaling) → AtMost 0 s (Connect.connect env url s).0
unfolding Connect.connect
at-connect env url s = elim (Option-cases (Url.parse url s.parts)) [
  | inl e ↦ rw (e, Connect.connect) (at-none 0 s)
  | inr ((parsed, parts), e) ↦
      let t = record s { parts = parts } in
      rw (e, Connect.connect)
        (at-if 0 parsed s _ (t, returned false)
          (at-if 0 (same parts.scheme (codes "wss")) s _ (t, returned false) (at-connect_wss env t)
            (at-none 0 s))
          (at-none 0 s))
]

Starts-on_ssl_handshake : (ec : ErrorCode) → Starts 0 (on_ssl_handshake ec)
unfolding on_ssl_handshake
Starts-on_ssl_handshake ec = of_error 0 ec _ (
    Starts-with_wss 0 _ (record {
      at = λ t.
          at-note 0 (async_handshake t.parts.host t.parts.path_query_fragment ∷ []) t t refl
            (omega arith);
    }))

at-create_channel :
    (label : Bytes) (channel : ℕ) (s : Signaling) → AtMost 0 s (create_channel label channel s).0
unfolding create_channel
at-create_channel label channel s =
    ground (arith, starts-append s.calls (create_data_channel label ∷ []))

module _ {V : Type 0} (json : Json V) where
  Starts-on_handshake : (id : Bytes) (ec : ErrorCode) → Starts 1 (on_handshake json id ec)
  unfolding on_handshake do_send_register
  Starts-on_handshake id ec = of_error 1 ec _ (
      Starts-seq 1 0 _ _ Starts-do_read (
        Starts-seq 0 0 _ _ (Starts-send_json json _)
          (Starts-note 0 (on_connect ∷ []) (omega arith))))

  at-handle : (e : Event) (s : Signaling) → AtMost (allowed e) s (handle json e s).0
  unfolding handle on_resolve on_ssl_connect on_ssl_handshake on_close on_set_offer
      on_create_description on_data_channel_opened on_ice_candidate
  at-handle (connect env url) s = at-connect env url s
  at-handle closes s = Starts-close.at s
  at-handle (resolved ec) s =
      (of_error 0 ec _ (Starts-with_wss 0 _ (Starts-note 0 (async_connect ∷ []) (omega arith)))).at
        s
  at-handle (ssl_connected ec) s =
      (of_error 0 ec _
          (Starts-with_wss 0 _ (Starts-note 0 (async_ssl_handshake ∷ []) (omega arith)))).at
        s
  at-handle (ssl_handshaken ec) s = (Starts-on_ssl_handshake ec).at s
  at-handle (close_done ec) s = at-none 0 s
  at-handle (written ec) s = at-on_write ec s
  at-handle (handshaken client_id ec) s = (Starts-on_handshake client_id ec).at s
  at-handle (read env ec text) s = (Starts-on_read json env ec text).at s
  at-handle (sends text) s = at-do_send_text text s
  at-handle (description_created type sdp) s =
      (Starts-seq 0 0 _ _
          (Starts-with_connection 0 _ (Starts-note 0 (set_local_description ∷ []) (omega arith)))
          (Starts-send_json json _)).at
        s
  at-handle offer_set s =
      (Starts-with_connection 0 _ (Starts-note 0 (create_answer ∷ []) (omega arith))).at s
  at-handle (ice_candidate none i mid) s = at-none 0 s
  at-handle (ice_candidate (some sdp) i mid) s = (Starts-send_json json _).at s
  at-handle (channel_opened label channel) s =
      at-if 0 (same label (codes "init")) s _ _ (at-none 0 s)
        (at-note 0 (on_data_channel channel ∷ []) s s refl (omega arith))
  at-handle (channel_asked label channel) s = at-create_channel label channel s

  -- Over any life, at most as many reads and closes of the WebSocket are started as reads finished,
  -- handshakes finished and calls of `Close` were made.
  pub run-starts :
      (es : List Event) (s : Signaling)
      → starts (run json es s).calls ≤ starts s.calls + allowed_all es
  unfolding run
  run-starts [] s = omega arith
  run-starts (e ∷ es) s = after_event (handle json e s) (at-handle e s) (run-starts es)
    where
      after_event :
          (r : Signaling × Option Fault)
          → AtMost (allowed e) s r.0
          → ((t : Signaling) → AtMost (allowed_all es) t (run json es t))
          → AtMost
              (allowed_all (e ∷ es))
              s
              (let u : Signaling = elim r.1 [ none ↦ run json es r.0 | some f ↦ r.0 ] in u)
      after_event (t, none) h k = let next = k t in omega arith
      after_event (t, some f) h k = omega arith
