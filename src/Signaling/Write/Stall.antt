-- ===== src/Signaling/Write/Stall.antt =====
-- The write queue after a failed write.
use grpc_over_ayame.Base.{
  ◌≡◌, ◌≢◌, refl, sym, ap, ◌∙◌, none, List, [], ◌∷◌, ◌++◌, append_assoc, append-nil, Bytes, arith,
}
use grpc_over_ayame.Signaling.{
  ErrorCode, success, operation_aborted, ws_closed, other_error, Signaling,
}
use grpc_over_ayame.Signaling.Write.{do_send_text, on_write}

-- `DoSendText` on each text.
pub send_after_error : List Bytes → Signaling → Signaling
send_after_error [] s = s
send_after_error (text ∷ texts) s = send_after_error texts (do_send_text text s).0

send_text-stuck :
    (text b : Bytes) (rest : List Bytes) (s : Signaling)
    → s.write_buffer ≡ b ∷ rest
    → do_send_text text s ≡ (record s { write_buffer = s.write_buffer ++ text ∷ [] }, none)
unfolding do_send_text
send_text-stuck text b rest s e = ground arith

pub send_after_error-stuck :
    (texts : List Bytes) (b : Bytes) (rest : List Bytes) (s : Signaling)
    → s.write_buffer ≡ b ∷ rest
    → send_after_error texts s ≡ record s { write_buffer = s.write_buffer ++ texts }
unfolding send_after_error
send_after_error-stuck [] b rest s e =
    ap (λ w. record s { write_buffer = w }) (sym (append-nil s.write_buffer))
send_after_error-stuck (text ∷ texts) b rest s e =
    let t = record s { write_buffer = s.write_buffer ++ text ∷ [] } in
    rw (send_text-stuck text b rest s e) (
      send_after_error-stuck texts b (rest ++ text ∷ []) t (ap (λ w. w ++ text ∷ []) e)
      ∙ ap (λ w. record s { write_buffer = w }) (append_assoc s.write_buffer (text ∷ []) texts))

-- After a write that ends in an error the queue keeps its front for good: the texts that come later
-- are queued behind it and no write is ever started for them.
pub on_write_error-stalls :
    (ec : ErrorCode) (texts : List Bytes) (b : Bytes) (rest : List Bytes) (s : Signaling)
    → ec ≢ success
    → s.write_buffer ≡ b ∷ rest
    → send_after_error texts (on_write ec s).0 ≡ record s { write_buffer = s.write_buffer ++ texts }
unfolding on_write
on_write_error-stalls success texts b rest s n e = absurd (n refl)
on_write_error-stalls operation_aborted texts b rest s n e = send_after_error-stuck texts b rest s e
on_write_error-stalls ws_closed texts b rest s n e = send_after_error-stuck texts b rest s e
on_write_error-stalls other_error texts b rest s n e = send_after_error-stuck texts b rest s e
