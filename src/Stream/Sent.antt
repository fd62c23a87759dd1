-- ===== src/Stream/Sent.antt =====
-- The buffers of several batches.
use grpc_over_ayame.Base.{
  ◌≡◌, refl, sym, ap, ◌∙◌, Option, none, some, List, [], ◌∷◌, ◌++◌, append_assoc, append-nil, map,
  Bytes, All, All-left, All-right, length,
}
use mathlib.Core.Path.{subst}
use grpc_over_ayame.Json.{Json}
use grpc_over_ayame.Metadata.{Batch}
use grpc_over_ayame.Message.{Message, slice, Fault}
use grpc_over_ayame.Stream.{StreamOp, Call, send, Io, push, after_ok}
use grpc_over_ayame.Stream.Send.{send_all}
use grpc_over_ayame.Stream.Order.{Writes, WritesBody, completion, send_all-Writes}
use grpc_over_ayame.Stream.Calls.{sent_buffers, sent_buffers-send, one_slice}
use grpc_over_ayame.Stream.Parts.{
  Part, metadata, body, first_slice, metadata_part, body_part, parts_of, all_parts, IsWhole,
  Buffers, HasText, send_batches,
}

pub sent_buffers-append :
    (cs ds : List Call) → sent_buffers (cs ++ ds) ≡ sent_buffers cs ++ sent_buffers ds
sent_buffers-append [] ds = refl
sent_buffers-append (send b ∷ cs) ds = ap (◌∷◌ b) (sent_buffers-append cs ds)
sent_buffers-append (_ ∷ cs) ds = sent_buffers-append cs ds

module _ {V : Type 0} (json : Json V) where
  pub Buffers-append :
      (ps qs : List Part) (bs cs : List Bytes)
      → Buffers json ps bs
      → Buffers json qs cs
      → Buffers json (ps ++ qs) (bs ++ cs)
  Buffers-append [] qs [] cs h k = k
  Buffers-append (metadata md ∷ ps) qs (b ∷ bs) cs h k = (h.0, Buffers-append ps qs bs cs h.1 k)
  Buffers-append (body t ∷ ps) qs (b ∷ bs) cs h k = (h.0, Buffers-append ps qs bs cs h.1 k)
  Buffers-append [] qs (b ∷ bs) cs h k = absurd h
  Buffers-append (metadata md ∷ ps) qs [] cs h k = absurd h
  Buffers-append (body t ∷ ps) qs [] cs h k = absurd h

  -- What a metadata field writes, and what a message field does.
  metadata-Writes :
      (o : Option Batch)
      → All (HasText json) (metadata_part o)
      → (bs : List Bytes) × Writes json o bs × Buffers json (metadata_part o) bs
  metadata-Writes none h = ([], refl, tt)
  metadata-Writes (some md) ((b, e), h) = (b ∷ [], (b, e, refl), (e, tt))

  body-WritesBody :
      (o : Option Message)
      → IsWhole o
      → (bs : List Bytes) × WritesBody o bs × Buffers json (body_part o) bs
  body-WritesBody none h = ([], refl, tt)
  body-WritesBody (some m) (rest, pulls_are, length_is, is_slice) =
      let whole : m ≡ record {
        message_length = length (first_slice m.pulls);
        pulls = slice (first_slice m.pulls) ∷ rest;
      } =
        λ i. record { message_length = length_is i; pulls = pulls_are i } in
      (
        first_slice m.pulls ∷ [],
        subst (λ n. WritesBody (some n) (first_slice m.pulls ∷ [])) (sym whole)
            (one_slice (first_slice m.pulls) rest is_slice),
        (refl, tt),
      )

  -- One batch puts the buffers of its parts on the channel.
  pub send_all-Buffers :
      (op : StreamOp) (io : Io)
      → All (HasText json) (parts_of op)
      → IsWhole op.send_message
      → (bs : List Bytes) × Buffers json (parts_of op) bs
        × ((cs : List Call) × (send_all json op io ≡ (push io cs, none))
            × (sent_buffers cs ≡ bs)
            × (cs ≡ map send bs ++ completion op))
  send_all-Buffers op io h w =
      let i = metadata_part op.send_initial_metadata in
      let m = body_part op.send_message in
      let t = metadata_part op.send_trailing_metadata in
      let h' = All-right (HasText json) i (m ++ t) h in
      let (bi, wi, ki) =
        metadata-Writes op.send_initial_metadata (All-left (HasText json) i (m ++ t) h) in
      let (bm, wm, km) = body-WritesBody op.send_message w in
      let (bt, wt, kt) =
        metadata-Writes op.send_trailing_metadata (All-right (HasText json) m t h') in
      let bs = bi ++ (bm ++ bt) in
      (
        bs,
        Buffers-append i (m ++ t) bi (bm ++ bt) ki (Buffers-append m t bm bt km kt),
        (
          map send bs ++ completion op,
          send_all-Writes json op io bi bm bt wi wm wt,
          sent_buffers-send bs op,
          refl,
        ),
      )

  pub send_batches-Buffers :
      (ops : List StreamOp) (io : Io)
      → All (HasText json) (all_parts ops)
      → All (λ (op : StreamOp). IsWhole op.send_message) ops
      → (bs : List Bytes) × Buffers json (all_parts ops) bs
        × ((send_batches json ops io).1 ≡ none)
        × (sent_buffers (send_batches json ops io).0.calls ≡ sent_buffers io.calls ++ bs)
  unfolding send_batches
  send_batches-Buffers [] io h w = ([], tt, refl, sym (append-nil (sent_buffers io.calls)))
  send_batches-Buffers (op ∷ ops) io h w =
      let ps = parts_of op in
      let qs = all_parts ops in
      let (bs, k, (cs, sent, buffers, _)) =
        send_all-Buffers op io (All-left (HasText json) ps qs h) w.0 in
      let (bs', k', no_fault, rest) =
        send_batches-Buffers ops (push io cs) (All-right (HasText json) ps qs h) w.1 in
      let all = after_ok (send_all json op) (send_batches json ops) io (push io cs) sent in
      (
        bs ++ bs',
        Buffers-append ps qs bs bs' k k',
        ap (λ (r : Io × Option Fault). r.1) all ∙ no_fault,
        ap (λ (r : Io × Option Fault). sent_buffers r.0.calls) all
            ∙ (rest
                ∙ (ap (λ ds. ds ++ bs')
                      (sent_buffers-append io.calls cs
                        ∙ ap (λ ds. sent_buffers io.calls ++ ds) buffers)
                    ∙ append_assoc (sent_buffers io.calls) bs bs')),
      )
