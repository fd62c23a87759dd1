-- ===== src/Peers/Items.antt =====
-- A description or a candidate from one end to the other.
use grpc_over_ayame.Base.{
  ℕ, ◌≡◌, refl, ap, ◌∙◌, true, none, some, [], ◌∷◌, ◌++◌, append_assoc, Bytes, codes, same, arith,
}
use grpc_over_ayame.Json.{ℤ, Json, IsJson}
use grpc_over_ayame.Stream.{after_ok}
use grpc_over_ayame.Signaling.{
  SdpType, offer, answer, success, post_text, set_local_description, Signaling, note,
  with_connection,
}
use grpc_over_ayame.Signaling.Messages.{
  send_json, description_message, candidate_message, sdp_type_to_string,
}
use grpc_over_ayame.Signaling.Messages.Typed.{
  description-type, description-sdp, candidate-type, candidate-ice, ice_member, ice_value,
}
use grpc_over_ayame.Signaling.Write.{send_text}
use grpc_over_ayame.Signaling.Read.{RtcEnv, dispatch, on_read, on_candidate, on_description_message}
use grpc_over_ayame.Signaling.Read.Accepted.{
  IsCandidate, IsDescription, on_candidate-IsCandidate, on_description_message-IsDescription,
}
use grpc_over_ayame.Signaling.Peer.{on_create_description, on_ice_candidate}
use grpc_over_ayame.Peers.{
  Item, description, candidate, item_message, send_item, before_text, accept,
}

-- WebRTC parses an item and takes it.
abbrev pub IsTaken : RtcEnv → Item → Type 0
IsTaken env (description type sdp) = env.description_parsed type sdp ≡ true
IsTaken env (candidate sdp index mid) =
    (env.candidate_parsed mid index sdp ≡ true) × (env.candidate_added mid index sdp ≡ true)

-- The sender behind an item, its text posted.
abbrev pub posted : Item → Bytes → Signaling → Signaling
posted i text s = record s { calls = s.calls ++ (before_text i ++ post_text text ∷ []) }

module _ {V : Type 0} (json : Json V) where
  send_json_lem :
      (message : V) (text : Bytes) (s : Signaling)
      → json.dump message ≡ some text
      → send_json json message s ≡ (record s { calls = s.calls ++ post_text text ∷ [] }, none)
  unfolding send_json send_text
  send_json_lem message text s h = rw h refl

  pub send_item-posted :
      (i : Item) (text : Bytes) (s : Signaling) (p : ℕ)
      → json.dump (item_message json i) ≡ some text
      → s.connection ≡ some p
      → send_item json i s ≡ (posted i text s, none)
  unfolding send_item on_create_description on_ice_candidate
  send_item-posted (description type sdp) text s p h n =
      let set = set_local_description ∷ [] in
      let told = record s { calls = s.calls ++ set } in
      after_ok (with_connection (note set)) (send_json json (description_message json type sdp)) s
        told (ground arith)
      ∙ (send_json_lem (description_message json type sdp) text told h
          ∙ ap (λ cs. (record s { calls = cs }, none))
              (append_assoc s.calls set (post_text text ∷ [])))
  send_item-posted (candidate sdp index mid) text s p h n =
      send_json_lem (candidate_message json sdp index mid) text s h

  pub on_read-dispatch :
      (env : RtcEnv) (text type : Bytes) (js v : V) (s : Signaling)
      → json.parse text ≡ some js
      → json.get (codes "type") js ≡ some v
      → json.as_text v ≡ some type
      → on_read json env success text s ≡ dispatch json env type js s
  unfolding on_read
  on_read-dispatch env text type js v s p g a = rw (on_read, p) (rw g (rw a refl))

  module _ (laws : IsJson json) where
    open laws use {
      TakesKeys, null-TakesKeys, set-TakesKeys, parse-dump, as_text-text, as_int-int, get-set,
    }

    description-IsDescription :
        (env : RtcEnv) (type : SdpType) (sdp : Bytes)
        → env.description_parsed type sdp ≡ true
        → IsDescription json env type (description_message json type sdp)
    unfolding same
    description-IsDescription env type sdp h = record {
      sdp_value = json.text sdp;
      sdp = sdp;
      has_sdp = description-sdp json laws type sdp;
      sdp_is = as_text-text sdp;
      parsed = h;
    }

    candidate-IsCandidate :
        (env : RtcEnv) (sdp : Bytes) (index : ℤ) (mid : Bytes)
        → IsTaken env (candidate sdp index mid)
        → IsCandidate json env (candidate_message json sdp index mid)
    unfolding same
    candidate-IsCandidate env sdp index mid h = record {
      ice = ice_value json sdp index mid;
      sdp_mid_value = json.text mid;
      sdp_mlineindex_value = json.int index;
      sdp_value = json.text sdp;
      sdp_mid = mid;
      sdp = sdp;
      sdp_mlineindex = index;
      has_ice = candidate-ice json laws sdp index mid;
      has_mid = ice_member json laws (codes "sdpMid") (json.text mid) sdp index mid refl;
      mid_is = as_text-text mid;
      has_index = ice_member json laws (codes "sdpMLineIndex") (json.int index) sdp index mid refl;
      index_is = as_int-int index;
      has_sdp = ice_member json laws (codes "candidate") (json.text sdp) sdp index mid refl;
      sdp_is = as_text-text sdp;
      parsed = h.0;
      taken = h.1;
    }

    dispatch-description :
        (env : RtcEnv) (type : SdpType) (js : V) (s : Signaling)
        → dispatch json env (sdp_type_to_string type) js s
          ≡ on_description_message json env type js s
    unfolding dispatch same
    dispatch-description env offer js s = refl
    dispatch-description env answer js s = refl

    dispatch-candidate :
        (env : RtcEnv) (js : V) (s : Signaling)
        → dispatch json env (codes "candidate") js s ≡ on_candidate json env js s
    unfolding dispatch same
    dispatch-candidate env js s = refl

    pub on_read-accept :
        (env : RtcEnv) (i : Item) (text : Bytes) (s : Signaling) (p : ℕ)
        → json.dump (item_message json i) ≡ some text
        → IsTaken env i
        → s.wss ≡ true
        → s.connection ≡ some p
        → on_read json env success text s ≡ (accept i s, none)
    unfolding description-IsDescription candidate-IsCandidate
    on_read-accept env (description type sdp) text s p h t w n =
        let js = description_message json type sdp in
        on_read-dispatch env text (sdp_type_to_string type) js (json.text (sdp_type_to_string type))
          s (parse-dump js text h) (description-type json laws type sdp)
          (as_text-text (sdp_type_to_string type))
        ∙ (dispatch-description env type js s
            ∙ on_description_message-IsDescription json env type js s p
                (description-IsDescription env type sdp t) w n)
    on_read-accept env (candidate sdp index mid) text s p h t w n =
        let js = candidate_message json sdp index mid in
        on_read-dispatch env text (codes "candidate") js (json.text (codes "candidate")) s
          (parse-dump js text h) (candidate-type json laws sdp index mid)
          (as_text-text (codes "candidate"))
        ∙ (dispatch-candidate env js s
            ∙ on_candidate-IsCandidate json env js s p (candidate-IsCandidate env sdp index mid t) w
                n)

    -- A description or a candidate that one end makes, written as JSON, posted and read by the
    -- other end, is handed to WebRTC there unchanged, and the next read is started: provided that
    -- the text can be written, both have a connection, and the reader's WebRTC parses the item and
    -- takes it. The first candidate also tells the reader's listener that it is ready.
    pub on_read-send_item :
        (env : RtcEnv) (i : Item) (text : Bytes) (a b : Signaling) (p q : ℕ)
        → json.dump (item_message json i) ≡ some text
        → IsTaken env i
        → a.connection ≡ some p
        → b.connection ≡ some q
        → b.wss ≡ true
        → (send_item json i a ≡ (posted i text a, none))
          × (on_read json env success text b ≡ (accept i b, none))
    on_read-send_item env i text a b p q h t n m w =
        (send_item-posted i text a p h n, on_read-accept env i text b q h t w m)
