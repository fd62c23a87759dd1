-- ===== src/Signaling/Texts.antt =====
-- What the texts of a life are.
use grpc_over_ayame.Base.{
  ◌≡◌, refl, sym, ◌∙◌, ◌⊎◌, inl, inr, true, false, Bool-cases, some, List, [], ◌∷◌, ◌++◌, Bytes,
  codes, All, All-append, append-nil,
}
use mathlib.Core.Path.{subst}
use grpc_over_ayame.Json.{Json, IsJson}
use grpc_over_ayame.Signaling.{
  SdpType, Call, post_text, on_ready, async_write, Signaling, note, create,
}
use grpc_over_ayame.Signaling.Messages.{
  sdp_type_to_string, register_message, pong_message, description_message, candidate_message,
}
use grpc_over_ayame.Signaling.Messages.Typed.{
  register-type, pong-type, description-type, candidate-type,
}
use grpc_over_ayame.Signaling.Read.{become_ready}
use grpc_over_ayame.Signaling.Within.{Within}
use grpc_over_ayame.Signaling.History.{Event, run}
use grpc_over_ayame.Signaling.Local.{IsPlain, SendsTexts}
use grpc_over_ayame.Signaling.Whole.{IsWhole, run-whole}

-- The texts posted to the executor, in order.
abbrev pub posts : List Call → List Bytes
posts [] = []
posts (post_text text ∷ cs) = text ∷ posts cs
posts (_ ∷ cs) = posts cs

-- The types of the messages that a peer sends.
pub data IsType : Bytes → Type 0 where
  is_register : IsType (codes "register")
  is_pong : IsType (codes "pong")
  is_description : (type : SdpType) → IsType (sdp_type_to_string type)
  is_candidate : IsType (codes "candidate")

-- A text that reads as JSON with one of these types.
pub record IsMessage {V : Type 0} (json : Json V) (text : Bytes) : Type 0 where
  pub js : V
  pub type_value : V
  pub type : Bytes
  pub parsed : json.parse text ≡ some js
  pub has_type : json.get (codes "type") js ≡ some type_value
  pub type_is : json.as_text type_value ≡ some type
  pub known : IsType type

posts-append : (cs ds : List Call) → posts (cs ++ ds) ≡ posts cs ++ posts ds
posts-append [] ds = refl
posts-append (post_text text ∷ cs) ds = λ i. text ∷ posts-append cs ds i
posts-append (_ ∷ cs) ds = posts-append cs ds

module _ (Sent : Bytes → Type 0) where
  posts-plain : (cs : List Call) → All (IsPlain Sent) cs → All Sent (posts cs)
  posts-plain [] h = tt
  posts-plain (post_text text ∷ cs) h = (h.0, posts-plain cs h.1)
  posts-plain (_ ∷ cs) h = posts-plain cs h.1

  -- Nothing but `Sent` texts is added.
  abbrev Adds : Signaling → Signaling → Type 0
  Adds s t = All Sent (posts s.calls) → All Sent (posts t.calls)

  Adds-note : (cs : List Call) → All Sent (posts cs) → Within Adds (note cs)
  Adds-note cs h = record {
    at = λ s k.
        subst (All Sent) (sym (posts-append s.calls cs))
          (All-append Sent (posts s.calls) (posts cs) k h);
  }

  Adds-become_ready : (s : Signaling) → Adds s (become_ready s).0
  unfolding become_ready
  Adds-become_ready s = go (Bool-cases s.ready)
    where
      go : (s.ready ≡ true) ⊎ (s.ready ≡ false) → Adds s (become_ready s).0
      go (inl r) = rw r λ h. h
      go (inr r) = rw r λ h.
          subst (All Sent) (sym (posts-append s.calls (on_ready ∷ []) ∙ append-nil (posts s.calls)))
            h

  Adds-IsWhole : IsWhole Sent Adds
  Adds-IsWhole = record {
    local = record {
      preorder = record { reflexive = λ s h. h; transitive = λ s t u h k a. k (h a) };
      of_note = λ cs h. Adds-note cs (posts-plain cs h);
      of_ready = record { at = Adds-become_ready };
      of_others = λ s parts factory wss c d h. h;
    };
    of_write = λ b. Adds-note (async_write b ∷ []) tt;
    of_buffer = λ s bs h. h;
  }

module _ {V : Type 0} (json : Json V) (laws : IsJson json) where
  open laws use {parse-dump, as_text-text}

  typed-IsMessage :
      (message : V) (type text : Bytes)
      → json.get (codes "type") message ≡ some (json.text type)
      → IsType type
      → json.dump message ≡ some text
      → IsMessage json text
  typed-IsMessage message type text h k d = record {
    js = message;
    type_value = json.text type;
    type = type;
    parsed = parse-dump message text d;
    has_type = h;
    type_is = as_text-text type;
    known = k;
  }

  messages-SendsTexts : SendsTexts json (IsMessage json)
  messages-SendsTexts = record {
    registers = λ client_id text.
        typed-IsMessage (register_message json client_id) (codes "register") text
          (register-type json laws client_id) is_register;
    pongs = λ text.
        typed-IsMessage (pong_message json) (codes "pong") text (pong-type json laws) is_pong;
    describes = λ type sdp text.
        typed-IsMessage (description_message json type sdp) (sdp_type_to_string type) text
          (description-type json laws type sdp) (is_description type);
    nominates = λ sdp i mid text.
        typed-IsMessage (candidate_message json sdp i mid) (codes "candidate") text
          (candidate-type json laws sdp i mid) is_candidate;
  }

-- Over a whole life, whatever the operations, messages, errors and results of WebRTC, every text
-- that is posted to be sent reads as JSON whose "type" is "register", "pong", "offer", "answer" or
-- "candidate".
pub run-IsMessage :
    {V : Type 0} (json : Json V) (es : List Event)
    → IsJson json
    → All (IsMessage json) (posts (run json es create).calls)
unfolding create
run-IsMessage json es laws =
    run-whole (Adds (IsMessage json)) (Adds-IsWhole (IsMessage json)) json
      (messages-SendsTexts json laws) es create tt
