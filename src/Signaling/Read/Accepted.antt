-- ===== src/Signaling/Read/Accepted.antt =====
-- The descriptions and the candidates that WebRTC parses and takes.
use grpc_over_ayame.Base.{
  ℕ, Bool, true, ◌≡◌, refl, ap, ◌∙◌, none, some, List, [], ◌∷◌, ◌++◌, append_assoc, Bytes, codes,
  if◌then◌else◌, append-nil, arith,
}
use grpc_over_ayame.Json.{ℤ, Json}
use grpc_over_ayame.Stream.{◌>>◌, after_ok}
use grpc_over_ayame.Signaling.{
  SdpType, Call, Signaling, async_read, on_ready, set_remote_description, add_ice_candidate, note,
  with_connection,
}
use grpc_over_ayame.Signaling.Connect.{do_read}
use grpc_over_ayame.Signaling.Read.{
  RtcEnv, on_candidate, on_description_message, become_ready, take_candidate,
}

-- A candidate that WebRTC parses and takes.
pub record IsCandidate {V : Type 0} (json : Json V) (env : RtcEnv) (js : V) : Type 0 where
  pub ice : V
  pub sdp_mid_value : V
  pub sdp_mlineindex_value : V
  pub sdp_value : V
  pub sdp_mid : Bytes
  pub sdp : Bytes
  pub sdp_mlineindex : ℤ
  pub has_ice : json.get (codes "ice") js ≡ some ice
  pub has_mid : json.get (codes "sdpMid") ice ≡ some sdp_mid_value
  pub mid_is : json.as_text sdp_mid_value ≡ some sdp_mid
  pub has_index : json.get (codes "sdpMLineIndex") ice ≡ some sdp_mlineindex_value
  pub index_is : json.as_int sdp_mlineindex_value ≡ some sdp_mlineindex
  pub has_sdp : json.get (codes "candidate") ice ≡ some sdp_value
  pub sdp_is : json.as_text sdp_value ≡ some sdp
  pub parsed : env.candidate_parsed sdp_mid sdp_mlineindex sdp ≡ true
  pub taken : env.candidate_added sdp_mid sdp_mlineindex sdp ≡ true

-- A description that WebRTC parses.
pub record IsDescription {V : Type 0} (json : Json V) (env : RtcEnv) (type : SdpType) (js : V)
    : Type 0 where
  pub sdp_value : V
  pub sdp : Bytes
  pub has_sdp : json.get (codes "sdp") js ≡ some sdp_value
  pub sdp_is : json.as_text sdp_value ≡ some sdp
  pub parsed : env.description_parsed type sdp ≡ true

-- The listener is told of the first candidate.
abbrev pub told : Bool → List Call
told ready = if ready then [] else on_ready ∷ []

abbrev pub candidate_calls : Bool → Bytes → ℤ → Bytes → List Call
candidate_calls ready mid index sdp =
    add_ice_candidate mid index sdp ∷ (told ready ++ async_read ∷ [])

-- The signaling behind a candidate.
abbrev pub with_candidate : Bytes → ℤ → Bytes → Signaling → Signaling
with_candidate mid index sdp s = record s {
  ready = true;
  calls = s.calls ++ candidate_calls s.ready mid index sdp;
}

abbrev pub with_description : SdpType → Bytes → Signaling → Signaling
with_description type sdp s = record s {
  calls = s.calls ++ set_remote_description type sdp ∷ async_read ∷ [];
}

abbrev pub reading : Signaling → Signaling
reading s = record s { calls = s.calls ++ async_read ∷ [] }

pub do_read_lem : (s : Signaling) → s.wss ≡ true → do_read s ≡ (reading s, none)
unfolding do_read
do_read_lem s w = ground arith

become_ready_lem :
    (s : Signaling)
    → become_ready s ≡ (record s { ready = true; calls = s.calls ++ told s.ready }, none)
unfolding become_ready
become_ready_lem s = ground (arith, append-nil s.calls)

module _ {V : Type 0} (json : Json V) (env : RtcEnv) where
  candidate_taken :
      (s : Signaling) (p : ℕ) (mid : Bytes) (index : ℤ) (sdp : Bytes)
      → s.wss ≡ true
      → s.connection ≡ some p
      → env.candidate_added mid index sdp ≡ true
      → (with_connection (note (add_ice_candidate mid index sdp ∷ []))
            >> take_candidate json env mid index sdp)
          s
        ≡ (with_candidate mid index sdp s, none)
  candidate_taken s p mid index sdp w n a =
      let add = add_ice_candidate mid index sdp in
      let added = record s { calls = s.calls ++ add ∷ [] } in
      let ready = record added { ready = true; calls = added.calls ++ told s.ready } in
      after_ok (with_connection (note (add ∷ []))) (take_candidate json env mid index sdp) s added
        (ground arith)
      ∙ (take added a
          ∙ (after_ok become_ready do_read added ready (become_ready_lem added)
              ∙ (do_read_lem ready w
                  ∙ ap (λ cs. (record s { ready = true; calls = cs }, none))
                      (append_assoc (s.calls ++ add ∷ []) (told s.ready) (async_read ∷ [])
                        ∙ append_assoc s.calls (add ∷ []) (told s.ready ++ async_read ∷ [])))))
    where
      take :
          (t : Signaling)
          → env.candidate_added mid index sdp ≡ true
          → take_candidate json env mid index sdp t ≡ (become_ready >> do_read) t
      take t e = rw e refl

  pub on_candidate-IsCandidate :
      (js : V) (s : Signaling) (p : ℕ) (c : IsCandidate json env js)
      → s.wss ≡ true
      → s.connection ≡ some p
      → on_candidate json env js s ≡ (with_candidate c.sdp_mid c.sdp_mlineindex c.sdp s, none)
  unfolding on_candidate
  on_candidate-IsCandidate js s p c w n =
      rw (on_candidate, c.has_ice)
        (rw c.has_mid (
          rw c.mid_is (
            rw c.has_index (
              rw c.index_is (
                rw c.has_sdp (
                  rw c.sdp_is (
                    rw c.parsed
                      (candidate_taken s p c.sdp_mid c.sdp_mlineindex c.sdp w n c.taken))))))))

  pub on_description_message-IsDescription :
      (type : SdpType) (js : V) (s : Signaling) (p : ℕ) (d : IsDescription json env type js)
      → s.wss ≡ true
      → s.connection ≡ some p
      → on_description_message json env type js s ≡ (with_description type d.sdp s, none)
  unfolding on_description_message
  on_description_message-IsDescription type js s p d w n =
      let set = set_remote_description type d.sdp in
      let told_of = record s { calls = s.calls ++ set ∷ [] } in
      rw (on_description_message, d.has_sdp)
        (rw d.sdp_is (
          rw d.parsed (
            after_ok (with_connection (note (set ∷ []))) do_read s told_of (ground arith)
            ∙ (do_read_lem told_of w
                ∙ ap (λ cs. (record s { calls = cs }, none))
                    (append_assoc s.calls (set ∷ []) (async_read ∷ []))))))
