-- ===== src/Signaling/States.antt =====
-- src/ayame_signaling.h: the names of WebRTC's states, and the callbacks that log them. A callback
-- is the line that it logs; it changes nothing else.
use grpc_over_ayame.Base.{◌≡◌, refl, Bytes, codes, same, ◌++◌, if◌then◌else◌}

-- `IceConnectionState`; a value that the enumeration does not list is `unlisted`.
pub data IceConnectionState : Type 0 where
  new checking connected completed failed disconnected closed max unlisted : IceConnectionState

pub data SignalingState : Type 0 where
  stable have_local_offer have_local_pr_answer have_remote_offer have_remote_pr_answer :
      SignalingState
  closed_state unlisted_state : SignalingState

unfoldable pub ice_connection_state_to_string : IceConnectionState → Bytes
ice_connection_state_to_string new = codes "new"
ice_connection_state_to_string checking = codes "checking"
ice_connection_state_to_string connected = codes "connected"
ice_connection_state_to_string completed = codes "completed"
ice_connection_state_to_string failed = codes "failed"
ice_connection_state_to_string disconnected = codes "disconnected"
ice_connection_state_to_string closed = codes "closed"
ice_connection_state_to_string max = codes "max"
ice_connection_state_to_string unlisted = codes "unknown"

unfoldable pub signaling_state_to_string : SignalingState → Bytes
signaling_state_to_string stable = codes "kStable"
signaling_state_to_string have_local_offer = codes "kHaveLocalOffer"
signaling_state_to_string have_local_pr_answer = codes "kHaveLocalPrAnswer"
signaling_state_to_string have_remote_offer = codes "kHaveRemoteOffer"
signaling_state_to_string have_remote_pr_answer = codes "kHaveRemotePrAnswer"
signaling_state_to_string closed_state = codes "kClosed"
signaling_state_to_string unlisted_state = codes "unknown"

-- `OnSignalingChange` and `OnStandardizedIceConnectionChange`.
unfoldable pub on_signaling_change : SignalingState → Bytes
unfolding signaling_state_to_string
on_signaling_change new_state = codes "signaling state: " ++ signaling_state_to_string new_state

unfoldable pub on_ice_connection_change : IceConnectionState → Bytes
unfolding ice_connection_state_to_string
on_ice_connection_change new_state = codes "ice state: " ++ ice_connection_state_to_string new_state

-- The state with this name.
abbrev ice_connection_state_of : Bytes → IceConnectionState
ice_connection_state_of t =
    if same t (codes "new")
    then new
    else if same t (codes "checking")
    then checking
    else if same t (codes "connected")
    then connected
    else if same t (codes "completed")
    then completed
    else if same t (codes "failed")
    then failed
    else if same t (codes "disconnected")
    then disconnected
    else if same t (codes "closed")
    then closed
    else if same t (codes "max")
    then max
    else unlisted

abbrev signaling_state_of : Bytes → SignalingState
signaling_state_of t =
    if same t (codes "kStable")
    then stable
    else if same t (codes "kHaveLocalOffer")
    then have_local_offer
    else if same t (codes "kHaveLocalPrAnswer")
    then have_local_pr_answer
    else if same t (codes "kHaveRemoteOffer")
    then have_remote_offer
    else if same t (codes "kHaveRemotePrAnswer")
    then have_remote_pr_answer
    else if same t (codes "kClosed")
    then closed_state
    else unlisted_state

-- The names tell the states apart.
pub ice_connection_state_of-to_string :
    (s : IceConnectionState) → ice_connection_state_of (ice_connection_state_to_string s) ≡ s
unfolding ice_connection_state_to_string same
ice_connection_state_of-to_string new = refl
ice_connection_state_of-to_string checking = refl
ice_connection_state_of-to_string connected = refl
ice_connection_state_of-to_string completed = refl
ice_connection_state_of-to_string failed = refl
ice_connection_state_of-to_string disconnected = refl
ice_connection_state_of-to_string closed = refl
ice_connection_state_of-to_string max = refl
ice_connection_state_of-to_string unlisted = refl

pub signaling_state_of-to_string :
    (s : SignalingState) → signaling_state_of (signaling_state_to_string s) ≡ s
unfolding signaling_state_to_string same
signaling_state_of-to_string stable = refl
signaling_state_of-to_string have_local_offer = refl
signaling_state_of-to_string have_local_pr_answer = refl
signaling_state_of-to_string have_remote_offer = refl
signaling_state_of-to_string have_remote_pr_answer = refl
signaling_state_of-to_string closed_state = refl
signaling_state_of-to_string unlisted_state = refl
