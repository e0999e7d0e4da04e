-- ===== src/VoiceRelay.antt =====
-- src/server/voice_relay.c: who may talk in a lobby, how fast, and who hears it.
-- The function that sends a frame is the caller's: it is an argument, with its context.
pub mod Limits
pub mod Talkers
pub mod Recipients
pub mod Delivery
mod Tests
use shroomio.Base.{
  ℕ, suc, ◌+◌, ◌-◌, Bool, true, false, ◌&&◌, ◌||◌, not, Option, none, some, List, [], ◌∷◌, map, ltb,
  leb, ◌==◌, if◌then◌else◌, get_elem?, set, count, replicate, sub16, add32,
}
use shroomio.VoiceFrame.{VoiceFrame, is_valid, is_start, is_end}

pub record Peer : Type 0 where
  pub connected : Bool
  pub active_talker : Bool
  pub has_sequence : Bool
  pub lobby_id : ℕ
  pub player_id : ℕ
  pub active_stream_id : ℕ
  pub frame_count : ℕ
  pub byte_count : ℕ
  pub last_sequence : ℕ
  pub window_start_ms : ℕ
  pub last_frame_ms : ℕ

pub data Outcome : Type 0 where
  accepted invalid_peer invalid_frame not_in_lobby stream_not_started sequence_rejected : Outcome
  frame_rate_limited byte_rate_limited talker_limited : Outcome

abbrev pub max_clients : ℕ
max_clients = 256

abbrev pub rate_window_ms : ℕ
rate_window_ms = 1000

abbrev pub max_frames_per_window : ℕ
max_frames_per_window = 50

abbrev pub max_bytes_per_window : ℕ
max_bytes_per_window = 16384

abbrev pub max_active_talkers : ℕ
max_active_talkers = 8

abbrev pub talker_timeout_ms : ℕ
talker_timeout_ms = 500

-- A peer that is all zero, as `ResetPeer` leaves it.
abbrev pub blank : Peer
blank = record {
  connected = false;
  active_talker = false;
  has_sequence = false;
  lobby_id = 0;
  player_id = 0;
  active_stream_id = 0;
  frame_count = 0;
  byte_count = 0;
  last_sequence = 0;
  window_start_ms = 0;
  last_frame_ms = 0;
}

-- The relay is its array of peers, one for each client slot.
abbrev pub Relay : Type 0
Relay = List Peer

pub init : Relay
init = replicate max_clients blank

talker_expired : Peer → ℕ → Bool
talker_expired p now =
    p.active_talker && (ltb now p.last_frame_ms || leb talker_timeout_ms (now - p.last_frame_ms))

abbrev pub silenced : Peer → Peer
silenced p = record p { active_talker = false; active_stream_id = 0; has_sequence = false }

expire : ℕ → Peer → Peer
unfolding talker_expired
expire now p = if talker_expired p now then silenced p else p

expire_talkers : Relay → ℕ → Relay
expire_talkers r now = map (expire now) r

abbrev pub talks_in : ℕ → Peer → Bool
talks_in lobby p = p.connected && p.active_talker && p.lobby_id == lobby

pub count_lobby_talkers : Relay → ℕ → ℕ
count_lobby_talkers r lobby = count (talks_in lobby) r

reset_rate_window : Peer → ℕ → Peer
reset_rate_window p now =
    if p.frame_count == 0
      || ltb now p.window_start_ms
      || leb rate_window_ms (now - p.window_start_ms)
    then record p { window_start_ms = now; frame_count = 0; byte_count = 0 }
    else p

-- What `SetPeer` does to the peer of a slot.
assign : Peer → Bool → ℕ → ℕ → Peer
assign p connected lobby player =
    if not connected
    then blank
    else record (if not p.connected || not (p.lobby_id == lobby) || not (p.player_id == player)
        then blank
        else p) { connected = true; lobby_id = lobby; player_id = player }

pub set_peer : Relay → ℕ → Bool → ℕ → ℕ → Relay
set_peer r index connected lobby player =
    if leb max_clients index then r else elim (get_elem? r index) [
      | none ↦ r
      | some p ↦ set r index (assign p connected lobby player)
    ]

-- The tests that a frame of a sender in a lobby must pass, in order; `none` if it passes them all.
refusal : Relay → Peer → VoiceFrame → ℕ → Option Outcome
refusal r p f wire =
    if leb max_frames_per_window p.frame_count
    then some frame_rate_limited
    else if ltb max_bytes_per_window wire || ltb (max_bytes_per_window - wire) p.byte_count
    then some byte_rate_limited
    else if not p.active_talker && not (is_start f)
    then some stream_not_started
    else if p.active_talker && not (p.active_stream_id == f.stream_id) && not (is_start f)
    then some stream_not_started
    else if p.active_talker
        && p.active_stream_id == f.stream_id
        && p.has_sequence
        && not (is_start f)
        && (sub16 f.sequence p.last_sequence == 0 || leb 0x8000 (sub16 f.sequence p.last_sequence))
    then some sequence_rejected
    else if not p.active_talker && leb max_active_talkers (count_lobby_talkers r p.lobby_id)
    then some talker_limited
    else none

-- The sender, once its frame is accepted.
heard : Peer → VoiceFrame → ℕ → ℕ → Peer
heard p f wire now = record p {
  active_talker = true;
  active_stream_id = f.stream_id;
  last_sequence = f.sequence;
  has_sequence = true;
  last_frame_ms = now;
  frame_count = add32 p.frame_count 1;
  byte_count = add32 p.byte_count wire;
}

-- Whether the sender's frame goes to the peer at an index.
abbrev pub hears : ℕ → ℕ → ℕ → Peer → Bool
hears sender lobby i p = not (i == sender || not p.connected || not (p.lobby_id == lobby))

module _ {C : Type 0} (send : C → ℕ → VoiceFrame → ℕ → C × Bool) where
  -- The sending loop, at index `i`: the context after it, and the number of frames that were sent.
  deliver : ℕ → ℕ → VoiceFrame → ℕ → ℕ → Relay → C → C × ℕ
  deliver sender lobby f wire i [] c = (c, 0)
  deliver sender lobby f wire i (p ∷ ps) c =
      let rest = deliver sender lobby f wire (suc i) ps in
      if hears sender lobby i p
      then (let (d, sent) = send c i f wire in
          let (e, n) = rest d in (e, (if sent then 1 else 0) + n))
      else rest c

pub record Routed (C : Type 0) : Type 0 where
  pub relay : Relay
  pub outcome : Outcome
  pub delivered : ℕ
  pub context : C

-- A call that sends nothing.
abbrev pub refuse : {C : Type 0} → Relay → Outcome → C → Routed C
refuse r o c = record { relay = r; outcome = o; delivered = 0; context = c }

module _ {C : Type 0} (send : Option (C → ℕ → VoiceFrame → ℕ → C × Bool)) where
  -- With no function to send by nothing is sent.
  deliver_all : ℕ → ℕ → VoiceFrame → ℕ → Relay → C → C × ℕ
  unfolding deliver
  deliver_all sender lobby f wire r c = elim send [
    | none ↦ (c, 0)
    | some g ↦ deliver g sender lobby f wire 0 r c
  ]

  -- From the copy of the frame on. An ending frame silences its sender after it is sent.
  relay_frame : Relay → ℕ → Peer → VoiceFrame → ℕ → ℕ → C → Routed C
  unfolding heard
  relay_frame r sender p f wire now c =
      let q = heard p f wire now in
      let s = set r sender q in
      let (d, n) = deliver_all sender p.lobby_id (record f { sender_id = p.player_id }) wire s c in
      record {
        relay = if is_end f then set s sender (silenced q) else s;
        outcome = accepted;
        delivered = n;
        context = d;
      }

  -- The limits on a sender in a lobby.
  admit : Relay → ℕ → Peer → VoiceFrame → ℕ → ℕ → C → Routed C
  admit r sender p f wire now c =
      let q = reset_rate_window p now in
      let s = set r sender q in
      elim (refusal s q f wire) [
        | some o ↦ refuse s o c
        | none ↦ relay_frame s sender q f wire now c
      ]

  enter : Relay → ℕ → Peer → VoiceFrame → ℕ → ℕ → C → Routed C
  enter r sender p f wire now c =
      if not p.connected || p.lobby_id == 0 || p.player_id == 0
      then refuse r not_in_lobby c
      else admit (expire_talkers r now) sender (expire now p) f wire now c

  -- A relay has `max_clients` peers, so the lookup below finds one.
  pub route : Relay → ℕ → Option VoiceFrame → ℕ → ℕ → C → Routed C
  route r sender none wire now c =
      refuse r (if leb max_clients sender then invalid_peer else invalid_frame) c
  route r sender (some f) wire now c =
      if leb max_clients sender
      then refuse r invalid_peer c
      else if not (is_valid (some f) wire)
      then refuse r invalid_frame c
      else elim (get_elem? r sender) [
        | none ↦ refuse r invalid_peer c
        | some p ↦ enter r sender p f wire now c
      ]
