-- ===== src/VoiceRelay/Tests.antt =====
-- A relay of two players in one lobby and a third in another.
use shroomio.Base.{ℕ, ◌≤◌, ◌≡◌, refl, true, Bool, some, none, List, [], ◌∷◌, ◌++◌, replicate}
use shroomio.VoiceFrame.{VoiceFrame, is_valid}
use shroomio.VoiceRelay.{
  Peer, accepted, stream_not_started, Relay, blank, init, route, max_active_talkers,
  count_lobby_talkers, enter, admit, refusal, reset_rate_window, expire_talkers, expire,
  relay_frame, deliver_all,
}
use shroomio.VoiceRelay.Limits.{AllWithin, init-AllWithin, route-AllWithin}
use shroomio.VoiceRelay.Talkers.{Call, assigns, receives, run, run-IsQuiet}
use shroomio.VoiceRelay.Delivery.{Sends, sent, route-Sends}

abbrev member : ℕ → ℕ → Peer
member lobby player = record blank { connected = true; lobby_id = lobby; player_id = player }

abbrev relay : Relay
relay = member 1 10 ∷ member 1 11 ∷ member 2 12 ∷ replicate 253 blank

abbrev frame : VoiceFrame
frame = record {
  type = 20;
  channel = 4;
  size = 27;
  sender_id = 0;
  stream_id = 5;
  timestamp = 0;
  sequence = 65535;
  payload_size = 3;
  flags = 1;
  reserved = (0, 0, 0);
  payload = 1 ∷ 2 ∷ 3 ∷ [];
}

-- A sender that records the slots it is called with, and always succeeds.
abbrev log : List ℕ → ℕ → VoiceFrame → ℕ → List ℕ × Bool
log c i f wire = (c ++ i ∷ [], true)

heard_in_the_lobby :
    ((route (some log) relay 0 (some frame) 27 100 []).outcome ≡ accepted)
    × ((route (some log) relay 0 (some frame) 27 100 []).context ≡ 1 ∷ [])
unfolding route is_valid enter admit refusal reset_rate_window expire_talkers expire relay_frame
    deliver_all count_lobby_talkers
heard_in_the_lobby = (refl, refl)

needs_a_start :
    (route (some log) relay 0 (some (record frame { flags = 0 })) 27 100 []).outcome
    ≡ stream_not_started
unfolding route is_valid enter admit refusal reset_rate_window expire_talkers expire
needs_a_start = refl

abbrev history : List Call
history = assigns 3 true 1 13 ∷ receives 3 (some frame) 27 100 ∷ receives 400 none 0 101 ∷ []

run-IsQuiet_example : count_lobby_talkers (run (some log) init [] history) 1 ≤ max_active_talkers
run-IsQuiet_example = run-IsQuiet (some log) [] history 1

route-AllWithin_example : AllWithin (route (some log) init 0 (some frame) 27 100 []).relay
route-AllWithin_example = route-AllWithin (some log) init 0 (some frame) 27 100 [] init-AllWithin

route-Sends_example :
    Sends log
      (route (some log) relay 0 (some frame) 27 100 [])
      (sent log 0 (member 1 10) frame 27 relay [])
      []
route-Sends_example = route-Sends log relay 0 (member 1 10) frame 27 100 [] refl
