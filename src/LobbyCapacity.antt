-- ===== src/LobbyCapacity.antt =====
-- src/server/lobby_capacity.c: how many bots leave a lobby so that one more player can join. Both
-- counts are 16-bit numbers.
pub mod Room
mod Tests
use shroomio.Base.{ℕ, ◌+◌, ◌-◌, ◌%◌, Bool, false, ltb, leb, if◌then◌else◌, u16_mod, add32}

pub record AdmissionPlan : Type 0 where
  pub accepted : Bool
  pub bots_to_remove : ℕ

abbrev pub max_participants : ℕ
max_participants = 256

abbrev pub max_playable_participants : ℕ
max_playable_participants = max_participants

abbrev pub bots_over : ℕ → ℕ
bots_over occupied =
    if ltb occupied max_participants then 0 else (occupied - max_participants + 1) % u16_mod

unfoldable pub plan_admission : ℕ → ℕ → AdmissionPlan
plan_admission real_player_count bot_count =
    let removed = bots_over (add32 real_player_count bot_count) in
    if leb max_playable_participants real_player_count
    then record { accepted = false; bots_to_remove = 0 }
    else record { accepted = leb removed bot_count; bots_to_remove = removed }
