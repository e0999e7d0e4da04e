-- ===== src/LobbyCapacity/Tests.antt =====
-- A lobby full of players and bots.
use shroomio.Base.{◌≡◌, ◌↔◌, ◌≤◌, ◌<◌, ◌+◌, ◌-◌, refl, true, arith}
use shroomio.LobbyCapacity.{max_participants, plan_admission}
use shroomio.LobbyCapacity.Room.{plan_admission-makes_room}

one_leaves : (plan_admission 10 246).bots_to_remove ≡ 1
unfolding plan_admission
one_leaves = refl

plan_admission-makes_room_example :
    let plan = plan_admission 10 246 in
    ((plan.accepted ≡ true) ↔ (10 < max_participants))
    × (plan.accepted ≡ true
        → (plan.bots_to_remove ≤ 246)
          × (10 + (246 - plan.bots_to_remove) < max_participants)
          × (0 < plan.bots_to_remove → 10 + (246 - plan.bots_to_remove) + 1 ≡ max_participants))
plan_admission-makes_room_example = plan_admission-makes_room 10 246 (omega arith) (omega arith)
