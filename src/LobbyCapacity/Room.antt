-- ===== src/LobbyCapacity/Room.antt =====
-- The room that a plan makes.
use shroomio.Base.{ℕ, ◌+◌, ◌-◌, ◌≤◌, ◌<◌, ◌≡◌, ◌↔◌, true, arith, u16_mod}
use shroomio.LobbyCapacity.{max_participants, plan_admission}

-- A lobby takes one more player exactly if its players do not fill it, whatever the number of bots;
-- then the plan removes no more bots than there are, enough of them, and none if there is room
-- already or more than that makes room.
pub plan_admission-makes_room :
    (real bots : ℕ)
    → real < u16_mod
    → bots < u16_mod
    → let plan = plan_admission real bots in
      ((plan.accepted ≡ true) ↔ (real < max_participants))
      × (plan.accepted ≡ true
          → (plan.bots_to_remove ≤ bots)
            × (real + (bots - plan.bots_to_remove) < max_participants)
            × (0 < plan.bots_to_remove
                → real + (bots - plan.bots_to_remove) + 1 ≡ max_participants))
unfolding plan_admission
plan_admission-makes_room real bots r b =
    (ground arith, λ ok. (ground arith, ground arith, λ some_. ground arith))
