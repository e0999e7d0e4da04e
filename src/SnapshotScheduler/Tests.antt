-- ===== src/SnapshotScheduler/Tests.antt =====
-- A scheduler of 20 snapshots for 30 ticks.
use shroomio.Base.{◌≡◌, refl, ◌*◌, ◌/◌, none, arith, true, false}
use shroomio.SnapshotScheduler.{SnapshotScheduler, init, step, steps}
use shroomio.SnapshotScheduler.Rate.{steps-emission_count}

abbrev fresh : SnapshotScheduler
fresh = record { tick_rate = 30; snapshot_rate = 20; phase = 0; tick_count = 0; emission_count = 0 }

refused : init 30 14 ≡ none
unfolding init
refused = refl

second_emits : ((step fresh).1 ≡ false) × ((step (steps 1 fresh)).1 ≡ true)
unfolding step steps
second_emits = (refl, refl)

steps-emission_count_example :
    ((steps 7 fresh).emission_count ≡ 7 * 20 / 30) × ((steps 7 fresh).tick_count ≡ 7)
unfolding init
steps-emission_count_example = steps-emission_count 7 30 20 fresh (omega arith) (omega arith) refl
