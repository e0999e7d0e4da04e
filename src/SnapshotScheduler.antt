-- ===== src/SnapshotScheduler.antt =====
-- src/shared/snapshot_scheduler.c: which simulation ticks emit a snapshot.
pub mod Rate
mod Tests
use shroomio.Base.{
  ℕ, zero, suc, ◌-◌, Bool, true, false, ◌||◌, Option, none, some, ltb, ◌==◌, if◌then◌else◌, add32,
  add64,
}

pub record SnapshotScheduler : Type 0 where
  pub tick_rate : ℕ
  pub snapshot_rate : ℕ
  pub phase : ℕ
  pub tick_count : ℕ
  pub emission_count : ℕ

abbrev pub snapshot_rate_min : ℕ
snapshot_rate_min = 15

abbrev pub snapshot_rate_max : ℕ
snapshot_rate_max = 20

-- `none` where the function answers no and leaves the scheduler as it was.
pub init : ℕ → ℕ → Option SnapshotScheduler
init tick_rate snapshot_rate =
    if tick_rate == 0
      || ltb tick_rate snapshot_rate
      || ltb snapshot_rate snapshot_rate_min
      || ltb snapshot_rate_max snapshot_rate
    then none
    else some (record {
      tick_rate = tick_rate;
      snapshot_rate = snapshot_rate;
      phase = 0;
      tick_count = 0;
      emission_count = 0;
    })

-- The tail of a step, once the tick is counted.
emit : SnapshotScheduler → SnapshotScheduler × Bool
emit s = if ltb s.phase s.tick_rate then (s, false) else (
  record s { phase = s.phase - s.tick_rate; emission_count = add64 s.emission_count 1 },
  true,
)

pub step : SnapshotScheduler → SnapshotScheduler × Bool
unfolding emit
step s =
    if s.tick_rate == 0 || s.snapshot_rate == 0
    then (s, false)
    else emit
        (record s { tick_count = add64 s.tick_count 1; phase = add32 s.phase s.snapshot_rate })

-- The scheduler after a number of ticks.
pub steps : ℕ → SnapshotScheduler → SnapshotScheduler
steps zero s = s
steps (suc n) s = (step (steps n s)).0
