-- ===== src/SnapshotScheduler/Rate.antt =====
-- How many snapshots a number of ticks emits.
use shroomio.Base.{
  ℕ, zero, suc, ◌+◌, ◌*◌, ◌/◌, ◌≤◌, ◌<◌, ◌≡◌, true, false, some, arith, ltb, if◌then◌else◌, ltb→lt,
  ltb-false→le, ◌-◌, ◌∙◌, inl, inr, Bool-cases, u32_mod, u64_mod,
}
use shroomio.SnapshotScheduler.{SnapshotScheduler, init, step, steps}

-- The rates are as `init` accepts them, a phase and a rate fit in a word, and the emissions and the
-- phase account for every tick so far.
pub record IsValid (s : SnapshotScheduler) : Type 0 where
  pub positive : 0 < s.snapshot_rate
  pub ordered : s.snapshot_rate ≤ s.tick_rate
  pub fits : s.tick_rate + s.snapshot_rate ≤ u32_mod
  pub waiting : s.phase < s.tick_rate
  pub balance : s.emission_count * s.tick_rate + s.phase ≡ s.tick_count * s.snapshot_rate

init-IsValid :
    (t r : ℕ) {s : SnapshotScheduler}
    → t + r ≤ u32_mod
    → init t r ≡ some s
    → IsValid s
      × (s.tick_rate ≡ t)
      × (s.snapshot_rate ≡ r)
      × (s.tick_count ≡ 0)
      × (s.emission_count ≡ 0)
unfolding init
init-IsValid t r h e = ground arith

record Stepped (s t : SnapshotScheduler) : Type 0 where
  pub valid : IsValid t
  pub tick_rate : t.tick_rate ≡ s.tick_rate
  pub snapshot_rate : t.snapshot_rate ≡ s.snapshot_rate
  pub tick_count : t.tick_count ≡ s.tick_count + 1
  pub fewer : t.emission_count ≤ t.tick_count

-- A step of a valid scheduler counts the tick, and emits once a whole period is due.
step_lem :
    (s : SnapshotScheduler)
    → IsValid s
    → s.tick_count + 1 < u64_mod
    → s.emission_count ≤ s.tick_count
    → step s ≡ (
        if ltb (s.phase + s.snapshot_rate) s.tick_rate
        then (record s { phase = s.phase + s.snapshot_rate; tick_count = s.tick_count + 1 }, false)
        else (
          record s {
            phase = s.phase + s.snapshot_rate - s.tick_rate;
            tick_count = s.tick_count + 1;
            emission_count = s.emission_count + 1;
          },
          true,
        ))
unfolding step
step_lem s v h k = ground arith

step-Stepped :
    (s : SnapshotScheduler)
    → IsValid s
    → s.tick_count + 1 < u64_mod
    → s.emission_count ≤ s.tick_count
    → Stepped s (step s).0
step-Stepped s v h k =
    rw (step_lem s v h k) (elim (Bool-cases (ltb (s.phase + s.snapshot_rate) s.tick_rate)) [
      | inl early ↦ rw early (omega (arith, ltb→lt _ _ early))
      | inr due ↦ rw due (omega (arith, ltb-false→le _ _ due))
    ])

quotient_of_balance : (e t p m : ℕ) → p < t → e * t + p ≡ m → e ≡ m / t
quotient_of_balance e t p m h b = grind arith

quotient_along :
    (e p T C R : ℕ) {t n r : ℕ} → T ≡ t → C ≡ n → R ≡ r → p < T → e * T + p ≡ C * R → e ≡ n * r / t
quotient_along e p T C R a b c h x = rw (← a, ← b, ← c) (quotient_of_balance e T p (C * R) h x)

steps-Stepped :
    (n t r : ℕ) (s : SnapshotScheduler)
    → t + r ≤ u32_mod
    → n < u64_mod
    → init t r ≡ some s
    → IsValid (steps n s)
      × ((steps n s).tick_rate ≡ t)
      × ((steps n s).snapshot_rate ≡ r)
      × ((steps n s).tick_count ≡ n)
      × ((steps n s).emission_count ≤ n)
unfolding steps
steps-Stepped zero t r s f h e =
    let (v, a, b, c, d) = init-IsValid t r f e in (v, a, b, c, omega arith)
steps-Stepped (suc n) t r s f h e =
    let (v, a, b, c, d) = steps-Stepped n t r s f (omega arith) e in
    let w = step-Stepped (steps n s) v (omega arith) (omega arith) in
    (w.valid, w.tick_rate ∙ a, w.snapshot_rate ∙ b, omega arith, omega arith)

-- After n ticks a scheduler of r snapshots for t ticks has emitted n * r / t snapshots, rounded
-- down: no drift, for any number of ticks that the 64-bit counter holds, where the two rates
-- together fit in 32 bits.
pub steps-emission_count :
    (n t r : ℕ) (s : SnapshotScheduler)
    → t + r ≤ u32_mod
    → n < u64_mod
    → init t r ≡ some s
    → ((steps n s).emission_count ≡ n * r / t) × ((steps n s).tick_count ≡ n)
steps-emission_count n t r s f h e =
    let (v, a, b, c, d) = steps-Stepped n t r s f h e in
    (quotient_along _ _ _ _ _ a c b v.waiting v.balance, c)
