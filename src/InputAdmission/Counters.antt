-- ===== src/InputAdmission/Counters.antt =====
-- The three counters that the server reports.
use shroomio.Base.{ℕ, ◌+◌, ◌%◌, ◌<◌, ◌≡◌, Bool, true, false, List, [], ◌∷◌, arith, count, u64_mod}
use shroomio.InputAdmission.{InputAdmission, Outcome, rejected_stale, rejected_rate, check, run}
use shroomio.InputAdmission.Rate.{is_admitted}

abbrev pub is_stale : Outcome → Bool
is_stale rejected_stale = true
is_stale _ = false

abbrev pub is_limited : Outcome → Bool
is_limited rejected_rate = true
is_limited _ = false

-- The counters are words of 64 bits.
pub record InRange (a : InputAdmission) : Type 0 where
  pub accepted : a.accepted_count < u64_mod
  pub stale : a.stale_count < u64_mod
  pub limited : a.rate_limited_count < u64_mod

-- What a state's counters are after as many packets of each kind.
pub record Counted (a b : InputAdmission) (os : List Outcome) : Type 0 where
  pub accepted : b.accepted_count ≡ (a.accepted_count + count is_admitted os) % u64_mod
  pub stale : b.stale_count ≡ (a.stale_count + count is_stale os) % u64_mod
  pub limited : b.rate_limited_count ≡ (a.rate_limited_count + count is_limited os) % u64_mod

check-Counted :
    (a : InputAdmission) (s now : ℕ)
    → InRange a
    → Counted a (check a s now).0 ((check a s now).1 ∷ []) × InRange (check a s now).0
unfolding check
check-Counted a s now v = ground arith

-- Over any history each counter grows by the number of packets of its kind, modulo 2^64.
pub run-Counted :
    (a : InputAdmission) (ps : List (ℕ × ℕ)) → InRange a → Counted a (run a ps).0 (run a ps).1
unfolding run
run-Counted a [] v = omega arith
run-Counted a ((s, now) ∷ ps) v =
    let (one, w) = check-Counted a s now v in
    let rest = run-Counted (check a s now).0 ps w in omega arith
