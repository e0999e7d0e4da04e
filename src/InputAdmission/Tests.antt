-- ===== src/InputAdmission/Tests.antt =====
-- Input admission at concrete inputs.
use shroomio.Base.{ℕ, ◌*◌, ◌+◌, ◌-◌, ◌≤◌, ◌≡◌, refl, true, List, [], ◌∷◌, count, arith, none}
use shroomio.InputAdmission.{
  admitted, rejected_stale, rejected_rate, reset, check, check_at, run, is_newer, token, capacity,
}
use shroomio.InputAdmission.Rate.{IsValid, check-IsValid, is_admitted, last_time, admitted_rate}
use shroomio.InputAdmission.Sequence.{accepted, Rising, run-Rising}
use shroomio.InputAdmission.Counters.{Counted, run-Counted}

abbrev burst : List (ℕ × ℕ)
burst = (2, 100) ∷ (2, 100) ∷ (5, 101) ∷ (4, 133) ∷ []

burst_outcomes :
    (run reset ((1, 100) ∷ burst)).1
    ≡ admitted ∷ admitted ∷ rejected_stale ∷ admitted ∷ rejected_stale ∷ []
unfolding run check reset
burst_outcomes = refl

null_is_rejected : check_at none 1 5 ≡ (none, rejected_rate)
unfolding check_at
null_is_rejected = refl

wraps : is_newer 1 0xffff_fffe ≡ true
unfolding is_newer
wraps = refl

check-IsValid_example : IsValid (check reset 1 100).0
unfolding reset
check-IsValid_example = check-IsValid reset 1 100 (omega arith)

admitted_rate_example :
    token * count is_admitted (run reset ((1, 100) ∷ burst)).1
    ≤ capacity + 30 * (last_time 100 burst - 100)
admitted_rate_example = admitted_rate 1 100 burst (omega arith)

run-Rising_example :
    Rising reset.has_sequence reset.last_sequence (accepted burst (run reset burst).1)
run-Rising_example = run-Rising reset burst

run-Counted_example : Counted reset (run reset burst).0 (run reset burst).1
unfolding reset
run-Counted_example = run-Counted reset burst (omega arith)
