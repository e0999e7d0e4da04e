-- ===== src/InputAdmission/Rate.antt =====
-- The token bucket: its invariant, and the rate that it enforces.
use shroomio.Base.{
  ℕ, ◌+◌, ◌-◌, ◌*◌, ◌≤◌, ◌≡◌, refl, ◌∙◌, Bool, true, false, List, [], ◌∷◌, arith, count,
  if◌then◌else◌,
}
use shroomio.InputAdmission.{
  InputAdmission, Outcome, admitted, rejected_stale, rejected_rate, capacity, refill, spend, check,
  run, reset, topped_up, token,
}

-- The bucket never holds more than its capacity.
pub record IsValid (a : InputAdmission) : Type 0 where
  pub bounded : a.token_milli ≤ capacity

-- Every check keeps the bucket within its capacity, whatever the clock says.
pub check-IsValid :
    (a : InputAdmission) (sequence now : ℕ) → IsValid a → IsValid (check a sequence now).0
unfolding check
check-IsValid a sequence now v = ground arith

-- A packet that passes the bucket has paid for a token.
abbrev pub paid : Outcome → Bool
paid rejected_rate = false
paid _ = true

abbrev pub is_admitted : Outcome → Bool
is_admitted admitted = true
is_admitted _ = false

-- The times of a list of packets do not go back, from a first time on.
abbrev pub Ordered : ℕ → List (ℕ × ℕ) → Type 0
Ordered start [] = Unit
Ordered start ((sequence, now) ∷ ps) = (start ≤ now) × Ordered now ps

abbrev pub last_time : ℕ → List (ℕ × ℕ) → ℕ
last_time start [] = start
last_time start ((sequence, now) ∷ ps) = last_time now ps

topped_up-le : (tokens elapsed : ℕ) → topped_up tokens elapsed ≤ tokens + 30 * elapsed
unfolding topped_up
topped_up-le tokens elapsed = ground arith

-- A packet that passes takes one token out of the bucket, and nothing else does.
spend-price :
    (a : InputAdmission) (sequence : ℕ)
    → let (b, o) = spend a sequence in
      (token * (if paid o then 1 else 0) + b.token_milli ≡ a.token_milli)
      × (b.initialized ≡ a.initialized)
      × (b.last_refill_ms ≡ a.last_refill_ms)
unfolding spend
spend-price a sequence = ground arith

refill-later :
    (a : InputAdmission) (now : ℕ)
    → a.initialized ≡ true
    → a.last_refill_ms ≤ now
    → ((refill a now).token_milli ≤ a.token_milli + 30 * (now - a.last_refill_ms))
      × ((refill a now).initialized ≡ true)
      × ((refill a now).last_refill_ms ≡ now)
unfolding refill
refill-later a now e h = rw e (ground (arith, topped_up-le a.token_milli (now - a.last_refill_ms)))

-- The number of packets that pass.
abbrev passed : List Outcome → ℕ
passed = count paid

last_time-ge : (start : ℕ) (ps : List (ℕ × ℕ)) → Ordered start ps → start ≤ last_time start ps
last_time-ge start [] h = omega arith
last_time-ge start ((sequence, now) ∷ ps) h = omega (arith, last_time-ge now ps h.1)

run-price :
    (a : InputAdmission) (start : ℕ) (ps : List (ℕ × ℕ))
    → a.initialized ≡ true
    → a.last_refill_ms ≡ start
    → Ordered start ps
    → token * passed (run a ps).1 ≤ a.token_milli + 30 * (last_time start ps - start)
unfolding run check
run-price a start [] e s h = omega arith
run-price a start ((sequence, now) ∷ ps) e s h =
    let (less, ready, stamped) = refill-later a now e (rw s h.0) in
    let (price, same, still) = spend-price (refill a now) sequence in
    let rest =
      run-price (spend (refill a now) sequence).0 now ps (same ∙ ready) (still ∙ stamped) h.1 in
    omega (arith, last_time-ge now ps h.1)

is_admitted-le-paid : (os : List Outcome) → count is_admitted os ≤ passed os
is_admitted-le-paid [] = omega arith
is_admitted-le-paid (admitted ∷ os) = omega (arith, is_admitted-le-paid os)
is_admitted-le-paid (rejected_stale ∷ os) = omega (arith, is_admitted-le-paid os)
is_admitted-le-paid (rejected_rate ∷ os) = omega (arith, is_admitted-le-paid os)

refill-first :
    (now : ℕ)
    → ((refill reset now).token_milli ≡ capacity)
      × ((refill reset now).initialized ≡ true)
      × ((refill reset now).last_refill_ms ≡ now)
unfolding refill reset
refill-first now = (refl, refl, refl)

-- From a reset on, while the clock does not go back, at most 10 packets and 30 more for each
-- second that has passed are admitted, whatever is sent and however many packets arrive.
pub admitted_rate :
    (sequence start : ℕ) (ps : List (ℕ × ℕ))
    → Ordered start ps
    → token * count is_admitted (run reset ((sequence, start) ∷ ps)).1
      ≤ capacity + 30 * (last_time start ps - start)
unfolding run check
admitted_rate sequence start ps h =
    let (full, ready, stamped) = refill-first start in
    let (price, same, still) = spend-price (refill reset start) sequence in
    let rest =
      run-price (spend (refill reset start) sequence).0 start ps (same ∙ ready) (still ∙ stamped)
        h in
    omega (arith, is_admitted-le-paid (run reset ((sequence, start) ∷ ps)).1)
