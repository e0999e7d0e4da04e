-- ===== src/InputAdmission.antt =====
-- src/server/input_admission.c: the token bucket and the sequence check in front of
-- a player's input. Times and sequence numbers come with each packet.
pub mod Rate
pub mod Sequence
pub mod Counters
mod Tests
use shroomio.Base.{
  ℕ, ◌+◌, ◌-◌, Bool, true, false, ◌&&◌, ◌||◌, not, List, [], ◌∷◌, ltb, leb, ◌==◌, if◌then◌else◌,
  sub32, add32, add64, mul64, Option, none, some,
}

pub data Outcome : Type 0 where
  admitted rejected_stale rejected_rate : Outcome

pub record InputAdmission : Type 0 where
  pub initialized : Bool
  pub has_sequence : Bool
  pub last_sequence : ℕ
  pub last_refill_ms : ℕ
  pub token_milli : ℕ
  pub accepted_count : ℕ
  pub stale_count : ℕ
  pub rate_limited_count : ℕ

abbrev pub token : ℕ
token = 1000

abbrev pub refill_per_ms : ℕ
refill_per_ms = 30

abbrev pub capacity : ℕ
capacity = 10000

-- `SequenceIsNewer`: serial number arithmetic on 32 bits.
pub is_newer : ℕ → ℕ → Bool
is_newer sequence previous =
    let delta = sub32 sequence previous in not (delta == 0) && ltb delta 0x80000000

-- The tokens after `elapsed` milliseconds; the product is one of 64 bits.
topped_up : ℕ → ℕ → ℕ
topped_up tokens elapsed =
    let gain = mul64 elapsed refill_per_ms in
    if leb capacity gain || leb (capacity - gain) tokens then capacity else add32 tokens gain

refill : InputAdmission → ℕ → InputAdmission
unfolding topped_up
refill a now =
    if not a.initialized
    then record a { initialized = true; last_refill_ms = now; token_milli = capacity }
    else if ltb now a.last_refill_ms
    then record a { last_refill_ms = now }
    else record a {
      last_refill_ms = now;
      token_milli = topped_up a.token_milli (now - a.last_refill_ms);
    }

pub reset : InputAdmission
reset = record {
  initialized = false;
  has_sequence = false;
  last_sequence = 0;
  last_refill_ms = 0;
  token_milli = 0;
  accepted_count = 0;
  stale_count = 0;
  rate_limited_count = 0;
}

-- What follows the rate check: the token is spent whether or not the sequence is new.
judge : InputAdmission → ℕ → InputAdmission × Outcome
unfolding is_newer
judge a sequence =
    if sequence == 0 || (a.has_sequence && not (is_newer sequence a.last_sequence))
    then (record a { stale_count = add64 a.stale_count 1 }, rejected_stale)
    else (
      record a {
        has_sequence = true;
        last_sequence = sequence;
        accepted_count = add64 a.accepted_count 1;
      },
      admitted,
    )

spend : InputAdmission → ℕ → InputAdmission × Outcome
unfolding judge
spend a sequence =
    if ltb a.token_milli token
    then (record a { rate_limited_count = add64 a.rate_limited_count 1 }, rejected_rate)
    else judge (record a { token_milli = a.token_milli - token }) sequence

pub check : InputAdmission → ℕ → ℕ → InputAdmission × Outcome
unfolding refill spend
check a sequence now = spend (refill a now) sequence

-- The same through a pointer, where `none` is NULL.
pub check_at : Option InputAdmission → ℕ → ℕ → Option InputAdmission × Outcome
unfolding check
check_at none sequence now = (none, rejected_rate)
check_at (some a) sequence now = let (b, o) = check a sequence now in (some b, o)

-- A packet is its sequence number and its time of arrival.
pub run : InputAdmission → List (ℕ × ℕ) → InputAdmission × List Outcome
run a [] = (a, [])
run a ((sequence, now) ∷ ps) =
    let (b, o) = check a sequence now in let (c, os) = run b ps in (c, o ∷ os)
