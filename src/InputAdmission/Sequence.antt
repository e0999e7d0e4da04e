-- ===== src/InputAdmission/Sequence.antt =====
-- The sequence check: serial numbers, and replayed packets.
use shroomio.Base.{
  ℕ, ◌<◌, ◌≡◌, refl, subst, ◌≢◌, Bool, true, false, List, [], ◌∷◌, arith, u32_mod, sub32, ◌⊎◌,
}
use shroomio.InputAdmission.{
  InputAdmission, Outcome, admitted, rejected_stale, rejected_rate, is_newer, refill, check, spend,
  run,
}

-- Of two different sequence numbers that are not exactly half the circle apart, one is newer, and
-- never both; no number is newer than itself.
pub is_newer_strict :
    (s t : ℕ)
    → s < u32_mod
    → t < u32_mod
    → (is_newer s s ≡ false)
      × (is_newer s t ≡ true → is_newer t s ≡ false)
      × (s ≢ t → sub32 s t ≢ 0x80000000 → (is_newer s t ≡ true) ⊎ (is_newer t s ≡ true))
unfolding is_newer
is_newer_strict s t hs ht = (ground arith, λ h. ground arith, λ ne half. ground arith)

-- The sequence numbers of the packets that were admitted, in order.
abbrev pub accepted : List (ℕ × ℕ) → List Outcome → List ℕ
accepted ((sequence, now) ∷ ps) (admitted ∷ os) = sequence ∷ accepted ps os
accepted (p ∷ ps) (_ ∷ os) = accepted ps os
accepted _ _ = []

-- Every number is not 0, and newer than the number before it, if there is one.
abbrev pub Rising : Bool → ℕ → List ℕ → Type 0
Rising seen last [] = Unit
Rising seen last (s ∷ ss) = (s ≢ 0) × (seen ≡ true → is_newer s last ≡ true) × Rising true s ss

refill-keeps :
    (a : InputAdmission) (now : ℕ)
    → ((refill a now).has_sequence ≡ a.has_sequence)
      × ((refill a now).last_sequence ≡ a.last_sequence)
unfolding refill
refill-keeps a now = ground arith

spend-admitted :
    (a : InputAdmission) (s : ℕ)
    → (spend a s).1 ≡ admitted
    → (s ≢ 0)
      × (a.has_sequence ≡ true → is_newer s a.last_sequence ≡ true)
      × ((spend a s).0.has_sequence ≡ true)
      × ((spend a s).0.last_sequence ≡ s)
unfolding spend
spend-admitted a s e = (ground arith, λ h. ground arith, ground arith, ground arith)

spend-refused :
    (a : InputAdmission) (s : ℕ)
    → (spend a s).1 ≢ admitted
    → ((spend a s).0.has_sequence ≡ a.has_sequence)
      × ((spend a s).0.last_sequence ≡ a.last_sequence)
unfolding spend
spend-refused a s e = ground arith

Rising-step :
    (seen : Bool) (last s now : ℕ) (ps : List (ℕ × ℕ)) (o : Outcome) (os : List Outcome)
    (b : InputAdmission)
    → (o ≡ admitted
        → (s ≢ 0)
          × (seen ≡ true → is_newer s last ≡ true)
          × (b.has_sequence ≡ true)
          × (b.last_sequence ≡ s))
    → (o ≢ admitted → (b.has_sequence ≡ seen) × (b.last_sequence ≡ last))
    → Rising b.has_sequence b.last_sequence (accepted ps os)
    → Rising seen last (accepted ((s, now) ∷ ps) (o ∷ os))
Rising-step seen last s now ps admitted os b yes_ no_ rest =
    let (ne, newer, has, is) = yes_ refl in (ne, newer, rw (has, is) at rest)
Rising-step seen last s now ps rejected_stale os b yes_ no_ rest =
    let (has, is) = no_ (λ e. cc) in rw (has, is) at rest
Rising-step seen last s now ps rejected_rate os b yes_ no_ rest =
    let (has, is) = no_ (λ e. cc) in rw (has, is) at rest

-- In any history of packets, whatever their times, each admitted sequence number is newer than the
-- one admitted before it, the first one than the number that the state remembers, and none is 0.
pub run-Rising :
    (a : InputAdmission) (ps : List (ℕ × ℕ))
    → Rising a.has_sequence a.last_sequence (accepted ps (run a ps).1)
unfolding run check
run-Rising a [] = tt
run-Rising a ((s, now) ∷ ps) =
    let (has, is) = refill-keeps a now in
    let all = accepted ((s, now) ∷ ps) (run a ((s, now) ∷ ps)).1 in
    subst (λ seen. Rising seen a.last_sequence all) has
      (subst (λ last. Rising (refill a now).has_sequence last all) is
        (Rising-step _ _ s now ps _ _ (spend (refill a now) s).0 (spend-admitted (refill a now) s)
          (spend-refused (refill a now) s) (run-Rising (spend (refill a now) s).0 ps)))
