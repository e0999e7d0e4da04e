-- ===== src/VoiceJitter/Playback.antt =====
-- What comes out of a buffer that plays, pop after pop.
use mathlib.Core.Option.{some-injective}
use shroomio.Base.{
  ℕ, suc, ◌+◌, ◌%◌, ◌/◌, ◌≤◌, ◌≡◌, ◌⊎◌, inl, inr, refl, sym, ap, subst, ◌∙◌, Bool, true, false,
  Option, none, some, List, [], ◌∷◌, arith, get_or, All, Bool-cases, Option-cases, ltb, ◌==◌,
  if◌then◌else◌, add16,
}
use shroomio.VoiceJitter.{
  Frame, Jitter, Pop, frame, fec, plc, wait, finished, no_frame, find, has_sequence, find_sequence,
  find_next_sequence, substitute, remove_frame, play, conceal, play_next, pop_next,
  max_consecutive_loss,
}
use shroomio.VoiceJitter.Buffer.{play_next-there, play_next-lost, pop_next-down, pop_next-ready}

-- Pops at the given times, and the buffer after them.
unfoldable pub pops : Jitter → List ℕ → List Pop
pops j [] = []
pops j (now ∷ nows) = let (k, r) = pop_next j now in r ∷ pops k nows

unfoldable pub after : Jitter → List ℕ → Jitter
after j [] = j
after j (now ∷ nows) = after (pop_next j now).0 nows

-- The sequence number that a pop plays or conceals.
abbrev pub slot : Pop → Option ℕ
slot r = elim r.kind [
  | frame ↦ some r.frame.sequence
  | fec ↦ some r.missing_sequence
  | plc ↦ some r.missing_sequence
  | wait ↦ none
  | finished ↦ none
]

abbrev pub Over : List Pop → Type 0
Over = All (λ r. r.kind ≡ finished)

-- How many were lost in a row after a pop, and whether it plays a frame that ends the stream.
abbrev pub losses_after : Pop → ℕ → ℕ
losses_after r losses = elim r.kind [
  | frame ↦ 0
  | fec ↦ losses + 1
  | plc ↦ losses + 1
  | wait ↦ losses
  | finished ↦ losses
]

abbrev pub ends : Pop → Bool
ends r = elim r.kind [
  | frame ↦ r.frame.flags / 2 % 2 == 1
  | fec ↦ false
  | plc ↦ false
  | wait ↦ false
  | finished ↦ false
]

-- A pop that plays or conceals a slot, with no more than five in a row concealed.
abbrev pub IsTurn : ℕ → ℕ → Pop → Type 0
IsTurn e losses r = (slot r ≡ some e) × (losses_after r losses ≤ 5) × (r.stream_ended ≡ ends r)

-- One slot after another, until a frame ends the stream, or after five in a row were concealed.
abbrev pub InOrder : ℕ → ℕ → List Pop → Type 0
InOrder e losses [] = Unit
InOrder e losses (r ∷ rs) =
    ((losses ≡ 5) × Over (r ∷ rs))
    ⊎ (IsTurn e losses r
        × (if ends r then Over rs else InOrder (add16 e 1) (losses_after r losses) rs))

pub find-some :
    (p : Frame → Bool) (xs : List Frame) (i : ℕ) (d : Frame)
    → find p xs ≡ some i
    → p (get_or xs i d) ≡ true
unfolding find
find-some p [] i d h = cc
find-some p (x ∷ xs) i d h = elim (Bool-cases (p x)) [
  | inl is ↦ rw (sym (some-injective 0 i (sym (rw is refl) ∙ h))) is
  | inr other ↦ elim (Option-cases (find p xs)) [
    | inl none_ ↦ cc (h, other, none_)
    | inr (k, there) ↦
        rw (sym (some-injective (suc k) i (sym (rw other (rw there refl)) ∙ h)))
          (find-some p xs k d there)
  ]
]

pub pops-Over : (j : Jitter) (nows : List ℕ) → j.initialized ≡ false → Over (pops j nows)
unfolding pops
pops-Over j [] down = tt
pops-Over j (now ∷ nows) down = rw (pop_next-down j now down) (refl, pops-Over j nows down)

-- What a pop of a playing buffer does to the stream.
pub data Turn (j : Jitter) (out : Jitter × Pop) : Type 0 where
  given_up : j.consecutive_loss ≡ 5 → out.1.kind ≡ finished → out.0.initialized ≡ false → Turn j out
  last :
      IsTurn j.expected_sequence j.consecutive_loss out.1
      → ends out.1 ≡ true
      → out.0.initialized ≡ false
      → Turn j out
  next :
      IsTurn j.expected_sequence j.consecutive_loss out.1
      → ends out.1 ≡ false
      → out.0.initialized ≡ true
      → out.0.started ≡ true
      → out.0.expected_sequence ≡ add16 j.expected_sequence 1
      → out.0.consecutive_loss ≡ losses_after out.1 j.consecutive_loss
      → Turn j out

-- What is played in place of a lost frame.
abbrev substituted : Jitter → ℕ → Pop
substituted j e = record {
  kind = (substitute j).0;
  frame = (substitute j).1;
  missing_sequence = e;
  stream_ended = false;
}

substitute_lem :
    (j : Jitter) (e losses : ℕ)
    → (slot (substituted j e) ≡ some e)
      × (losses_after (substituted j e) losses ≡ losses + 1)
      × (ends (substituted j e) ≡ false)
substitute_lem j e losses = elim (Option-cases (find_next_sequence j)) [
  | inl none_ ↦ rw (none_, substitute) (refl, refl, refl)
  | inr (i, there) ↦ rw (there, substitute) (refl, refl, refl)
]

conceal-Turn :
    (j : Jitter)
    → j.initialized ≡ true
    → j.started ≡ true
    → j.consecutive_loss ≤ 5
    → Turn j (conceal j)
unfolding conceal
conceal-Turn j up on few_lost =
    elim (Bool-cases (ltb max_consecutive_loss ((j.consecutive_loss + 1) % 256))) [
      | inl many ↦ given_up (ground (arith, many)) (rw many refl) (rw many refl)
      | inr few ↦
          let (at, lost, more) = substitute_lem j j.expected_sequence j.consecutive_loss in
          let one_more : (j.consecutive_loss + 1) % 256 ≡ j.consecutive_loss + 1 = omega arith in
          let small : j.consecutive_loss + 1 ≤ 5 = ground (arith, few, one_more) in
          next (rw few (at, omega (arith, lost, small), sym more)) (rw few more) (rw few up)
            (rw few on) (rw few refl) (rw few (one_more ∙ sym lost))
    ]

play-Turn :
    (j : Jitter) (i : ℕ)
    → find_sequence j j.expected_sequence ≡ some i
    → j.initialized ≡ true
    → j.started ≡ true
    → Turn j (play j i)
unfolding play remove_frame
play-Turn j i there up on = elim (Bool-cases ((get_or j.frames i no_frame).flags / 2 % 2 == 1)) [
  | inl ended ↦ last turn ended (rw ended refl)
  | inr more ↦ next turn more (rw more up) (rw more on) (rw more refl) (rw more refl)
]
  where
    turn : IsTurn j.expected_sequence j.consecutive_loss (play j i).1
    turn =
        let is = find-some (has_sequence j.expected_sequence) j.frames i no_frame there in
        (ap some (ground (arith, is)), omega arith, refl)

pub play_next-Turn :
    (j : Jitter)
    → j.initialized ≡ true
    → j.started ≡ true
    → j.consecutive_loss ≤ 5
    → Turn j (play_next j)
play_next-Turn j up on few = elim (Option-cases (find_sequence j j.expected_sequence)) [
  | inl lost ↦ rw (play_next-lost j lost) (conceal-Turn j up on few)
  | inr (i, there) ↦ rw (play_next-there j i there) (play-Turn j i there up on)
]

-- A buffer that has started does not wait.
pub pop_next-started :
    (j : Jitter) (now : ℕ)
    → j.initialized ≡ true
    → j.started ≡ true
    → pop_next j now ≡ play_next (record j { started = true })
pop_next-started j now up on = pop_next-ready j now up (ground (arith, on))

-- What the pops of a stream that plays give are the slots of its sequence numbers, one after
-- another from the expected one on, each played or concealed, with no more than five in a row
-- concealed. The stream ends only after a frame that is marked as its last, or at the pop after five
-- in a row were concealed, and from then on is over at every pop.
pub pops-InOrder :
    (j : Jitter) (nows : List ℕ)
    → j.initialized ≡ true
    → j.started ≡ true
    → j.consecutive_loss ≤ 5
    → InOrder j.expected_sequence j.consecutive_loss (pops j nows)
unfolding pops
pops-InOrder j [] up on few = tt
pops-InOrder j (now ∷ nows) up on few =
    rw (pop_next-started j now up on)
      (go (pops-InOrder out.0 nows) (play_next-Turn (record j { started = true }) up refl few))
  where
    out : Jitter × Pop
    out = play_next (record j { started = true })

    go :
        (out.0.initialized ≡ true
          → out.0.started ≡ true
          → out.0.consecutive_loss ≤ 5
          → InOrder out.0.expected_sequence out.0.consecutive_loss (pops out.0 nows))
        → Turn (record j { started = true }) out
        → InOrder j.expected_sequence j.consecutive_loss (out.1 ∷ pops out.0 nows)
    go rest (given_up five over down) = inl (five, (over, pops-Over out.0 nows down))
    go rest (last turn ended down) = inr (turn, rw ended (pops-Over out.0 nows down))
    go rest (next turn more up' on' e lost) = inr (
      turn,
      rw more (
          subst (λ k. InOrder (add16 j.expected_sequence 1) k (pops out.0 nows)) lost
            (subst (λ k. InOrder k out.0.consecutive_loss (pops out.0 nows)) e
              (rest up' on' (omega (arith, lost, turn))))),
    )
