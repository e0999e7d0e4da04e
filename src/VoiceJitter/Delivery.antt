-- ===== src/VoiceJitter/Delivery.antt =====
-- A frame in the buffer and its turn.
use mathlib.Core.Option.{some-injective}
use mathlib.Core.Bool.{true≢false}
use shroomio.Base.{
  ℕ, zero, suc, ◌+◌, ◌%◌, ◌/◌, ◌<◌, ◌≡◌, ◌≢◌, inl, inr, refl, sym, ap, subst, ◌∙◌, true, false,
  Option, none, some, List, [], ◌∷◌, arith, length, get_or, get_elem?, All, Bool-cases,
  Option-cases, ltb, ◌==◌, add16, u16_mod,
}
use shroomio.VoiceJitter.{
  Frame, Jitter, frame, no_frame, find, has_sequence, find_sequence, remove_at, remove_frame, play,
  conceal, play_next, pop_next, max_consecutive_loss,
}
use shroomio.VoiceJitter.Buffer.{
  IsValid, Distinct, play_next-there, play_next-lost, play_next-IsValid, pop_next-down,
}
use shroomio.VoiceJitter.Playback.{
  after, given_up, last, next, play_next-Turn, pop_next-started, find-some,
}

abbrev pub In : Frame → List Frame → Type 0
In f xs = (i : ℕ) × (get_elem? xs i ≡ some f)

All-In :
    (s : ℕ) (f : Frame) (xs : List Frame) → All (λ y. y.sequence ≢ s) xs → In f xs → f.sequence ≢ s
All-In s f [] a (i, h) = λ e. cc
All-In s f (x ∷ xs) a (zero, h) = subst (λ y. y.sequence ≢ s) (some-injective x f h) a.0
All-In s f (x ∷ xs) a (suc i, h) = All-In s f xs a.1 (i, h)

-- A frame is the one that the search for its sequence number finds.
find_unique :
    (f : Frame) (xs : List Frame)
    → Distinct xs
    → In f xs
    → (i : ℕ) × (find (has_sequence f.sequence) xs ≡ some i) × (get_or xs i no_frame ≡ f)
unfolding find
find_unique f [] d (i, h) = absurd (nothing_there h)
  where
    nothing_there : ◌≡◌ {A = Option Frame} none (some f) → ⊥
    nothing_there e = cc
find_unique f (x ∷ xs) d (zero, h) =
    (0, rw (self (some-injective x f h)) refl, some-injective x f h)
  where
    self : x ≡ f → has_sequence f.sequence x ≡ true
    self e = subst (λ y. has_sequence y.sequence x ≡ true) e (ground arith)
find_unique f (x ∷ xs) d (suc i, h) =
    let (k, there, is) = find_unique f xs d.1 (i, h) in
    (suc k, rw (other (All-In x.sequence f xs d.0 (i, h))) (rw there refl), is)
  where
    other : f.sequence ≢ x.sequence → has_sequence f.sequence x ≡ false
    other ne = ground arith

In-remove_at :
    (f : Frame) (xs : List Frame) (k : ℕ)
    → get_or xs k no_frame ≢ f
    → In f xs
    → In f (remove_at xs k)
unfolding remove_at
In-remove_at f [] k ne (i, h) = (i, h)
In-remove_at f (x ∷ xs) zero ne (zero, h) = absurd (ne (some-injective x f h))
In-remove_at f (x ∷ xs) zero ne (suc i, h) = (i, h)
In-remove_at f (x ∷ xs) (suc k) ne (zero, h) = (0, h)
In-remove_at f (x ∷ xs) (suc k) ne (suc i, h) =
    let (m, there) = In-remove_at f xs k ne (i, h) in (suc m, there)

conceal-In :
    (j : Jitter) (f : Frame)
    → In f j.frames
    → (conceal j).0.initialized ≡ true
    → In f (conceal j).0.frames
unfolding conceal
conceal-In j f in_ = elim (Bool-cases (ltb max_consecutive_loss ((j.consecutive_loss + 1) % 256))) [
  | inl many ↦ rw many (λ up. cc)
  | inr few ↦ rw few (λ up. in_)
]

play-In :
    (j : Jitter) (f : Frame) (i : ℕ)
    → get_or j.frames i no_frame ≢ f
    → In f j.frames
    → (play j i).0.initialized ≡ true
    → In f (play j i).0.frames
unfolding play remove_frame
play-In j f i ne in_ = elim (Bool-cases ((get_or j.frames i no_frame).flags / 2 % 2 == 1)) [
  | inl ended ↦ rw ended (λ up. cc)
  | inr more ↦ rw more (λ up. In-remove_at f j.frames i ne in_)
]

-- A pop keeps the frames of later slots, unless it ends the stream.
play_next-In :
    (j : Jitter) (f : Frame)
    → f.sequence ≢ j.expected_sequence
    → In f j.frames
    → (play_next j).0.initialized ≡ true
    → In f (play_next j).0.frames
play_next-In j f ne in_ = elim (Option-cases (find_sequence j j.expected_sequence)) [
  | inl lost ↦ rw (play_next-lost j lost) (conceal-In j f in_)
  | inr (i, there) ↦ rw (play_next-there j i there) (play-In j f i (other i there) in_)
]
  where
    other : (i : ℕ) → find_sequence j j.expected_sequence ≡ some i → get_or j.frames i no_frame ≢ f
    other i there e =
        let is = find-some (has_sequence j.expected_sequence) j.frames i no_frame there in
        ne (ap (λ y. y.sequence) (sym e) ∙ ground (arith, is))

play_next-plays :
    (j : Jitter) (f : Frame)
    → IsValid j
    → In f j.frames
    → f.sequence ≡ j.expected_sequence
    → ((play_next j).1.kind ≡ frame) × ((play_next j).1.frame ≡ f)
unfolding play remove_frame
play_next-plays j f v in_ e =
    let (i, there, is) = find_unique f j.frames v.1 in_ in
    rw (play_next-there j i (subst (λ s. find_sequence j s ≡ some i) e there)) (refl, is)

after-down :
    (j : Jitter) (nows : List ℕ) → j.initialized ≡ false → (after j nows).initialized ≡ false
unfolding after
after-down j [] down = down
after-down j (now ∷ nows) down = rw (pop_next-down j now down, after) (after-down j nows down)

-- A frame that waits in a stream that plays is played whole at its turn, the pop at which its
-- sequence number is the expected one, unless the stream has ended before.
pub pop_next-plays :
    (j : Jitter) (f : Frame) (nows : List ℕ) (now : ℕ)
    → IsValid j
    → j.initialized ≡ true
    → j.started ≡ true
    → In f j.frames
    → j.expected_sequence < u16_mod
    → length nows < u16_mod
    → f.sequence ≡ add16 j.expected_sequence (length nows)
    → (after j nows).initialized ≡ true
    → let r = (pop_next (after j nows) now).1 in (r.kind ≡ frame) × (r.frame ≡ f)
unfolding after
pop_next-plays j f [] now v up on in_ small fits e alive = rw (pop_next-started j now up on) (
    play_next-plays (record j { started = true }) f (v.0, v.1, v.2, λ down. cc (up, down)) in_
      (omega arith))
pop_next-plays j f (n ∷ nows) now v up on in_ small fits e alive =
    let k : Jitter = record j { started = true } in
    let m : Jitter = (play_next k).0 in
    let w : IsValid k = (v.0, v.1, v.2, λ down. cc (up, down)) in
    let pop = pop_next-started j n up on in
    let alive' : (after m nows).initialized ≡ true =
      subst (λ o. (after o.0 nows).initialized ≡ true) pop alive in
    let ne : f.sequence ≢ j.expected_sequence = λ h. omega (arith, e, h) in
    let ended : m.initialized ≡ false → ⊥ =
      λ down. true≢false (sym alive' ∙ after-down m nows down) in
    let played : m.initialized ≡ true
        → m.started ≡ true
        → m.expected_sequence ≡ add16 j.expected_sequence 1
        → let r = (pop_next (after m nows) now).1 in (r.kind ≡ frame) × (r.frame ≡ f) =
      λ up' on' moved.
        pop_next-plays m f nows now (play_next-IsValid k w up) up' on' (play_next-In k f ne in_ up')
          (omega (arith, moved)) (omega arith) (omega (arith, moved, e)) alive' in
    rw (pop, after)
      (elim (play_next-Turn k up refl v.2) [
        | given_up five over down ↦ absurd (ended down)
        | last turn is_last down ↦ absurd (ended down)
        | next turn more up' on' moved lost ↦ played up' on' moved
      ])
