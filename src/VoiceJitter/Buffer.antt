-- ===== src/VoiceJitter/Buffer.antt =====
-- What stays true of the buffer.
use shroomio.Base.{
  ℕ, zero, suc, ◌+◌, ◌%◌, ◌/◌, ◌≤◌, ◌<◌, ◌≡◌, ◌≢◌, inl, inr, refl, sym, Bool, true, false, ◌&&◌,
  ◌||◌, not, Option, none, some, List, [], ◌∷◌, ◌++◌, arith, length, length-append, get_or, All,
  Bool-cases, Option-cases, ltb, leb, ◌==◌,
}
use shroomio.VoiceFrame.{VoiceFrame, is_start, is_valid}
use shroomio.VoiceJitter.{
  Frame, Jitter, init, start_stream, find, has_sequence, find_sequence, remove_at, remove_frame,
  frame_of, store, push, play, conceal, play_next, pop_next, capacity, max_consecutive_loss,
  is_before, waits, no_frame, nothing, finished, wait,
}

-- No two frames have the same sequence number.
abbrev pub Distinct : List Frame → Type 0
Distinct [] = Unit
Distinct (x ∷ xs) = All (λ y. y.sequence ≢ x.sequence) xs × Distinct xs

-- A buffer that has not been initialised is empty, and has not started.
abbrev pub IsValid : Jitter → Type 0
IsValid j =
    (length j.frames ≤ capacity)
    × Distinct j.frames
    × (j.consecutive_loss ≤ max_consecutive_loss)
    × (j.initialized ≡ false → (j.frames ≡ []) × (j.started ≡ false))

pub find-none :
    (s : ℕ) (xs : List Frame) → find (has_sequence s) xs ≡ none → All (λ y. y.sequence ≢ s) xs
unfolding find
find-none s [] h = tt
find-none s (x ∷ xs) h = elim (Bool-cases (has_sequence s x)) [
  | inl is ↦ cc (h, is)
  | inr other ↦ (
    ground arith,
    find-none s xs (elim (Option-cases (find (has_sequence s) xs)) [
      | inl none_ ↦ none_
      | inr (i, some_) ↦ cc (h, other, some_)
    ]),
  )
]

All-append_one {ℓ κ} :
    {A : Type ℓ} (P : A → Type κ) (xs : List A) (x : A) → All P xs → P x → All P (xs ++ x ∷ [])
All-append_one P [] x a p = (p, tt)
All-append_one P (y ∷ ys) x a p = (a.0, All-append_one P ys x a.1 p)

pub Distinct-append_one :
    (xs : List Frame) (x : Frame)
    → Distinct xs
    → All (λ y. y.sequence ≢ x.sequence) xs
    → Distinct (xs ++ x ∷ [])
Distinct-append_one [] x d a = (tt, tt)
Distinct-append_one (y ∷ ys) x d a = (
  All-append_one (λ z. z.sequence ≢ y.sequence) ys x d.0 (λ e. a.0 (sym e)),
  Distinct-append_one ys x d.1 a.1,
)

All-remove_at {κ} :
    (P : Frame → Type κ) (xs : List Frame) (i : ℕ) → All P xs → All P (remove_at xs i)
unfolding remove_at
All-remove_at P [] i a = a
All-remove_at P (x ∷ xs) zero a = a.1
All-remove_at P (x ∷ xs) (suc i) a = (a.0, All-remove_at P xs i a.1)

Distinct-remove_at : (xs : List Frame) (i : ℕ) → Distinct xs → Distinct (remove_at xs i)
unfolding remove_at
Distinct-remove_at [] i d = d
Distinct-remove_at (x ∷ xs) zero d = d.1
Distinct-remove_at (x ∷ xs) (suc i) d =
    (All-remove_at (λ y. y.sequence ≢ x.sequence) xs i d.0, Distinct-remove_at xs i d.1)

length-remove_at-le : (xs : List Frame) (i : ℕ) → length (remove_at xs i) ≤ length xs
unfolding remove_at
length-remove_at-le [] i = omega arith
length-remove_at-le (x ∷ xs) zero = omega arith
length-remove_at-le (x ∷ xs) (suc i) = omega (arith, length-remove_at-le xs i)

init-IsValid : IsValid init
init-IsValid = (omega arith, tt, omega arith, λ h. (refl, refl))

store-IsValid :
    (j : Jitter) (p : VoiceFrame) (at : ℕ)
    → IsValid j
    → j.initialized ≡ true
    → IsValid (store j p at).0
unfolding store
store-IsValid j p at v up =
    elim (Bool-cases (j.started && is_before p.sequence j.expected_sequence)) [
      | inl late_ ↦ rw late_ v
      | inr timely ↦ rw timely (elim (Option-cases (find_sequence j p.sequence)) [
        | inr (i, twice) ↦ rw twice v
        | inl new ↦ rw new (elim (Bool-cases (leb capacity (length j.frames))) [
          | inl full ↦ rw full v
          | inr room ↦ rw room (
            omega (arith, ltb_of room, length-append j.frames (frame_of p at ∷ [])),
            Distinct-append_one j.frames (frame_of p at) v.1 (find-none p.sequence j.frames new),
            v.2,
            λ down. cc (up, down),
          )
        ])
      ])
    ]
  where
    ltb_of : leb capacity (length j.frames) ≡ false → length j.frames < capacity
    ltb_of h = ground arith

push-IsValid :
    (j : Jitter) (p : Option VoiceFrame) (wire at : ℕ) → IsValid j → IsValid (push j p wire at).0
unfolding push start_stream
push-IsValid j none wire at v = v
push-IsValid j (some p) wire at v =
    elim (Bool-cases (not (is_valid (some p) wire) || p.sender_id == 0)) [
      | inl bad ↦ rw bad v
      | inr good ↦ rw good (elim (Bool-cases (is_start p)) [
        | inl first ↦ rw first (
            store-IsValid (start_stream p at) p at (omega arith, tt, omega arith, λ down. cc down)
              refl)
        | inr next ↦
            rw next (elim (Bool-cases (not j.initialized || not (j.stream_id == p.stream_id))) [
              | inl unknown ↦ rw unknown v
              | inr known ↦ rw known (store-IsValid j p at v (ground arith))
            ])
      ])
    ]

pub play_next-there :
    (j : Jitter) (i : ℕ) → find_sequence j j.expected_sequence ≡ some i → play_next j ≡ play j i
unfolding play_next
play_next-there j i there = rw (there, play_next) refl

pub play_next-lost :
    (j : Jitter) → find_sequence j j.expected_sequence ≡ none → play_next j ≡ conceal j
unfolding play_next
play_next-lost j lost = rw (lost, play_next) refl

pub play_next-IsValid : (j : Jitter) → IsValid j → j.initialized ≡ true → IsValid (play_next j).0
unfolding play conceal remove_frame
play_next-IsValid j v up = elim (Option-cases (find_sequence j j.expected_sequence)) [
  | inr (i, there) ↦ rw (play_next-there j i there) (elim (Bool-cases (is_last i)) [
    | inl ended ↦ rw ended init-IsValid
    | inr on ↦ rw on (
      omega (arith, length-remove_at-le j.frames i),
      Distinct-remove_at j.frames i v.1,
      omega arith,
      λ down. cc (up, down),
    )
  ])
  | inl lost ↦
      rw (play_next-lost j lost)
        (elim (Bool-cases (ltb max_consecutive_loss ((j.consecutive_loss + 1) % 256))) [
          | inl given_up ↦ rw given_up init-IsValid
          | inr on ↦ rw on (v.0, v.1, ground arith, λ down. cc (up, down))
        ])
]
  where
    is_last : ℕ → Bool
    is_last i = (get_or j.frames i no_frame).flags / 2 % 2 == 1

pub pop_next-down :
    (j : Jitter) (now : ℕ) → j.initialized ≡ false → pop_next j now ≡ (j, nothing finished)
unfolding pop_next
pop_next-down j now down = rw down refl

pub pop_next-early :
    (j : Jitter) (now : ℕ)
    → j.initialized ≡ true
    → waits j now ≡ true
    → pop_next j now ≡ (j, nothing wait)
unfolding pop_next
pop_next-early j now up early = rw early (rw up refl)

pub pop_next-ready :
    (j : Jitter) (now : ℕ)
    → j.initialized ≡ true
    → waits j now ≡ false
    → pop_next j now ≡ play_next (record j { started = true })
unfolding pop_next
pop_next-ready j now up ready = rw ready (rw up refl)

pub pop_next-IsValid : (j : Jitter) (now : ℕ) → IsValid j → IsValid (pop_next j now).0
pop_next-IsValid j now v = elim (Bool-cases j.initialized) [
  | inr down ↦ rw (pop_next-down j now down) v
  | inl up ↦ elim (Bool-cases (waits j now)) [
    | inl early ↦ rw (pop_next-early j now up early) v
    | inr ready ↦
        rw (pop_next-ready j now up ready) (
          play_next-IsValid (record j { started = true }) (v.0, v.1, v.2, λ down. cc (up, down)) up)
  ]
]

pub data Call : Type 0 where
  pushes : Option VoiceFrame → ℕ → ℕ → Call
  pops : ℕ → Call

unfoldable pub run : Jitter → List Call → Jitter
run j [] = j
run j (pushes p wire at ∷ cs) = run (push j p wire at).0 cs
run j (pops now ∷ cs) = run (pop_next j now).0 cs

run_from-IsValid : (j : Jitter) (cs : List Call) → IsValid j → IsValid (run j cs)
unfolding run
run_from-IsValid j [] v = v
run_from-IsValid j (pushes p wire at ∷ cs) v =
    run_from-IsValid (push j p wire at).0 cs (push-IsValid j p wire at v)
run_from-IsValid j (pops now ∷ cs) v =
    run_from-IsValid (pop_next j now).0 cs (pop_next-IsValid j now v)

-- Whatever is pushed and popped, and in whatever order, the buffer holds at most the frames that it
-- has room for, no two with the same sequence number, counts at most five losses in a row, and
-- while it is not initialised is empty and has not started.
pub run-IsValid : (cs : List Call) → IsValid (run init cs)
run-IsValid cs = run_from-IsValid init cs init-IsValid
