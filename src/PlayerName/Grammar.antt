-- ===== src/PlayerName/Grammar.antt =====
-- What a name looks like, and how long it can be.
use mathlib.Core.List.{append-nil, append_assoc}
use shroomio.Base.{
  ℕ, ◌+◌, ◌≤◌, ◌<◌, ◌≡◌, refl, sym, ap, ◌∙◌, Bool, true, false, Option, none, some, List, [], ◌∷◌,
  ◌++◌, arith, length, length-append, All, Bool-cases, inl, inr, is_space,
}
use shroomio.PlayerName.{max_name_length, is_name_char, has_room, step, write, sanitize}

-- Characters of a name, each after at most one space, which does not come first.
pub data Name : List ℕ → Type 0 where
  nothing : Name []
  letter : (xs : List ℕ) (c : ℕ) → Name xs → is_name_char c ≡ true → Name (xs ++ c ∷ [])
  word :
      (xs : List ℕ) (c : ℕ)
      → Name xs
      → 0 < length xs
      → is_name_char c ≡ true
      → Name ((xs ++ 32 ∷ []) ++ c ∷ [])

abbrev IsValid : List ℕ → Bool → Type 0
IsValid out pending = Name out × (length out ≤ max_name_length) × (pending ≡ true → 0 < length out)

step-IsValid :
    (out : List ℕ) (pending : Bool) (c : ℕ)
    → IsValid out pending
    → has_room out ≡ true
    → let (next, p) = step out pending c in IsValid next p
unfolding step
step-IsValid out pending c (name, short, after) room = elim (Bool-cases (is_space c)) [
  | inl space ↦ rw space (name, short, λ p. ground arith)
  | inr other ↦ rw other (elim (Bool-cases (is_name_char c)) [
    | inr skipped ↦ rw skipped (name, short, after)
    | inl char ↦ rw char (elim (Bool-cases pending) [
      | inr flat ↦
          rw flat
            (letter out c name char, omega (arith, length-append out (c ∷ []), space_left), λ p. cc)
      | inl spaced ↦ rw spaced (
          rw room (
            word out c name (after spaced) char,
            omega (
              arith,
              length-append (out ++ 32 ∷ []) (c ∷ []),
              length-append out (32 ∷ []),
              space_left,
            ),
            λ p. cc,
          ))
    ])
  ])
]
  where
    space_left : length out + 1 < max_name_length
    space_left = ground arith

write-IsValid :
    (out : List ℕ) (pending : Bool) (cs : List ℕ)
    → IsValid out pending
    → Name (write out pending cs) × (length (write out pending cs) ≤ max_name_length)
unfolding write
write-IsValid out pending [] v = (v.0, v.1)
write-IsValid out pending (c ∷ cs) v =
    let (next, p) = step out pending c in
    elim (Bool-cases (has_room out)) [
      | inl room ↦ rw room (write-IsValid next p cs (step-IsValid out pending c v room))
      | inr full ↦ rw full (v.0, v.1)
    ]

-- What is left of any text, or of none, is a name: letters, digits and the three other characters,
-- each after at most one space, which does not come first. It has at most as many characters as
-- the array has bytes, which is one too many for the terminator that follows it.
pub sanitize-Name :
    (source : Option (List ℕ))
    → Name (sanitize source) × (length (sanitize source) ≤ max_name_length)
unfolding sanitize
sanitize-Name none = (nothing, omega arith)
sanitize-Name (some source) = write-IsValid [] false source (nothing, omega arith, λ p. cc)

write-chars :
    (out cs rest : List ℕ)
    → All (λ c. (is_space c ≡ false) × (is_name_char c ≡ true)) cs
    → length out + length cs < max_name_length
    → write out false (cs ++ rest) ≡ write (out ++ cs) false rest
unfolding write step
write-chars out [] rest chars short = ap (λ xs. write xs false rest) (sym (append-nil out))
write-chars out (c ∷ cs) rest chars short = rw (room short) (
    rw (chars.0.0) (
      rw (chars.0.1) (
        write-chars (out ++ c ∷ []) cs rest chars.1 (omega (arith, length-append out (c ∷ [])))
        ∙ ap (λ xs. write xs false rest) (append_assoc out (c ∷ []) cs))))
  where
    room : length out + length (c ∷ cs) < max_name_length → has_room out ≡ true
    room h = ground (arith, h)

write-last :
    (cs : List ℕ) (c : ℕ)
    → length cs ≡ 30
    → is_space c ≡ false
    → is_name_char c ≡ true
    → write cs false (32 ∷ c ∷ []) ≡ (cs ++ 32 ∷ []) ++ c ∷ []
unfolding write step
write-last cs c thirty plain char = rw thirty (rw plain (rw char refl))

-- Thirty characters of a name, a space, and one more character of a name fill the whole array, all
-- of its thirty-two bytes: the terminator is written behind it.
pub sanitize-overflow :
    (cs : List ℕ) (c : ℕ)
    → length cs ≡ 30
    → All (λ x. (is_space x ≡ false) × (is_name_char x ≡ true)) cs
    → is_space c ≡ false
    → is_name_char c ≡ true
    → (sanitize (some (cs ++ 32 ∷ c ∷ [])) ≡ cs ++ 32 ∷ c ∷ [])
      × (length (sanitize (some (cs ++ 32 ∷ c ∷ []))) ≡ max_name_length)
unfolding sanitize
sanitize-overflow cs c thirty chars plain char =
    let whole : write [] false (cs ++ 32 ∷ c ∷ []) ≡ cs ++ 32 ∷ c ∷ [] =
      write-chars [] cs (32 ∷ c ∷ []) chars (omega arith)
      ∙ write-last cs c thirty plain char
      ∙ append_assoc cs (32 ∷ []) (c ∷ []) in
    (whole, omega (arith, ap length whole, length-append cs (32 ∷ c ∷ [])))
