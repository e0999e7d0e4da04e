-- ===== src/ChatAdmission/Canonical.antt =====
-- The form of a canonical message, which the code leaves as it is.
use shroomio.Base.{
  ℕ, ◌+◌, ◌<◌, ◌≡◌, refl, Bool, true, false, ◌&&◌, ◌||◌, not, Option, none, some, List, [], ◌∷◌,
  ◌++◌, arith, length, length-append, Bool-cases, inl, inr, ltb, leb,
}
use shroomio.ChatAdmission.{is_ascii_whitespace, append_char, append_word, step, write, finish}

-- No white space, and at most 0x7e; a control character passes.
abbrev pub is_kept : ℕ → Bool
is_kept c = not (ltb 0x7e c) && not (is_ascii_whitespace c)

-- Bytes that the code keeps, each after at most one space, which does not come first.
pub data Canonical : List ℕ → Type 0 where
  nothing : Canonical []
  letter : (xs : List ℕ) (c : ℕ) → Canonical xs → is_kept c ≡ true → Canonical (xs ++ c ∷ [])
  word :
      (xs : List ℕ) (c : ℕ)
      → Canonical xs
      → 0 < length xs
      → is_kept c ≡ true
      → Canonical ((xs ++ 32 ∷ []) ++ c ∷ [])

abbrev pub IsValid : ℕ → List ℕ → Bool → Type 0
IsValid capacity out pending =
    Canonical out × (length out < capacity) × (pending ≡ true → 0 < length out)

kept_of : (c : ℕ) → ltb 0x7e c ≡ false → is_ascii_whitespace c ≡ false → is_kept c ≡ true
kept_of c a w = rw a (rw w refl)

-- What a step, or some steps, give: a failure, or a canonical text, with room for its terminator.
pub data Outcome (capacity : ℕ) (o : Option (List ℕ × Bool)) : Type 0 where
  failed : o ≡ none → Outcome capacity o
  went :
      (next : List ℕ) (p : Bool) → o ≡ some (next, p) → IsValid capacity next p → Outcome capacity o

room_for :
    (capacity : ℕ) (out : List ℕ) (c : ℕ)
    → leb capacity (length out + 1) ≡ false
    → length (out ++ c ∷ []) < capacity
room_for capacity out c h = ground (arith, h, length-append out (c ∷ []))

append_char-full :
    (capacity : ℕ) (out : List ℕ) (c : ℕ)
    → leb capacity (length out + 1) ≡ true
    → append_char capacity out c ≡ none
append_char-full capacity out c full = rw full refl

pub append_char-fits :
    (capacity : ℕ) (out : List ℕ) (c : ℕ)
    → leb capacity (length out + 1) ≡ false
    → append_char capacity out c ≡ some (out ++ c ∷ [])
append_char-fits capacity out c fits = rw fits refl

-- Writing a kept character after a text that goes on with it.
append_word-Outcome :
    (capacity : ℕ) (out : List ℕ) (c : ℕ)
    → Canonical (out ++ c ∷ [])
    → Outcome capacity (append_word capacity c (some out))
append_word-Outcome capacity out c canonical = elim (Bool-cases (leb capacity (length out + 1))) [
  | inl full ↦ failed (rw (append_char-full capacity out c full, append_word) refl)
  | inr fits ↦
      went (out ++ c ∷ []) false (rw (append_char-fits capacity out c fits, append_word) refl)
        (canonical, room_for capacity out c fits, λ p. cc)
]

step-Outcome :
    (capacity : ℕ) (out : List ℕ) (pending : Bool) (c : ℕ)
    → IsValid capacity out pending
    → Outcome capacity (step capacity out pending c)
unfolding step
step-Outcome capacity out pending c v = elim (Bool-cases (ltb 0x7e c)) [
  | inl high ↦ went out pending (rw high refl) v
  | inr low ↦ rw low (elim (Bool-cases (is_ascii_whitespace c)) [
    | inl space ↦
        went out (pending || ltb 0 (length out)) (rw space refl)
          (v.0, v.1, started pending (length out) v.2)
    | inr other ↦ rw other (elim (Bool-cases pending) [
      | inr flat ↦
          rw flat (append_word-Outcome capacity out c (letter out c v.0 (kept_of c low other)))
      | inl spaced ↦ rw spaced (elim (Bool-cases (leb capacity (length out + 1))) [
        | inl full ↦ failed (rw (append_char-full capacity out 32 full) refl)
        | inr fits ↦ rw (append_char-fits capacity out 32 fits) (
            append_word-Outcome capacity (out ++ 32 ∷ []) c
              (word out c v.0 (v.2 spaced) (kept_of c low other)))
      ])
    ])
  ])
]
  where
    started : (p : Bool) (n : ℕ) → (p ≡ true → 0 < n) → (p || ltb 0 n) ≡ true → 0 < n
    started true n h e = h refl
    started false n h e = ground arith

pub write-next :
    (capacity : ℕ) (out : List ℕ) (pending : Bool) (c : ℕ) (cs next : List ℕ) (p : Bool)
    → step capacity out pending c ≡ some (next, p)
    → write capacity out pending (c ∷ cs) ≡ write capacity next p cs
unfolding write
write-next capacity out pending c cs next p e = rw (e, write) refl

pub write-failed :
    (capacity : ℕ) (out : List ℕ) (pending : Bool) (c : ℕ) (cs : List ℕ)
    → step capacity out pending c ≡ none
    → write capacity out pending (c ∷ cs) ≡ none
unfolding write
write-failed capacity out pending c cs e = rw (e, write) refl

pub write-Outcome :
    (capacity : ℕ) (out : List ℕ) (pending : Bool) (cs : List ℕ)
    → IsValid capacity out pending
    → Outcome capacity (write capacity out pending cs)
unfolding write
write-Outcome capacity out pending [] v = went out pending refl v
write-Outcome capacity out pending (c ∷ cs) v = elim (step-Outcome capacity out pending c v) [
  | failed e ↦ failed (write-failed capacity out pending c cs e)
  | went next p e w ↦
      rw (write-next capacity out pending c cs next p e) (write-Outcome capacity next p cs w)
]

pub finish-Canonical :
    (capacity : ℕ) (o : Option (List ℕ × Bool))
    → 0 < capacity
    → Outcome capacity o
    → Canonical (finish o).0 × (length (finish o).0 < capacity)
finish-Canonical capacity o pos (failed e) = rw e (nothing, pos)
finish-Canonical capacity o pos (went next p e v) = rw e (v.0, v.1)
