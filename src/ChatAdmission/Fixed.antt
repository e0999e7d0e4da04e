-- ===== src/ChatAdmission/Fixed.antt =====
-- A canonical message stays as it is.
use mathlib.Core.Option.{some-injective}
use mathlib.Core.List.{append_assoc}
use shroomio.Base.{
  ℕ, suc, ◌+◌, ◌≤◌, ◌<◌, ◌≡◌, refl, sym, ap, ◌∙◌, Bool, true, false, ◌&&◌, not, Option, none, some,
  List, [], ◌∷◌, ◌++◌, arith, length, length-append, Bool-cases, Option-cases, inl, inr, ltb, leb,
}
use shroomio.ChatAdmission.{
  max_message_length, is_ascii_whitespace, append_word, step, write, finish, canonicalize_text,
}
use shroomio.ChatAdmission.Canonical.{
  is_kept, Canonical, Outcome, nothing, letter, word, write-next, write-failed, write-Outcome,
  finish-Canonical, append_char-fits,
}

write-append :
    (capacity : ℕ) (out : List ℕ) (p : Bool) (xs ys mid : List ℕ) (q : Bool)
    → write capacity out p xs ≡ some (mid, q)
    → write capacity out p (xs ++ ys) ≡ write capacity mid q ys
unfolding write
write-append capacity out p [] ys mid q h =
    let e : ◌≡◌ {A = List ℕ × Bool} (out, p) (mid, q) = some-injective (out, p) (mid, q) h in
    ap (λ s. write capacity s.0 s.1 ys) e
write-append capacity out p (c ∷ cs) ys mid q h = elim (Option-cases (step capacity out p c)) [
  | inl none_ ↦ absurd (apart (sym (write-failed capacity out p c cs none_) ∙ h))
  | inr (s, went) ↦
      write-next capacity out p c (cs ++ ys) s.0 s.1 went
      ∙ write-append capacity s.0 s.1 cs ys mid q
          (sym (write-next capacity out p c cs s.0 s.1 went) ∙ h)
]
  where
    apart : ◌≡◌ {A = Option (List ℕ × Bool)} none (some (mid, q)) → ⊥
    apart e = cc

parts_of : (c : ℕ) → is_kept c ≡ true → (ltb 0x7e c ≡ false) × (is_ascii_whitespace c ≡ false)
parts_of c h = both (ltb 0x7e c) (is_ascii_whitespace c) h
  where
    both : (a b : Bool) → (not a && not b) ≡ true → (a ≡ false) × (b ≡ false)
    both true b e = absurd (wrong e)
      where
        wrong : ◌≡◌ {A = Bool} false true → ⊥
        wrong e = cc
    both false true e = absurd (wrong e)
      where
        wrong : ◌≡◌ {A = Bool} false true → ⊥
        wrong e = cc
    both false false e = (refl, refl)

fits_of :
    (capacity : ℕ) (out : List ℕ)
    → length out + 1 < capacity
    → leb capacity (length out + 1) ≡ false
fits_of capacity out h = ground (arith, h)

write-kept :
    (capacity : ℕ) (out : List ℕ) (c : ℕ)
    → is_kept c ≡ true
    → length out + 1 < capacity
    → write capacity out false (c ∷ []) ≡ some (out ++ c ∷ [], false)
unfolding write step
write-kept capacity out c kept room =
    let (low, plain) = parts_of c kept in
    write-next capacity out false c [] (out ++ c ∷ []) false (
      rw low (
        rw plain
          (rw (append_char-fits capacity out c (fits_of capacity out room), append_word) refl)))

write-spaced :
    (capacity : ℕ) (out : List ℕ) (c : ℕ)
    → 0 < length out
    → is_kept c ≡ true
    → length (out ++ 32 ∷ []) + 1 < capacity
    → write capacity out false (32 ∷ c ∷ []) ≡ some ((out ++ 32 ∷ []) ++ c ∷ [], false)
unfolding write step
write-spaced capacity out c begun kept room =
    let (low, plain) = parts_of c kept in
    let first : length out + 1 < capacity = omega (arith, room, length-append out (32 ∷ [])) in
    write-next capacity out false 32 (c ∷ []) out true
      (ap (λ b. some (out, b)) (some_left (length out) begun))
    ∙ write-next capacity out true c [] ((out ++ 32 ∷ []) ++ c ∷ []) false (
        rw low (
          rw plain (
            rw (append_char-fits capacity out 32 (fits_of capacity out first)) (
              rw
                (
                  append_char-fits capacity (out ++ 32 ∷ []) c
                      (fits_of capacity (out ++ 32 ∷ []) room),
                  append_word,
                )
                refl))))
  where
    some_left : (n : ℕ) → 0 < n → ltb 0 n ≡ true
    some_left n h = ground (arith, h)

write-Canonical :
    (capacity : ℕ) (xs : List ℕ)
    → Canonical xs
    → length xs < capacity
    → write capacity [] false xs ≡ some (xs, false)
unfolding write
write-Canonical capacity xs nothing short = refl
write-Canonical capacity xs (letter ys c canonical kept) short =
    write-append capacity [] false ys (c ∷ []) ys false
      (write-Canonical capacity ys canonical (omega (arith, length-append ys (c ∷ []))))
    ∙ write-kept capacity ys c kept (omega (arith, length-append ys (c ∷ [])))
write-Canonical capacity xs (word ys c canonical begun kept) short =
    let l1 = length-append ys (32 ∷ []) in
    let l2 = length-append (ys ++ 32 ∷ []) (c ∷ []) in
    ap (λ zs. write capacity [] false zs) (append_assoc ys (32 ∷ []) (c ∷ []))
    ∙ write-append capacity [] false ys (32 ∷ c ∷ []) ys false
        (write-Canonical capacity ys canonical (omega (arith, l1, l2)))
    ∙ write-spaced capacity ys c begun kept (omega (arith, l1, l2))

canonicalize_text-fixed :
    (n : ℕ) (out : List ℕ)
    → n ≤ max_message_length
    → Canonical out
    → length out ≤ n
    → canonicalize_text (suc n) (some out) ≡ (out, ltb 0 (length out))
canonicalize_text-fixed n out small canonical short =
    rw (write-Canonical (suc n) out canonical (omega arith))
      (rw (fits (length out) (omega arith)) refl)
  where
    fits : (k : ℕ) → k ≤ max_message_length → ltb max_message_length k ≡ false
    fits k h = ground (arith, h)

-- Whatever text comes in, or none, what is left in an output array of at most one byte more than the
-- longest message is canonical: bytes up to 0x7e that are not white space, control characters among
-- them, each after at most one space, which does not come first. It fits in the array with its terminator, is accepted exactly if it is not
-- empty, and canonicalizing it again changes nothing and gives the same answer.
pub canonicalize_text-Canonical :
    (text : Option (List ℕ)) (n : ℕ)
    → n ≤ max_message_length
    → let (out, ok) = canonicalize_text (suc n) text in
      Canonical out
      × (length out ≤ n)
      × (ok ≡ ltb 0 (length out))
      × (canonicalize_text (suc n) (some out) ≡ (out, ok))
canonicalize_text-Canonical none n small =
    (nothing, omega arith, refl, canonicalize_text-fixed n [] small nothing (omega arith))
canonicalize_text-Canonical (some text) n small =
    elim (Bool-cases (ltb max_message_length (length text))) [
      | inl long ↦
          rw long
            (nothing, omega arith, refl, canonicalize_text-fixed n [] small nothing (omega arith))
      | inr fine ↦ rw fine (
          written (write (suc n) [] false text)
            (write-Outcome (suc n) [] false text (nothing, omega arith, λ p. cc)))
    ]
  where
    answer : (o : Option (List ℕ × Bool)) → (finish o).1 ≡ ltb 0 (length (finish o).0)
    answer none = refl
    answer (some (out, p)) = refl

    written :
        (o : Option (List ℕ × Bool))
        → Outcome (suc n) o
        → Canonical (finish o).0
          × (length (finish o).0 ≤ n)
          × ((finish o).1 ≡ ltb 0 (length (finish o).0))
          × (canonicalize_text (suc n) (some (finish o).0) ≡ ((finish o).0, (finish o).1))
    written o outcome =
        let (canonical, short) = finish-Canonical (suc n) o (omega arith) outcome in
        (
          canonical,
          omega (arith, short),
          answer o,
          canonicalize_text-fixed n (finish o).0 small canonical (omega (arith, short))
              ∙ ap (λ b. ((finish o).0, b)) (sym (answer o)),
        )
