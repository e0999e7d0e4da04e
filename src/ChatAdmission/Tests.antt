-- ===== src/ChatAdmission/Tests.antt =====
-- Messages with spaces and with bytes that are not ASCII.
use shroomio.Base.{
  ℕ, ◌≡◌, ◌≤◌, refl, true, false, some, List, [], ◌∷◌, ◌++◌, length, ltb, replicate, arith,
}
use shroomio.ChatAdmission.{
  text_of, step, write, canonicalize_text, canonicalize_message, is_canonical_message,
}
use shroomio.ChatAdmission.Canonical.{Canonical}
use shroomio.ChatAdmission.Fixed.{canonicalize_text-Canonical}

-- " h  i " with a byte in it that is not ASCII.
abbrev text : List ℕ
text = 32 ∷ 104 ∷ 32 ∷ 200 ∷ 32 ∷ 105 ∷ 32 ∷ []

packed : canonicalize_message (some (text ++ replicate 3 0)) 201 ≡ some (104 ∷ 32 ∷ 105 ∷ [], true)
unfolding canonicalize_message text_of write step
packed = refl

not_canonical : is_canonical_message (some (text ++ replicate 3 0)) ≡ false
unfolding is_canonical_message canonicalize_message text_of write step
not_canonical = refl

canonical : is_canonical_message (some (104 ∷ 32 ∷ 105 ∷ 0 ∷ [])) ≡ true
unfolding is_canonical_message canonicalize_message text_of write step
canonical = refl

canonicalize_text-Canonical_example :
    let (out, ok) = canonicalize_text 201 (some text) in
    Canonical out
    × (length out ≤ 200)
    × (ok ≡ ltb 0 (length out))
    × (canonicalize_text 201 (some out) ≡ (out, ok))
canonicalize_text-Canonical_example = canonicalize_text-Canonical (some text) 200 (omega arith)

-- A space at the end is not seen: only the canonical text is compared.
trailing_space : is_canonical_message (some (104 ∷ 105 ∷ 32 ∷ 0 ∷ [])) ≡ true
unfolding is_canonical_message canonicalize_message text_of write step
trailing_space = refl
