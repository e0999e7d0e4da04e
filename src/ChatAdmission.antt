-- ===== src/ChatAdmission.antt =====
-- src/shared/chat_admission.c: the canonical form of a chat message, in which the server passes it
-- on. An input is the array of its bytes, of the given capacity; what is left in the output array
-- is a text, without its terminator. Both may be NULL.
pub mod Canonical
pub mod Fixed
mod Tests
use shroomio.Base.{
  ℕ, zero, suc, ◌+◌, Bool, true, false, ◌&&◌, ◌||◌, not, Option, none, some, List, [], ◌∷◌, ◌++◌,
  ltb, leb, ◌==◌, if◌then◌else◌, length,
}

abbrev pub max_message_length : ℕ
max_message_length = 200

abbrev pub is_ascii_whitespace : ℕ → Bool
is_ascii_whitespace c = c == 32 || c == 9 || c == 10 || c == 13 || c == 12 || c == 11

-- The bytes of an array before its first zero; `none` is an array without one.
unfoldable pub text_of : List ℕ → Option (List ℕ)
text_of [] = none
text_of (c ∷ cs) =
    let rest = text_of cs in
    if c == 0 then some [] else elim rest [ none ↦ none | some t ↦ some (c ∷ t) ]

-- Writing one byte, which fails if there is no room for it and the terminator.
abbrev pub append_char : ℕ → List ℕ → ℕ → Option (List ℕ)
append_char capacity out c = if leb capacity (length out + 1) then none else some (out ++ c ∷ [])

abbrev pub append_word : ℕ → ℕ → Option (List ℕ) → Option (List ℕ × Bool)
append_word capacity c none = none
append_word capacity c (some out) = elim (append_char capacity out c) [
  | none ↦ none
  | some next ↦ some (next, false)
]

-- One byte of the input: what has been written, and whether a space is to come. `none` is a
-- failure.
unfoldable pub step : ℕ → List ℕ → Bool → ℕ → Option (List ℕ × Bool)
step capacity out pending_space c =
    if ltb 0x7e c
    then some (out, pending_space)
    else if is_ascii_whitespace c
    then some (out, pending_space || ltb 0 (length out))
    else append_word capacity c (if pending_space then append_char capacity out 32 else some out)

unfoldable pub write : ℕ → List ℕ → Bool → List ℕ → Option (List ℕ × Bool)
write capacity out pending_space [] = some (out, pending_space)
write capacity out pending_space (c ∷ cs) = elim (step capacity out pending_space c) [
  | none ↦ none
  | some (next, pending) ↦ write capacity next pending cs
]

abbrev pub finish : Option (List ℕ × Bool) → List ℕ × Bool
finish none = ([], false)
finish (some (out, pending_space)) = (out, ltb 0 (length out))

abbrev pub canonicalize_text : ℕ → Option (List ℕ) → List ℕ × Bool
canonicalize_text capacity none = ([], false)
canonicalize_text capacity (some text) =
    let written = finish (write capacity [] false text) in
    if ltb max_message_length (length text) then ([], false) else written

-- `none` is a call that leaves the output as it is, and gives back false.
unfoldable pub canonicalize_message : Option (List ℕ) → ℕ → Option (List ℕ × Bool)
canonicalize_message none output_capacity = none
canonicalize_message (some input) zero = none
canonicalize_message (some input) (suc n) = some (canonicalize_text (suc n) (text_of input))

abbrev pub is_prefix : List ℕ → List ℕ → Bool
is_prefix [] message = true
is_prefix (c ∷ cs) [] = false
is_prefix (c ∷ cs) (m ∷ ms) = c == m && is_prefix cs ms

abbrev pub is_same_text : Option (List ℕ × Bool) → List ℕ → Bool
is_same_text none message = false
is_same_text (some (canonical, ok)) message =
    ok && is_prefix canonical message && ltb 0 (length canonical)

unfoldable pub is_canonical_message : Option (List ℕ) → Bool
unfolding canonicalize_message
is_canonical_message none = false
is_canonical_message (some message) =
    is_same_text (canonicalize_message (some message) (max_message_length + 1)) message
