-- ===== src/PlayerName.antt =====
-- src/shared/player_identity.h: the name that a player gets from what the client sends. A text is
-- the list of its bytes, without the terminator; the source may be NULL.
pub mod Grammar
mod Tests
use shroomio.Base.{
  ℕ, ◌+◌, Bool, true, false, ◌&&◌, ◌||◌, not, Option, none, some, List, [], ◌∷◌, ◌++◌, ltb, ◌==◌,
  if◌then◌else◌, length, is_space, is_alnum,
}

abbrev pub max_name_length : ℕ
max_name_length = 32

abbrev pub is_name_char : ℕ → Bool
is_name_char c = is_alnum c || c == 95 || c == 45 || c == 46

-- Whether the array has room for one more character and the terminator.
abbrev pub has_room : List ℕ → Bool
has_room out = ltb (length out + 1) max_name_length

-- One character of the source: what has been written, and whether a space is to come.
unfoldable pub step : List ℕ → Bool → ℕ → List ℕ × Bool
step out pending_space c =
    if is_space c
    then (out, ltb 0 (length out))
    else if not (is_name_char c)
    then (out, pending_space)
    else ((if pending_space && has_room out then out ++ 32 ∷ [] else out) ++ c ∷ [], false)

unfoldable pub write : List ℕ → Bool → List ℕ → List ℕ
write out pending_space [] = out
write out pending_space (c ∷ cs) =
    let (next, pending) = step out pending_space c in
    let rest = write next pending cs in if has_room out then rest else out

-- The text that is left in the array, up to the place of the terminator.
unfoldable pub sanitize : Option (List ℕ) → List ℕ
sanitize none = []
sanitize (some source) = write [] false source
