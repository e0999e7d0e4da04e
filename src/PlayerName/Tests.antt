-- ===== src/PlayerName/Tests.antt =====
-- Two names.
use shroomio.Base.{
  ℕ, ◌≡◌, ◌≤◌, refl, some, List, [], ◌∷◌, ◌++◌, length, replicate, is_space, true, false,
  All-replicate,
}
use shroomio.PlayerName.{max_name_length, is_name_char, step, write, sanitize}
use shroomio.PlayerName.Grammar.{Name, sanitize-Name, sanitize-overflow}

-- "  a! b  " is "a b".
spaces : sanitize (some (32 ∷ 32 ∷ 97 ∷ 33 ∷ 32 ∷ 98 ∷ 32 ∷ 32 ∷ [])) ≡ 97 ∷ 32 ∷ 98 ∷ []
unfolding sanitize write step
spaces = refl

sanitize-Name_example :
    Name (sanitize (some (32 ∷ 97 ∷ [])))
    × (length (sanitize (some (32 ∷ 97 ∷ []))) ≤ max_name_length)
sanitize-Name_example = sanitize-Name (some (32 ∷ 97 ∷ []))

abbrev thirty : List ℕ
thirty = replicate 30 97

sanitize-overflow_example :
    (sanitize (some (thirty ++ 32 ∷ 98 ∷ [])) ≡ thirty ++ 32 ∷ 98 ∷ [])
    × (length (sanitize (some (thirty ++ 32 ∷ 98 ∷ []))) ≡ max_name_length)
sanitize-overflow_example =
    sanitize-overflow thirty 98 refl
      (All-replicate (λ x. (is_space x ≡ false) × (is_name_char x ≡ true)) 30 97 (refl, refl)) refl
      refl
