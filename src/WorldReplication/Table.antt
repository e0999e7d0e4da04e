-- ===== src/WorldReplication/Table.antt =====
-- The arrays of spores and of power-ups of a client, which the code treats alike: `id_of` is the id
-- of an element.
use shroomio.Base.{
  ℕ, Bool, true, false, ◌||◌, ◌&&◌, not, Option, none, some, List, [], ◌∷◌, ◌++◌, ltb, ◌==◌,
  if◌then◌else◌, length,
}

-- `IdInList`, and `RememberId`.
unfoldable pub id_in_list : List ℕ → ℕ → Bool
id_in_list [] id = false
id_in_list (i ∷ ids) id = i == id || id_in_list ids id

unfoldable pub remember_id : ℕ → List ℕ → ℕ → List ℕ
unfolding id_in_list
remember_id capacity ids id =
    if not (id_in_list ids id) && ltb (length ids) capacity then ids ++ id ∷ [] else ids

abbrev pub is_found : {A : Type 0} → Option A → Bool
is_found none = false
is_found (some x) = true

module _ {A : Type 0} (id_of : A → ℕ) where
  -- The first element with an id.
  unfoldable pub find_entity : List A → ℕ → Option A
  find_entity [] id = none
  find_entity (x ∷ xs) id = let rest = find_entity xs id in if id_of x == id then some x else rest

  unfoldable pub remove_entity : List A → ℕ → List A
  remove_entity [] id = []
  remove_entity (x ∷ xs) id =
      let rest = x ∷ remove_entity xs id in if id_of x == id then xs else rest

  unfoldable pub replace_entity : List A → A → List A
  replace_entity [] y = []
  replace_entity (x ∷ xs) y =
      let rest = x ∷ replace_entity xs y in if id_of x == id_of y then y ∷ xs else rest

  -- In place of the element with its id, or behind the others if there is room.
  unfoldable pub put_entity : ℕ → List A → A → List A
  put_entity capacity xs y =
      if is_found (find_entity xs (id_of y))
      then replace_entity xs y
      else if ltb (length xs) capacity
      then xs ++ y ∷ []
      else xs

  -- From the last to the first, those that a keyframe has not listed are removed.
  unfoldable pub keep_listed : List ℕ → List A → List A
  keep_listed ids [] = []
  keep_listed ids (x ∷ xs) =
      let rest = keep_listed ids xs in if id_in_list ids (id_of x) then x ∷ rest else rest
