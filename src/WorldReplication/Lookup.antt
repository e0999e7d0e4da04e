-- ===== src/WorldReplication/Lookup.antt =====
-- Elements of an array by their ids: what the operations on it do to a lookup.
use shroomio.Base.{
  ℕ, ◌+◌, ◌≤◌, ◌≡◌, ◌≢◌, refl, sym, subst, ◌∙◌, true, none, some, List, [], ◌∷◌, ◌++◌, ltb, ◌==◌,
  if◌then◌else◌, length, arith, Option-cases, Bool-cases, inl, inr, length-append,
}
use mathlib.Core.Option.{none-ne-some}
use shroomio.Snapshot.Frame.Lookup.{ne→==_false, ==→eq, ==_false→ne}
use shroomio.WorldReplication.Table.{
  find_entity, remove_entity, replace_entity, is_found, put_entity,
}

module _ {A : Type 0} (id_of : A → ℕ) where
  -- No id stands twice.
  abbrev pub Distinct : List A → Type 0
  Distinct [] = Unit
  Distinct (x ∷ xs) = (find_entity id_of xs (id_of x) ≡ none) × Distinct xs

  pub append_ne :
      (xs : List A) (y : A) (i : ℕ)
      → id_of y ≢ i
      → find_entity id_of (xs ++ y ∷ []) i ≡ find_entity id_of xs i
  unfolding find_entity
  append_ne [] y i h = rw (ne→==_false h) refl
  append_ne (x ∷ xs) y i h = ground (arith, append_ne xs y i h)

  pub append_self :
      (xs : List A) (y : A)
      → find_entity id_of xs (id_of y) ≡ none
      → find_entity id_of (xs ++ y ∷ []) (id_of y) ≡ some y
  unfolding find_entity
  append_self [] y h = ground arith
  append_self (x ∷ xs) y h = ground (arith, append_self xs y)

  pub replace_ne :
      (xs : List A) (y : A) (i : ℕ)
      → id_of y ≢ i
      → find_entity id_of (replace_entity id_of xs y) i ≡ find_entity id_of xs i
  unfolding find_entity replace_entity
  replace_ne [] y i h = refl
  replace_ne (x ∷ xs) y i h = ground (arith, replace_ne xs y i)

  pub replace_self :
      (xs : List A) (y : A)
      → find_entity id_of xs (id_of y) ≢ none
      → find_entity id_of (replace_entity id_of xs y) (id_of y) ≡ some y
  unfolding find_entity replace_entity
  replace_self [] y h = absurd (h refl)
  replace_self (x ∷ xs) y h = ground (arith, replace_self xs y)

  pub length-replace : (xs : List A) (y : A) → length (replace_entity id_of xs y) ≡ length xs
  unfolding replace_entity
  length-replace [] y = refl
  length-replace (x ∷ xs) y = ground (arith, length-replace xs y)

  pub length-remove : (xs : List A) (i : ℕ) → length (remove_entity id_of xs i) ≤ length xs
  unfolding remove_entity
  length-remove [] i = omega arith
  length-remove (x ∷ xs) i = ground (arith, length-remove xs i)

  pub remove_ne :
      (xs : List A) (j i : ℕ)
      → j ≢ i
      → find_entity id_of (remove_entity id_of xs j) i ≡ find_entity id_of xs i
  unfolding find_entity remove_entity
  remove_ne [] j i h = refl
  remove_ne (x ∷ xs) j i h = ground (arith, remove_ne xs j i)

  pub remove_self :
      (xs : List A) (i : ℕ) → Distinct xs → find_entity id_of (remove_entity id_of xs i) i ≡ none
  unfolding find_entity remove_entity
  remove_self [] i h = refl
  remove_self (x ∷ xs) i h = ground (arith, h.0, remove_self xs i h.1)

  pub find_none :
      (x : A) (xs : List A) (i : ℕ)
      → find_entity id_of (x ∷ xs) i ≡ none
      → (id_of x ≢ i) × (find_entity id_of xs i ≡ none)
  unfolding find_entity
  find_none x xs i h = ground arith

  pub Distinct-remove : (xs : List A) (i : ℕ) → Distinct xs → Distinct (remove_entity id_of xs i)
  unfolding remove_entity
  Distinct-remove [] i d = tt
  Distinct-remove (x ∷ xs) i d = elim (Bool-cases (id_of x == i)) [
    | inl e ↦ rw e d.1
    | inr e ↦
        rw e
          (remove_ne xs i (id_of x) (λ is. ==_false→ne e (sym is)) ∙ d.0, Distinct-remove xs i d.1)
  ]

  pub Distinct-append :
      (xs : List A) (y : A)
      → Distinct xs
      → find_entity id_of xs (id_of y) ≡ none
      → Distinct (xs ++ y ∷ [])
  unfolding find_entity
  Distinct-append [] y d h = (refl, tt)
  Distinct-append (x ∷ xs) y d h =
      let (ne, rest) = find_none x xs (id_of y) h in
      (append_ne xs y (id_of x) (λ e. ne (sym e)) ∙ d.0, Distinct-append xs y d.1 rest)

  pub Distinct-replace : (xs : List A) (y : A) → Distinct xs → Distinct (replace_entity id_of xs y)
  unfolding replace_entity
  Distinct-replace [] y d = tt
  Distinct-replace (x ∷ xs) y d = elim (Bool-cases (id_of x == id_of y)) [
    | inl e ↦ rw e (subst (λ i. find_entity id_of xs i ≡ none) (==→eq e) d.0, d.1)
    | inr e ↦
        rw e (
          replace_ne xs y (id_of x) (λ is. ==_false→ne e (sym is)) ∙ d.0,
          Distinct-replace xs y d.1,
        )
  ]

  -- What a put does, if there is room for one more.
  pub record Put (xs ys : List A) (y : A) : Type 0 where
    pub keeps : (i : ℕ) → id_of y ≢ i → find_entity id_of ys i ≡ find_entity id_of xs i
    pub there : find_entity id_of ys (id_of y) ≡ some y
    pub distinct : Distinct ys
    pub length_le :
        length ys ≤ length xs + (if is_found (find_entity id_of xs (id_of y)) then 0 else 1)

  Put-absent :
      (capacity : ℕ) (xs : List A) (y : A)
      → Distinct xs
      → find_entity id_of xs (id_of y) ≡ none
      → length xs + 1 ≤ capacity
      → Put xs (put_entity id_of capacity xs y) y
  unfolding put_entity
  Put-absent capacity xs y d e room =
      rw (e, free)
        (record {
          keeps = λ i h. append_ne xs y i h;
          there = append_self xs y e;
          distinct = Distinct-append xs y d e;
          length_le = rw e (omega (arith, length-append xs (y ∷ [])));
        })
    where
      free : ltb (length xs) capacity ≡ true
      free = ground arith

  pub put_entity-Put :
      (capacity : ℕ) (xs : List A) (y : A)
      → Distinct xs
      → length xs + (if is_found (find_entity id_of xs (id_of y)) then 0 else 1) ≤ capacity
      → Put xs (put_entity id_of capacity xs y) y
  unfolding put_entity
  put_entity-Put capacity xs y d room = elim (Option-cases (find_entity id_of xs (id_of y))) [
    | inr (x, e) ↦ rw e (record {
      keeps = λ i h. replace_ne xs y i h;
      there = replace_self xs y (λ n. none-ne-some x (sym n ∙ e));
      distinct = Distinct-replace xs y d;
      length_le = omega (arith, length-replace xs y);
    })
    | inl e ↦
        Put-absent capacity xs y d e
          (subst (λ o. length xs + (if is_found o then 0 else 1) ≤ capacity) e room)
  ]
