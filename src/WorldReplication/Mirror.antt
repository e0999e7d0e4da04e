-- ===== src/WorldReplication/Mirror.antt =====
-- The loop of ShroomWorldReplicationBuild against the client's array, index by index.
use shroomio.Base.{
  ℕ, ◌+◌, ◌≤◌, ◌≡◌, ◌≢◌, ◌⊎◌, refl, sym, subst, ◌∙◌, Bool, true, false, not, ◌&&◌, Option, none,
  some, List, ◌∷◌, ◌==◌, if◌then◌else◌, length, arith, Bool-cases, inl, inr,
}
use mathlib.Core.Bool.{true≢false}
use shroomio.Snapshot.Frame.Lookup.{==→eq, ==_false→ne}
use shroomio.WorldReplication.Table.{find_entity, remove_entity, is_found, put_entity}
use shroomio.WorldReplication.Build.{Slot, Seen}
use shroomio.WorldReplication.Lookup.{
  Distinct, Put, put_entity-Put, remove_ne, remove_self, Distinct-remove, length-remove,
}
use shroomio.WorldReplication.Follow.{
  exact, moved, Mirrors, told, seen, Out, seen-head, told-here, seen-here,
}

module _ {A : Type 0} (id_of : A → ℕ) (equal : A → A → Bool) (room : ℕ) where
  -- An index that has an id, and the ids of the others.
  pub Out-head :
      (j : ℕ) (t u s r : ℕ → Option A) (xs ys zs : List A)
      → ((i : ℕ) → j ≢ i → t i ≡ u i)
      → ((i : ℕ) → j ≢ i → s i ≡ r i)
      → u j ≡ none
      → r j ≡ none
      → ((i : ℕ) → j ≢ i → find_entity id_of ys i ≡ find_entity id_of xs i)
      → Out id_of equal (s j) (t j) (find_entity id_of xs j) (find_entity id_of ys j)
      → ((i : ℕ) → Out id_of equal (r i) (u i) (find_entity id_of ys i) (find_entity id_of zs i))
      → (i : ℕ) → Out id_of equal (s i) (t i) (find_entity id_of xs i) (find_entity id_of zs i)
  Out-head j t u s r xs ys zs tu sr uj rj keeps at rest i = elim (Bool-cases (j == i)) [
    | inl e ↦
        subst (λ k. Out id_of equal (s k) (t k) (find_entity id_of xs k) (find_entity id_of zs k))
          (==→eq e)
          (subst (λ o. Out id_of equal (s j) (t j) (find_entity id_of xs j) o) (sym stays) at)
    | inr e ↦
        let ne = ==_false→ne e in
        subst (λ o. Out id_of equal (s i) o (find_entity id_of xs i) (find_entity id_of zs i))
          (sym (tu i ne))
          (subst (λ o. Out id_of equal o (u i) (find_entity id_of xs i) (find_entity id_of zs i))
            (sym (sr i ne))
            (subst (λ o. Out id_of equal (r i) (u i) o (find_entity id_of zs i)) (keeps i ne)
              (rest i)))
  ]
    where
      stays : find_entity id_of zs j ≡ find_entity id_of ys j
      stays =
          subst (λ o. Out id_of equal none o (find_entity id_of ys j) (find_entity id_of zs j)) uj
            (subst (λ o. Out id_of equal o (u j) (find_entity id_of ys j) (find_entity id_of zs j))
              rj (rest j))

  -- The records of one index turn the array into another.
  pub record Acts (w : Seen A) (s : Slot A) (xs ys : List A) : Type 0 where
    pub id : ℕ
    pub known_id : s.known ≡ true → id_of s.last ≡ id
    pub current_id : w.current ≡ true → id_of w.snapshot ≡ id
    pub one : (s.known ≡ true) ⊎ (w.current ≡ true)
    pub keeps : (i : ℕ) → id ≢ i → find_entity id_of ys i ≡ find_entity id_of xs i
    pub distinct : Distinct id_of ys
    pub length_le : length ys ≤ length xs + (if w.current && not s.known then 1 else 0)
    pub at :
        (ws : List (Seen A)) (ss : List (Slot A))
        → told id_of ss id ≡ none
        → seen id_of ws id ≡ none
        → Out id_of equal
            (seen id_of (w ∷ ws) id)
            (told id_of (s ∷ ss) id)
            (find_entity id_of xs id)
            (find_entity id_of ys id)

  module _ (w : Seen A) (s : Slot A) (xs : List A) (d : Distinct id_of xs) where
    pub puts :
        w.current ≡ true
        → (s.known ≡ true → id_of s.last ≡ id_of w.snapshot)
        → (s.known ≡ true → is_found (find_entity id_of xs (id_of w.snapshot)) ≡ true)
        → length xs + (if w.current && not s.known then 1 else 0) ≤ room
        → Acts w s xs (put_entity id_of room xs w.snapshot)
    puts c same found free = record {
      id = id_of w.snapshot;
      known_id = same;
      current_id = λ e. refl;
      one = inr c;
      keeps = put.keeps;
      distinct = put.distinct;
      length_le = omega (arith, put.length_le, few);
      at = λ ws ss u r.
          subst
            (λ o.
              Out id_of equal o (told id_of (s ∷ ss) (id_of w.snapshot))
                (find_entity id_of xs (id_of w.snapshot))
                (find_entity id_of (put_entity id_of room xs w.snapshot) (id_of w.snapshot)))
            (sym (seen-here id_of w ws c)) (w.snapshot, put.there, exact);
    }
      where
        few :
            (if is_found (find_entity id_of xs (id_of w.snapshot)) then 0 else 1)
            ≤ (if w.current && not s.known then 1 else 0)
        few = elim (Bool-cases s.known) [
          | inl k ↦ rw (found k) (omega arith)
          | inr k ↦ rw (c, k) (ground arith)
        ]

        put : Put id_of xs (put_entity id_of room xs w.snapshot) w.snapshot
        put = put_entity-Put id_of room xs w.snapshot d (omega (arith, few, free))

    pub stays :
        w.current ≡ true
        → s.known ≡ true
        → id_of s.last ≡ id_of w.snapshot
        → equal w.snapshot s.last ≡ true
        → Mirrors equal (some s.last) (find_entity id_of xs (id_of s.last))
        → Acts w s xs xs
    stays c k same e (y, there, like) = record {
      id = id_of s.last;
      known_id = λ t. refl;
      current_id = λ t. sym same;
      one = inl k;
      keeps = λ i ne. refl;
      distinct = d;
      length_le = omega arith;
      at = λ ws ss u r.
          subst
            (λ o.
              Out id_of equal o (told id_of (s ∷ ss) (id_of s.last))
                (find_entity id_of xs (id_of s.last)) (find_entity id_of xs (id_of s.last)))
            (sym (
              subst (λ j. seen id_of (w ∷ ws) j ≡ some w.snapshot) (sym same)
                (seen-here id_of w ws c)))
            (y, there, moved w.snapshot like e);
    }

    pub goes :
        w.current ≡ false → s.known ≡ true → Acts w s xs (remove_entity id_of xs (id_of s.last))
    goes c k = record {
      id = id_of s.last;
      known_id = λ t. refl;
      current_id = λ t. absurd (true≢false (sym t ∙ c));
      one = inl k;
      keeps = λ i ne. remove_ne id_of xs (id_of s.last) i ne;
      distinct = Distinct-remove id_of xs (id_of s.last) d;
      length_le = omega (arith, length-remove id_of xs (id_of s.last));
      at = λ ws ss u r.
          subst
            (λ o.
              Out id_of equal o (told id_of (s ∷ ss) (id_of s.last))
                (find_entity id_of xs (id_of s.last))
                (find_entity id_of (remove_entity id_of xs (id_of s.last)) (id_of s.last)))
            (sym (seen-head id_of w ws (id_of s.last) (λ t. absurd (true≢false (sym t ∙ c))) ∙ r))
            (subst
              (λ o.
                Out id_of equal none o (find_entity id_of xs (id_of s.last))
                  (find_entity id_of (remove_entity id_of xs (id_of s.last)) (id_of s.last)))
              (sym (told-here id_of s ss k)) (remove_self id_of xs (id_of s.last) d));
    }
