-- ===== src/WorldReplication/Follow.antt =====
-- Between keyframes: a client that follows the records has what the server means it to have.
use shroomio.Base.{
  ℕ, ◌+◌, ◌≡◌, ◌≢◌, refl, Bool, true, not, ◌&&◌, Option, none, some, List, [], ◌∷◌, ◌==◌,
  if◌then◌else◌, arith, Bool-cases, inl, inr,
}
use shroomio.Snapshot.Frame.Lookup.{ne→==_false}
use shroomio.WorldReplication.{Record}
use shroomio.WorldReplication.Build.{Slot, Seen}
use shroomio.WorldReplication.Apply.{apply_entity}

-- An element that stands for another: the same, or one that compares equal to it, again and again.
pub data Like {A : Type 0} (equal : A → A → Bool) (x : A) : A → Type 0 where
  exact : Like equal x x
  moved : {y : A} (z : A) → Like equal x y → equal z y ≡ true → Like equal x z

-- What a client has under an id, against what it is to have.
abbrev pub Mirrors : {A : Type 0} → (A → A → Bool) → Option A → Option A → Type 0
Mirrors equal none o = o ≡ none
Mirrors {A = A} equal (some x) o = (y : A) × (o ≡ some y) × Like equal y x

module _ {A : Type 0} (id_of : A → ℕ) where
  -- What the client was told of an id, and what is to be seen of it now.
  unfoldable pub told : List (Slot A) → ℕ → Option A
  told [] i = none
  told (s ∷ ss) i =
      let rest = told ss i in if s.known && id_of s.last == i then some s.last else rest

  unfoldable pub seen : List (Seen A) → ℕ → Option A
  seen [] i = none
  seen (w ∷ ws) i =
      let rest = seen ws i in if w.current && id_of w.snapshot == i then some w.snapshot else rest

  -- An id belongs to one index of the array.
  abbrev pub Apart : List (Seen A) → List (Slot A) → Type 0
  Apart (w ∷ ws) (s ∷ ss) =
      (s.known ≡ true → (told ss (id_of s.last) ≡ none) × (seen ws (id_of s.last) ≡ none))
      × (w.current ≡ true
          → (told ss (id_of w.snapshot) ≡ none) × (seen ws (id_of w.snapshot) ≡ none))
      × Apart ws ss
  Apart _ _ = Unit

  -- The number of elements that are new to the client.
  abbrev pub new_count : List (Seen A) → List (Slot A) → ℕ
  new_count (w ∷ ws) (s ∷ ss) = (if w.current && not s.known then 1 else 0) + new_count ws ss
  new_count _ _ = 0

  -- The client's array after records of its kind.
  unfoldable pub follow : (Record → A) → ℕ → List A → List Record → List A
  follow from capacity xs [] = xs
  follow from capacity xs (r ∷ rs) =
      follow from capacity (apply_entity id_of capacity xs r (from r)) rs

  -- What becomes of an id, by what is to be seen of it and what was told.
  abbrev pub Out : (A → A → Bool) → Option A → Option A → Option A → Option A → Type 0
  Out equal (some x) o before after = Mirrors equal (some x) after
  Out equal none none before after = after ≡ before
  Out equal none (some x) before after = after ≡ none

  pub told-head :
      (s : Slot A) (ss : List (Slot A)) (i : ℕ)
      → (s.known ≡ true → id_of s.last ≢ i)
      → told (s ∷ ss) i ≡ told ss i
  unfolding told
  told-head s ss i h = elim (Bool-cases s.known) [
    | inl e ↦ rw (e, ne→==_false (h e)) refl
    | inr e ↦ rw e refl
  ]

  pub seen-head :
      (w : Seen A) (ws : List (Seen A)) (i : ℕ)
      → (w.current ≡ true → id_of w.snapshot ≢ i)
      → seen (w ∷ ws) i ≡ seen ws i
  unfolding seen
  seen-head w ws i h = elim (Bool-cases w.current) [
    | inl e ↦ rw (e, ne→==_false (h e)) refl
    | inr e ↦ rw e refl
  ]

  pub told-here :
      (s : Slot A) (ss : List (Slot A))
      → s.known ≡ true
      → told (s ∷ ss) (id_of s.last) ≡ some s.last
  unfolding told
  told-here s ss h = ground (arith, h)

  pub seen-here :
      (w : Seen A) (ws : List (Seen A))
      → w.current ≡ true
      → seen (w ∷ ws) (id_of w.snapshot) ≡ some w.snapshot
  unfolding seen
  seen-here w ws h = ground (arith, h)
