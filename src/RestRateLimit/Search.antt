-- ===== src/RestRateLimit/Search.antt =====
-- Finding the entry of a client.
use mathlib.Core.Option.{some-injective}
use shroomio.Base.{
  ℕ, zero, suc, ◌+◌, ◌-◌, ◌<◌, ◌≡◌, ◌⊎◌, take-eq_of_le, refl, sym, ap, ◌∙◌, true, false, Bool, not,
  Option, none, some, List, [], ◌∷◌, arith, length, get_elem?, set, equal_lists_refl, if◌then◌else◌,
  count, All, Bool-cases, inl, inr,
}
use shroomio.RestRateLimit.{
  Route, register, login, refresh, authenticated, Entry, match, replace, is_route, is_entry_for,
  better, search_entry, new_entry, key_capacity,
}

is_route_refl : (route : Route) → is_route route route ≡ true
is_route_refl register = refl
is_route_refl login = refl
is_route_refl refresh = refl
is_route_refl authenticated = refl

module _ (key : List ℕ) (route : Route) where
  -- The first entry of the client stands at an index.
  abbrev pub FirstAt : List Entry → ℕ → Entry → Type 0
  FirstAt [] j e = ⊥
  FirstAt (x ∷ xs) zero e = (x ≡ e) × (is_entry_for key route x ≡ true)
  FirstAt (x ∷ xs) (suc j) e = (is_entry_for key route x ≡ false) × FirstAt xs j e

  pub search-FirstAt :
      (i : ℕ) (best : Option (ℕ × Entry)) (es : List Entry) (j : ℕ) (e : Entry)
      → FirstAt es j e
      → search_entry key route i best es ≡ match (i + j)
  unfolding search_entry
  search-FirstAt i best [] j e h = absurd h
  search-FirstAt i best (x ∷ xs) zero e h = rw (h.1) (ap match (omega arith))
  search-FirstAt i best (x ∷ xs) (suc j) e h = rw (h.0) (
      search-FirstAt (suc i) (if better x best then some (i, x) else best) xs j e h.1
      ∙ ap match (omega arith))

  pub get-FirstAt : (es : List Entry) (j : ℕ) (e : Entry) → FirstAt es j e → get_elem? es j ≡ some e
  get-FirstAt [] j e h = absurd h
  get-FirstAt (x ∷ xs) zero e h = ap some h.0
  get-FirstAt (x ∷ xs) (suc j) e h = get-FirstAt xs j e h.1

  pub set-FirstAt :
      (es : List Entry) (j : ℕ) (e d : Entry)
      → FirstAt es j e
      → is_entry_for key route d ≡ true
      → FirstAt (set es j d) j d
  set-FirstAt [] j e d h m = absurd h
  set-FirstAt (x ∷ xs) zero e d h m = (refl, m)
  set-FirstAt (x ∷ xs) (suc j) e d h m = (h.0, set-FirstAt xs j e d h.1 m)

  module _ (short : length key < key_capacity) where
    pub is_entry_for-new : is_entry_for key route (new_entry key route) ≡ true
    is_entry_for-new =
        rw (take-eq_of_le (key_capacity - 1) key (omega arith))
          (ground (arith, is_route_refl route, equal_lists_refl key))

-- An entry that is not in use.
abbrev pub is_free : Entry → Bool
is_free e = not e.active

-- What the search of a client without an entry finds.
pub record Free (i : ℕ) (best : Option (ℕ × Entry)) (es : List Entry) (key : List ℕ) (route : Route)
    : Type 0 where
  pub at : ℕ
  pub entry : Entry
  pub found : search_entry key route i best es ≡ replace (some (at, entry))
  pub free : entry.active ≡ false
  pub origin : (best ≡ some (at, entry)) ⊎ ((j : ℕ) × (at ≡ i + j) × (get_elem? es j ≡ some entry))

-- The best so far is a free entry.
abbrev IsFreeBest : Option (ℕ × Entry) → Type 0
IsFreeBest best =
    (k : ℕ) × (e : Entry) × (best ≡ some (k, e)) × (e.active ≡ false) × (e.last_seen ≡ 0)

module _ (key : List ℕ) (route : Route) where
  abbrev best_after : ℕ → Option (ℕ × Entry) → Entry → Option (ℕ × Entry)
  best_after i best x = if better x best then some (i, x) else best

  best_after-cases :
      (i : ℕ) (best : Option (ℕ × Entry)) (x : Entry)
      → (best_after i best x ≡ best) ⊎ (best_after i best x ≡ some (i, x))
  best_after-cases i best x = elim (Bool-cases (better x best)) [
    | inl newer ↦ inr (rw newer refl)
    | inr older ↦ inl (rw older refl)
  ]

  Free-next :
      (i : ℕ) (best : Option (ℕ × Entry)) (x : Entry) (xs : List Entry)
      → is_entry_for key route x ≡ false
      → Free (suc i) (best_after i best x) xs key route
      → Free i best (x ∷ xs) key route
  unfolding search_entry
  Free-next i best x xs other f = record {
    at = f.at;
    entry = f.entry;
    found = rw other f.found;
    free = f.free;
    origin = came f.origin (best_after-cases i best x);
  }
    where
      came :
          (best_after i best x ≡ some (f.at, f.entry))
            ⊎ ((j : ℕ) × (f.at ≡ suc i + j) × (get_elem? xs j ≡ some f.entry))
          → (best_after i best x ≡ best) ⊎ (best_after i best x ≡ some (i, x))
          → (best ≡ some (f.at, f.entry))
            ⊎ ((j : ℕ) × (f.at ≡ i + j) × (get_elem? (x ∷ xs) j ≡ some f.entry))
      came (inl e) (inl same) = inl (sym same ∙ e)
      came (inl e) (inr here) =
          let h : ◌≡◌ {A = ℕ × Entry} (i, x) (f.at, f.entry) =
            some-injective (i, x) (f.at, f.entry) (sym here ∙ e) in
          inr (zero, sym (ap (λ y. y.0) h) ∙ plus_zero i, ap (λ y. some y.1) h)
        where
          plus_zero : (n : ℕ) → n ≡ n + 0
          plus_zero n = omega arith
      came (inr (j, at, there)) c = inr (suc j, omega (arith, at), there)

  if_yes : (o p : Option (ℕ × Entry)) {b : Bool} → b ≡ true → (if b then o else p) ≡ o
  if_yes o p e = rw e refl

  if_no : (o p : Option (ℕ × Entry)) {b : Bool} → b ≡ false → (if b then o else p) ≡ p
  if_no o p e = rw e refl

  better-free : (x : Entry) (best : Option (ℕ × Entry)) → x.active ≡ false → better x best ≡ true
  better-free x none free = refl
  better-free x (some (m, b)) free = ground (arith, free)

  best_after-free :
      (i : ℕ) (best : Option (ℕ × Entry)) (x : Entry)
      → (x.active ≡ false → x.last_seen ≡ 0)
      → IsFreeBest best
      → IsFreeBest (best_after i best x)
  best_after-free i none x z (k, e, is, off, zero_) = cc
  best_after-free i (some (m, b)) x z (k, e, is, off, zero_) = elim (Bool-cases x.active) [
    | inl on ↦
        let h : ◌≡◌ {A = ℕ × Entry} (m, b) (k, e) = some-injective (m, b) (k, e) is in
        let older : better x (some (m, b)) ≡ false =
          ground (arith, on, ap (λ y. y.1.last_seen) h ∙ zero_) in
        (k, e, if_no _ _ older ∙ is, off, zero_)
    | inr free ↦ (i, x, if_yes _ _ (better-free x (some (m, b)) free), free, z free)
  ]

  pub search_entry-Free :
      (i : ℕ) (best : Option (ℕ × Entry)) (es : List Entry)
      → count (is_entry_for key route) es ≡ 0
      → All (λ e. e.active ≡ false → e.last_seen ≡ 0) es
      → IsFreeBest best ⊎ (0 < count is_free es)
      → Free i best es key route
  unfolding search_entry
  search_entry-Free i best [] absent z (inl (k, e, is, off, zero_)) = record {
    at = k;
    entry = e;
    found = ap replace is;
    free = off;
    origin = inl is;
  }
  search_entry-Free i best [] absent z (inr h) = absurd (omega (arith, h))
  search_entry-Free i best (x ∷ xs) absent z h =
      Free-next i best x xs other
        (search_entry-Free (suc i) (best_after i best x) xs rest z.1 (left h))
    where
      other : is_entry_for key route x ≡ false
      other = ground (arith, absent)

      rest : count (is_entry_for key route) xs ≡ 0
      rest = omega (arith, absent)

      left :
          IsFreeBest best ⊎ (0 < count is_free (x ∷ xs))
          → IsFreeBest (best_after i best x) ⊎ (0 < count is_free xs)
      left (inl b) = inl (best_after-free i best x z.0 b)
      left (inr more) = elim (Bool-cases x.active) [
        | inl on ↦ inr (ground (arith, on, more))
        | inr free ↦ inl (i, x, if_yes _ _ (better-free x best free), free, z.0 free)
      ]

-- An entry of the client, or none.
pub FirstAt-exists :
    (key : List ℕ) (route : Route) (es : List Entry)
    → 0 < count (is_entry_for key route) es
    → (j : ℕ) × (e : Entry) × FirstAt key route es j e
FirstAt-exists key route [] h = absurd (omega (arith, h))
FirstAt-exists key route (x ∷ xs) h = elim (Bool-cases (is_entry_for key route x)) [
  | inl here ↦ (zero, x, (refl, here))
  | inr other ↦
      let (j, e, first) = FirstAt-exists key route xs (ground (arith, other, h)) in
      (suc j, e, (other, first))
]

-- An entry of the client where it has none comes to be its first.
pub FirstAt-new :
    (key : List ℕ) (route : Route) (es : List Entry) (j : ℕ) (x d : Entry)
    → count (is_entry_for key route) es ≡ 0
    → get_elem? es j ≡ some x
    → is_entry_for key route d ≡ true
    → FirstAt key route (set es j d) j d
FirstAt-new key route [] j x d absent at new = cc
FirstAt-new key route (y ∷ ys) zero x d absent at new = (refl, new)
FirstAt-new key route (y ∷ ys) (suc j) x d absent at new =
    (ground (arith, absent), FirstAt-new key route ys j x d (omega (arith, absent)) at new)
