-- ===== src/Snapshot/Frame/Lookup.antt =====
-- Players by their ids: what the operations on a list of players do to a lookup.
use shroomio.Base.{
  ℕ, suc, ◌≤◌, ◌≡◌, ◌≢◌, inl, inr, refl, sym, ap, ◌∙◌, true, false, none, some, List, [], ◌∷◌, ◌++◌,
  ◌==◌, if◌then◌else◌, length, arith, Bool-cases,
}
use shroomio.Snapshot.{Player}
use shroomio.Snapshot.Frame.{find_player}
use shroomio.Snapshot.Frame.Decode.{replace_player, remove_player}

-- No id stands twice.
abbrev pub Distinct : List Player → Type 0
Distinct [] = Unit
Distinct (p ∷ ps) = (find_player ps p.entity_id ≡ none) × Distinct ps

pub eq→== : {a b : ℕ} → a ≡ b → (a == b) ≡ true
eq→== {a} {b} e = ground arith

pub ne→==_false : {a b : ℕ} → a ≢ b → (a == b) ≡ false
ne→==_false {a} {b} h = ground arith

pub ==_refl : (a : ℕ) → (a == a) ≡ true
==_refl a = ground arith

pub find_player-id :
    (ps : List Player) (i : ℕ) (p : Player) → find_player ps i ≡ some p → p.entity_id ≡ i
unfolding find_player
find_player-id [] i p h = cc
find_player-id (q ∷ ps) i p h = ground (arith, find_player-id ps i p)

pub find_player-append_ne :
    (ps : List Player) (q : Player) (i : ℕ)
    → q.entity_id ≢ i
    → find_player (ps ++ q ∷ []) i ≡ find_player ps i
unfolding find_player
find_player-append_ne [] q i h = rw (ne→==_false h) refl
find_player-append_ne (p ∷ ps) q i h =
    ap (λ o. if p.entity_id == i then some p else o) (find_player-append_ne ps q i h)

pub find_player-append_self :
    (ps : List Player) (q : Player)
    → find_player ps q.entity_id ≡ none
    → find_player (ps ++ q ∷ []) q.entity_id ≡ some q
unfolding find_player
find_player-append_self [] q h = rw (==_refl q.entity_id) refl
find_player-append_self (p ∷ ps) q h = ground (arith, find_player-append_self ps q)

pub find_player-replace_ne :
    (ps : List Player) (q : Player) (i : ℕ)
    → q.entity_id ≢ i
    → find_player (replace_player ps q.entity_id q) i ≡ find_player ps i
unfolding find_player replace_player
find_player-replace_ne [] q i h = refl
find_player-replace_ne (p ∷ ps) q i h = ground (arith, find_player-replace_ne ps q i)

pub find_player-remove_ne :
    (ps : List Player) (j i : ℕ) → j ≢ i → find_player (remove_player ps j) i ≡ find_player ps i
unfolding find_player remove_player
find_player-remove_ne [] j i h = refl
find_player-remove_ne (p ∷ ps) j i h = ground (arith, find_player-remove_ne ps j i)

pub find_player-replace_self :
    (ps : List Player) (q : Player)
    → find_player ps q.entity_id ≢ none
    → find_player (replace_player ps q.entity_id q) q.entity_id ≡ some q
unfolding find_player replace_player
find_player-replace_self [] q h = absurd (h refl)
find_player-replace_self (p ∷ ps) q h = ground (arith, find_player-replace_self ps q)

pub length-replace :
    (ps : List Player) (i : ℕ) (q : Player) → length (replace_player ps i q) ≡ length ps
unfolding replace_player
length-replace [] i q = refl
length-replace (p ∷ ps) i q = ground (arith, length-replace ps i q)

pub length-remove :
    (ps : List Player) (i : ℕ)
    → find_player ps i ≢ none
    → suc (length (remove_player ps i)) ≡ length ps
unfolding find_player remove_player
length-remove [] i h = absurd (h refl)
length-remove (p ∷ ps) i h = ground (arith, length-remove ps i)

pub find_player-remove_self :
    (ps : List Player) (i : ℕ) → Distinct ps → find_player (remove_player ps i) i ≡ none
unfolding find_player remove_player
find_player-remove_self [] i h = refl
find_player-remove_self (p ∷ ps) i h = ground (arith, h.0, find_player-remove_self ps i h.1)

pub find_player-none :
    (p : Player) (ps : List Player) (i : ℕ)
    → find_player (p ∷ ps) i ≡ none
    → (p.entity_id ≢ i) × (find_player ps i ≡ none)
unfolding find_player
find_player-none p ps i h = ground arith

pub find_player-head : (p : Player) (ps : List Player) → find_player (p ∷ ps) p.entity_id ≢ none
unfolding find_player
find_player-head p ps h = ground arith

pub ==_false→ne : {a b : ℕ} → (a == b) ≡ false → a ≢ b
==_false→ne {a} {b} h = ground arith

pub ==→eq : {a b : ℕ} → (a == b) ≡ true → a ≡ b
==→eq {a} {b} h = ground arith

pub Distinct-append :
    (ps : List Player) (q : Player)
    → Distinct ps
    → find_player ps q.entity_id ≡ none
    → Distinct (ps ++ q ∷ [])
unfolding find_player
Distinct-append [] q d h = (refl, tt)
Distinct-append (p ∷ ps) q d h =
    let (ne, rest) = find_player-none p ps q.entity_id h in
    (find_player-append_ne ps q p.entity_id (λ e. ne (sym e)) ∙ d.0, Distinct-append ps q d.1 rest)

pub Distinct-replace :
    (ps : List Player) (q : Player) → Distinct ps → Distinct (replace_player ps q.entity_id q)
unfolding replace_player
Distinct-replace [] q d = tt
Distinct-replace (p ∷ ps) q d = elim (Bool-cases (p.entity_id == q.entity_id)) [
  | inl e ↦ rw e (rw (sym (==→eq e)) d.0, d.1)
  | inr e ↦ rw e (
    find_player-replace_ne ps q p.entity_id (λ is. ==_false→ne e (sym is)) ∙ d.0,
    Distinct-replace ps q d.1,
  )
]

pub Distinct-remove : (ps : List Player) (i : ℕ) → Distinct ps → Distinct (remove_player ps i)
unfolding remove_player
Distinct-remove [] i d = tt
Distinct-remove (p ∷ ps) i d = elim (Bool-cases (p.entity_id == i)) [
  | inl e ↦ rw e d.1
  | inr e ↦ rw e (
    find_player-remove_ne ps i p.entity_id (λ is. ==_false→ne e (sym is)) ∙ d.0,
    Distinct-remove ps i d.1,
  )
]

-- A list without repetition is no longer than one that has all of its ids.
pub length-le-of-ids :
    (xs ys : List Player)
    → Distinct xs
    → ((i : ℕ) → find_player ys i ≡ none → find_player xs i ≡ none)
    → length xs ≤ length ys
length-le-of-ids [] ys d h = omega arith
length-le-of-ids (x ∷ xs) ys d h = omega (
  arith,
  length-remove ys x.entity_id (λ e. find_player-head x xs (h x.entity_id e)),
  length-le-of-ids xs (remove_player ys x.entity_id) d.1 without,
)
  where
    without :
        (i : ℕ) → find_player (remove_player ys x.entity_id) i ≡ none → find_player xs i ≡ none
    without i e = elim (Bool-cases (x.entity_id == i)) [
      | inl is ↦ rw (sym (==→eq is)) d.0
      | inr is ↦
          let there = sym (find_player-remove_ne ys x.entity_id i (==_false→ne is)) ∙ e in
          (find_player-none x xs i (h i there)).1
    ]
