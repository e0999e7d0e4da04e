-- ===== src/Snapshot/History/Ring.antt =====
-- How long a frame stays in the history.
use shroomio.Base.{
  ℕ, zero, suc, ◌+◌, ◌%◌, ◌<◌, ◌≤◌, ◌≡◌, ◌≢◌, ◌⊎◌, refl, sym, ap, ◌∙◌, Bool, false, ◌||◌, Option,
  none, some, List, [], ◌∷◌, ltb, ◌==◌, if◌then◌else◌, length, set, All, arith, Bool-cases, inl,
  inr, get_elem?, get_elem?-set_self, get_elem?-set_ne, get_elem?-set_cases,
}
use mathlib.Core.Option.{some-injective, none-ne-some}
use shroomio.Snapshot.Frame.Lookup.{eq→==, ne→==_false}
use shroomio.Snapshot.{Player, max_players}
use shroomio.Snapshot.Frame.{Frame, History, history_size}
use shroomio.Snapshot.History.{find_frame, find, store}

-- One frame after another is stored.
abbrev pub store_all : History → List Frame → History
store_all h [] = h
store_all h (f ∷ fs) = store_all (store h f.tick f.players) fs

-- The frame stands at a place, no other has its tick, and so many more can be stored before its
-- place is written to.
record Keeps (h : History) (f : Frame) (more : ℕ) : Type 0 where
  place : ℕ
  at : get_elem? h.frames place ≡ some f
  only : (j : ℕ) (g : Frame) → get_elem? h.frames j ≡ some g → g.tick ≡ f.tick → j ≡ place
  place_lt : place < history_size
  next_lt : h.next < history_size
  next_eq : (h.next + more) % history_size ≡ place
  more_le : more ≤ 3

find_frame-only :
    (fs : List Frame) (i : ℕ) (f : Frame)
    → get_elem? fs i ≡ some f
    → ((j : ℕ) (g : Frame) → get_elem? fs j ≡ some g → g.tick ≡ f.tick → j ≡ i)
    → find_frame fs f.tick ≡ some f
unfolding find_frame
find_frame-only [] i f at only = cc
find_frame-only (g ∷ fs) zero f at only = rw (eq→== (ap (λ x. x.tick) (some-injective g f at))) at
find_frame-only (g ∷ fs) (suc i) f at only =
    rw (ne→==_false {a = g.tick} {b = f.tick} (λ e. absurd (zero_ne (only 0 g refl e))))
      (find_frame-only fs i f at (λ j x there e. suc_eq (only (suc j) x there e)))
  where
    zero_ne : {n : ℕ} → 0 ≡ suc n → ⊥
    zero_ne e = omega arith

    suc_eq : {n k : ℕ} → suc n ≡ suc k → n ≡ k
    suc_eq e = omega arith

find_frame-none :
    (fs : List Frame) (tick i : ℕ) (f : Frame)
    → find_frame fs tick ≡ none
    → get_elem? fs i ≡ some f
    → f.tick ≢ tick
unfolding find_frame
find_frame-none [] tick i f e at = cc
find_frame-none (g ∷ fs) tick zero f e at =
    λ is. none-ne-some g (sym e ∙ rw (eq→== (ap (λ x. x.tick) (some-injective g f at) ∙ is)) refl)
find_frame-none (g ∷ fs) tick (suc i) f e at =
    λ is. ground (arith, e, is, find_frame-none fs tick i f)

if-false : {b : Bool} {o : Option Frame} → b ≡ false → (if b then none else o) ≡ o
if-false e = rw e refl

store-new :
    (h : History) (tick : ℕ) (players : List Player)
    → (tick == 0 || ltb max_players (length players)) ≡ false
    → store h tick players ≡ record {
      next = (h.next + 1) % history_size;
      frames = set h.frames (h.next % history_size) (record { tick = tick; players = players });
    }
store-new h tick players e = rw e refl

store-Keeps :
    (h : History) (f : Frame) (g : Frame) (more : ℕ)
    → g.tick ≢ f.tick
    → Keeps h f (suc more)
    → Keeps (store h g.tick g.players) f more ⊎ Keeps (store h g.tick g.players) f (suc more)
store-Keeps h f g more ne k =
    elim (Bool-cases (g.tick == 0 || ltb max_players (length g.players))) [
      | inl e ↦ inr (rw e k)
      | inr e ↦ inl (
          rw (store-new h g.tick g.players e) (record {
            place = k.place;
            at = get_elem?-set_ne h.frames (h.next % history_size) k.place g away ∙ k.at;
            only = λ j x there is.
                elim (get_elem?-set_cases h.frames (h.next % history_size) j g x there) [
                  | inl (here, new) ↦ absurd (ne (ap (λ y. y.tick) (sym new) ∙ is))
                  | inr old ↦ k.only j x old is
                ];
            place_lt = k.place_lt;
            next_lt = omega arith;
            next_eq = omega (arith, k.next_eq, k.next_lt);
            more_le = omega (arith, k.more_le);
          }))
    ]
  where
    away : h.next % history_size ≢ k.place
    away is = omega (arith, is, k.next_eq, k.next_lt, k.more_le)

store-first :
    (h : History) (f : Frame)
    → length h.frames ≡ history_size
    → h.next < history_size
    → f.tick ≢ 0
    → length f.players ≤ max_players
    → find h f.tick ≡ none
    → Keeps (store h f.tick f.players) f 3
store-first h f len next ne small new = rw (store-new h f.tick f.players fits) (record {
  place = h.next % history_size;
  at = get_elem?-set_self h.frames (h.next % history_size) f (omega (arith, len));
  only = λ j x there is. elim (get_elem?-set_cases h.frames (h.next % history_size) j f x there) [
    | inl (here, same) ↦ here
    | inr old ↦ absurd (find_frame-none h.frames f.tick j x absent old is)
  ];
  place_lt = omega arith;
  next_lt = omega arith;
  next_eq = omega arith;
  more_le = omega arith;
})
  where
    absent : find_frame h.frames f.tick ≡ none
    absent = sym (if-false (ne→==_false ne)) ∙ new

    fits : (f.tick == 0 || ltb max_players (length f.players)) ≡ false
    fits = ground arith

find-Keeps :
    (h : History) (f : Frame) (more : ℕ) → f.tick ≢ 0 → Keeps h f more → find h f.tick ≡ some f
find-Keeps h f more ne k =
    if-false (ne→==_false ne) ∙ find_frame-only h.frames k.place f k.at k.only

find-store_all_from :
    (h : History) (f : Frame) (gs : List Frame) (more : ℕ)
    → f.tick ≢ 0
    → All (λ g. g.tick ≢ f.tick) gs
    → length gs ≤ more
    → Keeps h f more
    → find (store_all h gs) f.tick ≡ some f
find-store_all_from h f [] more ne others few k = find-Keeps h f more ne k
find-store_all_from h f (g ∷ gs) zero ne others few k = absurd (omega arith)
find-store_all_from h f (g ∷ gs) (suc more) ne others few k =
    elim (store-Keeps h f g more others.0 k) [
      | inl k2 ↦
          find-store_all_from (store h g.tick g.players) f gs more ne others.1 (omega arith) k2
      | inr k2 ↦
          find-store_all_from (store h g.tick g.players) f gs (suc more) ne others.1 (omega arith)
            k2
    ]

-- A frame with a tick that the history does not have is found under it after it was stored, and until
-- three more frames of other ticks have been.
pub find-store_all :
    (h : History) (f : Frame) (later : List Frame)
    → length h.frames ≡ history_size
    → h.next < history_size
    → f.tick ≢ 0
    → length f.players ≤ max_players
    → find h f.tick ≡ none
    → All (λ g. g.tick ≢ f.tick) later
    → length later ≤ 3
    → find (store_all h (f ∷ later)) f.tick ≡ some f
find-store_all h f later len next ne small new others few =
    find-store_all_from (store h f.tick f.players) f later 3 ne others few
      (store-first h f len next ne small new)
