-- ===== src/DirectoryRegistry/Unique.antt =====
-- Every server is listed once.
use mathlib.Core.Option.{some-injective}
use shroomio.Base.{
  ℕ, suc, ◌+◌, ◌≡◌, ◌≢◌, ◌⊎◌, inl, inr, refl, sym, ap, subst, ◌∙◌, true, Option, none, some, [],
  ◌∷◌, arith, get_elem?, get_elem?-set_cases, set, All, All-get, Bool-cases, Option-cases, ◌==◌,
}
use shroomio.DirectoryRegistry.{Server, Registration, Registry}
use shroomio.DirectoryRegistry.Operations.{Matches, no_matches, note, find_matches, target}

-- Active entries with the same id stand at the same index.
abbrev pub Unique : Registry → Type 0
Unique l =
    (i j : ℕ) (a b : Registration)
    → get_elem? l i ≡ some a
    → get_elem? l j ≡ some b
    → a.active ≡ true
    → b.active ≡ true
    → a.server.server_id ≡ b.server.server_id
    → i ≡ j

-- The active entries with an id all stand at an index.
abbrev pub OnlyAt : Registry → ℕ → ℕ → Type 0
OnlyAt l id i =
    (j : ℕ) (b : Registration)
    → get_elem? l j ≡ some b
    → b.active ≡ true
    → b.server.server_id ≡ id
    → j ≡ i

pub Unique-set :
    (l : Registry) (i : ℕ) (v : Registration)
    → Unique l
    → (v.active ≡ true → OnlyAt l v.server.server_id i)
    → Unique (set l i v)
Unique-set l i v u only p q a b ga gb aa ab same = elim (get_elem?-set_cases l i p v a ga) [
  | inl (p_is, a_is) ↦ elim (get_elem?-set_cases l i q v b gb) [
    | inl (q_is, b_is) ↦ p_is ∙ sym q_is
    | inr there ↦
        p_is
        ∙ sym (
            only (subst (λ y. y.active ≡ true) a_is aa) q b there ab
              (sym same ∙ ap (λ y. y.server.server_id) a_is))
  ]
  | inr here ↦ elim (get_elem?-set_cases l i q v b gb) [
    | inl (q_is, b_is) ↦
        only (subst (λ y. y.active ≡ true) b_is ab) p a here aa
          (same ∙ ap (λ y. y.server.server_id) b_is)
        ∙ sym q_is
    | inr there ↦ u p q a b here there aa ab same
  ]
]

abbrev NoId : ℕ → Registration → Type 0
NoId id r = r.active ≡ true → r.server.server_id ≢ id

abbrev HasId : ℕ → Registration → Type 0
HasId id r = (r.active ≡ true) × (r.server.server_id ≡ id)

note_cases :
    (e : Server) (i : ℕ) (r : Registration) (s : Matches)
    → (((note e i r s).id_match ≡ some i) × HasId e.server_id r)
      ⊎ (((note e i r s).id_match ≡ s.id_match) × NoId e.server_id r)
note_cases e i r s = elim (Bool-cases r.active) [
  | inr idle ↦ inr (simp idle refl, λ on. cc)
  | inl on ↦ elim (Bool-cases (r.server.server_id == e.server_id)) [
    | inl same ↦ inl (simp on (rw same refl), (on, ground arith))
    | inr other ↦ inr (simp on (rw other refl), λ on'. ground arith)
  ]
]

find_matches-none :
    (e : Server) (i : ℕ) (l : Registry) (s : Matches)
    → (find_matches e i l s).id_match ≡ none
    → (s.id_match ≡ none) × All (NoId e.server_id) l
unfolding find_matches
find_matches-none e i [] s h = (h, tt)
find_matches-none e i (r ∷ rs) s h =
    let (before, rest) = find_matches-none e (suc i) rs (note e i r s) h in
    elim (note_cases e i r s) [
      | inl (is, has) ↦ absurd (some_ne i (sym is ∙ before))
      | inr (is, no_) ↦ (sym is ∙ before, (no_, rest))
    ]
  where
    some_ne : (k : ℕ) → ◌≡◌ {A = Option ℕ} (some k) none → ⊥
    some_ne k q = cc

find_matches-some :
    (e : Server) (i : ℕ) (l : Registry) (s : Matches) (k : ℕ)
    → (find_matches e i l s).id_match ≡ some k
    → (s.id_match ≡ some k)
      ⊎ ((j : ℕ) × (a : Registration) × (k ≡ i + j)
          × (get_elem? l j ≡ some a)
          × HasId e.server_id a)
unfolding find_matches
find_matches-some e i [] s k h = inl h
find_matches-some e i (r ∷ rs) s k h = elim (find_matches-some e (suc i) rs (note e i r s) k h) [
  | inr (j, a, at, there, has) ↦ inr (suc j, a, omega (arith, at), there, has)
  | inl noted ↦ elim (note_cases e i r s) [
    | inl (is, has) ↦ inr (0, r, sym (some-injective i k (sym is ∙ noted)) ∙ omega arith, refl, has)
    | inr (is, no_) ↦ inl (sym is ∙ noted)
  ]
]

All-OnlyAt : (l : Registry) (id i : ℕ) → All (NoId id) l → OnlyAt l id i
All-OnlyAt l id i all j b there on same = absurd (All-get (NoId id) l j b all there on same)

-- An entry goes where all active entries with its id stand, if there are any.
pub target-OnlyAt :
    (l : Registry) (e : Server) (i : ℕ)
    → Unique l
    → target (find_matches e 0 l no_matches) ≡ some i
    → OnlyAt l e.server_id i
target-OnlyAt l e i u h = elim (Option-cases (find_matches e 0 l no_matches).id_match) [
  | inl none_ ↦ All-OnlyAt l e.server_id i (find_matches-none e 0 l no_matches none_).1
  | inr (k, found) ↦ elim (find_matches-some e 0 l no_matches k found) [
    | inl noted ↦ absurd (none_ne k noted)
    | inr (j, a, at, there, (on, same)) ↦ λ q b there' on' same'.
        u q j b a there' there on' on (same' ∙ sym same)
        ∙ omega (arith, at, some-injective k i (sym (hit k found) ∙ h))
  ]
]
  where
    none_ne : (k : ℕ) → ◌≡◌ {A = Option ℕ} none (some k) → ⊥
    none_ne k q = cc

    hit :
        (k : ℕ)
        → (find_matches e 0 l no_matches).id_match ≡ some k
        → target (find_matches e 0 l no_matches) ≡ some k
    hit k found = rw found refl
