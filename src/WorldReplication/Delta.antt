-- ===== src/WorldReplication/Delta.antt =====
-- A whole loop of ShroomWorldReplicationBuild between keyframes, and the client's array after its
-- records.
use shroomio.Base.{
  ℕ, suc, ◌+◌, ◌≤◌, ◌≡◌, ◌≢◌, refl, sym, subst, ◌∙◌, Bool, true, false, none, some, List, ◌∷◌, leb,
  ◌==◌, length, arith, Bool-cases, inl, inr, All,
}
use mathlib.Core.Option.{none-ne-some}
use mathlib.Core.Bool.{true≢false}
use shroomio.WorldReplication.{Record}
use shroomio.WorldReplication.Table.{find_entity}
use shroomio.WorldReplication.Build.{
  Slot, Seen, Built, has_replaced, operation_of, next_slot, with_next, with_record, record_for,
  build_slots, step,
}
use shroomio.WorldReplication.Apply.{apply_entity}
use shroomio.WorldReplication.Lookup.{Distinct}
use shroomio.WorldReplication.Follow.{
  Mirrors, told, seen, Apart, new_count, follow, Out, told-head, seen-head,
}
use shroomio.WorldReplication.Mirror.{Out-head, Acts}

module _ {A : Type 0} (id_of : A → ℕ) (equal : A → A → Bool) (record_of : ℕ → ℕ → A → Record)
    (from : Record → A) (room : ℕ) where
  -- The array follows the loop, and is another after it.
  pub record Follows (ws : List (Seen A)) (ss : List (Slot A)) (xs zs : List A) : Type 0 where
    pub outcome :
        (i : ℕ)
        → Out id_of equal
            (seen id_of ws i)
            (told id_of ss i)
            (find_entity id_of xs i)
            (find_entity id_of zs i)
    pub distinct : Distinct id_of zs

  abbrev pub built : ℕ → ℕ → List (Seen A) → List (Slot A) → Built A
  built capacity count ws ss = build_slots id_of equal record_of false capacity count ws ss

  -- A record carries what it was made of.
  pub record Carries : Type 0 where
    pub operation_eq : (operation id : ℕ) (x : A) → (record_of operation id x).operation ≡ operation
    pub entity_id_eq : (operation id : ℕ) (x : A) → (record_of operation id x).entity_id ≡ id

  abbrev pub Faithful : List (Seen A) → Type 0
  Faithful =
      All (λ w.
        (operation : ℕ) → from (record_of operation (id_of w.snapshot) w.snapshot) ≡ w.snapshot)

  abbrev pub Known : List (Slot A) → List A → Type 0
  Known ss xs =
      (i : ℕ) (a : A) → told id_of ss i ≡ some a → Mirrors equal (some a) (find_entity id_of xs i)

  module _ (w : Seen A) (ws : List (Seen A)) (s : Slot A) (ss : List (Slot A)) (xs ys : List A)
      (apart : Apart id_of (w ∷ ws) (s ∷ ss)) (a : Acts id_of equal room w s xs ys) where
    tail_none : (told id_of ss a.id ≡ none) × (seen id_of ws a.id ≡ none)
    tail_none = elim (a.one) [
      | inl k ↦
          subst (λ i. (told id_of ss i ≡ none) × (seen id_of ws i ≡ none)) (a.known_id k)
            (apart.0 k)
      | inr c ↦
          subst (λ i. (told id_of ss i ≡ none) × (seen id_of ws i ≡ none)) (a.current_id c)
            (apart.1 c)
    ]

    told-other : (i : ℕ) → a.id ≢ i → told id_of (s ∷ ss) i ≡ told id_of ss i
    told-other i ne = told-head id_of s ss i (λ k e. ne (sym (a.known_id k) ∙ e))

    pub tail-Known : Known (s ∷ ss) xs → Known ss ys
    tail-Known known i x e =
        subst (λ o. Mirrors equal (some x) o) (sym (a.keeps i other))
          (known i x (told-other i other ∙ e))
      where
        other : a.id ≢ i
        other is = none-ne-some x (sym (subst (λ k. told id_of ss k ≡ none) is tail_none.0) ∙ e)

    outcome-tail :
        (zs : List A)
        → ((i : ℕ)
            → Out id_of equal
                (seen id_of ws i)
                (told id_of ss i)
                (find_entity id_of ys i)
                (find_entity id_of zs i))
        → (i : ℕ)
        → Out id_of equal
            (seen id_of (w ∷ ws) i)
            (told id_of (s ∷ ss) i)
            (find_entity id_of xs i)
            (find_entity id_of zs i)
    outcome-tail zs rest =
        Out-head id_of equal room a.id (told id_of (s ∷ ss)) (told id_of ss) (seen id_of (w ∷ ws))
          (seen id_of ws) xs ys zs told-other
          (λ i ne. seen-head id_of w ws i (λ c e. ne (sym (a.current_id c) ∙ e))) tail_none.0
          tail_none.1 a.keeps (a.at ws ss tail_none.0 tail_none.1) rest

  -- The loop at an index, by its operation.
  pub build-quiet :
      (w : Seen A) (ws : List (Seen A)) (s : Slot A) (ss : List (Slot A)) (capacity count : ℕ)
      → operation_of id_of equal record_of false w s ≡ 0
      → build_slots id_of equal record_of false capacity count (w ∷ ws) (s ∷ ss)
        ≡ with_next id_of equal record_of
            (next_slot id_of equal record_of w s)
            (build_slots id_of equal record_of false capacity count ws ss)
  unfolding build_slots
  build-quiet w ws s ss capacity count e = rw e refl

  step-told :
      (capacity count k : ℕ) (w : Seen A) (s : Slot A) (ss : List (Slot A)) (q t : Built A)
      → (step id_of equal record_of capacity count w s ss (suc k) q t).fits ≡ true
      → step id_of equal record_of capacity count w s ss (suc k) q t
        ≡ with_record id_of equal record_of
            (record_for id_of equal record_of (suc k) w s)
            (next_slot id_of equal record_of w s)
            t
  step-told capacity count k w s ss q t fits = elim (Bool-cases (leb capacity count)) [
    | inl full ↦ absurd (true≢false (sym fits ∙ rw (some_operation, full) refl))
    | inr free ↦ rw (some_operation, free) refl
  ]
    where
      some_operation : (suc k == 0) ≡ false
      some_operation = ground arith

  pub build-told :
      (w : Seen A) (ws : List (Seen A)) (s : Slot A) (ss : List (Slot A)) (capacity count k : ℕ)
      → operation_of id_of equal record_of false w s ≡ suc k
      → (build_slots id_of equal record_of false capacity count (w ∷ ws) (s ∷ ss)).fits ≡ true
      → build_slots id_of equal record_of false capacity count (w ∷ ws) (s ∷ ss)
        ≡ with_record id_of equal record_of
            (record_for id_of equal record_of (suc k) w s)
            (next_slot id_of equal record_of w s)
            (build_slots id_of equal record_of false capacity (suc count) ws ss)
  unfolding build_slots
  build-told w ws s ss capacity count k e fits = rw e (
      step-told capacity count k w s ss _ _ (
        subst
          (λ o.
            (step id_of equal record_of capacity count w s ss o
              (build_slots id_of equal record_of false capacity count ws ss)
              (build_slots id_of equal record_of false capacity (suc count) ws ss)).fits
            ≡ true)
          e fits))

  -- What the loop needs, and what it gives.
  pub record Ready (ws : List (Seen A)) (ss : List (Slot A)) (xs : List A) : Type 0 where
    pub apart : Apart id_of ws ss
    pub same_ids : has_replaced id_of equal record_of ws ss ≡ false
    pub faithful : Faithful ws
    pub distinct : Distinct id_of xs
    pub enough : length xs + new_count id_of ws ss ≤ room
    pub known : Known ss xs

  -- A head that says nothing, and one that is recorded.
  pub quiet :
      (w : Seen A) (ws : List (Seen A)) (s : Slot A) (ss : List (Slot A)) (xs : List A)
      (capacity count : ℕ)
      → operation_of id_of equal record_of false w s ≡ 0
      → Apart id_of (w ∷ ws) (s ∷ ss)
      → Acts id_of equal room w s xs xs
      → Follows ws ss xs (follow id_of from room xs (built capacity count ws ss).records)
      → Follows
          (w ∷ ws)
          (s ∷ ss)
          xs
          (follow id_of from room xs (built capacity count (w ∷ ws) (s ∷ ss)).records)
  quiet w ws s ss xs capacity count e apart a f =
      subst (λ b. Follows (w ∷ ws) (s ∷ ss) xs (follow id_of from room xs b.records))
        (sym (build-quiet w ws s ss capacity count e))
        (record {
          outcome = outcome-tail w ws s ss xs xs apart a _ f.outcome;
          distinct = f.distinct;
        })

  pub recorded :
      (w : Seen A) (ws : List (Seen A)) (s : Slot A) (ss : List (Slot A)) (xs ys : List A)
      (capacity count k : ℕ)
      → operation_of id_of equal record_of false w s ≡ suc k
      → (built capacity count (w ∷ ws) (s ∷ ss)).fits ≡ true
      → (let r = record_for id_of equal record_of (suc k) w s in
          apply_entity id_of room xs r (from r) ≡ ys)
      → Apart id_of (w ∷ ws) (s ∷ ss)
      → Acts id_of equal room w s xs ys
      → Follows ws ss ys (follow id_of from room ys (built capacity (suc count) ws ss).records)
      → Follows
          (w ∷ ws)
          (s ∷ ss)
          xs
          (follow id_of from room xs (built capacity count (w ∷ ws) (s ∷ ss)).records)
  unfolding follow
  recorded w ws s ss xs ys capacity count k e fits gives apart a f =
      subst (λ b. Follows (w ∷ ws) (s ∷ ss) xs (follow id_of from room xs b.records))
        (sym (build-told w ws s ss capacity count k e fits))
        (subst
          (λ zs.
            Follows (w ∷ ws) (s ∷ ss) xs
              (follow id_of from room zs (built capacity (suc count) ws ss).records))
          (sym gives)
          (record {
            outcome = outcome-tail w ws s ss xs ys apart a _ f.outcome;
            distinct = f.distinct;
          }))
