-- ===== src/WorldReplication/Together.antt =====
-- ShroomWorldReplicationBuild on the server and the records on the client, between keyframes.
use shroomio.Base.{
  ℕ, suc, ◌≡◌, refl, sym, Bool, true, false, List, [], ◌∷◌, ◌++◌, leb, ◌==◌, if◌then◌else◌, length,
  arith, Bool-cases, inl, inr, All,
}
use mathlib.Core.Bool.{true≢false}
use shroomio.WorldReplication.{Record, max_spores, max_powerups}
use shroomio.WorldReplication.Build.{
  Slot, Seen, Built, operation_of, next_slot, with_next, with_record, record_for, step, build_slots,
}
use shroomio.WorldReplication.Apply.{Client, spore_of, powerup_of, apply_record, apply_records}
use shroomio.WorldReplication.Follow.{told, seen, follow}

module _ {A : Type 0} (id_of : A → ℕ) (equal : A → A → Bool) (record_of : ℕ → ℕ → A → Record) where
  if-either : (P : Built A → Type 0) (b : Bool) (x y : Built A) → P x → P y → P (if b then x else y)
  if-either P true x y hx hy = hx
  if-either P false x y hx hy = hy

  -- What holds of the three ways in which an index can go.
  step-either :
      (P : Built A → Type 0) (capacity count o : ℕ) (w : Seen A) (s : Slot A) (ss : List (Slot A))
      (q t : Built A)
      → P (with_next id_of equal record_of (next_slot id_of equal record_of w s) q)
      → P (record { slots = s ∷ ss; records = []; fits = false })
      → P (
          with_record id_of equal record_of
            (record_for id_of equal record_of o w s)
            (next_slot id_of equal record_of w s)
            t)
      → P (step id_of equal record_of capacity count w s ss o q t)
  step-either P capacity count o w s ss q t hq hf ht =
      if-either P (o == 0) _ _ hq (if-either P (leb capacity count) _ _ hf ht)

  told-next :
      (w : Seen A) (ws : List (Seen A)) (s : Slot A) (rest : List (Slot A)) (i : ℕ)
      → told id_of rest i ≡ seen id_of ws i
      → told id_of (next_slot id_of equal record_of w s ∷ rest) i ≡ seen id_of (w ∷ ws) i
  unfolding told seen
  told-next w ws s rest i e = elim (Bool-cases w.current) [
    | inl c ↦ rw (c, e) refl
    | inr c ↦ rw (c, e) refl
  ]

  nothing_told : (i : ℕ) → told id_of [] i ≡ seen id_of [] i
  unfolding told seen
  nothing_told i = refl

  -- What was told is then what is seen.
  pub told-build_slots :
      (keyframe : Bool) (capacity count : ℕ) (ws : List (Seen A)) (ss : List (Slot A))
      → length ws ≡ length ss
      → (build_slots id_of equal record_of keyframe capacity count ws ss).fits ≡ true
      → (i : ℕ)
      → told id_of (build_slots id_of equal record_of keyframe capacity count ws ss).slots i
        ≡ seen id_of ws i
  unfolding build_slots
  told-build_slots keyframe capacity count [] [] h f i = nothing_told i
  told-build_slots keyframe capacity count [] (s ∷ ss) h f i = absurd (omega arith)
  told-build_slots keyframe capacity count (w ∷ ws) [] h f i = absurd (omega arith)
  told-build_slots keyframe capacity count (w ∷ ws) (s ∷ ss) h f i =
      step-either (λ b. b.fits ≡ true → told id_of b.slots i ≡ seen id_of (w ∷ ws) i) capacity count
        (operation_of id_of equal record_of keyframe w s) w s ss
        (build_slots id_of equal record_of keyframe capacity count ws ss)
        (build_slots id_of equal record_of keyframe capacity (suc count) ws ss)
        (λ g.
          told-next w ws s _ i (told-build_slots keyframe capacity count ws ss (omega arith) g i))
        (λ g. absurd (true≢false (sym g)))
        (λ g.
          told-next w ws s _ i
            (told-build_slots keyframe capacity (suc count) ws ss (omega arith) g i))
        f

  -- All records are of one kind.
  pub kind-build_slots :
      (kind : ℕ) (keyframe : Bool) (capacity count : ℕ) (ws : List (Seen A)) (ss : List (Slot A))
      → ((operation id : ℕ) (x : A) → (record_of operation id x).entity_kind ≡ kind)
      → All
          (λ r. r.entity_kind ≡ kind)
          (build_slots id_of equal record_of keyframe capacity count ws ss).records
  unfolding build_slots
  kind-build_slots kind keyframe capacity count [] ss h = tt
  kind-build_slots kind keyframe capacity count (w ∷ ws) [] h = tt
  kind-build_slots kind keyframe capacity count (w ∷ ws) (s ∷ ss) h =
      step-either (λ b. All (λ r. r.entity_kind ≡ kind) b.records) capacity count
        (operation_of id_of equal record_of keyframe w s) w s ss
        (build_slots id_of equal record_of keyframe capacity count ws ss)
        (build_slots id_of equal record_of keyframe capacity (suc count) ws ss)
        (kind-build_slots kind keyframe capacity count ws ss h) tt
        (h _ _ w.snapshot, kind-build_slots kind keyframe capacity (suc count) ws ss h)

pub apply_records-spores :
    (rs : List Record) (c : Client)
    → All (λ r. r.entity_kind ≡ 1) rs
    → apply_records false c rs
      ≡ record c { spores = follow (λ s. s.entity_id) spore_of max_spores c.spores rs }
unfolding apply_records apply_record follow
apply_records-spores [] c h = refl
apply_records-spores (r ∷ rs) c h = rw h.0 (apply_records-spores rs _ h.1)

pub apply_records-powerups :
    (rs : List Record) (c : Client)
    → All (λ r. r.entity_kind ≡ 2) rs
    → apply_records false c rs
      ≡ record c { powerups = follow (λ p. p.entity_id) powerup_of max_powerups c.powerups rs }
unfolding apply_records apply_record follow
apply_records-powerups [] c h = refl
apply_records-powerups (r ∷ rs) c h = rw h.0 (apply_records-powerups rs _ h.1)

pub apply_records-append :
    (rs qs : List Record) (c : Client)
    → apply_records false c (rs ++ qs) ≡ apply_records false (apply_records false c rs) qs
unfolding apply_records
apply_records-append [] qs c = refl
apply_records-append (r ∷ rs) qs c = apply_records-append rs qs _
