-- ===== src/WorldReplication/Operation.antt =====
-- Which record the loop of ShroomWorldReplicationBuild writes for an entity, and what the client does
-- with it.
use shroomio.Base.{ℕ, ◌≡◌, ◌⊎◌, refl, ap, ◌∙◌, Bool, true, false, List, if◌then◌else◌, inl, inr}
use shroomio.WorldReplication.{Record}
use shroomio.WorldReplication.Table.{remove_entity, put_entity}
use shroomio.WorldReplication.Build.{Slot, Seen, operation_of, record_for}
use shroomio.WorldReplication.Apply.{apply_entity}
use shroomio.WorldReplication.Delta

module _ {A : Type 0} (id_of : A → ℕ) (equal : A → A → Bool) (record_of : ℕ → ℕ → A → Record)
    (from : Record → A) (room : ℕ) where
  -- The operation at an index.
  module _ (w : Seen A) (s : Slot A) where
    pub op-spawn :
        w.current ≡ true → s.known ≡ false → operation_of id_of equal record_of false w s ≡ 1
    unfolding operation_of
    op-spawn c k = rw (c, k) refl

    pub op-same :
        w.current ≡ true
        → s.known ≡ true
        → equal w.snapshot s.last ≡ true
        → operation_of id_of equal record_of false w s ≡ 0
    unfolding operation_of
    op-same c k e = rw (c, k, e) refl

    pub op-update :
        w.current ≡ true
        → s.known ≡ true
        → equal w.snapshot s.last ≡ false
        → operation_of id_of equal record_of false w s ≡ 2
    unfolding operation_of
    op-update c k e = rw (c, k, e) refl

    pub op-remove :
        w.current ≡ false → s.known ≡ true → operation_of id_of equal record_of false w s ≡ 3
    unfolding operation_of
    op-remove c k = rw (c, k) refl

    pub op-idle :
        w.current ≡ false → s.known ≡ false → operation_of id_of equal record_of false w s ≡ 0
    unfolding operation_of
    op-idle c k = rw (c, k) refl

  apply-put :
      (r : Record) (x : A) (xs : List A)
      → (r.operation ≡ 1) ⊎ (r.operation ≡ 2)
      → apply_entity id_of room xs r x ≡ put_entity id_of room xs x
  unfolding apply_entity
  apply-put r x xs (inl e) = rw e refl
  apply-put r x xs (inr e) = rw e refl

  apply-remove :
      (r : Record) (x : A) (xs : List A)
      → r.operation ≡ 3
      → apply_entity id_of room xs r x ≡ remove_entity id_of xs r.entity_id
  unfolding apply_entity
  apply-remove r x xs e = rw e refl

  module _ (carries : Delta.Carries id_of equal record_of from room) where
    pub record_for-put :
        (k : ℕ) (w : Seen A) (s : Slot A) (xs : List A)
        → (k ≡ 1) ⊎ (k ≡ 2)
        → w.current ≡ true
        → ((operation : ℕ) → from (record_of operation (id_of w.snapshot) w.snapshot) ≡ w.snapshot)
        → (let r = record_for id_of equal record_of k w s in
            apply_entity id_of room xs r (from r) ≡ put_entity id_of room xs w.snapshot)
    record_for-put k w s xs which c f =
        apply-put (record_for id_of equal record_of k w s) _ xs (elim which [
          | inl e ↦ inl (carries.operation_eq k _ w.snapshot ∙ e)
          | inr e ↦ inr (carries.operation_eq k _ w.snapshot ∙ e)
        ])
        ∙ ap (put_entity id_of room xs) (
            ap (λ b. from (record_of k (if b then id_of w.snapshot else id_of s.last) w.snapshot)) c
            ∙ f k)

    pub record_for-remove :
        (w : Seen A) (s : Slot A) (xs : List A)
        → w.current ≡ false
        → (let r = record_for id_of equal record_of 3 w s in
            apply_entity id_of room xs r (from r) ≡ remove_entity id_of xs (id_of s.last))
    record_for-remove w s xs c =
        apply-remove (record_for id_of equal record_of 3 w s) _ xs
          (carries.operation_eq 3 _ w.snapshot)
        ∙ ap (remove_entity id_of xs) (
            carries.entity_id_eq 3 _ w.snapshot
            ∙ ap (λ b. if b then id_of w.snapshot else id_of s.last) c)
