-- ===== src/WorldReplication/Replica.antt =====
-- The client's array is the server's view, index by index and at the end.
use shroomio.Base.{
  ℕ, suc, ◌≡◌, refl, sym, ap, subst, ◌∙◌, Bool, true, false, some, List, [], ◌∷◌, length, arith,
  Bool-cases, inl, inr,
}
use mathlib.Core.Bool.{true≢false}
use shroomio.WorldReplication.{Record}
use shroomio.WorldReplication.Table.{find_entity, is_found, put_entity, remove_entity}
use shroomio.WorldReplication.Build.{
  Slot, Seen, has_replaced, operation_of, build_slots, record_for,
}
use shroomio.WorldReplication.Apply.{apply_entity}
use shroomio.WorldReplication.Lookup.{Distinct}
use shroomio.WorldReplication.Follow.{
  Mirrors, told, seen, follow, Out, told-head, seen-head, told-here,
}
use shroomio.WorldReplication.Mirror.{Acts, puts, stays, goes}
use shroomio.WorldReplication.Delta
use shroomio.WorldReplication.Operation

module _ {A : Type 0} (id_of : A → ℕ) (equal : A → A → Bool) (record_of : ℕ → ℕ → A → Record)
    (from : Record → A) (room : ℕ) (carries : Delta.Carries id_of equal record_of from room) where
  has_replaced-head :
      (w : Seen A) (ws : List (Seen A)) (s : Slot A) (ss : List (Slot A))
      → has_replaced id_of equal record_of (w ∷ ws) (s ∷ ss) ≡ false
      → (s.known ≡ true → w.current ≡ true → id_of s.last ≡ id_of w.snapshot)
        × (has_replaced id_of equal record_of ws ss ≡ false)
  unfolding has_replaced
  has_replaced-head w ws s ss h = ground arith

  tail-Ready :
      (w : Seen A) (ws : List (Seen A)) (s : Slot A) (ss : List (Slot A)) (xs ys : List A)
      → Delta.Ready id_of equal record_of from room (w ∷ ws) (s ∷ ss) xs
      → Acts id_of equal room w s xs ys
      → Delta.Ready id_of equal record_of from room ws ss ys
  tail-Ready w ws s ss xs ys r a = record {
    apart = r.apart.2;
    same_ids = (has_replaced-head w ws s ss r.same_ids).1;
    faithful = r.faithful.1;
    distinct = a.distinct;
    enough = omega (arith, r.enough, a.length_le);
    known = Delta.tail-Known id_of equal record_of from room w ws s ss xs ys r.apart a r.known;
  }

  module _ (w : Seen A) (ws : List (Seen A)) (s : Slot A) (ss : List (Slot A)) (xs : List A)
      (r : Delta.Ready id_of equal record_of from room (w ∷ ws) (s ∷ ss) xs) where
    told-last : s.known ≡ true → Mirrors equal (some s.last) (find_entity id_of xs (id_of s.last))
    told-last k = r.known (id_of s.last) s.last (told-here id_of s ss k)

    Acts-put : w.current ≡ true → Acts id_of equal room w s xs (put_entity id_of room xs w.snapshot)
    Acts-put c = puts id_of equal room w s xs r.distinct c same found (omega (arith, r.enough))
      where
        same : s.known ≡ true → id_of s.last ≡ id_of w.snapshot
        same k = (has_replaced-head w ws s ss r.same_ids).0 k c

        found : s.known ≡ true → is_found (find_entity id_of xs (id_of w.snapshot)) ≡ true
        found k =
            let (y, there, like) = told-last k in
            subst (λ i. is_found (find_entity id_of xs i) ≡ true) (same k) (ap is_found there)

    Acts-stay :
        w.current ≡ true
        → s.known ≡ true
        → equal w.snapshot s.last ≡ true
        → Acts id_of equal room w s xs xs
    Acts-stay c k e =
        stays id_of equal room w s xs r.distinct c k
          ((has_replaced-head w ws s ss r.same_ids).0 k c) e (told-last k)

    idle-Ready :
        w.current ≡ false → s.known ≡ false → Delta.Ready id_of equal record_of from room ws ss xs
    idle-Ready c k = record {
      apart = r.apart.2;
      same_ids = (has_replaced-head w ws s ss r.same_ids).1;
      faithful = r.faithful.1;
      distinct = r.distinct;
      enough = omega (arith, r.enough);
      known =
          λ i x e. r.known i x (told-head id_of s ss i (λ t. absurd (true≢false (sym t ∙ k))) ∙ e);
    }

    idle-Follows :
        (zs : List A)
        → w.current ≡ false
        → s.known ≡ false
        → Delta.Follows id_of equal record_of from room ws ss xs zs
        → Delta.Follows id_of equal record_of from room (w ∷ ws) (s ∷ ss) xs zs
    idle-Follows zs c k f = record {
      outcome = λ i.
          subst
            (λ o.
              Out id_of equal o (told id_of (s ∷ ss) i) (find_entity id_of xs i)
                (find_entity id_of zs i))
            (sym (seen-head id_of w ws i (λ t. absurd (true≢false (sym t ∙ c)))))
            (subst
              (λ o.
                Out id_of equal (seen id_of ws i) o (find_entity id_of xs i)
                  (find_entity id_of zs i))
              (sym (told-head id_of s ss i (λ t. absurd (true≢false (sym t ∙ k))))) (f.outcome i));
      distinct = f.distinct;
    }

  nothing-Follows :
      (xs : List A) (capacity count : ℕ)
      → Distinct id_of xs
      → Delta.Follows id_of equal record_of from room [] [] xs (
          follow id_of from room xs
            (Delta.built id_of equal record_of from room capacity count [] []).records)
  unfolding told seen follow build_slots
  nothing-Follows xs capacity count d = record { outcome = λ i. refl; distinct = d }

  module _ (w : Seen A) (ws : List (Seen A)) (s : Slot A) (ss : List (Slot A)) (xs ys : List A)
      (capacity count : ℕ) (r : Delta.Ready id_of equal record_of from room (w ∷ ws) (s ∷ ss) xs)
      (fits : (Delta.built id_of equal record_of from room capacity count (w ∷ ws) (s ∷ ss)).fits
        ≡ true) where
    -- A record is written, and the rest of the loop goes on from the array that it leaves.
    recorded-then :
        (k : ℕ)
        → operation_of id_of equal record_of false w s ≡ suc k
        → (let q = record_for id_of equal record_of (suc k) w s in
            apply_entity id_of room xs q (from q) ≡ ys)
        → Acts id_of equal room w s xs ys
        → ((Delta.built id_of equal record_of from room capacity (suc count) ws ss).fits ≡ true
            → Delta.Follows id_of equal record_of from room ws ss ys (
                follow id_of from room ys
                  (Delta.built id_of equal record_of from room capacity (suc count) ws ss).records))
        → Delta.Follows id_of equal record_of from room (w ∷ ws) (s ∷ ss) xs (
            follow id_of from room xs
              (Delta.built id_of equal record_of from room capacity count
                (w ∷ ws)
                (s ∷ ss)).records)
    recorded-then k e gives a rest =
        Delta.recorded id_of equal record_of from room w ws s ss xs ys capacity count k e fits gives
          r.apart a
          (rest (
            subst (λ b. b.fits ≡ true)
              (Delta.build-told id_of equal record_of from room w ws s ss capacity count k e fits)
              fits))

    quiet-fits :
        operation_of id_of equal record_of false w s ≡ 0
        → (Delta.built id_of equal record_of from room capacity count ws ss).fits ≡ true
    quiet-fits e =
        subst (λ b. b.fits ≡ true)
          (Delta.build-quiet id_of equal record_of from room w ws s ss capacity count e) fits

  -- After a loop of a frame that is no keyframe, the client's array has followed it.
  pub build_slots-Follows :
      (ws : List (Seen A)) (ss : List (Slot A)) (xs : List A) (capacity count : ℕ)
      → length ws ≡ length ss
      → Delta.Ready id_of equal record_of from room ws ss xs
      → (Delta.built id_of equal record_of from room capacity count ws ss).fits ≡ true
      → Delta.Follows id_of equal record_of from room ws ss xs (
          follow id_of from room xs
            (Delta.built id_of equal record_of from room capacity count ws ss).records)
  build_slots-Follows [] [] xs capacity count h r fits =
      nothing-Follows xs capacity count r.distinct
  build_slots-Follows [] (s ∷ ss) xs capacity count h r fits = absurd (omega arith)
  build_slots-Follows (w ∷ ws) [] xs capacity count h r fits = absurd (omega arith)
  build_slots-Follows (w ∷ ws) (s ∷ ss) xs capacity count h r fits = elim (Bool-cases w.current) [
    | inl c ↦ elim (Bool-cases s.known) [
      | inr k ↦
          recorded-then w ws s ss xs (put_entity id_of room xs w.snapshot) capacity count r fits 0
            (Operation.op-spawn id_of equal record_of from room w s c k)
            (Operation.record_for-put id_of equal record_of from room carries 1 w s xs (inl refl) c
              r.faithful.0)
            (Acts-put w ws s ss xs r c)
            (build_slots-Follows ws ss (put_entity id_of room xs w.snapshot) capacity (suc count)
              (omega arith)
              (tail-Ready w ws s ss xs (put_entity id_of room xs w.snapshot) r
                (Acts-put w ws s ss xs r c)))
      | inl k ↦ elim (Bool-cases (equal w.snapshot s.last)) [
        | inl e ↦
            Delta.quiet id_of equal record_of from room w ws s ss xs capacity count
              (Operation.op-same id_of equal record_of from room w s c k e) r.apart
              (Acts-stay w ws s ss xs r c k e)
              (build_slots-Follows ws ss xs capacity count (omega arith)
                (tail-Ready w ws s ss xs xs r (Acts-stay w ws s ss xs r c k e))
                (quiet-fits w ws s ss xs xs capacity count r fits
                  (Operation.op-same id_of equal record_of from room w s c k e)))
        | inr e ↦
            recorded-then w ws s ss xs (put_entity id_of room xs w.snapshot) capacity count r fits 1
              (Operation.op-update id_of equal record_of from room w s c k e)
              (Operation.record_for-put id_of equal record_of from room carries 2 w s xs (inr refl)
                c r.faithful.0)
              (Acts-put w ws s ss xs r c)
              (build_slots-Follows ws ss (put_entity id_of room xs w.snapshot) capacity (suc count)
                (omega arith)
                (tail-Ready w ws s ss xs (put_entity id_of room xs w.snapshot) r
                  (Acts-put w ws s ss xs r c)))
      ]
    ]
    | inr c ↦ elim (Bool-cases s.known) [
      | inl k ↦
          recorded-then w ws s ss xs (remove_entity id_of xs (id_of s.last)) capacity count r fits 2
            (Operation.op-remove id_of equal record_of from room w s c k)
            (Operation.record_for-remove id_of equal record_of from room carries w s xs c)
            (goes id_of equal room w s xs r.distinct c k)
            (build_slots-Follows ws ss (remove_entity id_of xs (id_of s.last)) capacity (suc count)
              (omega arith)
              (tail-Ready w ws s ss xs (remove_entity id_of xs (id_of s.last)) r
                (goes id_of equal room w s xs r.distinct c k)))
      | inr k ↦
          subst
            (λ b.
              Delta.Follows id_of equal record_of from room (w ∷ ws) (s ∷ ss) xs
                (follow id_of from room xs b.records))
            (sym (
              Delta.build-quiet id_of equal record_of from room w ws s ss capacity count
                (Operation.op-idle id_of equal record_of from room w s c k)))
            (idle-Follows w ws s ss xs r _ c k (
              build_slots-Follows ws ss xs capacity count (omega arith)
                (idle-Ready w ws s ss xs r c k)
                (quiet-fits w ws s ss xs xs capacity count r fits
                  (Operation.op-idle id_of equal record_of from room w s c k))))
    ]
  ]
