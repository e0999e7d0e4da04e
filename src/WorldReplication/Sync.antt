-- ===== src/WorldReplication/Sync.antt =====
-- A client that applies every batch between two keyframes stays with the server.
use shroomio.Base.{
  ℕ, ◌≡◌, refl, sym, ap, subst, ◌∙◌, Bool, true, false, ◌||◌, Option, none, some, List, ◌++◌,
  length, arith, All,
}
use shroomio.WorldReplication.{Record, max_spores, max_powerups, spore_equal, powerup_equal}
use shroomio.WorldReplication.Table.{find_entity}
use shroomio.WorldReplication.Build.{
  Slot, Seen, World, Peer, Batch, see_spores, see_powerups, spore_record, powerup_record,
  has_replaced, build_spores, build_powerups, is_keyframe, build,
}
use shroomio.WorldReplication.Apply.{Client, spore_of, powerup_of, apply_records}
use shroomio.WorldReplication.Lookup.{Distinct}
use shroomio.WorldReplication.Follow.{Mirrors, told, seen, follow, Out}
use shroomio.WorldReplication.Delta
use shroomio.WorldReplication.Parts.{Parts, finish-Parts}
use shroomio.WorldReplication.Replica.{build_slots-Follows}
use shroomio.WorldReplication.Together.{
  told-build_slots, kind-build_slots, apply_records-spores, apply_records-powerups,
  apply_records-append,
}
use shroomio.WorldReplication.Mirrored.{
  spore_id, powerup_id, Mirrored, IsTellable, length-see_spores, length-see_powerups,
  spores-Faithful, powerups-Faithful, spore-Carries, powerup-Carries,
}
use shroomio.WorldReplication.Visible.{Shows, Mirrored→Shows}

module _ {A : Type 0} (id_of : A → ℕ) (equal : A → A → Bool) (record_of : ℕ → ℕ → A → Record)
    (from : Record → A) (room : ℕ) (carries : Delta.Carries id_of equal record_of from room) where
  Out→Mirrors :
      (s t before after : Option A)
      → Out id_of equal s t before after
      → Mirrors equal t before
      → Mirrors equal s after
  Out→Mirrors (some x) t before after o m = o
  Out→Mirrors none none before after o m = o ∙ m
  Out→Mirrors none (some y) before after o m = o

  -- One kind of entities.
  replica :
      (ws : List (Seen A)) (ss : List (Slot A)) (xs : List A) (capacity count : ℕ)
      → length ws ≡ length ss
      → Delta.Ready id_of equal record_of from room ws ss xs
      → ((i : ℕ) → Mirrors equal (told id_of ss i) (find_entity id_of xs i))
      → (Delta.built id_of equal record_of from room capacity count ws ss).fits ≡ true
      → let b = Delta.built id_of equal record_of from room capacity count ws ss in
        Distinct id_of (follow id_of from room xs b.records)
        × ((i : ℕ)
            → Mirrors equal
                (told id_of b.slots i)
                (find_entity id_of (follow id_of from room xs b.records) i))
  replica ws ss xs capacity count h r m fits =
      let f =
        build_slots-Follows id_of equal record_of from room carries ws ss xs capacity count h r
          fits in
      (
        f.distinct,
        λ i.
            subst
              (λ o. Mirrors equal o (
                find_entity id_of
                  (follow id_of from room xs
                    (Delta.built id_of equal record_of from room capacity count ws ss).records)
                  i))
              (sym (told-build_slots id_of equal record_of false capacity count ws ss h fits i))
              (Out→Mirrors (seen id_of ws i) (told id_of ss i) _ _ (f.outcome i) (m i)),
      )

is_keyframe-false :
    (is_near : ℕ → ℕ → Bool) (peer : Peer) (world : World) (force : Bool)
    → is_keyframe is_near peer world force ≡ false
    → (has_replaced
          (λ s. s.entity_id)
          spore_equal
          spore_record
          (see_spores is_near world.spore_count 0 world.spores)
          peer.spores
        ≡ false)
      × (has_replaced
            (λ p. p.entity_id)
            powerup_equal
            powerup_record
            (see_powerups is_near world.powerup_count 0 world.powerups)
            peer.powerups
          ≡ false)
unfolding is_keyframe
is_keyframe-false is_near peer world force h = or-false _ _ _ h
  where
    or-false : (a b d : Bool) → (a || b || d) ≡ false → (b ≡ false) × (d ≡ false)
    or-false a b d e = ground arith

Mirrored-peer :
    (c : Client) (p q : Peer)
    → p.spores ≡ q.spores
    → p.powerups ≡ q.powerups
    → Mirrored c p
    → Mirrored c q
Mirrored-peer c p q es ep m = record {
  spores = λ i.
      subst (λ l. Mirrors spore_equal (told spore_id l i) (find_entity spore_id c.spores i)) es
        (m.spores i);
  powerups = λ i.
      subst (λ l. Mirrors powerup_equal (told powerup_id l i) (find_entity powerup_id c.powerups i))
        ep (m.powerups i);
  spores_distinct = m.spores_distinct;
  powerups_distinct = m.powerups_distinct;
}

-- Both kinds of records, one after the other.
Mirrored-both :
    (c : Client) (peer : Peer) (rs qs : List Record)
    → All (λ r. r.entity_kind ≡ 1) rs
    → All (λ r. r.entity_kind ≡ 2) qs
    → Distinct spore_id (follow spore_id spore_of max_spores c.spores rs)
      × ((i : ℕ)
          → Mirrors spore_equal
              (told spore_id peer.spores i)
              (find_entity spore_id (follow spore_id spore_of max_spores c.spores rs) i))
    → Distinct powerup_id (follow powerup_id powerup_of max_powerups c.powerups qs)
      × ((i : ℕ)
          → Mirrors powerup_equal
              (told powerup_id peer.powerups i)
              (find_entity powerup_id (follow powerup_id powerup_of max_powerups c.powerups qs) i))
    → Mirrored (apply_records false c (rs ++ qs)) peer
Mirrored-both c peer rs qs hr hq s p =
    subst (λ d. Mirrored d peer) (sym all)
      (record { spores = s.1; powerups = p.1; spores_distinct = s.0; powerups_distinct = p.0 })
  where
    all : apply_records false c (rs ++ qs) ≡ record c {
      spores = follow spore_id spore_of max_spores c.spores rs;
      powerups = follow powerup_id powerup_of max_powerups c.powerups qs;
    }
    all =
        apply_records-append rs qs c
        ∙ ap (λ d. apply_records false d qs) (apply_records-spores rs c hr)
        ∙ apply_records-powerups qs
            (record c { spores = follow spore_id spore_of max_spores c.spores rs }) hq

-- The client has what the server takes it to know after the batch.
apply_records-Mirrored :
    (is_near : ℕ → ℕ → Bool) (peer peer2 : Peer) (world : World) (force : Bool) (capacity : ℕ)
    (c : Client) (batch : Batch)
    → build is_near peer world force capacity ≡ (peer2, some batch)
    → batch.keyframe ≡ false
    → IsTellable is_near peer world c
    → Mirrored c peer
    → Mirrored (apply_records false c batch.records) peer2
unfolding build
apply_records-Mirrored is_near peer peer2 world force capacity c batch e kf v m =
    let ws = see_spores is_near world.spore_count 0 world.spores in
    let ps = see_powerups is_near world.powerup_count 0 world.powerups in
    let before =
      finish-Parts peer peer2 batch world.tick (is_keyframe is_near peer world force) _ _ e in
    let none_due = sym before.keyframe_eq ∙ kf in
    let (same_spores, same_powerups) = is_keyframe-false is_near peer world force none_due in
    let parts =
      subst
        (λ k. Parts peer2 batch k (build_spores k capacity 0 ws peer.spores) (
          build_powerups k capacity (length (build_spores k capacity 0 ws peer.spores).records) ps
            peer.powerups))
        none_due before in
    let first = build_spores false capacity 0 ws peer.spores in
    let second = build_powerups false capacity (length first.records) ps peer.powerups in
    let s =
      replica spore_id spore_equal spore_record spore_of max_spores spore-Carries ws peer.spores
        c.spores capacity 0
        (length-see_spores is_near world.spore_count 0 world.spores ∙ v.spores_length)
        (record {
          apart = v.spores_apart;
          same_ids = same_spores;
          faithful = spores-Faithful is_near world.spore_count 0 world.spores;
          distinct = m.spores_distinct;
          enough = v.spores_room;
          known = λ i a t.
              subst (λ o. Mirrors spore_equal o (find_entity spore_id c.spores i)) t (m.spores i);
        })
        m.spores parts.spores_fit in
    let p =
      replica powerup_id powerup_equal powerup_record powerup_of max_powerups powerup-Carries ps
        peer.powerups c.powerups capacity (length first.records)
        (length-see_powerups is_near world.powerup_count 0 world.powerups ∙ v.powerups_length)
        (record {
          apart = v.powerups_apart;
          same_ids = same_powerups;
          faithful = powerups-Faithful is_near world.powerup_count 0 world.powerups;
          distinct = m.powerups_distinct;
          enough = v.powerups_room;
          known = λ i a t.
              subst (λ o. Mirrors powerup_equal o (find_entity powerup_id c.powerups i)) t
                (m.powerups i);
        })
        m.powerups parts.powerups_fit in
    let after = record peer2 { spores = first.slots; powerups = second.slots } in
    let done =
      Mirrored-both c after first.records second.records
        (kind-build_slots spore_id spore_equal spore_record 1 false capacity 0 ws peer.spores
          (λ o i x. refl))
        (kind-build_slots powerup_id powerup_equal powerup_record 2 false capacity
          (length first.records) ps peer.powerups (λ o i x. refl))
        s p in
    subst (λ rs. Mirrored (apply_records false c rs) peer2) (sym parts.records_eq)
      (Mirrored-peer (apply_records false c (first.records ++ second.records)) after peer2
        (sym parts.spores_eq) (sym parts.powerups_eq) done)

-- A batch that is no keyframe, applied by a client that has what it was told before, leaves it with
-- what the server takes it to know from then on, and that is what is visible: under an id it has a
-- spore, or a power-up, exactly if one with that id is in use, active and near in the world, and it
-- has it as it is in the world, up to what compares equal. The arrays are as long on both sides, an id
-- belongs to one index, and the client has room for what is new.
pub apply_records-build :
    (is_near : ℕ → ℕ → Bool) (peer peer2 : Peer) (world : World) (force : Bool) (capacity : ℕ)
    (c : Client) (batch : Batch)
    → build is_near peer world force capacity ≡ (peer2, some batch)
    → batch.keyframe ≡ false
    → IsTellable is_near peer world c
    → Mirrored c peer
    → Mirrored (apply_records false c batch.records) peer2
      × Shows is_near world (apply_records false c batch.records)
apply_records-build is_near peer peer2 world force capacity c batch e kf v m =
    let after = apply_records-Mirrored is_near peer peer2 world force capacity c batch e kf v m in
    (
      after,
      Mirrored→Shows is_near peer peer2 world force capacity batch e
          (apply_records false c batch.records) v.spores_length v.powerups_length after,
    )
