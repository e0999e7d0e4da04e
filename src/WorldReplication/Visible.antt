-- ===== src/WorldReplication/Visible.antt =====
-- What of the world a client is to see: the elements in use that are active and near, read off the
-- world's arrays, against what the server takes a client to know after ShroomWorldReplicationBuild.
use shroomio.Base.{
  ℕ, zero, suc, ◌-◌, ◌≡◌, refl, sym, ap, subst, ◌∙◌, Bool, ◌&&◌, Option, none, some, List, [], ◌∷◌,
  map, ltb, ◌==◌, if◌then◌else◌, length, take, filter_list, arith, Bool-cases, inl, inr,
}
use shroomio.WorldReplication.{Spore, Powerup, spore_equal, powerup_equal}
use shroomio.WorldReplication.Table.{find_entity}
use shroomio.WorldReplication.Build.{
  Seen, World, WorldSpore, WorldPowerup, Peer, Batch, Built, see_spores, see_powerups, spore_record,
  powerup_record, build_spores, build_powerups, is_keyframe, build,
}
use shroomio.WorldReplication.Apply.{Client}
use shroomio.WorldReplication.Follow.{Mirrors, told, seen}
use shroomio.WorldReplication.Parts.{Parts, finish-Parts}
use shroomio.WorldReplication.Together.{told-build_slots}
use shroomio.WorldReplication.Mirrored.{
  spore_id, powerup_id, Mirrored, length-see_spores, length-see_powerups,
}

abbrev pub shows_spore : (ℕ → ℕ → Bool) → WorldSpore → Bool
shows_spore is_near w = w.active && is_near w.spore.position_x w.spore.position_y

abbrev pub shows_powerup : (ℕ → ℕ → Bool) → WorldPowerup → Bool
shows_powerup is_near w = w.active && is_near w.position_x w.position_y

abbrev pub as_powerup : WorldPowerup → Powerup
as_powerup w = record {
  entity_id = w.entity_id;
  position_x = w.position_x;
  position_y = w.position_y;
  type = w.type;
  active = 1;
}

abbrev pub visible_spores : (ℕ → ℕ → Bool) → World → List Spore
visible_spores is_near world =
    map (λ w. w.spore) (filter_list (shows_spore is_near) (take world.spore_count world.spores))

abbrev pub visible_powerups : (ℕ → ℕ → Bool) → World → List Powerup
visible_powerups is_near world =
    map as_powerup (filter_list (shows_powerup is_near) (take world.powerup_count world.powerups))

-- The client shows the spores and the power-ups that are visible, and no other, each as it is up to
-- what compares equal.
pub record Shows (is_near : ℕ → ℕ → Bool) (world : World) (c : Client) : Type 0 where
  pub spores :
      (i : ℕ)
      → Mirrors spore_equal
          (find_entity (λ s. s.entity_id) (visible_spores is_near world) i)
          (find_entity (λ s. s.entity_id) c.spores i)
  pub powerups :
      (i : ℕ)
      → Mirrors powerup_equal
          (find_entity (λ p. p.entity_id) (visible_powerups is_near world) i)
          (find_entity (λ p. p.entity_id) c.powerups i)

module _ {W A : Type 0} (id_of : A → ℕ) (from : W → A) (shows : W → Bool) (n : ℕ) (i : ℕ) where
  abbrev visible_from : ℕ → List W → Option A
  visible_from k ws = find_entity id_of (map from (filter_list shows (take (n - k) ws))) i

  nothing_visible : (m : ℕ) → find_entity id_of (map from (filter_list shows (take m []))) i ≡ none
  unfolding find_entity
  nothing_visible zero = refl
  nothing_visible (suc m) = refl

  from_first :
      (ws : List W)
      → visible_from 0 ws ≡ find_entity id_of (map from (filter_list shows (take n ws))) i
  from_first ws =
      ap (λ m. find_entity id_of (map from (filter_list shows (take m ws))) i) (omega arith)

  -- One element, if those that follow it are as they should be.
  seen-visible :
      (k : ℕ) (w : W) (ws : List W) (rest : List (Seen A)) (current : Bool)
      → current ≡ (ltb k n && shows w)
      → seen id_of rest i ≡ visible_from (suc k) ws
      → seen id_of (record { snapshot = from w; current = current } ∷ rest) i
        ≡ visible_from k (w ∷ ws)
  unfolding seen find_entity
  seen-visible k w ws rest current e h = rw e (elim (Bool-cases (ltb k n)) [
    | inl below ↦
        let more : n - k ≡ suc (n - suc k) = ground (arith, below) in
        elim (Bool-cases (shows w)) [
          | inl there ↦
              rw (more, below, there) (ap (λ o. if id_of (from w) == i then some (from w) else o) h)
          | inr hidden ↦ rw (more, below, hidden) h
        ]
    | inr over ↦
        let here : n - k ≡ 0 = ground (arith, over) in
        let later : n - suc k ≡ 0 = ground (arith, over) in
        let nothing : visible_from (suc k) ws ≡ none = rw later refl in
        rw (here, over) (h ∙ nothing)
  ])

and_assoc : (a b c : Bool) → (a && b && c) ≡ (a && (b && c))
and_assoc a b c = ground arith

seen-spores :
    (is_near : ℕ → ℕ → Bool) (n k i : ℕ) (ws : List WorldSpore)
    → seen spore_id (see_spores is_near n k ws) i
      ≡ visible_from spore_id (λ w. w.spore) (shows_spore is_near) n i k ws
unfolding see_spores seen
seen-spores is_near n k i [] =
    sym (nothing_visible spore_id (λ w. w.spore) (shows_spore is_near) n i (n - k))
seen-spores is_near n k i (w ∷ ws) =
    seen-visible spore_id (λ v. v.spore) (shows_spore is_near) n i k w ws
      (see_spores is_near n (suc k) ws) _ (and_assoc (ltb k n) w.active _)
      (seen-spores is_near n (suc k) i ws)

seen-powerups :
    (is_near : ℕ → ℕ → Bool) (n k i : ℕ) (ws : List WorldPowerup)
    → seen powerup_id (see_powerups is_near n k ws) i
      ≡ visible_from powerup_id as_powerup (shows_powerup is_near) n i k ws
unfolding see_powerups seen
seen-powerups is_near n k i [] =
    sym (nothing_visible powerup_id as_powerup (shows_powerup is_near) n i (n - k))
seen-powerups is_near n k i (w ∷ ws) =
    seen-visible powerup_id as_powerup (shows_powerup is_near) n i k w ws
      (see_powerups is_near n (suc k) ws) _ (and_assoc (ltb k n) w.active _)
      (seen-powerups is_near n (suc k) i ws)

-- After a batch the server takes a client to know what is visible.
module _ (is_near : ℕ → ℕ → Bool) (peer peer2 : Peer) (world : World) (force : Bool) (capacity : ℕ)
    (batch : Batch) (e : build is_near peer world force capacity ≡ (peer2, some batch)) where
  abbrev keyframe : Bool
  keyframe = is_keyframe is_near peer world force

  abbrev spores : Built Spore
  spores =
      build_spores keyframe capacity 0 (see_spores is_near world.spore_count 0 world.spores)
        peer.spores

  abbrev powerups : Built Powerup
  powerups =
      build_powerups keyframe capacity (length spores.records)
        (see_powerups is_near world.powerup_count 0 world.powerups) peer.powerups

  parts : Parts peer2 batch keyframe spores powerups
  unfolding build
  parts = finish-Parts peer peer2 batch world.tick keyframe spores powerups e

  told-spores :
      length world.spores ≡ length peer.spores
      → (i : ℕ)
      → told spore_id peer2.spores i ≡ find_entity spore_id (visible_spores is_near world) i
  told-spores long i =
      let ws = see_spores is_near world.spore_count 0 world.spores in
      ap (λ l. told spore_id l i) parts.spores_eq
      ∙ told-build_slots spore_id spore_equal spore_record keyframe capacity 0 ws peer.spores
          (length-see_spores is_near world.spore_count 0 world.spores ∙ long) parts.spores_fit i
      ∙ seen-spores is_near world.spore_count 0 i world.spores
      ∙ from_first spore_id (λ w. w.spore) (shows_spore is_near) world.spore_count i world.spores

  told-powerups :
      length world.powerups ≡ length peer.powerups
      → (i : ℕ)
      → told powerup_id peer2.powerups i ≡ find_entity powerup_id (visible_powerups is_near world) i
  told-powerups long i =
      let ws = see_powerups is_near world.powerup_count 0 world.powerups in
      ap (λ l. told powerup_id l i) parts.powerups_eq
      ∙ told-build_slots powerup_id powerup_equal powerup_record keyframe capacity
          (length spores.records) ws peer.powerups
          (length-see_powerups is_near world.powerup_count 0 world.powerups ∙ long)
          parts.powerups_fit i
      ∙ seen-powerups is_near world.powerup_count 0 i world.powerups
      ∙ from_first powerup_id as_powerup (shows_powerup is_near) world.powerup_count i
          world.powerups

  -- So a client that has what the server takes it to know shows what is visible.
  pub Mirrored→Shows :
      (c : Client)
      → length world.spores ≡ length peer.spores
      → length world.powerups ≡ length peer.powerups
      → Mirrored c peer2
      → Shows is_near world c
  Mirrored→Shows c hs hp m = record {
    spores = λ i.
        subst (λ o. Mirrors spore_equal o (find_entity spore_id c.spores i)) (told-spores hs i)
          (m.spores i);
    powerups = λ i.
        subst (λ o. Mirrors powerup_equal o (find_entity powerup_id c.powerups i))
          (told-powerups hp i) (m.powerups i);
  }
