-- ===== src/Snapshot/Frame/Merge.antt =====
-- What merge_components leaves of a player: the components of the mask, and the rest as it was.
use shroomio.Base.{ℕ, ◌≡◌, refl, sym, ◌∙◌, Bool, true, false, arith, if◌then◌else◌, not, inl}
use shroomio.Snapshot.{
  Player, has_identity, has_transform, has_mass, has_effects, has_stats, component_mask,
  same_identity, same_transform, same_mass, same_effects, same_stats,
}
use shroomio.Snapshot.Record.Codec.{
  merge_components, merge_identity, merge_transform, merge_mass, merge_effects, merge_stats,
}
use shroomio.Snapshot.Frame.Same.{
  SameIdentity, SameTransform, SameMass, SameEffects, SameStats, SamePlayer, same_identity→Same,
  same_transform→Same, same_mass→Same, same_effects→Same, same_stats→Same, has-bits,
}

not-false : {b : Bool} → not b ≡ false → b ≡ true
not-false {b} h = ground arith

-- A merge leaves what holds with it and without it.
if-elim :
    (P : Player → Type 0) (present : Bool) (a m : Player)
    → P m
    → (present ≡ false → P a)
    → P (if present then m else a)
if-elim P true a m hm ha = hm
if-elim P false a m hm ha = ha refl

if-keep :
    (P : Player → Type 0) (present : Bool) (a m : Player) → P m → P a → P (if present then m else a)
if-keep P true a m hm ha = hm
if-keep P false a m hm ha = ha

module _ (mask : ℕ) (p q : Player) where
  abbrev with_identity : Player
  with_identity = if has_identity mask then merge_identity p q else q

  abbrev with_transform : Player
  with_transform = if has_transform mask then merge_transform p with_identity else with_identity

  abbrev with_mass : Player
  with_mass = if has_mass mask then merge_mass p with_transform else with_transform

  abbrev with_effects : Player
  with_effects = if has_effects mask then merge_effects p with_mass else with_mass

  abbrev merged : Player
  merged = if has_stats mask then merge_stats p with_effects else with_effects

  merged-entity_id : p.entity_id ≡ q.entity_id → p.entity_id ≡ merged.entity_id
  merged-entity_id h =
      let ha =
        if-keep (λ x. p.entity_id ≡ x.entity_id) (has_identity mask) q (merge_identity p q) h h in
      let hb =
        if-keep (λ x. p.entity_id ≡ x.entity_id) (has_transform mask) with_identity
          (merge_transform p with_identity) ha ha in
      let hc =
        if-keep (λ x. p.entity_id ≡ x.entity_id) (has_mass mask) with_transform
          (merge_mass p with_transform) hb hb in
      let hd =
        if-keep (λ x. p.entity_id ≡ x.entity_id) (has_effects mask) with_mass
          (merge_effects p with_mass) hc hc in
      let he =
        if-keep (λ x. p.entity_id ≡ x.entity_id) (has_stats mask) with_effects
          (merge_stats p with_effects) hd hd in
      he

  merged-identity : (has_identity mask ≡ false → SameIdentity p q) → SameIdentity p merged
  merged-identity h =
      let ha =
        if-elim (SameIdentity p) (has_identity mask) q (merge_identity p q)
          (refl, refl, refl, refl, refl, refl, refl) h in
      let hb =
        if-keep (SameIdentity p) (has_transform mask) with_identity
          (merge_transform p with_identity) ha ha in
      let hc =
        if-keep (SameIdentity p) (has_mass mask) with_transform (merge_mass p with_transform) hb
          hb in
      let hd =
        if-keep (SameIdentity p) (has_effects mask) with_mass (merge_effects p with_mass) hc hc in
      let he =
        if-keep (SameIdentity p) (has_stats mask) with_effects (merge_stats p with_effects) hd hd in
      he

  merged-transform : (has_transform mask ≡ false → SameTransform p q) → SameTransform p merged
  merged-transform h =
      let ha =
        if-keep (λ x. has_transform mask ≡ false → SameTransform p x) (has_identity mask) q
          (merge_identity p q) h h in
      let hb =
        if-elim (SameTransform p) (has_transform mask) with_identity
          (merge_transform p with_identity) (inl refl, inl refl) ha in
      let hc =
        if-keep (SameTransform p) (has_mass mask) with_transform (merge_mass p with_transform) hb
          hb in
      let hd =
        if-keep (SameTransform p) (has_effects mask) with_mass (merge_effects p with_mass) hc hc in
      let he =
        if-keep (SameTransform p) (has_stats mask) with_effects (merge_stats p with_effects) hd
          hd in
      he

  merged-mass : (has_mass mask ≡ false → SameMass p q) → SameMass p merged
  merged-mass h =
      let ha =
        if-keep (λ x. has_mass mask ≡ false → SameMass p x) (has_identity mask) q
          (merge_identity p q) h h in
      let hb =
        if-keep (λ x. has_mass mask ≡ false → SameMass p x) (has_transform mask) with_identity
          (merge_transform p with_identity) ha ha in
      let hc =
        if-elim (SameMass p) (has_mass mask) with_transform (merge_mass p with_transform)
          (inl refl, inl refl) hb in
      let hd =
        if-keep (SameMass p) (has_effects mask) with_mass (merge_effects p with_mass) hc hc in
      let he =
        if-keep (SameMass p) (has_stats mask) with_effects (merge_stats p with_effects) hd hd in
      he

  merged-effects : (has_effects mask ≡ false → SameEffects p q) → SameEffects p merged
  merged-effects h =
      let ha =
        if-keep (λ x. has_effects mask ≡ false → SameEffects p x) (has_identity mask) q
          (merge_identity p q) h h in
      let hb =
        if-keep (λ x. has_effects mask ≡ false → SameEffects p x) (has_transform mask) with_identity
          (merge_transform p with_identity) ha ha in
      let hc =
        if-keep (λ x. has_effects mask ≡ false → SameEffects p x) (has_mass mask) with_transform
          (merge_mass p with_transform) hb hb in
      let hd =
        if-elim (SameEffects p) (has_effects mask) with_mass (merge_effects p with_mass) refl hc in
      let he =
        if-keep (SameEffects p) (has_stats mask) with_effects (merge_stats p with_effects) hd hd in
      he

  merged-stats : (has_stats mask ≡ false → SameStats p q) → SameStats p merged
  merged-stats h =
      let ha =
        if-keep (λ x. has_stats mask ≡ false → SameStats p x) (has_identity mask) q
          (merge_identity p q) h h in
      let hb =
        if-keep (λ x. has_stats mask ≡ false → SameStats p x) (has_transform mask) with_identity
          (merge_transform p with_identity) ha ha in
      let hc =
        if-keep (λ x. has_stats mask ≡ false → SameStats p x) (has_mass mask) with_transform
          (merge_mass p with_transform) hb hb in
      let hd =
        if-keep (λ x. has_stats mask ≡ false → SameStats p x) (has_effects mask) with_mass
          (merge_effects p with_mass) hc hc in
      let he =
        if-elim (SameStats p) (has_stats mask) with_effects (merge_stats p with_effects)
          (refl, refl, inl refl) hd in
      he

-- A known player with the components that differ is the new player.
pub merge_components-Same :
    (p q : Player)
    → p.entity_id ≡ q.entity_id
    → SamePlayer p (merge_components (component_mask p q) p q)
unfolding component_mask
merge_components-Same p q h =
    let (hi, ht, hm, he, hs) =
      has-bits (not (same_identity p q)) (not (same_transform p q)) (not (same_mass p q))
        (not (same_effects p q)) (not (same_stats p q)) in
    let mask = component_mask p q in
    record {
      entity_id_eq = merged-entity_id mask p q h;
      identity_eq = merged-identity mask p q (λ e. same_identity→Same p q (not-false (sym hi ∙ e)));
      transform_eq =
          merged-transform mask p q (λ e. same_transform→Same p q (not-false (sym ht ∙ e)));
      mass_eq = merged-mass mask p q (λ e. same_mass→Same p q (not-false (sym hm ∙ e)));
      effects_eq = merged-effects mask p q (λ e. same_effects→Same p q (not-false (sym he ∙ e)));
      stats_eq = merged-stats mask p q (λ e. same_stats→Same p q (not-false (sym hs ∙ e)));
    }
