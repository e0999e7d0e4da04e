-- ===== src/Snapshot/Frame/Same.antt =====
-- When a player that was received stands for the one that was sent: a float may be an equal one.
use shroomio.Base.{ℕ, ◌+◌, ◌<◌, ◌≡◌, refl, Bool, true, ◌⊎◌, arith, inl, equal_lists→eq}
use shroomio.Snapshot.{
  Player, has_identity, has_transform, has_mass, has_effects, has_stats, float_equal, bit_if,
  component_mask, same_identity, same_transform, same_mass, same_effects, same_stats,
}

abbrev pub SameFloat : ℕ → ℕ → Type 0
SameFloat x y = (x ≡ y) ⊎ (float_equal x y ≡ true)

abbrev pub SameIdentity : Player → Player → Type 0
SameIdentity p q =
    (p.player_id ≡ q.player_id)
    × (p.name ≡ q.name)
    × (p.alive ≡ q.alive)
    × (p.is_bot ≡ q.is_bot)
    × (p.team_id ≡ q.team_id)
    × (p.piece_index ≡ q.piece_index)
    × (p.life_generation ≡ q.life_generation)

abbrev pub SameTransform : Player → Player → Type 0
SameTransform p q = SameFloat p.position_x q.position_x × SameFloat p.position_y q.position_y

abbrev pub SameMass : Player → Player → Type 0
SameMass p q = SameFloat p.mass q.mass × SameFloat p.radius q.radius

abbrev pub SameEffects : Player → Player → Type 0
SameEffects p q = p.effect_flags ≡ q.effect_flags

abbrev pub SameStats : Player → Player → Type 0
SameStats p q =
    (p.round_spores ≡ q.round_spores)
    × (p.round_kills ≡ q.round_kills)
    × SameFloat p.objective_score q.objective_score

pub record SamePlayer (p q : Player) : Type 0 where
  pub entity_id_eq : p.entity_id ≡ q.entity_id
  pub identity_eq : SameIdentity p q
  pub transform_eq : SameTransform p q
  pub mass_eq : SameMass p q
  pub effects_eq : SameEffects p q
  pub stats_eq : SameStats p q

pub SamePlayer-refl : (p : Player) → SamePlayer p p
SamePlayer-refl p = record {
  entity_id_eq = refl;
  identity_eq = (refl, refl, refl, refl, refl, refl, refl);
  transform_eq = (inl refl, inl refl);
  mass_eq = (inl refl, inl refl);
  effects_eq = refl;
  stats_eq = (refl, refl, inl refl);
}

pub same_identity→Same : (p q : Player) → same_identity p q ≡ true → SameIdentity p q
unfolding same_identity
same_identity→Same p q h = ground (arith, equal_lists→eq p.name q.name)

pub same_transform→Same : (p q : Player) → same_transform p q ≡ true → SameTransform p q
unfolding same_transform
same_transform→Same p q h = ground arith

pub same_mass→Same : (p q : Player) → same_mass p q ≡ true → SameMass p q
unfolding same_mass
same_mass→Same p q h = ground arith

pub same_effects→Same : (p q : Player) → same_effects p q ≡ true → SameEffects p q
unfolding same_effects
same_effects→Same p q h = ground arith

pub same_stats→Same : (p q : Player) → same_stats p q ≡ true → SameStats p q
unfolding same_stats
same_stats→Same p q h = ground arith

-- The sum of bits has those bits.
pub has-bits :
    (a b c d e : Bool)
    → let m = bit_if a 1 + bit_if b 2 + bit_if c 4 + bit_if d 8 + bit_if e 16 in
      (has_identity m ≡ a)
      × (has_transform m ≡ b)
      × (has_mass m ≡ c)
      × (has_effects m ≡ d)
      × (has_stats m ≡ e)
has-bits a b c d e = ground arith

pub component_mask-lt : (p q : Player) → component_mask p q < 32
unfolding component_mask
component_mask-lt p q =
    ground (
      arith,
      same_identity p q,
      same_transform p q,
      same_mass p q,
      same_effects p q,
      same_stats p q,
    )

pub component_mask_zero :
    (p q : Player) → p.entity_id ≡ q.entity_id → component_mask p q ≡ 0 → SamePlayer p q
unfolding component_mask
component_mask_zero p q e h = record {
  entity_id_eq = e;
  identity_eq = same_identity→Same p q (ground arith);
  transform_eq = same_transform→Same p q (ground arith);
  mass_eq = same_mass→Same p q (ground arith);
  effects_eq = same_effects→Same p q (ground arith);
  stats_eq = same_stats→Same p q (ground arith);
}
