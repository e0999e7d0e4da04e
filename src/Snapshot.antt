-- ===== src/Snapshot.antt =====
-- src/shared/snapshot_replication.c: the frames in which the server tells a client of the players.
-- A field of a structure that is copied byte by byte is its number, written with its lowest byte
-- first, as both ends do; a float is the number of its bits.
pub mod Record
pub mod Frame
pub mod History
pub mod Assembly
pub mod Transfer
mod Tests
use shroomio.Base.{
  ℕ, ◌+◌, ◌*◌, ◌/◌, ◌%◌, ◌^◌, ◌<◌, ◌≡◌, ◌⊎◌, Bool, ◌&&◌, ◌||◌, not, Option, none, some, List, [],
  ◌∷◌, ◌++◌, ltb, ◌==◌, if◌then◌else◌, length, replicate, equal_lists,
}

-- `name` is the whole array of its bytes.
pub record Player : Type 0 where
  pub player_id : ℕ
  pub entity_id : ℕ
  pub position_x : ℕ
  pub position_y : ℕ
  pub mass : ℕ
  pub radius : ℕ
  pub name : List ℕ
  pub alive : ℕ
  pub is_bot : ℕ
  pub effect_flags : ℕ
  pub team_id : ℕ
  pub piece_index : ℕ
  pub round_spores : ℕ
  pub round_kills : ℕ
  pub life_generation : ℕ
  pub objective_score : ℕ

pub record RecordHeader : Type 0 where
  pub entity_id : ℕ
  pub component_mask : ℕ
  pub operation : ℕ
  pub size : ℕ

abbrev pub max_players : ℕ
max_players = 1024

abbrev pub payload_capacity : ℕ
payload_capacity = 1100

abbrev pub max_chunks : ℕ
max_chunks = 128

abbrev pub name_length : ℕ
name_length = 32

abbrev pub record_spawn : ℕ
record_spawn = 1

abbrev pub record_update : ℕ
record_update = 2

abbrev pub record_despawn : ℕ
record_despawn = 3

abbrev pub component_all : ℕ
component_all = 31

-- `mask & SHROOM_SNAPSHOT_COMPONENT_...`: bits 0 to 4.
abbrev pub has_identity : ℕ → Bool
has_identity mask = mask % 2 == 1

abbrev pub has_transform : ℕ → Bool
has_transform mask = mask / 2 % 2 == 1

abbrev pub has_mass : ℕ → Bool
has_mass mask = mask / 4 % 2 == 1

abbrev pub has_effects : ℕ → Bool
has_effects mask = mask / 8 % 2 == 1

abbrev pub has_stats : ℕ → Bool
has_stats mask = mask / 16 % 2 == 1

-- C's equality of floats: that of their bits, but for the zeros and for what is not a number.
abbrev pub is_nan : ℕ → Bool
is_nan x = ltb 0x7f80_0000 (x % 2 ^ 31)

unfoldable pub float_equal : ℕ → ℕ → Bool
float_equal x y = not (is_nan x) && not (is_nan y) && (x == y || x % 2 ^ 31 == 0 && y % 2 ^ 31 == 0)

abbrev pub bit_if : Bool → ℕ → ℕ
bit_if different bit = if different then bit else 0

-- Which components of a player differ.
unfoldable pub same_identity : Player → Player → Bool
same_identity a b =
    a.player_id == b.player_id
    && equal_lists a.name b.name
    && a.alive == b.alive
    && a.is_bot == b.is_bot
    && a.team_id == b.team_id
    && a.piece_index == b.piece_index
    && a.life_generation == b.life_generation

unfoldable pub same_transform : Player → Player → Bool
unfolding float_equal
same_transform a b = float_equal a.position_x b.position_x && float_equal a.position_y b.position_y

unfoldable pub same_mass : Player → Player → Bool
unfolding float_equal
same_mass a b = float_equal a.mass b.mass && float_equal a.radius b.radius

unfoldable pub same_effects : Player → Player → Bool
same_effects a b = a.effect_flags == b.effect_flags

unfoldable pub same_stats : Player → Player → Bool
unfolding float_equal
same_stats a b =
    a.round_spores == b.round_spores
    && a.round_kills == b.round_kills
    && float_equal a.objective_score b.objective_score

-- The bits are set one by one, so that their sum is what they make.
unfoldable pub component_mask : Player → Player → ℕ
component_mask a b =
    bit_if (not (same_identity a b)) 1
    + bit_if (not (same_transform a b)) 2
    + bit_if (not (same_mass a b)) 4
    + bit_if (not (same_effects a b)) 8
    + bit_if (not (same_stats a b)) 16
