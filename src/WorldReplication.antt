-- ===== src/WorldReplication.antt =====
-- src/shared/world_replication.c: how the server tells a client of the spores and the power-ups
-- around it. A float that is copied or compared for equality is the number of its bits; whether a
-- position is near is an argument, since it is computed in floating point.
pub mod Table
pub mod Build
pub mod Apply
pub mod Lookup
pub mod Follow
pub mod Mirror
pub mod Delta
pub mod Operation
pub mod Replica
pub mod Together
pub mod Parts
pub mod Mirrored
pub mod Visible
pub mod Sync
pub mod Bounds
mod Tests
use shroomio.Base.{
  ℕ, ◌+◌, ◌-◌, ◌*◌, ◌/◌, Bool, ◌&&◌, ◌||◌, not, List, ltb, leb, ◌==◌, if◌then◌else◌, length,
}
use shroomio.Snapshot.{float_equal}

pub record Spore : Type 0 where
  pub entity_id : ℕ
  pub position_x : ℕ
  pub position_y : ℕ
  pub value : ℕ

pub record Powerup : Type 0 where
  pub entity_id : ℕ
  pub position_x : ℕ
  pub position_y : ℕ
  pub type : ℕ
  pub active : ℕ

pub record Record : Type 0 where
  pub entity_id : ℕ
  pub position_x : ℕ
  pub position_y : ℕ
  pub value : ℕ
  pub entity_kind : ℕ
  pub operation : ℕ
  pub powerup_type : ℕ

-- `records` are the first `record_count` ones.
pub record Packet : Type 0 where
  pub type : ℕ
  pub size : ℕ
  pub tick : ℕ
  pub chunk_index : ℕ
  pub chunk_count : ℕ
  pub flags : ℕ
  pub records : List Record

abbrev pub max_spores : ℕ
max_spores = 4096

abbrev pub max_powerups : ℕ
max_powerups = 8

abbrev pub entity_spore : ℕ
entity_spore = 1

abbrev pub entity_powerup : ℕ
entity_powerup = 2

abbrev pub record_spawn : ℕ
record_spawn = 1

abbrev pub record_update : ℕ
record_update = 2

abbrev pub record_remove : ℕ
record_remove = 3

abbrev pub packet_world_state : ℕ
packet_world_state = 29

abbrev pub keyframe_ticks : ℕ
keyframe_ticks = 30

abbrev pub max_chunks : ℕ
max_chunks = 72

-- `offsetof(ShroomWorldStatePacket, records)`, and the size of a record.
abbrev pub header_size : ℕ
header_size = 24

abbrev pub record_size : ℕ
record_size = 20

abbrev pub max_unreliable_packet_size : ℕ
max_unreliable_packet_size = 1200

abbrev pub max_records : ℕ
max_records = (max_unreliable_packet_size - header_size) / record_size

unfoldable pub spore_equal : Spore → Spore → Bool
spore_equal a b =
    a.entity_id == b.entity_id
    && float_equal a.position_x b.position_x
    && float_equal a.position_y b.position_y
    && a.value == b.value

unfoldable pub powerup_equal : Powerup → Powerup → Bool
powerup_equal a b =
    a.entity_id == b.entity_id
    && float_equal a.position_x b.position_x
    && float_equal a.position_y b.position_y
    && a.type == b.type
    && a.active == b.active

unfoldable pub packet_count : ℕ → ℕ
packet_count record_count =
    if record_count == 0 then 1 else (record_count + max_records - 1) / max_records

unfoldable pub packet_bytes : ℕ → ℕ
unfolding packet_count
packet_bytes record_count = packet_count record_count * header_size + record_count * record_size
