-- ===== src/Snapshot/Frame.antt =====
-- A frame: its packets, how they are made from the players, and how they are applied.
pub mod Encode
pub mod Decode
pub mod Lookup
pub mod Decoded
pub mod Applied
pub mod Same
pub mod Merge
pub mod Step
pub mod Loops
pub mod Despawns
pub mod RoundTrip
pub mod Safety
pub mod Stream
pub mod Finish
pub mod ChunkCount
use shroomio.Base.{
  ℕ, zero, suc, ◌+◌, ◌-◌, ◌*◌, ◌/◌, ◌%◌, Bool, true, false, ◌&&◌, ◌||◌, not, Option, none, some,
  List, [], ◌∷◌, ◌++◌, ltb, leb, ◌==◌, if◌then◌else◌, length, take, drop, set, get_or, replicate,
}
use shroomio.Snapshot.{Player, max_chunks}

-- What every packet of a frame repeats.
pub record Metadata : Type 0 where
  pub tick : ℕ
  pub last_processed_input_sequence : ℕ
  pub player_id : ℕ
  pub entity_id : ℕ
  pub match_phase : ℕ
  pub game_mode : ℕ
  pub match_time_remaining : ℕ
  pub objective_target_score : ℕ
  pub objective_controller_id : ℕ
  pub objective_contested : ℕ
  pub podium_player_ids : List ℕ
  pub podium_masses : List ℕ

-- The fields of `metadata` stand in the packet one by one. `payload` holds the first `payload_size`
-- bytes of the array, so the size is its length.
pub record Packet : Type 0 where
  pub type : ℕ
  pub channel : ℕ
  pub size : ℕ
  pub metadata : Metadata
  pub baseline_tick : ℕ
  pub total_player_count : ℕ
  pub chunk_index : ℕ
  pub chunk_count : ℕ
  pub record_count : ℕ
  pub flags : ℕ
  pub payload : List ℕ

-- The players of a tick; `players` holds the first `player_count` elements of the array.
pub record Frame : Type 0 where
  pub tick : ℕ
  pub players : List Player

abbrev pub history_size : ℕ
history_size = 4

pub record History : Type 0 where
  pub next : ℕ
  pub frames : List Frame

-- `offsetof(ShroomSnapshotPacket, payload)`.
abbrev pub packet_header_size : ℕ
packet_header_size = 92

abbrev pub packet_snapshot : ℕ
packet_snapshot = 4

abbrev pub channel_snapshot : ℕ
channel_snapshot = 1

-- The first player with an id.
unfoldable pub find_player : List Player → ℕ → Option Player
find_player [] entity_id = none
find_player (p ∷ ps) entity_id =
    let rest = find_player ps entity_id in if p.entity_id == entity_id then some p else rest
