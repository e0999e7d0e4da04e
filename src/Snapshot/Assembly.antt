-- ===== src/Snapshot/Assembly.antt =====
-- `ShroomSnapshotAssemblyPush`: the packets of a frame are collected, in any order, until the frame
-- can be applied.
pub mod Slots
pub mod Frames
pub mod Order
pub mod Outcome
use shroomio.Base.{
  ℕ, zero, suc, ◌+◌, ◌-◌, ◌*◌, ◌/◌, ◌%◌, ◌^◌, Bool, true, false, ◌&&◌, ◌||◌, not, Option, none,
  some, List, [], ◌∷◌, ◌++◌, ltb, leb, ◌==◌, if◌then◌else◌, length, take, set, replicate,
  equal_lists, sub64, get_elem?,
}
use shroomio.Snapshot.{Player, max_players, max_chunks, payload_capacity}
use shroomio.Snapshot.Frame.{Metadata, Packet, Frame, History, packet_header_size, packet_snapshot}
use shroomio.Snapshot.Frame.Decode.{apply_packets, check_total}
use shroomio.Snapshot.History.{find, store}

-- A tick is newer if it is ahead by less than half of the range of 64 bits.
abbrev pub tick_is_newer : ℕ → ℕ → Bool
tick_is_newer candidate reference =
    let ahead = sub64 candidate reference in
    not (candidate == reference) && (ltb 0 ahead && ltb ahead (2 ^ 63))

-- `chunks` are the packets whose bits in `received_chunks` are set, at their indices.
pub record Assembly : Type 0 where
  pub active : Bool
  pub tick : ℕ
  pub baseline_tick : ℕ
  pub chunk_count : ℕ
  pub total_player_count : ℕ
  pub flags : ℕ
  pub metadata : Metadata
  pub chunks : List (Option Packet)

pub data Result : Type 0 where
  rejected : Result
  pending : Result
  complete : Metadata → List Player → Result

-- Equality of the bytes of two structures that were cleared before they were filled.
unfoldable pub same_metadata : Metadata → Metadata → Bool
same_metadata a b =
    a.tick == b.tick
    && a.last_processed_input_sequence == b.last_processed_input_sequence
    && a.player_id == b.player_id
    && a.entity_id == b.entity_id
    && a.match_phase == b.match_phase
    && a.game_mode == b.game_mode
    && a.match_time_remaining == b.match_time_remaining
    && a.objective_target_score == b.objective_target_score
    && a.objective_controller_id == b.objective_controller_id
    && a.objective_contested == b.objective_contested
    && equal_lists a.podium_player_ids b.podium_player_ids
    && equal_lists a.podium_masses b.podium_masses

abbrev pub is_keyframe : ℕ → Bool
is_keyframe flags = flags % 2 == 1

-- The structure of a packet, before any of it is trusted.
unfoldable pub is_malformed : Packet → ℕ → Bool
is_malformed p packet_size =
    ltb packet_size packet_header_size
    || not (p.type == packet_snapshot)
    || not (p.size == packet_size)
    || ltb max_players p.total_player_count
    || p.chunk_count == 0
    || ltb max_chunks p.chunk_count
    || leb p.chunk_count p.chunk_index
    || ltb payload_capacity (length p.payload)
    || not (packet_size == packet_header_size + length p.payload)
    || not (p.flags / 2 == 0)
    || (if is_keyframe p.flags then not (p.baseline_tick == 0) else p.baseline_tick == 0)

-- By the tick of a packet.
unfoldable pub is_older : Assembly → ℕ → Bool
is_older a tick = a.active && not (tick == a.tick) && not (tick_is_newer tick a.tick)

unfoldable pub starts_new : Assembly → ℕ → Bool
starts_new a tick = not a.active || not (tick == a.tick) && tick_is_newer tick a.tick

abbrev pub begin : Packet → Assembly
begin p = record {
  active = true;
  tick = p.metadata.tick;
  baseline_tick = p.baseline_tick;
  chunk_count = p.chunk_count;
  total_player_count = p.total_player_count;
  flags = p.flags;
  metadata = p.metadata;
  chunks = replicate max_chunks none;
}

unfoldable pub matches : Assembly → Packet → Bool
matches a p =
    p.chunk_count == a.chunk_count
    && p.total_player_count == a.total_player_count
    && p.baseline_tick == a.baseline_tick
    && p.flags == a.flags
    && same_metadata a.metadata p.metadata

-- A packet is kept where none was received before.
unfoldable pub keep_chunk : List (Option Packet) → ℕ → Packet → List (Option Packet)
keep_chunk [] index p = []
keep_chunk (none ∷ os) zero p = some p ∷ os
keep_chunk (some q ∷ os) zero p = some q ∷ os
keep_chunk (o ∷ os) (suc index) p = o ∷ keep_chunk os index p

abbrev pub and_rest : Packet → Option (List Packet) → Option (List Packet)
and_rest p none = none
and_rest p (some ps) = some (p ∷ ps)

-- The packets of a frame, when none is missing.
unfoldable pub gather : List (Option Packet) → Option (List Packet)
gather [] = some []
gather (none ∷ os) = none
gather (some p ∷ os) = and_rest p (gather os)

abbrev pub baseline_players : Option Frame → Option (List Player)
baseline_players none = none
baseline_players (some f) = some f.players

abbrev pub start_players : History → ℕ → ℕ → Option (List Player)
start_players h flags baseline_tick =
    if is_keyframe flags then some [] else baseline_players (find h baseline_tick)

-- `ApplyChunks`; there is at least one packet.
unfoldable pub apply_chunks : History → List Packet → Option (List Player)
apply_chunks h [] = none
apply_chunks h (first ∷ ps) = elim (start_players h first.flags first.baseline_tick) [
  | none ↦ none
  | some players ↦ check_total first.total_player_count (apply_packets (first ∷ ps) players)
]

abbrev pub deactivate : Assembly → Assembly
deactivate a = record a { active = false }

abbrev pub finish : Assembly → History → Option (List Player) → Result × Assembly × History
finish a h none = (rejected, deactivate a, h)
finish a h (some players) =
    (complete a.metadata players, deactivate a, store h a.metadata.tick players)

abbrev pub complete_if : Assembly → History → Option (List Packet) → Result × Assembly × History
complete_if a h none = (pending, a, h)
complete_if a h (some packets) = finish a h (apply_chunks h packets)

abbrev pub receive : Assembly → History → Packet → Result × Assembly × History
receive a h p =
    let next = record a { chunks = keep_chunk a.chunks p.chunk_index p } in
    complete_if next h (gather (take next.chunk_count next.chunks))

unfoldable pub push : Assembly → Packet → ℕ → History → Result × Assembly × History
push a p packet_size h =
    if is_malformed p packet_size || is_older a p.metadata.tick
    then (rejected, a, h)
    else if starts_new a p.metadata.tick
    then receive (begin p) h p
    else if not (matches a p)
    then (rejected, a, h)
    else receive a h p
