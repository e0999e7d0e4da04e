-- ===== src/Snapshot/Frame/Encode.antt =====
-- `ShroomSnapshotEncodeFrame`. Of the packets that have been begun, only the last is written to; it
-- stands apart from those before it.
use shroomio.Base.{
  ℕ, suc, ◌+◌, ◌%◌, Bool, true, false, ◌||◌, not, Option, none, some, List, [], ◌∷◌, ◌++◌, ltb, leb,
  ◌==◌, if◌then◌else◌, length, u16_mod,
}
use shroomio.Snapshot.{
  Player, max_players, payload_capacity, max_chunks, record_spawn, record_update, record_despawn,
  component_all, component_mask,
}
use shroomio.Snapshot.Record.{encode_record}
use shroomio.Snapshot.Frame.{
  Metadata, Packet, Frame, packet_header_size, packet_snapshot, channel_snapshot, find_player,
}

pub record Encoded : Type 0 where
  pub full : List Packet
  pub last : Option Packet

abbrev pub empty_encoded : Encoded
empty_encoded = record { full = []; last = none }

-- What the packets of one frame are begun with.
pub record Parameters : Type 0 where
  pub metadata : Metadata
  pub baseline_tick : ℕ
  pub player_count : ℕ
  pub keyframe : Bool

abbrev pub init_packet : Parameters → Packet
init_packet c = record {
  type = 0;
  channel = 0;
  size = 0;
  metadata = c.metadata;
  baseline_tick = c.baseline_tick;
  total_player_count = c.player_count;
  chunk_index = 0;
  chunk_count = 0;
  record_count = 0;
  flags = if c.keyframe then 1 else 0;
  payload = [];
}

abbrev pub current : Parameters → Option Packet → Packet
current c none = init_packet c
current c (some p) = p

abbrev pub add_to_packet : Packet → List ℕ → Packet
add_to_packet p r = record p {
  payload = p.payload ++ r;
  record_count = (p.record_count + 1) % u16_mod;
}

unfoldable pub append_bytes : Parameters → Encoded → List ℕ → Option Encoded
append_bytes c e r =
    let p = current c e.last in
    if length r == 0 || ltb payload_capacity (length r)
    then none
    else if not (ltb payload_capacity (length p.payload + length r))
    then some (record e { last = some (add_to_packet p r) })
    else if leb max_chunks (length e.full + 1)
    then none
    else some (record { full = e.full ++ p ∷ []; last = some (add_to_packet (init_packet c) r) })

abbrev pub append_record : Parameters → Encoded → Option (List ℕ) → Option Encoded
append_record c e none = none
append_record c e (some r) = append_bytes c e r

abbrev pub record_buffer : ℕ
record_buffer = 128

-- The record of a player, if anything of it is new; `none` is a player that is passed over.
unfoldable pub player_record : Option Player → Player → Option (Option (List ℕ))
player_record none p = some (encode_record record_buffer record_spawn component_all p.entity_id p)
player_record (some previous) p =
    let mask = component_mask p previous in
    if mask == 0 then none else some (encode_record record_buffer record_update mask p.entity_id p)

abbrev pub append_if : Parameters → Encoded → Option (Option (List ℕ)) → Option Encoded
append_if c e none = some e
append_if c e (some r) = append_record c e r

-- The players that the client knows: none, for a keyframe.
unfoldable pub encode_players : Parameters → List Player → List Player → Encoded → Option Encoded
encode_players c known [] e = some e
encode_players c known (p ∷ ps) e =
    elim (append_if c e (player_record (find_player known p.entity_id) p)) [
      | none ↦ none
      | some next ↦ encode_players c known ps next
    ]

unfoldable pub despawn_record : List Player → Player → Option (Option (List ℕ))
despawn_record players b = elim (find_player players b.entity_id) [
  | some p ↦ none
  | none ↦ some (encode_record record_buffer record_despawn 0 b.entity_id b)
]

unfoldable pub encode_despawns : Parameters → List Player → List Player → Encoded → Option Encoded
encode_despawns c players [] e = some e
encode_despawns c players (b ∷ bs) e = elim (append_if c e (despawn_record players b)) [
  | none ↦ none
  | some next ↦ encode_despawns c players bs next
]

-- The packets that have been begun, or an empty one.
abbrev pub packets_of : Parameters → Encoded → List Packet
packets_of c e = e.full ++ current c e.last ∷ []

abbrev pub finish_packet : ℕ → ℕ → Packet → Packet
finish_packet index count p = record p {
  chunk_index = index;
  chunk_count = count;
  type = packet_snapshot;
  channel = channel_snapshot;
  size = (packet_header_size + length p.payload) % u16_mod;
}

unfoldable pub finish_packets : ℕ → ℕ → List Packet → List Packet
finish_packets index count [] = []
finish_packets index count (p ∷ ps) =
    finish_packet index count p ∷ finish_packets (suc index) count ps

abbrev pub finish_frame : Parameters → Option Encoded → Option (List Packet)
finish_frame c none = none
finish_frame c (some e) = some (finish_packets 0 (length (packets_of c e)) (packets_of c e))

abbrev pub then_despawns : Parameters → List Player → List Player → Option Encoded → Option Encoded
then_despawns c players known none = none
then_despawns c players known (some e) = encode_despawns c players known e

-- The baseline is the frame that the packets are based on; a keyframe has none.
abbrev pub base_of : Option Frame → Bool → Frame
base_of baseline true = record { tick = 0; players = [] }
base_of none false = record { tick = 0; players = [] }
base_of (some f) false = f

abbrev pub has_base : Option Frame → Bool → Bool
has_base baseline true = true
has_base none false = false
has_base (some f) false = true

abbrev pub parameters : Metadata → List Player → Frame → Bool → Parameters
parameters metadata players base keyframe = record {
  metadata = metadata;
  baseline_tick = base.tick;
  player_count = length players;
  keyframe = keyframe;
}

-- `none` is a frame that cannot be encoded. The number of bytes on the wire is the sum of the
-- packets' sizes.
unfoldable pub encode_frame : Metadata → List Player → Option Frame → Bool → Option (List Packet)
encode_frame metadata players baseline keyframe =
    let base = base_of baseline keyframe in
    let c = parameters metadata players base keyframe in
    if ltb max_players (length players) || not (has_base baseline keyframe)
    then none
    else finish_frame c
        (then_despawns c players base.players (encode_players c base.players players empty_encoded))
