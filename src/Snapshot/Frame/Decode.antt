-- ===== src/Snapshot/Frame/Decode.antt =====
-- `DecodeRecord` and `ApplyChunks`: applying records to the players of the baseline. What a failure
-- leaves in the array of players is not read.
use shroomio.Base.{
  ℕ, zero, suc, ◌+◌, ◌-◌, ◌/◌, ◌%◌, Bool, ◌||◌, not, Option, none, some, List, [], ◌∷◌, ◌++◌, ltb,
  leb, ◌==◌, if◌then◌else◌, length, u16_mod, take, replicate,
}
use shroomio.Snapshot.{
  Player, RecordHeader, max_players, name_length, record_spawn, record_update, record_despawn,
  component_all,
}
use shroomio.Snapshot.Record.{
  Reading, read_u8, read_u16, read_u32, read_components, header_size, ◌>>=◌,
}
use shroomio.Snapshot.Frame.{Packet, find_player}

-- A header, and the bytes behind it.
unfoldable pub read_header : List ℕ → Option (RecordHeader × List ℕ)
read_header bytes = do
  (entity_id, bytes) ← read_u32 bytes
  (component_mask, bytes) ← read_u16 bytes
  (operation, bytes) ← read_u8 bytes
  (size, bytes) ← read_u8 bytes
  some (
    record {
      entity_id = entity_id;
      component_mask = component_mask;
      operation = operation;
      size = size;
    },
    bytes,
  )

abbrev pub new_player : ℕ → Player
new_player entity_id = record {
  player_id = 0;
  entity_id = entity_id;
  position_x = 0;
  position_y = 0;
  mass = 0;
  radius = 0;
  name = replicate name_length 0;
  alive = 0;
  is_bot = 0;
  effect_flags = 0;
  team_id = 0;
  piece_index = 0;
  round_spores = 0;
  round_kills = 0;
  life_generation = 0;
  objective_score = 0;
}

-- The first player with an id is replaced, or removed.
unfoldable pub replace_player : List Player → ℕ → Player → List Player
replace_player [] entity_id q = []
replace_player (p ∷ ps) entity_id q =
    let rest = p ∷ replace_player ps entity_id q in
    if p.entity_id == entity_id then q ∷ ps else rest

unfoldable pub remove_player : List Player → ℕ → List Player
remove_player [] entity_id = []
remove_player (p ∷ ps) entity_id =
    let rest = p ∷ remove_player ps entity_id in if p.entity_id == entity_id then ps else rest

-- A player that has been read, and whether that used all of the record.
abbrev pub finish_reading : (Player → List Player) → Reading → Option (List Player)
finish_reading keep none = none
finish_reading keep (some (p, [])) = some (keep p)
finish_reading keep (some (p, b ∷ bytes)) = none

unfoldable pub decode_despawn : RecordHeader → List Player → Option Player → Option (List Player)
decode_despawn h players none = none
decode_despawn h players (some p) =
    if not (h.component_mask == 0) || not (h.size == header_size)
    then none
    else some (remove_player players h.entity_id)

unfoldable pub decode_spawn :
    RecordHeader → List Player → Option Player → List ℕ → Option (List Player)
decode_spawn h players (some p) body = none
decode_spawn h players none body =
    if leb max_players (length players) || not (h.component_mask == component_all)
    then none
    else finish_reading (λ p. players ++ p ∷ [])
        (read_components h.component_mask (new_player h.entity_id) body)

unfoldable pub decode_update :
    RecordHeader → List Player → Option Player → List ℕ → Option (List Player)
decode_update h players none body = none
decode_update h players (some p) body =
    finish_reading (replace_player players h.entity_id) (read_components h.component_mask p body)

-- The bytes of the record behind its header.
abbrev pub body_of : RecordHeader → List ℕ → List ℕ
body_of h rest = take (h.size - header_size) rest

abbrev pub is_bad_header : RecordHeader → ℕ → Bool
is_bad_header h available =
    ltb h.size header_size || ltb available h.size || not (h.component_mask / 32 == 0)

-- `DecodeRecord`, for a header that has been read and the bytes that follow it.
unfoldable pub decode_body : RecordHeader → List ℕ → List Player → Option (List Player)
decode_body h rest players =
    let found = find_player players h.entity_id in
    if is_bad_header h (header_size + length rest)
    then none
    else if h.operation == record_despawn
    then decode_despawn h players found
    else if h.operation == record_spawn
    then decode_spawn h players found (body_of h rest)
    else if h.operation == record_update
    then decode_update h players found (body_of h rest)
    else none

-- A record at the start of some bytes: the players after it, and its size.
abbrev pub decode_from : List Player → Option (RecordHeader × List ℕ) → Option (List Player × ℕ)
decode_from players none = none
decode_from players (some (h, rest)) = elim (decode_body h rest players) [
  | none ↦ none
  | some next ↦ some (next, h.size)
]

unfoldable pub decode_record : List ℕ → List Player → Option (List Player × ℕ)
decode_record bytes players = decode_from players (read_header bytes)

-- The loop over the bytes of a payload: the bytes of a record that has been read are passed over.
-- With the number of records.
unfoldable pub apply_payload : ℕ → List ℕ → List Player → ℕ → Option (List Player × ℕ)
apply_payload skip [] players records = some (players, records)
apply_payload (suc skip) (b ∷ bytes) players records = apply_payload skip bytes players records
apply_payload zero (b ∷ bytes) players records = elim (decode_record (b ∷ bytes) players) [
  | none ↦ none
  | some (next, size) ↦ apply_payload (size - 1) bytes next ((records + 1) % u16_mod)
]

abbrev pub check_count : ℕ → Option (List Player × ℕ) → Option (List Player)
check_count expected none = none
check_count expected (some (players, records)) = if records == expected then some players else none

unfoldable pub apply_packets : List Packet → List Player → Option (List Player)
apply_packets [] players = some players
apply_packets (p ∷ ps) players =
    elim (check_count p.record_count (apply_payload 0 p.payload players 0)) [
      | none ↦ none
      | some next ↦ apply_packets ps next
    ]

abbrev pub check_total : ℕ → Option (List Player) → Option (List Player)
check_total total none = none
check_total total (some players) = if length players == total then some players else none
