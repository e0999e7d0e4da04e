-- ===== src/WorldReplication/Apply.antt =====
-- `ShroomWorldReplicationApplyPacket`: a client follows the records, and a keyframe, when all of its
-- packets have come, also removes what it does not list.
use shroomio.Base.{
  ℕ, zero, suc, ◌+◌, ◌*◌, ◌/◌, ◌%◌, Bool, true, false, ◌||◌, ◌&&◌, not, List, [], ◌∷◌, ltb, leb,
  ◌==◌, if◌then◌else◌, length, set, replicate,
}
use shroomio.WorldReplication.{
  Spore, Powerup, Record, Packet, max_spores, max_powerups, entity_spore, entity_powerup,
  record_spawn, record_update, record_remove, packet_world_state, max_chunks, header_size,
  record_size, max_records,
}
use shroomio.WorldReplication.Table.{remember_id, remove_entity, put_entity, keep_listed}

-- `keyframe_chunks` are the bits of the two words.
pub record ClientState : Type 0 where
  pub tick_received : Bool
  pub latest_tick : ℕ
  pub keyframe_pending : Bool
  pub keyframe_tick : ℕ
  pub keyframe_chunk_count : ℕ
  pub keyframe_chunks : List Bool
  pub keyframe_spores : List ℕ
  pub keyframe_powerups : List ℕ

-- With the arrays that the client keeps.
pub record Client : Type 0 where
  pub state : ClientState
  pub spores : List Spore
  pub powerups : List Powerup

abbrev pub spore_of : Record → Spore
spore_of r = record {
  entity_id = r.entity_id;
  position_x = r.position_x;
  position_y = r.position_y;
  value = r.value;
}

abbrev pub powerup_of : Record → Powerup
powerup_of r = record {
  entity_id = r.entity_id;
  position_x = r.position_x;
  position_y = r.position_y;
  type = r.powerup_type;
  active = 1;
}

-- One of the arrays, after a record of its kind.
unfoldable pub apply_entity : {A : Type 0} → (A → ℕ) → ℕ → List A → Record → A → List A
apply_entity id_of capacity xs r x =
    if r.operation == record_remove
    then remove_entity id_of xs r.entity_id
    else if r.operation == record_spawn || r.operation == record_update
    then put_entity id_of capacity xs x
    else xs

unfoldable pub apply_record : Client → Record → Client
apply_record c r =
    if r.entity_kind == entity_spore
    then record c { spores = apply_entity (λ s. s.entity_id) max_spores c.spores r (spore_of r) }
    else if r.entity_kind == entity_powerup
    then record c {
      powerups = apply_entity (λ p. p.entity_id) max_powerups c.powerups r (powerup_of r);
    }
    else c

abbrev pub remember : ClientState → Record → ClientState
remember s r =
    if r.entity_kind == entity_spore
    then record s { keyframe_spores = remember_id max_spores s.keyframe_spores r.entity_id }
    else record s { keyframe_powerups = remember_id max_powerups s.keyframe_powerups r.entity_id }

abbrev pub listed : Bool → Client → Record → Client
listed keyframe c r =
    if keyframe && not (r.operation == record_remove)
    then record c { state = remember c.state r }
    else c

unfoldable pub apply_records : Bool → Client → List Record → Client
apply_records keyframe c [] = c
apply_records keyframe c (r ∷ rs) = apply_records keyframe (listed keyframe (apply_record c r) r) rs

abbrev pub has_keyframe_flag : ℕ → Bool
has_keyframe_flag flags = flags % 2 == 1

unfoldable pub is_bad_packet : ClientState → Packet → ℕ → Bool
is_bad_packet s p packet_size =
    ltb packet_size header_size
    || not (p.type == packet_world_state)
    || not (p.size == packet_size)
    || not (p.flags / 2 == 0)
    || p.chunk_count == 0
    || ltb max_chunks p.chunk_count
    || leb p.chunk_count p.chunk_index
    || ltb max_records (length p.records)
    || not (packet_size == header_size + length p.records * record_size)
    || s.tick_received && ltb p.tick s.latest_tick

abbrev pub is_bad_record : Record → Bool
is_bad_record r =
    not (r.entity_kind == entity_spore) && not (r.entity_kind == entity_powerup)
    || ltb r.operation record_spawn
    || ltb record_remove r.operation
    || r.entity_id == 0

unfoldable pub has_bad_record : List Record → Bool
has_bad_record [] = false
has_bad_record (r ∷ rs) = is_bad_record r || has_bad_record rs

unfoldable pub note_tick : ClientState → ℕ → ClientState
note_tick s tick =
    if not s.tick_received || ltb s.latest_tick tick
    then record s {
      tick_received = true;
      latest_tick = tick;
      keyframe_pending = s.keyframe_pending && not (ltb s.keyframe_tick tick);
    }
    else s

unfoldable pub begin_keyframe : ClientState → Packet → ClientState
begin_keyframe s p =
    if not s.keyframe_pending || ltb s.keyframe_tick p.tick
    then record s {
      keyframe_pending = true;
      keyframe_tick = p.tick;
      keyframe_chunk_count = p.chunk_count;
      keyframe_chunks = replicate 128 false;
      keyframe_spores = [];
      keyframe_powerups = [];
    }
    else s

-- `KeyframeComplete`: the bits of the first packets.
unfoldable pub keyframe_complete : ℕ → List Bool → Bool
keyframe_complete zero bits = true
keyframe_complete (suc n) [] = false
keyframe_complete (suc n) (b ∷ bits) = b && keyframe_complete n bits

abbrev pub receive_chunk : ClientState → ℕ → ClientState
receive_chunk s index = record s { keyframe_chunks = set s.keyframe_chunks index true }

unfoldable pub finish_keyframe : Client → Client
finish_keyframe c =
    if keyframe_complete c.state.keyframe_chunk_count c.state.keyframe_chunks
    then record {
      state = record (c.state) { keyframe_pending = false };
      spores = keep_listed (λ s. s.entity_id) c.state.keyframe_spores c.spores;
      powerups = keep_listed (λ p. p.entity_id) c.state.keyframe_powerups c.powerups;
    }
    else c

abbrev pub with_state : Client → ClientState → Client
with_state c s = record c { state = s }

abbrev pub received : Client → Packet → Client
received c p = with_state c (receive_chunk c.state p.chunk_index)

abbrev pub apply_keyframe : Client → ClientState → Packet → Client × Bool
apply_keyframe c s p =
    if not (p.tick == s.keyframe_tick) || not (p.chunk_count == s.keyframe_chunk_count)
    then (with_state c s, false)
    else (finish_keyframe (received (apply_records true (with_state c s) p.records) p), true)

unfoldable pub apply_packet : Client → Packet → ℕ → Client × Bool
apply_packet c p packet_size =
    if is_bad_packet c.state p packet_size || has_bad_record p.records
    then (c, false)
    else if has_keyframe_flag p.flags
    then apply_keyframe c (begin_keyframe (note_tick c.state p.tick) p) p
    else (apply_records false (with_state c (note_tick c.state p.tick)) p.records, true)
