-- ===== src/WorldReplication/Tests.antt =====
-- A world of three spores and a power-up: one spore has moved, one is new, one is gone.
use shroomio.Base.{
  ℕ, ◌≡◌, refl, Bool, true, false, Option, none, some, [], ◌∷◌, ltb, length, arith, replicate,
}
use shroomio.Snapshot.{float_equal}
use shroomio.WorldReplication.{Spore, Powerup, Packet, spore_equal, powerup_equal, packet_bytes}
use shroomio.WorldReplication.Table.{find_entity}
use shroomio.WorldReplication.Build.{
  Slot, WorldSpore, World, Peer, Batch, see_spores, see_powerups, has_replaced, operation_of,
  build_slots, is_keyframe, build,
}
use shroomio.WorldReplication.Apply.{Client, ClientState, apply_records, apply_packet}
use shroomio.WorldReplication.Follow.{Mirrors, told, seen, exact}
use shroomio.WorldReplication.Mirrored.{Mirrored, IsTellable}
use shroomio.WorldReplication.Visible.{Shows}
use shroomio.WorldReplication.Sync.{apply_records-build}
use shroomio.WorldReplication.Bounds.{IsClient, Kept, apply_packet-IsClient}

abbrev spore : ℕ → ℕ → Spore
spore entity_id position_x = record {
  entity_id = entity_id;
  position_x = position_x;
  position_y = 5;
  value = 2;
}

abbrev world_spore : ℕ → ℕ → Bool → WorldSpore
world_spore entity_id position_x active = record {
  spore = spore entity_id position_x;
  active = active;
}

abbrev slot : Bool → Spore → Slot Spore
slot known last = record { known = known; last = last }

abbrev powerup : Powerup
powerup = record { entity_id = 9; position_x = 30; position_y = 30; type = 2; active = 1 }

abbrev is_near : ℕ → ℕ → Bool
is_near x y = ltb x 100

abbrev world : World
world = record {
  tick = 12;
  spore_count = 3;
  powerup_count = 1;
  spores = world_spore 1 11 true ∷ world_spore 2 15 true ∷ world_spore 3 20 false ∷ [];
  powerups =
      record { entity_id = 9; position_x = 30; position_y = 30; type = 2; active = true } ∷ [];
}

abbrev peer : Peer
peer = record {
  initialized = true;
  last_keyframe_tick = 10;
  spores = slot true (spore 1 10) ∷ slot false (spore 2 15) ∷ slot true (spore 3 20) ∷ [];
  powerups = record { known = true; last = powerup } ∷ [];
}

abbrev idle : ClientState
idle = record {
  tick_received = true;
  latest_tick = 10;
  keyframe_pending = false;
  keyframe_tick = 10;
  keyframe_chunk_count = 1;
  keyframe_chunks = replicate 128 false;
  keyframe_spores = [];
  keyframe_powerups = [];
}

abbrev client : Client
client = record { state = idle; spores = spore 1 10 ∷ spore 3 20 ∷ []; powerups = powerup ∷ [] }

Mirrors-self : {A : Type 0} (equal : A → A → Bool) (o : Option A) → Mirrors equal o o
Mirrors-self equal none = refl
Mirrors-self equal (some x) = (x, refl, exact)

client-Mirrored : Mirrored client peer
unfolding told find_entity
client-Mirrored = record {
  spores = λ i. Mirrors-self spore_equal (find_entity (λ s. s.entity_id) client.spores i);
  powerups = λ i. Mirrors-self powerup_equal (find_entity (λ p. p.entity_id) client.powerups i);
  spores_distinct = (refl, (refl, tt));
  powerups_distinct = (refl, tt);
}

world-IsTellable : IsTellable is_near peer world client
unfolding see_spores see_powerups told seen
world-IsTellable = record {
  spores_length = refl;
  powerups_length = refl;
  spores_apart = (
    (λ h. (refl, refl)),
    (λ h. (refl, refl)),
    ((λ h. (refl, refl)), (λ h. (refl, refl)), ((λ h. (refl, refl)), (λ h. (refl, refl)), tt)),
  );
  powerups_apart = ((λ h. (refl, refl)), (λ h. (refl, refl)), tt);
  spores_room = omega arith;
  powerups_room = omega arith;
}

abbrev or_empty : Option Batch → Batch
or_empty none = record { tick = 0; records = []; keyframe = false }
or_empty (some b) = b

abbrev batch : Batch
batch = or_empty (build is_near peer world false 4104).1

three_records : length batch.records ≡ 3
unfolding build is_keyframe see_spores see_powerups has_replaced operation_of build_slots
    spore_equal powerup_equal float_equal
three_records = refl

peer-build :
    build is_near peer world false 4104 ≡ ((build is_near peer world false 4104).0, some batch)
unfolding build is_keyframe see_spores see_powerups has_replaced operation_of build_slots
    spore_equal powerup_equal float_equal
peer-build = refl

batch_delta : batch.keyframe ≡ false
unfolding build is_keyframe see_spores see_powerups has_replaced operation_of build_slots
    spore_equal powerup_equal float_equal
batch_delta = refl

apply_records-build_example :
    Mirrored (apply_records false client batch.records) (build is_near peer world false 4104).0
    × Shows is_near world (apply_records false client batch.records)
apply_records-build_example =
    apply_records-build is_near peer (build is_near peer world false 4104).0 world false 4104 client
      batch peer-build batch_delta world-IsTellable client-Mirrored

client-IsClient : IsClient client
unfolding find_entity
client-IsClient = record {
  spores = record { length_le = omega arith; distinct = (refl, (refl, tt)) };
  powerups = record { length_le = omega arith; distinct = (refl, tt) };
}

abbrev packet : Packet
packet = record {
  type = 29;
  size = 84;
  tick = 12;
  chunk_index = 0;
  chunk_count = 1;
  flags = 0;
  records = batch.records;
}

apply_packet-IsClient_example :
    IsClient (apply_packet client packet 84).0
    × Kept (apply_packet client packet 84).1 client (apply_packet client packet 84).0
apply_packet-IsClient_example = apply_packet-IsClient client packet 84 client-IsClient

bytes_of_batch : packet_bytes 60 ≡ 1248
unfolding packet_bytes
bytes_of_batch = refl
