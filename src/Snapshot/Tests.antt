-- ===== src/Snapshot/Tests.antt =====
-- A frame of two players over a baseline of two: one has moved, one is new, one has left.
use shroomio.Base.{
  ℕ, zero, suc, ◌<◌, ◌≡◌, refl, true, false, Option, none, some, List, [], ◌∷◌, length, arith, inl,
  inr, All, replicate, get_or,
}
use shroomio.Snapshot.{Player}
use shroomio.Snapshot.Record.{encode_record, write_fields, fields_of}
use shroomio.Snapshot.Record.Codec.{IsValid}
use shroomio.Snapshot.Frame.{Metadata, Packet, Frame, History, find_player}
use shroomio.Snapshot.Frame.Encode.{
  encode_frame, encode_players, encode_despawns, player_record, despawn_record, append_bytes,
  finish_packets, init_packet, parameters,
}
use shroomio.Snapshot.Frame.Lookup.{Distinct}
use shroomio.Snapshot.Frame.ChunkCount.{chunk_count, length-encode_frame}
use shroomio.Snapshot.Frame.RoundTrip.{Received}
use shroomio.Snapshot.History.{find, store, find_frame}
use shroomio.Snapshot.History.Ring.{store_all, find-store_all}
use shroomio.Snapshot.Assembly.{
  Assembly, complete, starts_new, push, deactivate, begin, apply_chunks,
}
use shroomio.Snapshot.Assembly.Order.{Collects, IsOf}
use shroomio.Snapshot.Assembly.Slots.{covers}
use shroomio.Snapshot.Assembly.Outcome.{AreFrames, Went, push-Went, push-AreFrames}
use shroomio.Snapshot.Transfer.{IsSendable, apply_chunks-encode_frame, push-encode_frame}

abbrev player : ℕ → ℕ → Player
player entity_id position_x = record {
  player_id = 7;
  entity_id = entity_id;
  position_x = position_x;
  position_y = 0;
  mass = 0x41a0_0000;
  radius = 0x40a0_0000;
  name = 65 ∷ replicate 31 0;
  alive = 1;
  is_bot = 0;
  effect_flags = 3;
  team_id = 1;
  piece_index = 0;
  round_spores = 300;
  round_kills = 2;
  life_generation = 4;
  objective_score = 0;
}

player-IsValid : (i x : ℕ) → i < 4294967296 → x < 4294967296 → IsValid (player i x)
player-IsValid i x hi hx = record {
  player_id_lt = omega arith;
  entity_id_lt = hi;
  position_x_lt = hx;
  position_y_lt = omega arith;
  mass_lt = omega arith;
  radius_lt = omega arith;
  name_length_eq = refl;
  name_terminated = refl;
  alive_lt = omega arith;
  is_bot_lt = omega arith;
  effect_flags_lt = omega arith;
  team_id_lt = omega arith;
  piece_index_lt = omega arith;
  round_spores_lt = omega arith;
  round_kills_lt = omega arith;
  life_generation_lt = omega arith;
  objective_score_lt = omega arith;
}

abbrev metadata : Metadata
metadata = record {
  tick = 9;
  last_processed_input_sequence = 40;
  player_id = 7;
  entity_id = 2;
  match_phase = 1;
  game_mode = 0;
  match_time_remaining = 0x42f0_0000;
  objective_target_score = 0;
  objective_controller_id = 0;
  objective_contested = 0;
  podium_player_ids = 0 ∷ 0 ∷ 0 ∷ [];
  podium_masses = 0 ∷ 0 ∷ 0 ∷ [];
}

abbrev baseline : Frame
baseline = record { tick = 5; players = player 1 1000 ∷ player 2 2000 ∷ [] }

abbrev players : List Player
players = player 2 2001 ∷ player 3 3000 ∷ []

abbrev empty_frame : Frame
empty_frame = record { tick = 0; players = [] }

abbrev history : History
history = record { next = 1; frames = baseline ∷ empty_frame ∷ empty_frame ∷ empty_frame ∷ [] }

players-IsSendable : IsSendable players baseline
unfolding find_player
players-IsSendable = record {
  players_valid = (
    player-IsValid 2 2001 (omega arith) (omega arith),
    (player-IsValid 3 3000 (omega arith) (omega arith), tt),
  );
  base_valid = (
    player-IsValid 1 1000 (omega arith) (omega arith),
    (player-IsValid 2 2000 (omega arith) (omega arith), tt),
  );
  players_distinct = (refl, (refl, tt));
  base_distinct = (refl, (refl, tt));
  players_le = omega arith;
  both_le = omega arith;
}

has_baseline : find history 5 ≡ some baseline
unfolding find_frame
has_baseline = refl

apply_chunks-encode_frame_example :
    (packets : List Packet) × (received : List Player) × (encode_frame metadata players
        (some baseline)
        false
      ≡ some packets)
    × (apply_chunks history packets ≡ some received)
    × (length received ≡ 2)
    × ((i : ℕ) → Received (find_player players i) (find_player received i))
apply_chunks-encode_frame_example =
    apply_chunks-encode_frame metadata players (some baseline) false history players-IsSendable
      (inr has_baseline)

-- Fifteen players take two packets of a keyframe.
abbrev many : ℕ → List Player
many zero = []
many (suc n) = player (suc n) n ∷ many n

many-IsValid : (n : ℕ) → n < 100 → All IsValid (many n)
many-IsValid zero h = tt
many-IsValid (suc n) h =
    (player-IsValid (suc n) n (omega arith) (omega arith), many-IsValid n (omega arith))

find_player-many : (n i : ℕ) → n < i → find_player (many n) i ≡ none
unfolding find_player
find_player-many zero i h = refl
find_player-many (suc n) i h = ground (arith, find_player-many n i)

many-Distinct : (n : ℕ) → Distinct (many n)
many-Distinct zero = tt
many-Distinct (suc n) = (find_player-many n (suc n) (omega arith), many-Distinct n)

many-IsSendable : IsSendable (many 15) empty_frame
unfolding find_player
many-IsSendable = record {
  players_valid = many-IsValid 15 (omega arith);
  base_valid = tt;
  players_distinct = many-Distinct 15;
  base_distinct = tt;
  players_le = omega arith;
  both_le = omega arith;
}

abbrev or_none : Option (List Packet) → List Packet
or_none none = []
or_none (some ps) = ps

abbrev packets : List Packet
packets = or_none (encode_frame metadata (many 15) none true)

two_packets : length packets ≡ 2
unfolding encode_frame encode_players encode_despawns player_record despawn_record append_bytes
    find_player encode_record write_fields fields_of finish_packets
two_packets = refl

packets-encode_frame : encode_frame metadata (many 15) none true ≡ some packets
unfolding encode_frame encode_players encode_despawns player_record despawn_record append_bytes
    find_player encode_record write_fields fields_of finish_packets
packets-encode_frame = refl

abbrev packet : ℕ → Packet
packet i = get_or packets i (init_packet (parameters metadata [] empty_frame true))

abbrev idle : Assembly
idle = record (begin (packet 0)) { active = false }

packets-IsOf : All (IsOf packets) (packet 0 ∷ packet 1 ∷ packet 1 ∷ [])
unfolding encode_frame encode_players encode_despawns player_record despawn_record append_bytes
    find_player encode_record write_fields fields_of finish_packets
packets-IsOf = (refl, (refl, (refl, tt)))

not_covered : covers (length packets) (packet 1 ∷ packet 1 ∷ []) ≡ false
unfolding encode_frame encode_players encode_despawns player_record despawn_record append_bytes
    find_player encode_record write_fields fields_of finish_packets
not_covered = refl

covered : covers (length packets) (packet 0 ∷ packet 1 ∷ packet 1 ∷ []) ≡ true
unfolding encode_frame encode_players encode_despawns player_record despawn_record append_bytes
    find_player encode_record write_fields fields_of finish_packets
covered = refl

idle-starts_new : starts_new idle 9 ≡ true
unfolding starts_new
idle-starts_new = refl

-- The second packet comes twice before the first.
push-encode_frame_example :
    (b d : Assembly) × (received : List Player) × Collects history idle (packet 1 ∷ packet 1 ∷ []) b
    × (push b (packet 0) (packet 0).size history
        ≡ (complete metadata received, deactivate d, store history 9 received))
    × ((i : ℕ) → Received (find_player (many 15) i) (find_player received i))
push-encode_frame_example =
    push-encode_frame metadata (many 15) none true history packets (packet 1 ∷ packet 1 ∷ [])
      (packet 0) idle many-IsSendable (inl refl) packets-encode_frame idle-starts_new packets-IsOf
      not_covered covered

length-encode_frame_example : length packets ≡ chunk_count 15
length-encode_frame_example =
    length-encode_frame metadata (many 15) none packets (many-IsValid 15 (omega arith))
      (omega arith) packets-encode_frame

history-AreFrames : AreFrames history
unfolding find_player
history-AreFrames = (
  record { length_le = omega arith; distinct = (refl, (refl, tt)) },
  (
    record { length_le = omega arith; distinct = tt },
    (
      record { length_le = omega arith; distinct = tt },
      (record { length_le = omega arith; distinct = tt }, tt),
    ),
  ),
)

push-Went_example : Went history (push idle (packet 0) 1128 history)
push-Went_example = push-Went idle (packet 0) 1128 history history-AreFrames

push-AreFrames_example : AreFrames (push idle (packet 1) 166 history).2
push-AreFrames_example = push-AreFrames idle (packet 1) 166 history history-AreFrames

abbrev frame : ℕ → Frame
frame tick = record { tick = tick; players = players }

frame-absent : find history 9 ≡ none
unfolding find_frame
frame-absent = refl

find-store_all_example :
    find (store_all history (frame 9 ∷ frame 10 ∷ frame 0 ∷ frame 12 ∷ [])) 9 ≡ some (frame 9)
find-store_all_example =
    find-store_all history (frame 9) (frame 10 ∷ frame 0 ∷ frame 12 ∷ []) refl (omega arith)
      (λ e. omega arith) (omega arith) frame-absent
      ((λ e. omega arith), ((λ e. omega arith), ((λ e. omega arith), tt))) (omega arith)
