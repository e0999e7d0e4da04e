-- ===== src/Snapshot/Record.antt =====
-- One record: how it is written, and how it is read.
pub mod Codec
pub mod Written
use shroomio.Base.{
  ℕ, zero, suc, ◌+◌, ◌*◌, ◌-◌, ◌/◌, ◌%◌, Bool, true, false, ◌&&◌, ◌||◌, not, Option, none, some,
  List, [], ◌∷◌, ◌++◌, ltb, leb, ◌==◌, if◌then◌else◌, length, take, drop, set, get_or, replicate,
}
use shroomio.Snapshot.{
  Player, RecordHeader, max_players, name_length, record_spawn, record_update, record_despawn,
  component_all, has_identity, has_transform, has_mass, has_effects, has_stats,
}

abbrev pub u8 : ℕ → List ℕ
u8 x = x % 256 ∷ []

abbrev pub u16 : ℕ → List ℕ
u16 x = x % 256 ∷ x / 256 % 256 ∷ []

abbrev pub u32 : ℕ → List ℕ
u32 x = x % 256 ∷ x / 256 % 256 ∷ x / 65536 % 256 ∷ x / 16777216 % 256 ∷ []

abbrev pub header_size : ℕ
header_size = 8

abbrev pub header_bytes : RecordHeader → List ℕ
header_bytes h = u32 h.entity_id ++ u16 h.component_mask ++ u8 h.operation ++ u8 h.size

-- The fields of a component, as they are written.
abbrev pub identity_fields : Player → List (List ℕ)
identity_fields p =
    u32 p.player_id
    ∷ p.name
    ∷ u8 p.alive
    ∷ u8 p.is_bot
    ∷ u8 p.team_id
    ∷ u8 p.piece_index
    ∷ u8 p.life_generation
    ∷ []

abbrev pub transform_fields : Player → List (List ℕ)
transform_fields p = u32 p.position_x ∷ u32 p.position_y ∷ []

abbrev pub mass_fields : Player → List (List ℕ)
mass_fields p = u32 p.mass ∷ u32 p.radius ∷ []

abbrev pub effects_fields : Player → List (List ℕ)
effects_fields p = u16 p.effect_flags ∷ []

abbrev pub stats_fields : Player → List (List ℕ)
stats_fields p = u16 p.round_spores ∷ u8 p.round_kills ∷ u32 p.objective_score ∷ []

abbrev pub fields_if : Bool → List (List ℕ) → List (List ℕ)
fields_if written fields = if written then fields else []

unfoldable pub fields_of : ℕ → Player → List (List ℕ)
fields_of mask p =
    fields_if (has_identity mask) (identity_fields p)
    ++ fields_if (has_transform mask) (transform_fields p)
    ++ fields_if (has_mass mask) (mass_fields p)
    ++ fields_if (has_effects mask) (effects_fields p)
    ++ fields_if (has_stats mask) (stats_fields p)

-- `WriteBytes` for one field after another, behind a header of the given size, until one fails.
unfoldable pub write_fields : ℕ → List ℕ → List (List ℕ) → Option (List ℕ)
write_fields capacity out [] = some out
write_fields capacity out (f ∷ fs) =
    let rest = write_fields capacity (out ++ f) fs in
    if ltb capacity (header_size + (length out + length f)) then none else rest

abbrev pub with_header : ℕ → ℕ → ℕ → Option (List ℕ) → Option (List ℕ)
with_header entity_id mask operation none = none
with_header entity_id mask operation (some body) =
    let size = header_size + length body in
    if ltb 255 size
    then none
    else some (
        header_bytes (record {
          entity_id = entity_id;
          component_mask = mask;
          operation = operation;
          size = size;
        })
        ++ body)

-- `none` is a record of size 0. A record that ends a player has no use for the player.
unfoldable pub encode_record : ℕ → ℕ → ℕ → ℕ → Player → Option (List ℕ)
unfolding write_fields fields_of
encode_record capacity operation mask entity_id p =
    if ltb capacity header_size
    then none
    else with_header entity_id mask operation
        (write_fields capacity [] (if operation == record_despawn then [] else fields_of mask p))

-- Reading: what has been read, and the bytes that follow.
abbrev pub read_u8 : List ℕ → Option (ℕ × List ℕ)
read_u8 (a ∷ rest) = some (a, rest)
read_u8 _ = none

abbrev pub read_u16 : List ℕ → Option (ℕ × List ℕ)
read_u16 (a ∷ b ∷ rest) = some (a + 256 * b, rest)
read_u16 _ = none

abbrev pub read_u32 : List ℕ → Option (ℕ × List ℕ)
read_u32 (a ∷ b ∷ c ∷ d ∷ rest) = some (a + 256 * b + 65536 * c + 16777216 * d, rest)
read_u32 _ = none

-- The last byte of a name is always the terminator.
unfoldable pub read_name : List ℕ → Option (List ℕ × List ℕ)
read_name bytes =
    if ltb (length bytes) name_length
    then none
    else some (set (take name_length bytes) (name_length - 1) 0, drop name_length bytes)

-- A player that is being read.
abbrev pub Reading : Type 0
Reading = Option (Player × List ℕ)

infixl 5 ◌>>=◌
abbrev pub ◌>>=◌ {ℓ κ} : {A : Type ℓ} {B : Type κ} → Option A → (A → Option B) → Option B
none >>= f = none
some a >>= f = f a

unfoldable pub read_identity : Player → List ℕ → Reading
unfolding read_name
read_identity p bytes = do
  (player_id, bytes) ← read_u32 bytes
  (name, bytes) ← read_name bytes
  (alive, bytes) ← read_u8 bytes
  (is_bot, bytes) ← read_u8 bytes
  (team_id, bytes) ← read_u8 bytes
  (piece_index, bytes) ← read_u8 bytes
  (life_generation, bytes) ← read_u8 bytes
  some (
    record p {
      player_id = player_id;
      name = name;
      alive = alive;
      is_bot = is_bot;
      team_id = team_id;
      piece_index = piece_index;
      life_generation = life_generation;
    },
    bytes,
  )

unfoldable pub read_transform : Player → List ℕ → Reading
read_transform p bytes = do
  (position_x, bytes) ← read_u32 bytes
  (position_y, bytes) ← read_u32 bytes
  some (record p { position_x = position_x; position_y = position_y }, bytes)

unfoldable pub read_mass : Player → List ℕ → Reading
read_mass p bytes = do
  (mass, bytes) ← read_u32 bytes
  (radius, bytes) ← read_u32 bytes
  some (record p { mass = mass; radius = radius }, bytes)

unfoldable pub read_effects : Player → List ℕ → Reading
read_effects p bytes = do
  (effect_flags, bytes) ← read_u16 bytes
  some (record p { effect_flags = effect_flags }, bytes)

unfoldable pub read_stats : Player → List ℕ → Reading
read_stats p bytes = do
  (round_spores, bytes) ← read_u16 bytes
  (round_kills, bytes) ← read_u8 bytes
  (objective_score, bytes) ← read_u32 bytes
  some (
    record p {
      round_spores = round_spores;
      round_kills = round_kills;
      objective_score = objective_score;
    },
    bytes,
  )

abbrev pub read_if : Bool → (Player → List ℕ → Reading) → Player → List ℕ → Reading
read_if present read p bytes = if present then read p bytes else some (p, bytes)

unfoldable pub read_components : ℕ → Player → List ℕ → Reading
read_components mask p bytes = do
  (p, bytes) ← read_if (has_identity mask) read_identity p bytes
  (p, bytes) ← read_if (has_transform mask) read_transform p bytes
  (p, bytes) ← read_if (has_mass mask) read_mass p bytes
  (p, bytes) ← read_if (has_effects mask) read_effects p bytes
  read_if (has_stats mask) read_stats p bytes
