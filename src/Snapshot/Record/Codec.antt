-- ===== src/Snapshot/Record/Codec.antt =====
-- A record is read back: the components that were written, and nothing of what follows.
use shroomio.Base.{
  ℕ, ◌+◌, ◌*◌, ◌-◌, ◌/◌, ◌%◌, ◌^◌, ◌<◌, ◌≡◌, refl, sym, ap, ◌∙◌, Bool, true, false, some, List, [],
  ◌∷◌, ◌++◌, length, take, drop, set, arith, length-append, subst, ltb, if◌then◌else◌,
}
use mathlib.Core.List.{append_assoc}
use shroomio.Snapshot.{
  Player, name_length, has_identity, has_transform, has_mass, has_effects, has_stats,
}
use shroomio.Snapshot.Record.{
  identity_fields, transform_fields, mass_fields, effects_fields, stats_fields, fields_if,
  fields_of, read_name, Reading, read_identity, read_transform, read_mass, read_effects, read_stats,
  read_if, read_components,
}

-- What the fields of a player hold, as the types of the program have it; a name is terminated.
pub record IsValid (p : Player) : Type 0 where
  pub player_id_lt : p.player_id < 2 ^ 32
  pub entity_id_lt : p.entity_id < 2 ^ 32
  pub position_x_lt : p.position_x < 2 ^ 32
  pub position_y_lt : p.position_y < 2 ^ 32
  pub mass_lt : p.mass < 2 ^ 32
  pub radius_lt : p.radius < 2 ^ 32
  pub name_length_eq : length p.name ≡ name_length
  pub name_terminated : set p.name (name_length - 1) 0 ≡ p.name
  pub alive_lt : p.alive < 256
  pub is_bot_lt : p.is_bot < 256
  pub effect_flags_lt : p.effect_flags < 2 ^ 16
  pub team_id_lt : p.team_id < 256
  pub piece_index_lt : p.piece_index < 256
  pub round_spores_lt : p.round_spores < 2 ^ 16
  pub round_kills_lt : p.round_kills < 256
  pub life_generation_lt : p.life_generation < 256
  pub objective_score_lt : p.objective_score < 2 ^ 32

abbrev pub flatten : List (List ℕ) → List ℕ
flatten [] = []
flatten (f ∷ fs) = f ++ flatten fs

pub flatten-append : (fs gs : List (List ℕ)) → flatten (fs ++ gs) ≡ flatten fs ++ flatten gs
flatten-append [] gs = refl
flatten-append (f ∷ fs) gs =
    ap (λ t. f ++ t) (flatten-append fs gs) ∙ sym (append_assoc f (flatten fs) (flatten gs))

pub u8_value : {x : ℕ} → x < 256 → x % 256 ≡ x
u8_value h = omega arith

pub u16_value : {x : ℕ} → x < 2 ^ 16 → x % 256 + 256 * (x / 256 % 256) ≡ x
u16_value h = omega arith

pub u32_value :
    {x : ℕ}
    → x < 2 ^ 32
    → x % 256 + 256 * (x / 256 % 256) + 65536 * (x / 65536 % 256) + 16777216 * (x / 16777216 % 256)
      ≡ x
u32_value h = omega arith

take-append : (xs ys : List ℕ) → take (length xs) (xs ++ ys) ≡ xs
take-append [] ys = refl
take-append (x ∷ xs) ys = ap (λ t. x ∷ t) (take-append xs ys)

drop-append : (xs ys : List ℕ) → drop (length xs) (xs ++ ys) ≡ ys
drop-append [] ys = refl
drop-append (x ∷ xs) ys = drop-append xs ys

pub read_name-append :
    (name rest : List ℕ)
    → length name ≡ name_length
    → set name (name_length - 1) 0 ≡ name
    → read_name (name ++ rest) ≡ some (name, rest)
unfolding read_name
read_name-append name rest long terminated = rw (enough, taken, dropped, terminated) refl
  where
    enough : ltb (length (name ++ rest)) name_length ≡ false
    enough = rw (length-append name rest) (ground arith)

    taken : take name_length (name ++ rest) ≡ name
    taken = subst (λ n. take n (name ++ rest) ≡ name) long (take-append name rest)

    dropped : drop name_length (name ++ rest) ≡ rest
    dropped = subst (λ n. drop n (name ++ rest) ≡ rest) long (drop-append name rest)

-- A player with a component of another.
abbrev pub merge_identity : Player → Player → Player
merge_identity p q = record q {
  player_id = p.player_id;
  name = p.name;
  alive = p.alive;
  is_bot = p.is_bot;
  team_id = p.team_id;
  piece_index = p.piece_index;
  life_generation = p.life_generation;
}

abbrev pub merge_transform : Player → Player → Player
merge_transform p q = record q { position_x = p.position_x; position_y = p.position_y }

abbrev pub merge_mass : Player → Player → Player
merge_mass p q = record q { mass = p.mass; radius = p.radius }

abbrev pub merge_effects : Player → Player → Player
merge_effects p q = record q { effect_flags = p.effect_flags }

abbrev pub merge_stats : Player → Player → Player
merge_stats p q = record q {
  round_spores = p.round_spores;
  round_kills = p.round_kills;
  objective_score = p.objective_score;
}

module _ (p q : Player) (rest : List ℕ) (v : IsValid p) where
  read_identity-fields :
      read_identity q (flatten (identity_fields p) ++ rest) ≡ some (merge_identity p q, rest)
  unfolding read_identity
  read_identity-fields =
      rw
        (
          append_assoc p.name,
          read_name-append p.name _ v.name_length_eq v.name_terminated,
          u32_value v.player_id_lt,
          u8_value v.alive_lt,
          u8_value v.is_bot_lt,
          u8_value v.team_id_lt,
          u8_value v.piece_index_lt,
          u8_value v.life_generation_lt,
        )
        refl

  read_transform-fields :
      read_transform q (flatten (transform_fields p) ++ rest) ≡ some (merge_transform p q, rest)
  unfolding read_transform
  read_transform-fields = rw (u32_value v.position_x_lt, u32_value v.position_y_lt) refl

  read_mass-fields : read_mass q (flatten (mass_fields p) ++ rest) ≡ some (merge_mass p q, rest)
  unfolding read_mass
  read_mass-fields = rw (u32_value v.mass_lt, u32_value v.radius_lt) refl

  read_effects-fields :
      read_effects q (flatten (effects_fields p) ++ rest) ≡ some (merge_effects p q, rest)
  unfolding read_effects
  read_effects-fields = rw (u16_value v.effect_flags_lt) refl

  read_stats-fields : read_stats q (flatten (stats_fields p) ++ rest) ≡ some (merge_stats p q, rest)
  unfolding read_stats
  read_stats-fields =
      rw (u16_value v.round_spores_lt, u8_value v.round_kills_lt, u32_value v.objective_score_lt)
        refl

-- A component that is present is read as it is written.
read_if-fields :
    (present : Bool) (read : Player → List ℕ → Reading) (fields : List (List ℕ))
    (merge : Player → Player) (q : Player) (rest : List ℕ)
    → read q (flatten fields ++ rest) ≡ some (merge q, rest)
    → read_if present read q (flatten (fields_if present fields) ++ rest)
      ≡ some (if present then merge q else q, rest)
read_if-fields true read fields merge q rest h = h
read_if-fields false read fields merge q rest h = refl

abbrev pub merge_components : ℕ → Player → Player → Player
merge_components mask p q =
    let a = if has_identity mask then merge_identity p q else q in
    let b = if has_transform mask then merge_transform p a else a in
    let c = if has_mass mask then merge_mass p b else b in
    let d = if has_effects mask then merge_effects p c else c in
    if has_stats mask then merge_stats p d else d

flatten-fields_of :
    (mask : ℕ) (p : Player) (rest : List ℕ)
    → flatten (fields_of mask p) ++ rest
      ≡ flatten (fields_if (has_identity mask) (identity_fields p))
        ++ (flatten (fields_if (has_transform mask) (transform_fields p))
            ++ (flatten (fields_if (has_mass mask) (mass_fields p))
                ++ (flatten (fields_if (has_effects mask) (effects_fields p))
                    ++ (flatten (fields_if (has_stats mask) (stats_fields p)) ++ rest))))
unfolding fields_of
flatten-fields_of mask p rest = simp (flatten-append, append_assoc)

pub read_components-fields_of :
    (mask : ℕ) (p q : Player) (rest : List ℕ)
    → IsValid p
    → read_components mask q (flatten (fields_of mask p) ++ rest)
      ≡ some (merge_components mask p q, rest)
unfolding read_components
read_components-fields_of mask p q rest v =
    rw
      (
        flatten-fields_of mask p rest,
        read_if-fields (has_identity mask) read_identity (identity_fields p) (merge_identity p) q _
            (read_identity-fields p q _ v),
        read_if-fields (has_transform mask) read_transform (transform_fields p) (merge_transform p)
            _ _ (read_transform-fields p _ _ v),
        read_if-fields (has_mass mask) read_mass (mass_fields p) (merge_mass p) _ _
            (read_mass-fields p _ _ v),
        read_if-fields (has_effects mask) read_effects (effects_fields p) (merge_effects p) _ _
            (read_effects-fields p _ _ v),
      )
      (read_if-fields (has_stats mask) read_stats (stats_fields p) (merge_stats p) _ _
        (read_stats-fields p _ _ v))
