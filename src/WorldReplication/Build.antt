-- ===== src/WorldReplication/Build.antt =====
-- `ShroomWorldReplicationBuild`: the records by which a client follows the world. The loops over
-- spores and over power-ups are the same but for the elements.
use shroomio.Base.{
  ℕ, suc, ◌-◌, Bool, true, false, ◌||◌, ◌&&◌, not, Option, none, some, List, [], ◌∷◌, ◌++◌, ltb,
  leb, ◌==◌, if◌then◌else◌, length,
}
use shroomio.WorldReplication.{
  Spore, Powerup, Record, entity_spore, entity_powerup, record_spawn, record_update, record_remove,
  keyframe_ticks, spore_equal, powerup_equal,
}

-- What the server has told a client of an index of an array.
pub record Slot (A : Type 0) : Type 0 where
  pub known : Bool
  pub last : A

-- What is at an index now, and whether the client is to know of it.
pub record Seen (A : Type 0) : Type 0 where
  pub snapshot : A
  pub current : Bool

pub record WorldSpore : Type 0 where
  pub spore : Spore
  pub active : Bool

pub record WorldPowerup : Type 0 where
  pub entity_id : ℕ
  pub position_x : ℕ
  pub position_y : ℕ
  pub type : ℕ
  pub active : Bool

-- The part of the world that is told. The arrays have their full length; the counts say how many of
-- their elements are in use.
pub record World : Type 0 where
  pub tick : ℕ
  pub spore_count : ℕ
  pub powerup_count : ℕ
  pub spores : List WorldSpore
  pub powerups : List WorldPowerup

pub record Peer : Type 0 where
  pub initialized : Bool
  pub last_keyframe_tick : ℕ
  pub spores : List (Slot Spore)
  pub powerups : List (Slot Powerup)

pub record Batch : Type 0 where
  pub tick : ℕ
  pub records : List Record
  pub keyframe : Bool

unfoldable pub see_spores : (ℕ → ℕ → Bool) → ℕ → ℕ → List WorldSpore → List (Seen Spore)
see_spores is_near count index [] = []
see_spores is_near count index (s ∷ ss) =
    record {
      snapshot = s.spore;
      current = ltb index count && s.active && is_near s.spore.position_x s.spore.position_y;
    }
    ∷ see_spores is_near count (suc index) ss

abbrev pub snapshot_of : WorldPowerup → Powerup
snapshot_of p = record {
  entity_id = p.entity_id;
  position_x = p.position_x;
  position_y = p.position_y;
  type = p.type;
  active = 1;
}

unfoldable pub see_powerups : (ℕ → ℕ → Bool) → ℕ → ℕ → List WorldPowerup → List (Seen Powerup)
see_powerups is_near count index [] = []
see_powerups is_near count index (p ∷ ps) =
    record {
      snapshot = snapshot_of p;
      current = ltb index count && p.active && is_near p.position_x p.position_y;
    }
    ∷ see_powerups is_near count (suc index) ps

-- The record of a spore, or of a power-up, under an id.
abbrev pub spore_record : ℕ → ℕ → Spore → Record
spore_record operation id s = record {
  entity_id = id;
  position_x = s.position_x;
  position_y = s.position_y;
  value = s.value;
  entity_kind = entity_spore;
  operation = operation;
  powerup_type = 0;
}

abbrev pub powerup_record : ℕ → ℕ → Powerup → Record
powerup_record operation id p = record {
  entity_id = id;
  position_x = p.position_x;
  position_y = p.position_y;
  value = 0;
  entity_kind = entity_powerup;
  operation = operation;
  powerup_type = p.type;
}

-- The slots after the loop, the records that it appends, and whether they had room.
pub record Built (A : Type 0) : Type 0 where
  pub slots : List (Slot A)
  pub records : List Record
  pub fits : Bool

module _ {A : Type 0} (id_of : A → ℕ) (equal : A → A → Bool) (record_of : ℕ → ℕ → A → Record) where
  -- Another entity is where the client knows one: the difference cannot be told.
  unfoldable pub has_replaced : List (Seen A) → List (Slot A) → Bool
  has_replaced (w ∷ ws) (s ∷ ss) =
      s.known && w.current && not (id_of s.last == id_of w.snapshot) || has_replaced ws ss
  has_replaced _ _ = false

  -- 0 is no operation.
  unfoldable pub operation_of : Bool → Seen A → Slot A → ℕ
  operation_of keyframe w s =
      if w.current
      then if keyframe || not s.known
        then record_spawn
        else if not (equal w.snapshot s.last)
        then record_update
        else 0
      else if not keyframe && s.known
      then record_remove
      else 0

  abbrev pub record_for : ℕ → Seen A → Slot A → Record
  record_for operation w s =
      record_of operation (if w.current then id_of w.snapshot else id_of s.last) w.snapshot

  abbrev pub next_slot : Seen A → Slot A → Slot A
  next_slot w s = record { known = w.current; last = if w.current then w.snapshot else s.last }

  abbrev pub with_next : Slot A → Built A → Built A
  with_next s b = record b { slots = s ∷ b.slots }

  abbrev pub with_record : Record → Slot A → Built A → Built A
  with_record r s b = record b { slots = s ∷ b.slots; records = r ∷ b.records }

  abbrev pub step : ℕ → ℕ → Seen A → Slot A → List (Slot A) → ℕ → Built A → Built A → Built A
  step capacity count w s ss operation quiet told =
      if operation == 0
      then with_next (next_slot w s) quiet
      else if leb capacity count
      then record { slots = s ∷ ss; records = []; fits = false }
      else with_record (record_for operation w s) (next_slot w s) told

  -- `count` records have been written before.
  unfoldable pub build_slots : Bool → ℕ → ℕ → List (Seen A) → List (Slot A) → Built A
  build_slots keyframe capacity count [] ss = record { slots = ss; records = []; fits = true }
  build_slots keyframe capacity count (w ∷ ws) [] = record { slots = []; records = []; fits = true }
  build_slots keyframe capacity count (w ∷ ws) (s ∷ ss) =
      let quiet = build_slots keyframe capacity count ws ss in
      let told = build_slots keyframe capacity (suc count) ws ss in
      step capacity count w s ss (operation_of keyframe w s) quiet told

abbrev pub build_spores : Bool → ℕ → ℕ → List (Seen Spore) → List (Slot Spore) → Built Spore
build_spores = build_slots (λ s. s.entity_id) spore_equal spore_record

abbrev pub build_powerups : Bool → ℕ → ℕ → List (Seen Powerup) → List (Slot Powerup) → Built Powerup
build_powerups = build_slots (λ p. p.entity_id) powerup_equal powerup_record

abbrev pub is_due : Peer → ℕ → Bool → Bool
is_due peer tick force =
    force
    || not peer.initialized
    || ltb tick peer.last_keyframe_tick
    || leb keyframe_ticks (tick - peer.last_keyframe_tick)

-- `none` is a batch of zeros; what is lost when the records have no room is in the peer all the same.
abbrev pub finish : Peer → ℕ → Bool → Built Spore → Built Powerup → Peer × Option Batch
finish peer tick keyframe spores powerups =
    if not spores.fits
    then (record peer { spores = spores.slots }, none)
    else if not powerups.fits
    then (record peer { spores = spores.slots; powerups = powerups.slots }, none)
    else (
      record {
        initialized = true;
        last_keyframe_tick = if keyframe then tick else peer.last_keyframe_tick;
        spores = spores.slots;
        powerups = powerups.slots;
      },
      some (record {
        tick = tick;
        records = spores.records ++ powerups.records;
        keyframe = keyframe;
      }),
    )

unfoldable pub is_keyframe : (ℕ → ℕ → Bool) → Peer → World → Bool → Bool
is_keyframe is_near peer world force =
    is_due peer world.tick force
    || has_replaced (λ s. s.entity_id) spore_equal spore_record
        (see_spores is_near world.spore_count 0 world.spores) peer.spores
    || has_replaced (λ p. p.entity_id) powerup_equal powerup_record
        (see_powerups is_near world.powerup_count 0 world.powerups) peer.powerups

unfoldable pub build : (ℕ → ℕ → Bool) → Peer → World → Bool → ℕ → Peer × Option Batch
build is_near peer world force capacity =
    let keyframe = is_keyframe is_near peer world force in
    let spores =
      build_spores keyframe capacity 0 (see_spores is_near world.spore_count 0 world.spores)
        peer.spores in
    let powerups =
      build_powerups keyframe capacity (length spores.records)
        (see_powerups is_near world.powerup_count 0 world.powerups) peer.powerups in
    finish peer world.tick keyframe spores powerups
