-- ===== src/Snapshot/History.antt =====
-- The ring of the last frames, that both ends keep to base the next ones on.
pub mod Ring
use shroomio.Base.{
  ℕ, ◌+◌, ◌%◌, ◌<◌, ◌≤◌, ◌≡◌, Bool, ◌||◌, Option, none, some, List, [], ◌∷◌, ltb, ◌==◌,
  if◌then◌else◌, length, set,
}
use shroomio.Snapshot.{Player, max_players}
use shroomio.Snapshot.Frame.{Frame, History, history_size}

unfoldable pub find_frame : List Frame → ℕ → Option Frame
find_frame [] tick = none
find_frame (f ∷ fs) tick = let rest = find_frame fs tick in if f.tick == tick then some f else rest

-- `ShroomSnapshotHistoryFind`: the first frame of a tick.
abbrev pub find : History → ℕ → Option Frame
find h tick = if tick == 0 then none else find_frame h.frames tick

-- `ShroomSnapshotHistoryStore`: in place of the oldest frame.
abbrev pub store : History → ℕ → List Player → History
store h tick players = if tick == 0 || ltb max_players (length players) then h else record {
  next = (h.next + 1) % history_size;
  frames = set h.frames (h.next % history_size) (record { tick = tick; players = players });
}
