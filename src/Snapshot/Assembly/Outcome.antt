-- ===== src/Snapshot/Assembly/Outcome.antt =====
-- Whatever packet comes in: what is left of the assembly and of the history, on every branch.
use shroomio.Base.{
  ℕ, ◌%◌, ◌≡◌, refl, sym, subst, true, false, ◌||◌, not, Option, none, some, List, [], ◌∷◌, length,
  arith, ◌==◌, ltb, Bool-cases, Option-cases, inl, inr, All, All-set,
}
use shroomio.Snapshot.{Player, max_players}
use shroomio.Snapshot.Frame.{Packet, Frame, History, history_size}
use shroomio.Snapshot.Frame.Decode.{check_total}
use shroomio.Snapshot.Frame.Safety.{ArePlayers, Holds, Holds-if}
use shroomio.Snapshot.Frame.Stream.{apply_packets-Holds}
use shroomio.Snapshot.History.{find, find_frame, store}
use shroomio.Snapshot.Assembly.{
  Assembly, Result, rejected, pending, complete, is_keyframe, is_malformed, is_older, starts_new,
  matches, baseline_players, start_players, apply_chunks, finish, push, complete_if,
}

-- Every frame that may serve as a baseline.
abbrev pub AreFrames : History → Type 0
AreFrames h = All (λ f. ArePlayers f.players) h.frames

find_frame-Holds :
    (fs : List Frame) (tick : ℕ)
    → All (λ f. ArePlayers f.players) fs
    → Holds (λ f. ArePlayers f.players) (find_frame fs tick)
unfolding find_frame
find_frame-Holds [] tick a = tt
find_frame-Holds (f ∷ fs) tick a =
    Holds-if (λ g. ArePlayers g.players) (f.tick == tick) (some f) _ a.0
      (find_frame-Holds fs tick a.1)

baseline_players-Holds :
    (o : Option Frame) → Holds (λ f. ArePlayers f.players) o → Holds ArePlayers (baseline_players o)
baseline_players-Holds none h = tt
baseline_players-Holds (some f) h = h

start_players-Holds :
    (h : History) (flags tick : ℕ) → AreFrames h → Holds ArePlayers (start_players h flags tick)
start_players-Holds h flags tick a =
    Holds-if ArePlayers (is_keyframe flags) (some []) _
      (record { length_le = omega arith; distinct = tt })
      (baseline_players-Holds (find h tick) (
        Holds-if (λ f. ArePlayers f.players) (tick == 0) none _ tt
          (find_frame-Holds h.frames tick a)))

check_total-Holds :
    (n : ℕ) (o : Option (List Player)) → Holds ArePlayers o → Holds ArePlayers (check_total n o)
check_total-Holds n none h = tt
check_total-Holds n (some players) h = Holds-if ArePlayers (length players == n) _ none h tt

apply_chunks-Holds :
    (h : History) (ps : List Packet) → AreFrames h → Holds ArePlayers (apply_chunks h ps)
unfolding apply_chunks
apply_chunks-Holds h [] a = tt
apply_chunks-Holds h (p ∷ ps) a = elim (Option-cases (start_players h p.flags p.baseline_tick)) [
  | inl e ↦ rw (e, apply_chunks) tt
  | inr (players, e) ↦
      let fine : ArePlayers players =
        subst (Holds ArePlayers) e (start_players-Holds h p.flags p.baseline_tick a) in
      rw (e, apply_chunks)
        (check_total-Holds p.total_player_count _ (apply_packets-Holds (p ∷ ps) players fine))
]

store-AreFrames :
    (h : History) (tick : ℕ) (players : List Player)
    → AreFrames h
    → ArePlayers players
    → AreFrames (store h tick players)
store-AreFrames h tick players a p =
    elim (Bool-cases (tick == 0 || ltb max_players (length players))) [
      | inl e ↦ rw e a
      | inr e ↦ rw e (
          All-set (λ f. ArePlayers f.players) h.frames (h.next % history_size)
            (record { tick = tick; players = players }) a p)
    ]

-- What a push gives: the history is only written to when a frame is complete, and then with the
-- players of that frame.
abbrev pub Went : History → Result × Assembly × History → Type 0
Went h (rejected, b, h2) = h2 ≡ h
Went h (pending, b, h2) = (h2 ≡ h) × (b.active ≡ true)
Went h (complete m players, b, h2) =
    (h2 ≡ store h m.tick players) × (b.active ≡ false) × ArePlayers players

finish-Went :
    (d : Assembly) (h : History) (o : Option (List Player))
    → Holds ArePlayers o
    → Went h (finish d h o)
finish-Went d h none a = refl
finish-Went d h (some players) a = (refl, refl, a)

complete_if-Went :
    (d : Assembly) (h : History) (o : Option (List Packet))
    → d.active ≡ true
    → AreFrames h
    → Went h (complete_if d h o)
complete_if-Went d h none e a = (refl, e)
complete_if-Went d h (some packets) e a =
    finish-Went d h (apply_chunks h packets) (apply_chunks-Holds h packets a)

continues-active : (a : Assembly) (tick : ℕ) → starts_new a tick ≡ false → a.active ≡ true
unfolding starts_new
continues-active a tick h = ground arith

-- A packet that is refused or not the last one leaves the history as it was, and a pending assembly
-- active. A frame is complete with at most as many players as there is room for and no id twice,
-- whatever the packets carry; the history is then what ShroomSnapshotHistoryStore makes of them under
-- its tick, which is unchanged for the tick 0, and the assembly is closed.
pub push-Went :
    (a : Assembly) (p : Packet) (packet_size : ℕ) (h : History)
    → AreFrames h
    → Went h (push a p packet_size h)
unfolding push
push-Went a p packet_size h f =
    elim (Bool-cases (is_malformed p packet_size || is_older a p.metadata.tick)) [
      | inl e ↦ rw e refl
      | inr e ↦ elim (Bool-cases (starts_new a p.metadata.tick)) [
        | inl new ↦ rw (e, new) (complete_if-Went _ h _ refl f)
        | inr old ↦ elim (Bool-cases (not (matches a p))) [
          | inl other ↦ rw (e, old, other) refl
          | inr same ↦
              rw (e, old, same) (complete_if-Went _ h _ (continues-active a p.metadata.tick old) f)
        ]
      ]
    ]

-- The history keeps frames that can serve as baselines, whatever packets come in.
pub push-AreFrames :
    (a : Assembly) (p : Packet) (packet_size : ℕ) (h : History)
    → AreFrames h
    → AreFrames (push a p packet_size h).2
push-AreFrames a p packet_size h f = kept (push a p packet_size h) (push-Went a p packet_size h f)
  where
    kept : (r : Result × Assembly × History) → Went h r → AreFrames r.2
    kept (rejected, b, h2) w = subst AreFrames (sym w) f
    kept (pending, b, h2) w = subst AreFrames (sym w.0) f
    kept (complete m players, b, h2) w =
        subst AreFrames (sym w.0) (store-AreFrames h m.tick players f w.2)
