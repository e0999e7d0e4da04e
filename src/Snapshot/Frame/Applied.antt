-- ===== src/Snapshot/Frame/Applied.antt =====
-- The packets that have been begun, and what applying them makes of the players of the baseline.
use shroomio.Base.{
  ℕ, suc, ◌+◌, ◌*◌, ◌-◌, ◌%◌, ◌<◌, ◌≤◌, ◌≡◌, refl, sym, ap, ◌∙◌, true, false, some, List, [], ◌∷◌,
  ◌++◌, length, arith, length-append, ltb, leb, ◌==◌, if◌then◌else◌, ◌||◌, Bool-cases, Option-cases,
  inl, inr, u16_mod, All, All-append,
}
use mathlib.Core.List.{append_assoc, append-nil}
use shroomio.Snapshot.{Player, payload_capacity, max_chunks}
use shroomio.Snapshot.Frame.{Packet}
use shroomio.Snapshot.Frame.Encode.{
  Encoded, Parameters, current, init_packet, add_to_packet, append_bytes, packets_of,
  finish_packets, empty_encoded,
}
use shroomio.Snapshot.Frame.Decode.{apply_payload, check_count, apply_packets}
use shroomio.Snapshot.Frame.Decoded.{Decodes}

-- Bytes that turn some players into others, and the number of their records.
abbrev pub Applies : List ℕ → List Player → List Player → ℕ → Type 0
Applies payload before now records =
    (rest : List ℕ) → apply_payload 0 (payload ++ rest) before 0 ≡ apply_payload 0 rest now records

-- A packet of a frame repeats what the frame is about, and is no longer than a packet can be.
pub record OfFrame (c : Parameters) (p : Packet) : Type 0 where
  pub metadata_eq : p.metadata ≡ c.metadata
  pub baseline_tick_eq : p.baseline_tick ≡ c.baseline_tick
  pub total_eq : p.total_player_count ≡ c.player_count
  pub flags_eq : p.flags ≡ (if c.keyframe then 1 else 0)
  pub payload_le : length p.payload ≤ payload_capacity

-- `bytes` is the number of those of all records so far.
pub record Applied (c : Parameters) (e : Encoded) (base now : List Player) (bytes : ℕ)
    : Type 0 where
  pub middle : List Player
  pub full : (ps : List Packet) → apply_packets (e.full ++ ps) base ≡ apply_packets ps middle
  pub last : Applies (current c e.last).payload middle now (current c e.last).record_count
  pub full_of : All (OfFrame c) e.full
  pub last_of : OfFrame c (current c e.last)
  pub size_le : 1027 * length e.full + length (current c e.last).payload ≤ bytes

apply_payload-skip :
    (xs rest : List ℕ) (players : List Player) (n : ℕ)
    → apply_payload (length xs) (xs ++ rest) players n ≡ apply_payload 0 rest players n
unfolding apply_payload
apply_payload-skip [] rest players n = refl
apply_payload-skip (x ∷ xs) rest players n = apply_payload-skip xs rest players n

-- A record at the front is passed over once it is applied.
apply_payload-record :
    (r rest : List ℕ) (now next : List Player) (n : ℕ)
    → 1 ≤ length r
    → Decodes r now next
    → apply_payload 0 (r ++ rest) now n ≡ apply_payload 0 rest next ((n + 1) % u16_mod)
unfolding apply_payload
apply_payload-record [] rest now next n h d = absurd (omega arith)
apply_payload-record (x ∷ r) rest now next n h d =
    rw (d rest, apply_payload, less) (apply_payload-skip r rest next _)
  where
    less : suc (length r) - 1 ≡ length r
    less = omega arith

Applies-append :
    (payload r : List ℕ) (before now next : List Player) (n : ℕ)
    → 1 ≤ length r
    → Decodes r now next
    → Applies payload before now n
    → Applies (payload ++ r) before next ((n + 1) % u16_mod)
Applies-append payload r before now next n h d a rest =
    rw (append_assoc payload r rest) (a (r ++ rest) ∙ apply_payload-record r rest now next n h d)

Applies-all :
    (payload : List ℕ) (before now : List Player) (n : ℕ)
    → Applies payload before now n
    → apply_payload 0 payload before 0 ≡ some (now, n)
unfolding apply_payload
Applies-all payload before now n a =
    ap (λ t. apply_payload 0 t before 0) (sym (append-nil payload)) ∙ a []

-- A packet whose records are applied leaves the players that they leave.
apply_packets-last :
    (p : Packet) (ps : List Packet) (before now : List Player)
    → Applies p.payload before now p.record_count
    → apply_packets (p ∷ ps) before ≡ apply_packets ps now
unfolding apply_packets
apply_packets-last p ps before now a =
    rw (Applies-all p.payload before now p.record_count a, apply_packets, same) refl
  where
    same : (p.record_count == p.record_count) ≡ true
    same = ground arith

finish_packets-apply :
    (i n : ℕ) (ps : List Packet) (players : List Player)
    → apply_packets (finish_packets i n ps) players ≡ apply_packets ps players
unfolding apply_packets finish_packets
finish_packets-apply i n [] players = refl
finish_packets-apply i n (p ∷ ps) players =
    elim (Option-cases (check_count p.record_count (apply_payload 0 p.payload players 0))) [
      | inl e ↦ rw (e, apply_packets) refl
      | inr (next, e) ↦ rw (e, apply_packets) (finish_packets-apply (suc i) n ps next)
    ]

pub Applied-packets :
    (c : Parameters) (e : Encoded) (base now : List Player) (bytes i n : ℕ)
    → Applied c e base now bytes
    → apply_packets (finish_packets i n (packets_of c e)) base ≡ some now
unfolding apply_packets
Applied-packets c e base now bytes i n a =
    finish_packets-apply i n (packets_of c e) base
    ∙ a.full (current c e.last ∷ [])
    ∙ apply_packets-last (current c e.last) [] a.middle now a.last

init_packet-OfFrame : (c : Parameters) → OfFrame c (init_packet c)
init_packet-OfFrame c = record {
  metadata_eq = refl;
  baseline_tick_eq = refl;
  total_eq = refl;
  flags_eq = refl;
  payload_le = omega arith;
}

add_to_packet-OfFrame :
    (c : Parameters) (p : Packet) (r : List ℕ)
    → length p.payload + length r ≤ payload_capacity
    → OfFrame c p
    → OfFrame c (add_to_packet p r)
add_to_packet-OfFrame c p r h o = record {
  metadata_eq = o.metadata_eq;
  baseline_tick_eq = o.baseline_tick_eq;
  total_eq = o.total_eq;
  flags_eq = o.flags_eq;
  payload_le = omega (arith, length-append p.payload r);
}

pub Applied-empty : (c : Parameters) (base : List Player) → Applied c empty_encoded base base 0
Applied-empty c base = record {
  middle = base;
  full = λ ps. refl;
  last = λ rest. refl;
  full_of = tt;
  last_of = init_packet-OfFrame c;
  size_le = omega arith;
}

-- A record that has room in the last packet, and one that begins the next.
append-here :
    (c : Parameters) (e : Encoded) (base now next : List Player) (bytes : ℕ) (r : List ℕ)
    → 1 ≤ length r
    → length (current c e.last).payload + length r ≤ payload_capacity
    → Decodes r now next
    → Applied c e base now bytes
    → Applied c
        (record e { last = some (add_to_packet (current c e.last) r) })
        base
        next
        (bytes + length r)
append-here c e base now next bytes r h fits d a = record {
  full_of = a.full_of;
  last_of = add_to_packet-OfFrame c (current c e.last) r fits a.last_of;
  middle = a.middle;
  full = a.full;
  last = Applies-append (current c e.last).payload r a.middle now next _ h d a.last;
  size_le = omega (arith, length-append (current c e.last).payload r, a.size_le);
}

append-next :
    (c : Parameters) (e : Encoded) (base now next : List Player) (bytes : ℕ) (r : List ℕ)
    → 1 ≤ length r
    → length r ≤ 74
    → 1027 ≤ length (current c e.last).payload
    → Decodes r now next
    → Applied c e base now bytes
    → Applied c
        (record {
          full = e.full ++ current c e.last ∷ [];
          last = some (add_to_packet (init_packet c) r);
        })
        base
        next
        (bytes + length r)
append-next c e base now next bytes r h small size d a = record {
  full_of = All-append (OfFrame c) e.full (current c e.last ∷ []) a.full_of (a.last_of, tt);
  last_of = add_to_packet-OfFrame c (init_packet c) r (omega arith) (init_packet-OfFrame c);
  middle = now;
  full = λ ps.
      ap (λ t. apply_packets t base) (append_assoc e.full (current c e.last ∷ []) ps)
      ∙ a.full (current c e.last ∷ ps)
      ∙ apply_packets-last (current c e.last) ps a.middle now a.last;
  last = Applies-append [] r now now next 0 h d (λ rest. refl);
  size_le = omega (arith, length-append e.full (current c e.last ∷ []), a.size_le);
}

-- A record finds its place as long as there is room for as many bytes in the packets.
pub append_bytes-Applied :
    (c : Parameters) (e : Encoded) (base now next : List Player) (bytes : ℕ) (r : List ℕ)
    → 1 ≤ length r
    → length r ≤ 74
    → bytes < 1027 * 127
    → Decodes r now next
    → Applied c e base now bytes
    → (e2 : Encoded) × (append_bytes c e r ≡ some e2) × Applied c e2 base next (bytes + length r)
unfolding append_bytes
append_bytes-Applied c e base now next bytes r h small room d a =
    elim (Bool-cases (ltb payload_capacity (length (current c e.last).payload + length r))) [
      | inl over ↦ (
        _,
        rw (sized, over, fewer) refl,
        append-next c e base now next bytes r h small (ground arith) d a,
      )
      | inr fits ↦
          (_, rw (sized, fits) refl, append-here c e base now next bytes r h (ground arith) d a)
    ]
  where
    sized : (length r == 0 || ltb payload_capacity (length r)) ≡ false
    sized = ground arith

    fewer : leb max_chunks (length e.full + 1) ≡ false
    fewer = ground (arith, a.size_le)
