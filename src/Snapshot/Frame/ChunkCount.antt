-- ===== src/Snapshot/Frame/ChunkCount.antt =====
-- `ShroomSnapshotChunkCount`, the number of packets of a keyframe.
use shroomio.Base.{
  ℕ, ◌+◌, ◌-◌, ◌*◌, ◌/◌, ◌≤◌, ◌≡◌, refl, sym, ap, subst, ◌∙◌, Bool, true, false, ◌||◌, Option, none,
  some, List, [], ◌∷◌, ◌++◌, length, arith, ◌==◌, ltb, leb, if◌then◌else◌, Bool-cases, Option-cases,
  inl, inr, All, length-append,
}
use mathlib.Core.Option.{some-injective, none-ne-some}
use shroomio.Snapshot.{
  Player, max_players, payload_capacity, max_chunks, record_spawn, component_all, name_length,
}
use shroomio.Snapshot.Record.{header_size, fields_of}
use shroomio.Snapshot.Record.Codec.{IsValid}
use shroomio.Snapshot.Record.Written.{encode_record-some, length-spawn}
use shroomio.Snapshot.Frame.{Metadata, Packet, Frame, find_player}
use shroomio.Snapshot.Frame.Encode.{
  Encoded, Parameters, current, init_packet, empty_encoded, add_to_packet, append_bytes,
  append_record, append_if, player_record, encode_players, encode_despawns, packets_of,
  finish_frame, then_despawns, parameters, encode_frame,
}
use shroomio.Snapshot.Frame.Decoded.{record_bytes}
use shroomio.Snapshot.Frame.Finish.{length-finish_packets, encode_frame-finish}

-- The size of a record with all components, from the types of the fields, and how many of them a
-- packet holds.
abbrev pub full_record_size : ℕ
full_record_size = header_size + 4 + name_length + 5 + 4 * 4 + 2 + 2 + 1 + 4

abbrev pub records_per_chunk : ℕ
records_per_chunk = payload_capacity / full_record_size

unfoldable pub chunk_count : ℕ → ℕ
chunk_count player_count =
    if player_count == 0 then 1 else (player_count + records_per_chunk - 1) / records_per_chunk

-- The packets hold so many full records: all but the last are full.
record Filled (c : Parameters) (e : Encoded) (k : ℕ) : Type 0 where
  in_last : ℕ
  payload_eq : length (current c e.last).payload ≡ 74 * in_last
  total_eq : 14 * length e.full + in_last ≡ k
  in_last_le : in_last ≤ 14
  none_eq : in_last ≡ 0 → k ≡ 0

sized : (r : List ℕ) → length r ≡ 74 → (length r == 0 || ltb payload_capacity (length r)) ≡ false
sized r h = ground arith

append-fits :
    (c : Parameters) (e : Encoded) (r : List ℕ)
    → length r ≡ 74
    → ltb payload_capacity (length (current c e.last).payload + length r) ≡ false
    → append_bytes c e r ≡ some (record e { last = some (add_to_packet (current c e.last) r) })
unfolding append_bytes
append-fits c e r h fits = rw (sized r h, fits) refl

append-over :
    (c : Parameters) (e : Encoded) (r : List ℕ)
    → length r ≡ 74
    → ltb payload_capacity (length (current c e.last).payload + length r) ≡ true
    → append_bytes c e r ≡ (
        if leb max_chunks (length e.full + 1)
        then none
        else some (record {
          full = e.full ++ current c e.last ∷ [];
          last = some (add_to_packet (init_packet c) r);
        }))
unfolding append_bytes
append-over c e r h over = rw (sized r h, over) refl

if-some : (b : Bool) (x e2 : Encoded) → (if b then none else some x) ≡ some e2 → x ≡ e2
if-some true x e2 h = cc
if-some false x e2 h = some-injective x e2 h

append_bytes-Filled :
    (c : Parameters) (e e2 : Encoded) (k : ℕ) (r : List ℕ)
    → length r ≡ 74
    → append_bytes c e r ≡ some e2
    → Filled c e k
    → Filled c e2 (k + 1)
append_bytes-Filled c e e2 k r h s f =
    elim (Bool-cases (ltb payload_capacity (length (current c e.last).payload + length r))) [
      | inr fits ↦
          subst (λ d. Filled c d (k + 1)) (some-injective _ e2 (sym (append-fits c e r h fits) ∙ s))
            (record {
              in_last = f.in_last + 1;
              payload_eq = omega (arith, length-append (current c e.last).payload r, f.payload_eq);
              total_eq = omega (arith, f.total_eq);
              in_last_le = ground (arith, f.payload_eq, f.in_last_le);
              none_eq = λ z. absurd (omega arith);
            })
      | inl over ↦
          subst (λ d. Filled c d (k + 1)) (if-some _ _ e2 (sym (append-over c e r h over) ∙ s))
            (record {
              in_last = 1;
              payload_eq = omega arith;
              total_eq = ground (
                arith,
                length-append e.full (current c e.last ∷ []),
                f.payload_eq,
                f.total_eq,
                f.in_last_le,
              );
              in_last_le = omega arith;
              none_eq = λ z. absurd (omega arith);
            })
    ]

spawn-Filled :
    (c : Parameters) (e e2 : Encoded) (k : ℕ) (p : Player)
    → IsValid p
    → append_if c e (player_record none p) ≡ some e2
    → Filled c e k
    → Filled c e2 (k + 1)
unfolding player_record
spawn-Filled c e e2 k p v s f =
    append_bytes-Filled c e e2 k
      (record_bytes p.entity_id component_all record_spawn (fields_of component_all p))
      (omega (arith, length-spawn p v.name_length_eq))
      (sym (
          ap (append_record c e)
            (encode_record-some record_spawn component_all p.entity_id p v.name_length_eq))
        ∙ s)
      f

find_player-nil : (i : ℕ) → find_player [] i ≡ none
unfolding find_player
find_player-nil i = refl

encode_players-Filled :
    (c : Parameters) (ps : List Player) (e e2 : Encoded) (k : ℕ)
    → All IsValid ps
    → encode_players c [] ps e ≡ some e2
    → Filled c e k
    → Filled c e2 (k + length ps)
unfolding encode_players
encode_players-Filled c [] e e2 k v s f =
    subst (λ d. Filled c d (k + 0)) (some-injective e e2 s) (subst (Filled c e) (omega arith) f)
encode_players-Filled c (p ∷ ps) e e2 k v s f =
    elim (Option-cases (append_if c e (player_record (find_player [] p.entity_id) p))) [
      | inl failed ↦ absurd (none-ne-some e2 (sym (rw (failed, encode_players) refl) ∙ s))
      | inr (next, went) ↦
          let spawned =
            subst (λ o. append_if c e (player_record o p) ≡ some next) (find_player-nil p.entity_id)
              went in
          let rest =
            encode_players-Filled c ps next e2 (k + 1) v.1
              (sym (rw (went, encode_players) refl) ∙ s)
              (spawn-Filled c e next k p v.0 spawned f) in
          subst (Filled c e2) (omega arith) rest
    ]

-- The packets of a frame that only spawns.
Filled-count :
    (c : Parameters) (e : Encoded) (k : ℕ) → Filled c e k → length (packets_of c e) ≡ chunk_count k
unfolding chunk_count
Filled-count c e k f =
    ground
      (arith, length-append e.full (current c e.last ∷ []), f.total_eq, f.in_last_le, f.none_eq)

finish_frame-length :
    (c : Parameters) (o : Option Encoded) (packets : List Packet)
    → finish_frame c o ≡ some packets
    → (e : Encoded) × (o ≡ some e) × (length packets ≡ length (packets_of c e))
finish_frame-length c none packets s = cc
finish_frame-length c (some e) packets s = (
  e,
  refl,
  sym (ap length (some-injective _ packets s)) ∙ length-finish_packets 0 _ (packets_of c e),
)

then_despawns-none :
    (c : Parameters) (players : List Player) (o : Option Encoded) → then_despawns c players [] o ≡ o
unfolding encode_despawns
then_despawns-none c players none = refl
then_despawns-none c players (some e) = refl

empty-Filled : (c : Parameters) → Filled c empty_encoded 0
empty-Filled c = record {
  in_last = 0;
  payload_eq = omega arith;
  total_eq = omega arith;
  in_last_le = omega arith;
  none_eq = λ z. refl;
}

-- A keyframe takes as many packets as the count says, that is computed from the sizes of the fields.
pub length-encode_frame :
    (m : Metadata) (players : List Player) (baseline : Option Frame) (packets : List Packet)
    → All IsValid players
    → length players ≤ max_players
    → encode_frame m players baseline true ≡ some packets
    → length packets ≡ chunk_count (length players)
length-encode_frame m players baseline packets v small s =
    let c = parameters m players (record { tick = 0; players = [] }) true in
    let (e, runs, long) =
      finish_frame-length c _ packets
        (sym (encode_frame-finish m players baseline true refl small) ∙ s) in
    let filled =
      encode_players-Filled c players empty_encoded e 0 v
        (sym (then_despawns-none c players _) ∙ runs) (empty-Filled c) in
    long ∙ Filled-count c e (length players) (subst (Filled c e) (omega arith) filled)
