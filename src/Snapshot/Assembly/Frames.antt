-- ===== src/Snapshot/Assembly/Frames.antt =====
-- The packets of one frame, and an assembly that collects them.
use shroomio.Base.{
  ℕ, ◌+◌, ◌<◌, ◌≤◌, ◌≡◌, ◌⊎◌, refl, sym, ap, subst, ◌∙◌, Bool, true, false, ◌||◌, not, Option, none,
  some, List, [], ◌∷◌, length, arith, ◌==◌, if◌then◌else◌, Bool-cases, inl, inr, get_elem?,
  length-replicate, equal_lists_refl,
}
use shroomio.Snapshot.{max_players, max_chunks, payload_capacity}
use shroomio.Snapshot.Frame.{Metadata, Packet, packet_header_size, packet_snapshot}
use shroomio.Snapshot.Frame.Encode.{Parameters}
use shroomio.Snapshot.Frame.Lookup.{==→eq, ==_false→ne}
use shroomio.Snapshot.Assembly.{Assembly, same_metadata, is_malformed, begin, matches, keep_chunk}
use shroomio.Snapshot.Assembly.Slots.{
  slot, slot-replicate, length-keep_chunk, slot-keep_chunk_ne, slot-keep_chunk_self, is_delivered,
}

-- The packet at an index of a frame.
pub record Chunk (c : Parameters) (n i : ℕ) (p : Packet) : Type 0 where
  pub metadata_eq : p.metadata ≡ c.metadata
  pub baseline_tick_eq : p.baseline_tick ≡ c.baseline_tick
  pub total_eq : p.total_player_count ≡ c.player_count
  pub flags_eq : p.flags ≡ (if c.keyframe then 1 else 0)
  pub payload_le : length p.payload ≤ payload_capacity
  pub index_eq : p.chunk_index ≡ i
  pub count_eq : p.chunk_count ≡ n
  pub type_eq : p.type ≡ packet_snapshot
  pub size_eq : p.size ≡ packet_header_size + length p.payload

-- A keyframe is based on no tick, and any other frame on one.
abbrev pub has_good_baseline : Parameters → Bool
has_good_baseline c = if c.keyframe then c.baseline_tick == 0 else not (c.baseline_tick == 0)

pub record IsFrame (c : Parameters) (fs : List Packet) : Type 0 where
  pub chunk : (i : ℕ) (p : Packet) → get_elem? fs i ≡ some p → Chunk c (length fs) i p
  pub some_chunks : 1 ≤ length fs
  pub chunks_le : length fs ≤ max_chunks
  pub players_le : c.player_count ≤ max_players
  pub baseline : has_good_baseline c ≡ true

-- The assembly has the packets of the frame that were delivered.
pub record Collecting (c : Parameters) (fs delivered : List Packet) (a : Assembly) : Type 0 where
  pub is_active : a.active ≡ true
  pub tick_eq : a.tick ≡ c.metadata.tick
  pub baseline_tick_eq : a.baseline_tick ≡ c.baseline_tick
  pub count_eq : a.chunk_count ≡ length fs
  pub total_eq : a.total_player_count ≡ c.player_count
  pub flags_eq : a.flags ≡ (if c.keyframe then 1 else 0)
  pub metadata_eq : a.metadata ≡ c.metadata
  pub places : length a.chunks ≡ max_chunks
  pub slots :
      (i : ℕ) → slot a.chunks i ≡ (if is_delivered delivered i then get_elem? fs i else none)

same_metadata_refl : (m : Metadata) → same_metadata m m ≡ true
unfolding same_metadata
same_metadata_refl m =
    ground (arith, equal_lists_refl m.podium_player_ids, equal_lists_refl m.podium_masses)

pub Chunk-well_formed :
    (c : Parameters) (n i : ℕ) (p : Packet)
    → Chunk c n i p
    → i < n
    → n ≤ max_chunks
    → c.player_count ≤ max_players
    → has_good_baseline c ≡ true
    → is_malformed p p.size ≡ false
unfolding is_malformed
Chunk-well_formed c n i p k hi hn hp hb = elim (Bool-cases c.keyframe) [
  | inl e ↦ ground (
    arith, e, hb, k.baseline_tick_eq, k.total_eq, k.flags_eq, k.payload_le, k.index_eq, k.count_eq,
    k.type_eq, k.size_eq,
  )
  | inr e ↦ ground (
    arith, e, hb, k.baseline_tick_eq, k.total_eq, k.flags_eq, k.payload_le, k.index_eq, k.count_eq,
    k.type_eq, k.size_eq,
  )
]

pub Collecting-matches :
    (c : Parameters) (fs delivered : List Packet) (a : Assembly) (i : ℕ) (p : Packet)
    → Collecting c fs delivered a
    → Chunk c (length fs) i p
    → matches a p ≡ true
unfolding matches
Collecting-matches c fs delivered a i p k f = ground (
  arith, same, k.count_eq, k.total_eq, k.baseline_tick_eq, k.flags_eq, f.count_eq, f.total_eq,
  f.baseline_tick_eq, f.flags_eq,
)
  where
    same : same_metadata a.metadata p.metadata ≡ true
    same =
        subst (λ m. same_metadata a.metadata m ≡ true) (k.metadata_eq ∙ sym f.metadata_eq)
          (same_metadata_refl a.metadata)

-- A frame that has just been begun has none of its packets.
pub begin-Collecting :
    (c : Parameters) (fs : List Packet) (i : ℕ) (p : Packet)
    → Chunk c (length fs) i p
    → Collecting c fs [] (begin p)
begin-Collecting c fs i p f = record {
  is_active = refl;
  tick_eq = ap (λ m. m.tick) f.metadata_eq;
  baseline_tick_eq = f.baseline_tick_eq;
  count_eq = f.count_eq;
  total_eq = f.total_eq;
  flags_eq = f.flags_eq;
  metadata_eq = f.metadata_eq;
  places = length-replicate {A = Option Packet} max_chunks none;
  slots = λ j. slot-replicate max_chunks j;
}

-- A packet that is kept is one more that was delivered.
pub Collecting-keep :
    (c : Parameters) (fs delivered : List Packet) (a : Assembly) (i : ℕ) (p : Packet)
    → Collecting c fs delivered a
    → Chunk c (length fs) i p
    → i < max_chunks
    → get_elem? fs i ≡ some p
    → Collecting c fs (p ∷ delivered) (record a { chunks = keep_chunk a.chunks p.chunk_index p })
Collecting-keep c fs delivered a i p k f hi at = record {
  is_active = k.is_active;
  tick_eq = k.tick_eq;
  baseline_tick_eq = k.baseline_tick_eq;
  count_eq = k.count_eq;
  total_eq = k.total_eq;
  flags_eq = k.flags_eq;
  metadata_eq = k.metadata_eq;
  places = length-keep_chunk a.chunks p.chunk_index p ∙ k.places;
  slots = λ j. kept j (Bool-cases (p.chunk_index == j));
}
  where
    before : slot a.chunks i ≡ (if is_delivered delivered i then get_elem? fs i else none)
    before = k.slots i

    free : (slot a.chunks i ≡ none) ⊎ (slot a.chunks i ≡ some p)
    free = elim (Bool-cases (is_delivered delivered i)) [
      | inl e ↦ inr (before ∙ ap (λ b. if b then get_elem? fs i else none) e ∙ at)
      | inr e ↦ inl (before ∙ ap (λ b. if b then get_elem? fs i else none) e)
    ]

    kept :
        (j : ℕ)
        → ((p.chunk_index == j) ≡ true) ⊎ ((p.chunk_index == j) ≡ false)
        → slot (keep_chunk a.chunks p.chunk_index p) j
          ≡ (if p.chunk_index == j || is_delivered delivered j then get_elem? fs j else none)
    kept j (inl e) = rw e (
        subst (λ n. slot (keep_chunk a.chunks n p) j ≡ get_elem? fs j) (sym f.index_eq)
          (subst (λ n. slot (keep_chunk a.chunks i p) n ≡ get_elem? fs n) (sym f.index_eq ∙ ==→eq e)
            (slot-keep_chunk_self a.chunks i p (rw k.places hi) free ∙ sym at)))
    kept j (inr e) =
        rw e (slot-keep_chunk_ne a.chunks p.chunk_index j p (==_false→ne e) ∙ k.slots j)
