-- ===== src/Snapshot/Transfer.antt =====
-- From `ShroomSnapshotEncodeFrame` to `ShroomSnapshotAssemblyPush`: the server's players reach the
-- client.
use shroomio.Base.{
  ℕ, zero, suc, ◌+◌, ◌≤◌, ◌≡◌, ◌⊎◌, refl, sym, ap, subst, ◌∙◌, Bool, true, false, not, Option, none,
  some, List, [], ◌∷◌, length, arith, ◌==◌, if◌then◌else◌, Bool-cases, inl, inr, get_elem?, All,
  All-append, length-append,
}
use mathlib.Core.Option.{some-injective, none-ne-some}
use shroomio.Snapshot.{Player, max_players}
use shroomio.Snapshot.Record.Codec.{IsValid}
use shroomio.Snapshot.Frame.{Metadata, Packet, Frame, History, find_player}
use shroomio.Snapshot.Frame.Encode.{
  Encoded, Parameters, current, packets_of, finish_packets, finish_packet, finish_frame,
  then_despawns, empty_encoded, encode_players, base_of, has_base, parameters, encode_frame,
}
use shroomio.Snapshot.Frame.Decode.{apply_packets}
use shroomio.Snapshot.Frame.Lookup.{Distinct}
use shroomio.Snapshot.Frame.Applied.{OfFrame, Applied-packets}
use shroomio.Snapshot.Frame.Loops.{new_count}
use shroomio.Snapshot.Frame.Finish.{length-finish_packets, encode_frame-finish}
use shroomio.Snapshot.Frame.RoundTrip.{Received, loops-Transfer, length-Received}
use shroomio.Snapshot.History.{find, find_frame, store}
use shroomio.Snapshot.Assembly.{
  Assembly, complete, starts_new, push, deactivate, finish, start_players, baseline_players,
  apply_chunks,
}
use shroomio.Snapshot.Assembly.Slots.{covers}
use shroomio.Snapshot.Assembly.Frames.{Chunk, IsFrame, has_good_baseline}
use shroomio.Snapshot.Assembly.Order.{Collects, IsOf, push-last}

finish_packets-Chunk :
    (c : Parameters) (k n : ℕ) (ps : List Packet) (i : ℕ) (q : Packet)
    → All (OfFrame c) ps
    → get_elem? (finish_packets k n ps) i ≡ some q
    → Chunk c n (k + i) q
unfolding finish_packets
finish_packets-Chunk c k n [] i q o at = cc
finish_packets-Chunk c k n (p ∷ ps) zero q o at =
    subst (Chunk c n (k + 0)) (some-injective (finish_packet k n p) q at) (record {
      metadata_eq = o.0.metadata_eq;
      baseline_tick_eq = o.0.baseline_tick_eq;
      total_eq = o.0.total_eq;
      flags_eq = o.0.flags_eq;
      payload_le = o.0.payload_le;
      index_eq = omega arith;
      count_eq = refl;
      type_eq = refl;
      size_eq = omega (arith, o.0.payload_le);
    })
finish_packets-Chunk c k n (p ∷ ps) (suc i) q o at =
    subst (λ j. Chunk c n j q) (omega arith) (finish_packets-Chunk c (suc k) n ps i q o.1 at)

-- What the server may send: players of its world, to a client that has the baseline.
pub record IsSendable (players : List Player) (base : Frame) : Type 0 where
  pub players_valid : All IsValid players
  pub base_valid : All IsValid base.players
  pub players_distinct : Distinct players
  pub base_distinct : Distinct base.players
  pub players_le : length players ≤ max_players
  pub both_le : length base.players + new_count base.players players ≤ max_players

-- The client knows what the frame is based on.
abbrev pub HasBaseline : History → Frame → Bool → Type 0
HasBaseline h base keyframe = (keyframe ≡ true) ⊎ (find h base.tick ≡ some base)

HasBaseline→has_base :
    (h : History) (baseline : Option Frame) (keyframe : Bool)
    → HasBaseline h (base_of baseline keyframe) keyframe
    → has_base baseline keyframe ≡ true
HasBaseline→has_base h baseline true k = refl
HasBaseline→has_base h (some f) false k = refl
HasBaseline→has_base h none false (inl e) = cc
HasBaseline→has_base h none false (inr e) = cc

HasBaseline→good :
    (h : History) (m : Metadata) (players : List Player) (baseline : Option Frame) (keyframe : Bool)
    → HasBaseline h (base_of baseline keyframe) keyframe
    → has_good_baseline (parameters m players (base_of baseline keyframe) keyframe) ≡ true
HasBaseline→good h m players baseline true k = refl
HasBaseline→good h m players (some f) false (inl e) = cc
HasBaseline→good h m players (some f) false (inr e) = elim (Bool-cases (f.tick == 0)) [
  | inl z ↦
      absurd (none-ne-some f (ap (λ b. if b then none else find_frame h.frames f.tick) (sym z) ∙ e))
  | inr z ↦ ap not z
]
HasBaseline→good h m players none false (inl e) = cc
HasBaseline→good h m players none false (inr e) = cc

HasBaseline→start :
    (h : History) (baseline : Option Frame) (keyframe : Bool)
    → HasBaseline h (base_of baseline keyframe) keyframe
    → start_players h (if keyframe then 1 else 0) (base_of baseline keyframe).tick
      ≡ some (base_of baseline keyframe).players
HasBaseline→start h baseline true k = refl
HasBaseline→start h (some f) false (inl e) = cc
HasBaseline→start h (some f) false (inr e) = ap baseline_players e
HasBaseline→start h none false (inl e) = cc
HasBaseline→start h none false (inr e) = cc

apply_chunks-some :
    (h : History) (c : Parameters) (fs : List Packet) (base received : List Player)
    → IsFrame c fs
    → start_players h (if c.keyframe then 1 else 0) c.baseline_tick ≡ some base
    → apply_packets fs base ≡ some received
    → length received ≡ c.player_count
    → apply_chunks h fs ≡ some received
unfolding apply_chunks
apply_chunks-some h c [] base received f start applied total = absurd (omega (arith, f.some_chunks))
apply_chunks-some h c (p ∷ ps) base received f start applied total =
    rw (k.flags_eq, k.baseline_tick_eq, start, apply_chunks, applied, k.total_eq, counted) refl
  where
    k : Chunk c (length (p ∷ ps)) 0 p
    k = f.chunk 0 p refl

    counted : (length received == c.player_count) ≡ true
    counted = ground arith

-- The packets of a frame, and what becomes of them.
record Sending (m : Metadata) (players : List Player) (base : Frame) (keyframe : Bool)
    (o : Option Encoded) : Type 0 where
  packets : List Packet
  runs : finish_frame (parameters m players base keyframe) o ≡ some packets
  is_frame :
      has_good_baseline (parameters m players base keyframe) ≡ true
      → IsFrame (parameters m players base keyframe) packets
  received : List Player
  applied : apply_packets packets base.players ≡ some received
  outcome : (i : ℕ) → Received (find_player players i) (find_player received i)
  as_many : length received ≡ length players

sending :
    (m : Metadata) (players : List Player) (base : Frame) (keyframe : Bool)
    → IsSendable players base
    → let c = parameters m players base keyframe in
      Sending m players base keyframe
        (then_despawns c players base.players (encode_players c base.players players empty_encoded))
sending m players base keyframe v =
    let c = parameters m players base keyframe in
    let t =
      loops-Transfer c base.players players v.players_valid v.base_valid v.players_distinct
        v.base_distinct v.players_le v.both_le in
    let ps = packets_of c t.encoded in
    let fs = finish_packets 0 (length ps) ps in
    let long = length-finish_packets 0 (length ps) ps in
    let of =
      All-append (OfFrame c) t.encoded.full (current c t.encoded.last ∷ []) t.applied.full_of
        (t.applied.last_of, tt) in
    let size = length-append t.encoded.full (current c t.encoded.last ∷ []) in
    record {
      packets = fs;
      runs = rw t.runs refl;
      is_frame = λ good. record {
        chunk = λ i p at.
            subst (λ n. Chunk c n i p) (sym long)
              (subst (λ j. Chunk c (length ps) j p) (omega arith)
                (finish_packets-Chunk c 0 (length ps) ps i p of at));
        some_chunks = omega (arith, long, size);
        chunks_le = omega (arith, long, size, t.applied.size_le, t.bytes_le);
        players_le = v.players_le;
        baseline = good;
      };
      received = t.received;
      applied = Applied-packets c t.encoded base.players t.received t.bytes 0 (length ps) t.applied;
      outcome = t.outcome;
      as_many = length-Received players t.received v.players_distinct t.distinct t.outcome;
    }

-- A frame of players that may be sent is always encoded, and a client that has its baseline gets
-- from the packets as many players as there are, each id's as it was sent, but that a float may be
-- one that compares equal; an id that is not sent is not there.
pub apply_chunks-encode_frame :
    (m : Metadata) (players : List Player) (baseline : Option Frame) (keyframe : Bool) (h : History)
    → IsSendable players (base_of baseline keyframe)
    → HasBaseline h (base_of baseline keyframe) keyframe
    → (packets : List Packet) × (received : List Player) × (encode_frame m players baseline keyframe
        ≡ some packets)
      × (apply_chunks h packets ≡ some received)
      × (length received ≡ length players)
      × ((i : ℕ) → Received (find_player players i) (find_player received i))
apply_chunks-encode_frame m players baseline keyframe h v k =
    let s = sending m players (base_of baseline keyframe) keyframe v in
    let c = parameters m players (base_of baseline keyframe) keyframe in
    (
      s.packets,
      s.received,
      encode_frame-finish m players baseline keyframe (HasBaseline→has_base h baseline keyframe k)
            v.players_le
          ∙ s.runs,
      apply_chunks-some h c s.packets (base_of baseline keyframe).players s.received
          (s.is_frame (HasBaseline→good h m players baseline keyframe k))
          (HasBaseline→start h baseline keyframe k) s.applied s.as_many,
      s.as_many,
      s.outcome,
    )

-- However the packets of a frame arrive, in any order and some of them more than once, at a client
-- that has the baseline and no newer frame: every packet before the last one that was missing leaves
-- the frame pending, and that one completes it. The client has the players of the frame, and its
-- history is what ShroomSnapshotHistoryStore makes of them under the tick of the frame: unchanged for
-- the tick 0, which is never a baseline.
pub push-encode_frame :
    (m : Metadata) (players : List Player) (baseline : Option Frame) (keyframe : Bool) (h : History)
    (packets delivered : List Packet) (last : Packet) (a : Assembly)
    → IsSendable players (base_of baseline keyframe)
    → HasBaseline h (base_of baseline keyframe) keyframe
    → encode_frame m players baseline keyframe ≡ some packets
    → starts_new a m.tick ≡ true
    → All (IsOf packets) (last ∷ delivered)
    → covers (length packets) delivered ≡ false
    → covers (length packets) (last ∷ delivered) ≡ true
    → (b d : Assembly) × (received : List Player) × Collects h a delivered b
      × (push b last last.size h ≡ (complete m received, deactivate d, store h m.tick received))
      × ((i : ℕ) → Received (find_player players i) (find_player received i))
push-encode_frame m players baseline keyframe h packets delivered last a v k e new of missing all =
    let s = sending m players (base_of baseline keyframe) keyframe v in
    let c = parameters m players (base_of baseline keyframe) keyframe in
    let f = s.is_frame (HasBaseline→good h m players baseline keyframe k) in
    let same = some-injective s.packets packets (
      sym (
        encode_frame-finish m players baseline keyframe (HasBaseline→has_base h baseline keyframe k)
          v.players_le
        ∙ s.runs)
      ∙ e) in
    let applied =
      apply_chunks-some h c s.packets (base_of baseline keyframe).players s.received f
        (HasBaseline→start h baseline keyframe k) s.applied s.as_many in
    let (b, d, before, pushed, about) =
      push-last c packets delivered last a h (subst (IsFrame c) same f) new of missing all in
    (
      b,
      d,
      s.received,
      before,
      pushed
          ∙ ap (finish d h) (subst (λ fs. apply_chunks h fs ≡ some s.received) same applied)
          ∙ ap (λ n. (complete n s.received, deactivate d, store h n.tick s.received)) about,
      s.outcome,
    )
