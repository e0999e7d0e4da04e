-- ===== src/Snapshot/Frame/Despawns.antt =====
-- The second loop of `ShroomSnapshotEncodeFrame`: the players that have left.
use shroomio.Base.{
  ℕ, ◌+◌, ◌*◌, ◌<◌, ◌≤◌, ◌≡◌, ◌≢◌, refl, sym, subst, ◌∙◌, Option, none, some, List, [], ◌∷◌, length,
  arith, ◌==◌, Bool-cases, Option-cases, inl, inr, All,
}
use shroomio.Snapshot.{Player, max_players, record_despawn}
use shroomio.Snapshot.Record.{encode_record}
use shroomio.Snapshot.Record.Codec.{IsValid}
use shroomio.Snapshot.Frame.{find_player}
use shroomio.Snapshot.Frame.Encode.{Encoded, Parameters, append_if, despawn_record, encode_despawns}
use shroomio.Snapshot.Frame.Decode.{remove_player}
use shroomio.Snapshot.Frame.Lookup.{
  Distinct, find_player-none, find_player-head, ==→eq, ==_false→ne,
}
use shroomio.Snapshot.Frame.Applied.{Applied}
use shroomio.Snapshot.Frame.Step.{Stepped, despawn-step}
use shroomio.Snapshot.Frame.Loops.{find_player-tail, find_player-first}

-- What becomes of an id of the baseline, by whether the new frame has it.
abbrev pub Ended : Option Player → Option Player → Option Player → Option Player → Type 0
Ended none current before after = after ≡ before
Ended (some b) (some p) before after = after ≡ before
Ended (some b) none before after = after ≡ none

pub record Despawns (c : Parameters) (base players now bs : List Player) (o : Option Encoded)
    (most : ℕ) : Type 0 where
  pub next : List Player
  pub sent : Stepped c base o next most
  pub outcome :
      (i : ℕ)
      → Ended (find_player bs i) (find_player players i) (find_player now i) (find_player next i)
  pub distinct : Distinct next

record OneDespawn (c : Parameters) (base now : List Player) (b : Player) (o : Option Player)
    (e : Option Encoded) (most : ℕ) : Type 0 where
  next : List Player
  sent : Stepped c base e next most
  keeps : (i : ℕ) → b.entity_id ≢ i → find_player next i ≡ find_player now i
  at : Ended (some b) o (find_player now b.entity_id) (find_player next b.entity_id)
  distinct : Distinct next

despawn_record-kept :
    (players : List Player) (b p : Player)
    → find_player players b.entity_id ≡ some p
    → despawn_record players b ≡ none
unfolding despawn_record
despawn_record-kept players b p h = rw (h, despawn_record) refl

despawn_record-gone :
    (players : List Player) (b : Player)
    → find_player players b.entity_id ≡ none
    → despawn_record players b ≡ some (encode_record 128 record_despawn 0 b.entity_id b)
unfolding despawn_record
despawn_record-gone players b h = rw (h, despawn_record) refl

one_despawn :
    (c : Parameters) (e : Encoded) (base players now : List Player) (bytes : ℕ) (b q : Player)
    → IsValid b
    → bytes < 1027 * 127
    → Distinct now
    → find_player now b.entity_id ≡ some q
    → Applied c e base now bytes
    → OneDespawn c base now b
        (find_player players b.entity_id)
        (append_if c e (despawn_record players b))
        (bytes + 8)
one_despawn c e base players now bytes b q v room d there a =
    elim (Option-cases (find_player players b.entity_id)) [
      | inl gone ↦
          let (sent, removed) = despawn-step c e base now bytes b q v room d there a in
          rw (gone, despawn_record-gone players b gone)
            (record {
              next = remove_player now b.entity_id;
              sent = sent;
              keeps = removed.keeps;
              at = removed.gone;
              distinct = removed.distinct;
            })
      | inr (p, kept) ↦
          rw (kept, despawn_record-kept players b p kept)
            (record {
              next = now;
              sent = record {
                encoded = e;
                bytes = bytes;
                runs = refl;
                applied = a;
                bytes_le = omega arith;
              };
              keeps = λ i ne. refl;
              at = refl;
              distinct = d;
            })
    ]

Ended-step :
    (b : Player) (bs players now now1 next : List Player) (i : ℕ)
    → Distinct (b ∷ bs)
    → ((j : ℕ) → b.entity_id ≢ j → find_player now1 j ≡ find_player now j)
    → Ended
        (some b)
        (find_player players b.entity_id)
        (find_player now b.entity_id)
        (find_player now1 b.entity_id)
    → Ended (find_player bs i) (find_player players i) (find_player now1 i) (find_player next i)
    → Ended
        (find_player (b ∷ bs) i)
        (find_player players i)
        (find_player now i)
        (find_player next i)
Ended-step b bs players now now1 next i d keeps at s = elim (Bool-cases (b.entity_id == i)) [
  | inl e ↦
      subst
        (λ k.
          Ended (find_player (b ∷ bs) k) (find_player players k) (find_player now k)
            (find_player next k))
        (==→eq e)
        (head (
          subst
            (λ k.
              Ended (find_player bs k) (find_player players k) (find_player now1 k)
                (find_player next k))
            (sym (==→eq e)) s))
  | inr e ↦
      subst (λ o. Ended o (find_player players i) (find_player now i) (find_player next i))
        (sym (find_player-tail b bs i (==_false→ne e)))
        (subst (λ o. Ended (find_player bs i) (find_player players i) o (find_player next i))
          (keeps i (==_false→ne e)) s)
]
  where
    head :
        Ended
          (find_player bs b.entity_id)
          (find_player players b.entity_id)
          (find_player now1 b.entity_id)
          (find_player next b.entity_id)
        → Ended
            (find_player (b ∷ bs) b.entity_id)
            (find_player players b.entity_id)
            (find_player now b.entity_id)
            (find_player next b.entity_id)
    head t =
        let same =
          subst
            (λ o.
              Ended o (find_player players b.entity_id) (find_player now1 b.entity_id)
                (find_player next b.entity_id))
            d.0 t in
        subst
          (λ o.
            Ended o (find_player players b.entity_id) (find_player now b.entity_id)
              (find_player next b.entity_id))
          (sym (find_player-first b bs))
          (subst
            (λ o. Ended (some b) (find_player players b.entity_id) (find_player now b.entity_id) o)
            (sym same) at)

Ended_none : (i : ℕ) (p o : Option Player) → Ended (find_player [] i) p o o
unfolding find_player
Ended_none i p o = refl

some_of_ne : (o : Option Player) → o ≢ none → (q : Player) × (o ≡ some q)
some_of_ne none h = absurd (h refl)
some_of_ne (some q) h = (q, refl)

still_there :
    (now next bs : List Player) (b : Player)
    → Distinct (b ∷ bs)
    → ((j : ℕ) → b.entity_id ≢ j → find_player next j ≡ find_player now j)
    → ((i : ℕ) → find_player (b ∷ bs) i ≢ none → find_player now i ≢ none)
    → (i : ℕ) → find_player bs i ≢ none
    → find_player next i ≢ none
still_there now next bs b d keeps known i there e =
    known i (λ absent. there (find_player-none b bs i absent).1) (sym (keeps i other) ∙ e)
  where
    other : b.entity_id ≢ i
    other is = there (subst (λ k. find_player bs k ≡ none) is d.0)

pub encode_despawns-sends :
    (c : Parameters) (base players bs now : List Player) (e : Encoded) (bytes : ℕ)
    → Distinct bs
    → All IsValid bs
    → Distinct now
    → bytes + 8 * length bs ≤ 82 * max_players
    → ((i : ℕ) → find_player bs i ≢ none → find_player now i ≢ none)
    → Applied c e base now bytes
    → Despawns c base players now bs (encode_despawns c players bs e) (bytes + 8 * length bs)
unfolding encode_despawns
encode_despawns-sends c base players [] now e bytes dbs v d room known a = record {
  next = now;
  sent = record { encoded = e; bytes = bytes; runs = refl; applied = a; bytes_le = omega arith };
  outcome = λ i. Ended_none i (find_player players i) (find_player now i);
  distinct = d;
}
encode_despawns-sends c base players (b ∷ bs) now e bytes dbs v d room known a =
    let (q, there) =
      some_of_ne (find_player now b.entity_id) (known b.entity_id (find_player-head b bs)) in
    let one = one_despawn c e base players now bytes b q v.0 (omega arith) d there a in
    let step = one.sent in
    let rest =
      encode_despawns-sends c base players bs one.next step.encoded step.bytes dbs.1 v.1
        one.distinct (omega (arith, step.bytes_le))
        (still_there now one.next bs b dbs one.keeps known) step.applied in
    record {
      next = rest.next;
      sent = record {
        encoded = rest.sent.encoded;
        bytes = rest.sent.bytes;
        runs = rw (step.runs, encode_despawns) rest.sent.runs;
        applied = rest.sent.applied;
        bytes_le = omega (arith, rest.sent.bytes_le, step.bytes_le);
      };
      outcome = λ i.
          Ended-step b bs players now one.next rest.next i dbs one.keeps one.at (rest.outcome i);
      distinct = rest.distinct;
    }
