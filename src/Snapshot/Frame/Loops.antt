-- ===== src/Snapshot/Frame/Loops.antt =====
-- The two loops of `ShroomSnapshotEncodeFrame`, and what the client has after their records.
use shroomio.Base.{
  ℕ, ◌+◌, ◌*◌, ◌<◌, ◌≤◌, ◌≡◌, ◌≢◌, refl, sym, subst, ◌∙◌, Option, none, some, List, [], ◌∷◌, ◌++◌,
  length, arith, ◌==◌, Bool-cases, inl, inr, All, length-append,
}
use shroomio.Snapshot.{Player, max_players}
use shroomio.Snapshot.Record.Codec.{IsValid}
use shroomio.Snapshot.Frame.{find_player}
use shroomio.Snapshot.Frame.Encode.{Encoded, Parameters, append_if, player_record, encode_players}
use shroomio.Snapshot.Frame.Lookup.{
  Distinct, find_player-none, find_player-head, ==→eq, ==_false→ne,
}
use shroomio.Snapshot.Frame.Applied.{Applied}
use shroomio.Snapshot.Frame.Same.{SamePlayer}
use shroomio.Snapshot.Frame.Step.{Stepped, Updated, new_if, spawn-step, update-step}

-- The number of players that the client does not know.
abbrev pub new_count : List Player → List Player → ℕ
new_count known [] = 0
new_count known (p ∷ ps) = new_if (find_player known p.entity_id) + new_count known ps

-- What becomes of an id: the player that was sent, if one was.
abbrev pub Sent : Option Player → Option Player → Option Player → Type 0
Sent none before after = after ≡ before
Sent (some p) before after = (q : Player) × (after ≡ some q) × SamePlayer p q

player-step :
    (c : Parameters) (e : Encoded) (base now : List Player) (bytes : ℕ) (p : Player)
    (o : Option Player)
    → IsValid p
    → bytes < 1027 * 127
    → Distinct now
    → find_player now p.entity_id ≡ o
    → length now + new_if o ≤ max_players
    → Applied c e base now bytes
    → (next : List Player) × Stepped c base (append_if c e (player_record o p)) next (bytes + 74)
      × Updated p now next
      × (length next ≡ length now + new_if o)
player-step c e base now bytes p none v room d there free a =
    let (sent, updated) = spawn-step c e base now bytes p v room d a there (omega arith) in
    (now ++ p ∷ [], sent, updated, length-append now (p ∷ []))
player-step c e base now bytes p (some q) v room d there free a =
    let (next, sent, updated, as_long) = update-step c e base now bytes p v room d a q there in
    (next, sent, updated, omega (arith, as_long))

pub find_player-tail :
    (p : Player) (ps : List Player) (i : ℕ)
    → p.entity_id ≢ i
    → find_player (p ∷ ps) i ≡ find_player ps i
unfolding find_player
find_player-tail p ps i h = ground arith

pub find_player-first : (p : Player) (ps : List Player) → find_player (p ∷ ps) p.entity_id ≡ some p
unfolding find_player
find_player-first p ps = ground arith

-- An id of a list without repetition is its head's, or one of its tail.
Sent-step :
    (p : Player) (ps now now1 next : List Player) (i : ℕ)
    → Distinct (p ∷ ps)
    → Updated p now now1
    → Sent (find_player ps i) (find_player now1 i) (find_player next i)
    → Sent (find_player (p ∷ ps) i) (find_player now i) (find_player next i)
Sent-step p ps now now1 next i d u s = elim (Bool-cases (p.entity_id == i)) [
  | inl e ↦
      subst (λ k. Sent (find_player (p ∷ ps) k) (find_player now k) (find_player next k)) (==→eq e)
        (head (
          subst (λ k. Sent (find_player ps k) (find_player now1 k) (find_player next k))
            (sym (==→eq e)) s))
  | inr e ↦
      subst (λ o. Sent o (find_player now i) (find_player next i))
        (sym (find_player-tail p ps i (==_false→ne e)))
        (subst (λ o. Sent (find_player ps i) o (find_player next i)) (u.keeps i (==_false→ne e)) s)
]
  where
    head :
        Sent
          (find_player ps p.entity_id)
          (find_player now1 p.entity_id)
          (find_player next p.entity_id)
        → Sent
            (find_player (p ∷ ps) p.entity_id)
            (find_player now p.entity_id)
            (find_player next p.entity_id)
    head t =
        subst (λ o. Sent o (find_player now p.entity_id) (find_player next p.entity_id))
          (sym (find_player-first p ps))
          (
            u.received,
            subst (λ o. Sent o (find_player now1 p.entity_id) (find_player next p.entity_id)) d.0 t
                ∙ u.there,
            u.same,
          )

Sent-none : (i : ℕ) (o : Option Player) → Sent (find_player [] i) o o
unfolding find_player
Sent-none i o = refl

-- What the first loop has done with the players that are left.
pub record Players (c : Parameters) (base now : List Player) (ps : List Player) (o : Option Encoded)
    (most : ℕ) : Type 0 where
  pub next : List Player
  pub sent : Stepped c base o next most
  pub outcome : (i : ℕ) → Sent (find_player ps i) (find_player now i) (find_player next i)
  pub distinct : Distinct next

still_known :
    (known now next ps : List Player) (p : Player)
    → Distinct (p ∷ ps)
    → Updated p now next
    → ((i : ℕ) → find_player (p ∷ ps) i ≢ none → find_player now i ≡ find_player known i)
    → (i : ℕ) → find_player ps i ≢ none
    → find_player next i ≡ find_player known i
still_known known now next ps p d u h i there =
    u.keeps i other ∙ h i (λ e. there (find_player-none p ps i e).1)
  where
    other : p.entity_id ≢ i
    other e = there (subst (λ k. find_player ps k ≡ none) e d.0)

pub encode_players-sends :
    (c : Parameters) (base known ps now : List Player) (e : Encoded) (bytes : ℕ)
    → Distinct ps
    → All IsValid ps
    → Distinct now
    → bytes + 74 * length ps ≤ 74 * max_players
    → ((i : ℕ) → find_player ps i ≢ none → find_player now i ≡ find_player known i)
    → length now + new_count known ps ≤ max_players
    → Applied c e base now bytes
    → Players c base now ps (encode_players c known ps e) (bytes + 74 * length ps)
unfolding encode_players
encode_players-sends c base known [] now e bytes dps v d room as_known free a = record {
  next = now;
  sent = record { encoded = e; bytes = bytes; runs = refl; applied = a; bytes_le = omega arith };
  outcome = λ i. Sent-none i (find_player now i);
  distinct = d;
}
encode_players-sends c base known (p ∷ ps) now e bytes dps v d room as_known free a =
    let (next, step, updated, as_long) =
      player-step c e base now bytes p (find_player known p.entity_id) v.0 (omega arith) d
        (as_known p.entity_id (find_player-head p ps)) (omega arith) a in
    let rest =
      encode_players-sends c base known ps next step.encoded step.bytes dps.1 v.1 updated.distinct
        (omega (arith, step.bytes_le)) (still_known known now next ps p dps updated as_known)
        (omega (arith, as_long)) step.applied in
    record {
      next = rest.next;
      sent = record {
        encoded = rest.sent.encoded;
        bytes = rest.sent.bytes;
        runs = rw (step.runs, encode_players) rest.sent.runs;
        applied = rest.sent.applied;
        bytes_le = omega (arith, rest.sent.bytes_le, step.bytes_le);
      };
      outcome = λ i. Sent-step p ps now next rest.next i dps updated (rest.outcome i);
      distinct = rest.distinct;
    }
