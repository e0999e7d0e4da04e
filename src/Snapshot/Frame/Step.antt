-- ===== src/Snapshot/Frame/Step.antt =====
-- One record of a frame: what it does to the players that the client has by then.
use shroomio.Base.{
  ℕ, ◌+◌, ◌*◌, ◌<◌, ◌≤◌, ◌≡◌, ◌≢◌, refl, sym, subst, ◌∙◌, true, false, Option, none, some, List, [],
  ◌∷◌, ◌++◌, length, arith, ◌==◌, Bool-cases, inl, inr,
}
use shroomio.Snapshot.{
  Player, max_players, record_spawn, record_update, record_despawn, component_all, component_mask,
}
use shroomio.Snapshot.Record.{encode_record, fields_of}
use shroomio.Snapshot.Record.Codec.{IsValid, flatten, merge_components}
use shroomio.Snapshot.Record.Written.{encode_record-some, length-fields_of}
use shroomio.Snapshot.Frame.{find_player}
use shroomio.Snapshot.Frame.Encode.{Encoded, Parameters, append_if, player_record}
use shroomio.Snapshot.Frame.Decode.{replace_player, remove_player}
use shroomio.Snapshot.Frame.Lookup.{
  Distinct, find_player-id, ==→eq, find_player-append_ne, find_player-append_self,
  find_player-replace_ne, find_player-replace_self, find_player-remove_ne, find_player-remove_self,
  Distinct-append, Distinct-replace, Distinct-remove, length-replace,
}
use shroomio.Snapshot.Frame.Decoded.{
  Decodes, record_bytes, spawn-Decodes, update-Decodes, despawn-Decodes,
}
use shroomio.Snapshot.Frame.Applied.{Applied, append_bytes-Applied}
use shroomio.Snapshot.Frame.Same.{
  SamePlayer, SamePlayer-refl, component_mask-lt, component_mask_zero,
}
use shroomio.Snapshot.Frame.Merge.{merge_components-Same}

-- The encoder has gone on, and the client would have these players.
pub record Stepped (c : Parameters) (base : List Player) (o : Option Encoded) (next : List Player)
    (most : ℕ) : Type 0 where
  pub encoded : Encoded
  pub bytes : ℕ
  pub runs : o ≡ some encoded
  pub applied : Applied c encoded base next bytes
  pub bytes_le : bytes ≤ most

abbrev pub new_if : Option Player → ℕ
new_if none = 1
new_if (some p) = 0

-- The client has a player as it was sent, and the others as before.
pub record Updated (p : Player) (now next : List Player) : Type 0 where
  pub keeps : (i : ℕ) → p.entity_id ≢ i → find_player next i ≡ find_player now i
  pub received : Player
  pub there : find_player next p.entity_id ≡ some received
  pub same : SamePlayer p received
  pub distinct : Distinct next

step-bytes :
    (c : Parameters) (e : Encoded) (base now next : List Player) (bytes i mask operation : ℕ)
    (p : Player) (fields : List (List ℕ)) (most : ℕ)
    → encode_record 128 operation mask i p ≡ some (record_bytes i mask operation fields)
    → 8 + length (flatten fields) ≤ most
    → most ≤ 74
    → bytes < 1027 * 127
    → Decodes (record_bytes i mask operation fields) now next
    → Applied c e base now bytes
    → Stepped c base
        (append_if c e (some (encode_record 128 operation mask i p)))
        next
        (bytes + most)
step-bytes c e base now next bytes i mask operation p fields most written small most_le room d a =
    let (e2, runs, applied) =
      append_bytes-Applied c e base now next bytes (record_bytes i mask operation fields)
        (omega arith) (omega arith) room d a in
    record {
      encoded = e2;
      bytes = bytes + length (record_bytes i mask operation fields);
      runs = rw written runs;
      applied = applied;
      bytes_le = omega arith;
    }

player_record-same :
    (p q : Player) → (component_mask p q == 0) ≡ true → player_record (some q) p ≡ none
unfolding player_record
player_record-same p q h = rw h refl

player_record-changed :
    (p q : Player)
    → (component_mask p q == 0) ≡ false
    → player_record (some q) p
      ≡ some (encode_record 128 record_update (component_mask p q) p.entity_id p)
unfolding player_record
player_record-changed p q h = rw h refl

some_ne : {q : Player} → some q ≢ none
some_ne h = cc

replaced :
    (p m : Player) (now : List Player)
    → Distinct now
    → SamePlayer p m
    → find_player now p.entity_id ≢ none
    → Updated p now (replace_player now p.entity_id m)
replaced p m now d same known = record {
  keeps = λ i ne.
      subst (λ k. find_player (replace_player now k m) i ≡ find_player now i) back
        (find_player-replace_ne now m i (λ is. ne (same.entity_id_eq ∙ is)));
  received = m;
  there =
      subst (λ k. find_player (replace_player now k m) k ≡ some m) back
        (find_player-replace_self now m
          (subst (λ k. find_player now k ≢ none) same.entity_id_eq known));
  same = same;
  distinct = subst (λ k. Distinct (replace_player now k m)) back (Distinct-replace now m d);
}
  where
    back : m.entity_id ≡ p.entity_id
    back = sym same.entity_id_eq

module _ (c : Parameters) (e : Encoded) (base now : List Player) (bytes : ℕ) (p : Player)
    (v : IsValid p) (room : bytes < 1027 * 127) (distinct : Distinct now)
    (a : Applied c e base now bytes) where
  pub spawn-step :
      find_player now p.entity_id ≡ none
      → length now < max_players
      → Stepped c base (append_if c e (player_record none p)) (now ++ p ∷ []) (bytes + 74)
        × Updated p now (now ++ p ∷ [])
  unfolding player_record
  spawn-step absent free = (
    step-bytes c e base now _ bytes p.entity_id component_all record_spawn p
        (fields_of component_all p) 74
        (encode_record-some record_spawn component_all p.entity_id p v.name_length_eq)
        (omega (arith, length-fields_of component_all p v.name_length_eq)) (omega arith) room
        (spawn-Decodes p now v absent free) a,
    record {
      keeps = λ i ne. find_player-append_ne now p i ne;
      received = p;
      there = find_player-append_self now p absent;
      same = SamePlayer-refl p;
      distinct = Distinct-append now p distinct absent;
    },
  )

  pub update-step :
      (q : Player)
      → find_player now p.entity_id ≡ some q
      → (next : List Player) × Stepped c base
          (append_if c e (player_record (some q) p))
          next
          (bytes + 74)
        × Updated p now next
        × (length next ≡ length now)
  update-step q there = elim (Bool-cases (component_mask p q == 0)) [
    | inl e0 ↦ (now, rw (player_record-same p q e0) idle, unchanged (==→eq e0), refl)
    | inr e0 ↦ (
      replace_player now p.entity_id merged,
      rw (player_record-changed p q e0) sent,
      changed,
      length-replace now p.entity_id merged,
    )
  ]
    where
      mask : ℕ
      mask = component_mask p q

      merged : Player
      merged = merge_components mask p q

      same_id : p.entity_id ≡ q.entity_id
      same_id = sym (find_player-id now p.entity_id q there)

      same : SamePlayer p merged
      same = merge_components-Same p q same_id

      idle : Stepped c base (some e) now (bytes + 74)
      idle = record { encoded = e; bytes = bytes; runs = refl; applied = a; bytes_le = omega arith }

      unchanged : component_mask p q ≡ 0 → Updated p now now
      unchanged zero_mask = record {
        keeps = λ i ne. refl;
        received = q;
        there = there;
        same = component_mask_zero p q same_id zero_mask;
        distinct = distinct;
      }

      sent :
          Stepped c base
            (append_if c e (some (encode_record 128 record_update mask p.entity_id p)))
            (replace_player now p.entity_id merged)
            (bytes + 74)
      sent =
          step-bytes c e base now _ bytes p.entity_id mask record_update p (fields_of mask p) 74
            (encode_record-some record_update mask p.entity_id p v.name_length_eq)
            (omega (arith, length-fields_of mask p v.name_length_eq)) (omega arith) room
            (update-Decodes p q now mask v (component_mask-lt p q) there) a

      changed : Updated p now (replace_player now p.entity_id merged)
      changed = replaced p merged now distinct same (λ e2. some_ne (sym there ∙ e2))

-- A player that the new frame does not have is ended.
pub record Removed (i : ℕ) (now next : List Player) : Type 0 where
  pub keeps : (j : ℕ) → i ≢ j → find_player next j ≡ find_player now j
  pub gone : find_player next i ≡ none
  pub distinct : Distinct next

pub despawn-step :
    (c : Parameters) (e : Encoded) (base now : List Player) (bytes : ℕ) (b q : Player)
    → IsValid b
    → bytes < 1027 * 127
    → Distinct now
    → find_player now b.entity_id ≡ some q
    → Applied c e base now bytes
    → Stepped c base
        (append_if c e (some (encode_record 128 record_despawn 0 b.entity_id b)))
        (remove_player now b.entity_id)
        (bytes + 8)
      × Removed b.entity_id now (remove_player now b.entity_id)
despawn-step c e base now bytes b q v room distinct there a = (
  step-bytes c e base now _ bytes b.entity_id 0 record_despawn b [] 8
      (encode_record-some record_despawn 0 b.entity_id b v.name_length_eq) (omega arith)
      (omega arith) room (despawn-Decodes b.entity_id q now v.entity_id_lt there) a,
  record {
    keeps = λ j ne. find_player-remove_ne now b.entity_id j ne;
    gone = find_player-remove_self now b.entity_id distinct;
    distinct = Distinct-remove now b.entity_id distinct;
  },
)
