-- ===== src/Snapshot/Frame/Decoded.antt =====
-- Each kind of record, decoded as it is encoded, whatever follows it.
use shroomio.Base.{
  ℕ, zero, suc, ◌+◌, ◌^◌, ◌<◌, ◌≤◌, ◌≡◌, refl, sym, ap, ◌∙◌, false, Option, none, some, List, [],
  ◌∷◌, ◌++◌, length, take, arith, length-append, leb,
}
use mathlib.Core.List.{append-nil}
use shroomio.Snapshot.{
  Player, RecordHeader, max_players, record_spawn, record_update, record_despawn, component_all,
}
use shroomio.Snapshot.Record.{header_size, header_bytes, fields_of, read_components}
use shroomio.Snapshot.Record.Codec.{
  IsValid, flatten, merge_components, read_components-fields_of, u8_value, u16_value, u32_value,
}
use shroomio.Snapshot.Record.Written.{header_of, length-fields_of}
use shroomio.Snapshot.Frame.{find_player}
use shroomio.Snapshot.Frame.Decode.{
  read_header, new_player, replace_player, remove_player, finish_reading, decode_despawn,
  decode_spawn, decode_update, body_of, is_bad_header, decode_body, decode_from, decode_record,
}

-- Some bytes at the front are a record that turns some players into others.
abbrev pub Decodes : List ℕ → List Player → List Player → Type 0
Decodes r now next = (rest : List ℕ) → decode_record (r ++ rest) now ≡ some (next, length r)

-- A record is not empty, and small.
abbrev pub Fits : List ℕ → ℕ → Type 0
Fits r n = (1 ≤ length r) × (length r ≤ n)

read_header-bytes :
    (h : RecordHeader) (rest : List ℕ)
    → h.entity_id < 2 ^ 32
    → h.component_mask < 2 ^ 16
    → h.operation < 256
    → h.size < 256
    → read_header (header_bytes h ++ rest) ≡ some (h, rest)
unfolding read_header
read_header-bytes h rest hi hm ho hs =
    rw (u32_value hi, u16_value hm, u8_value ho, u8_value hs) refl

take-append : (xs ys : List ℕ) (n : ℕ) → n ≡ length xs → take n (xs ++ ys) ≡ xs
take-append [] ys zero h = refl
take-append [] ys (suc n) h = absurd (omega arith)
take-append (x ∷ xs) ys zero h = absurd (omega arith)
take-append (x ∷ xs) ys (suc n) h = ap (λ t. x ∷ t) (take-append xs ys n (omega arith))

decode_from-some :
    (h : RecordHeader) (rest : List ℕ) (players next : List Player)
    → decode_body h rest players ≡ some next
    → decode_from players (some (h, rest)) ≡ some (next, h.size)
decode_from-some h rest players next e =
    ap (λ o. elim o as (λ _. Option (List Player × ℕ)) [ none ↦ none | some q ↦ some (q, h.size) ])
      e

-- A record with a good header is decoded as its body is.
Decodes-of_body :
    (h : RecordHeader) (body : List ℕ) (now next : List Player)
    → h.entity_id < 2 ^ 32
    → h.component_mask < 32
    → h.operation < 256
    → h.size ≡ header_size + length body
    → length body ≤ 66
    → ((rest : List ℕ) → decode_body h (body ++ rest) now ≡ some next)
    → Decodes (header_bytes h ++ body) now next
unfolding decode_record
Decodes-of_body h body now next hi hm ho hs hb k rest =
    rw (read_header-bytes h (body ++ rest) hi (omega arith) ho (omega arith)) (
      decode_from-some h (body ++ rest) now next (k rest)
      ∙ ap (λ n. some (next, n)) (rw hs (omega arith)))

-- A record of a body, and what follows it.
abbrev header : ℕ → ℕ → ℕ → List ℕ → RecordHeader
header entity_id mask operation body = record {
  entity_id = entity_id;
  component_mask = mask;
  operation = operation;
  size = header_size + length body;
}

module _ (i mask : ℕ) (body rest : List ℕ) (now : List Player) (hm : mask < 32) where
  good-header :
      (operation : ℕ)
      → is_bad_header (header i mask operation body) (header_size + length (body ++ rest)) ≡ false
  good-header operation = ground (arith, length-append body rest)

  body_of-header : (operation : ℕ) → body_of (header i mask operation body) (body ++ rest) ≡ body
  body_of-header operation = take-append body rest _ (omega arith)

  decode_body-update :
      (p : Player)
      → find_player now i ≡ some p
      → decode_body (header i mask record_update body) (body ++ rest) now
        ≡ finish_reading (replace_player now i) (read_components mask p body)
  unfolding decode_body decode_update
  decode_body-update p there =
      rw (good-header record_update, there, body_of-header record_update) refl

decode_body-spawn :
    (i : ℕ) (body rest : List ℕ) (now : List Player)
    → find_player now i ≡ none
    → length now < max_players
    → decode_body (header i component_all record_spawn body) (body ++ rest) now
      ≡ finish_reading (λ q. now ++ q ∷ []) (read_components component_all (new_player i) body)
unfolding decode_body decode_spawn
decode_body-spawn i body rest now absent room =
    rw
      (
        good-header i component_all body rest now (omega arith) record_spawn,
        absent,
        body_of-header i component_all body rest now (omega arith) record_spawn,
        free,
      )
      refl
  where
    free : leb max_players (length now) ≡ false
    free = ground arith

decode_body-despawn :
    (i : ℕ) (rest : List ℕ) (now : List Player) (p : Player)
    → find_player now i ≡ some p
    → decode_body (header i 0 record_despawn []) rest now ≡ some (remove_player now i)
unfolding decode_body decode_despawn
decode_body-despawn i rest now p there =
    rw (good-header i 0 [] rest now (omega arith) record_despawn, there) refl

-- What a spawn record leaves is the player itself.
finish-spawn :
    (p : Player) (now : List Player)
    → IsValid p
    → finish_reading
        (λ q. now ++ q ∷ [])
        (read_components component_all
          (new_player p.entity_id)
          (flatten (fields_of component_all p)))
      ≡ some (now ++ p ∷ [])
finish-spawn p now v =
    rw
      (
        sym (append-nil (flatten (fields_of component_all p))),
        read_components-fields_of component_all p (new_player p.entity_id) [] v,
      )
      refl

-- What an update leaves is the known player with the components of the new one.
finish-update :
    (p q : Player) (now : List Player) (mask : ℕ)
    → IsValid p
    → finish_reading
        (replace_player now p.entity_id)
        (read_components mask q (flatten (fields_of mask p)))
      ≡ some (replace_player now p.entity_id (merge_components mask p q))
finish-update p q now mask v =
    rw (sym (append-nil (flatten (fields_of mask p))), read_components-fields_of mask p q [] v) refl

abbrev pub record_bytes : ℕ → ℕ → ℕ → List (List ℕ) → List ℕ
record_bytes i mask operation fields =
    header_bytes (header_of i mask operation fields) ++ flatten fields

pub spawn-Decodes :
    (p : Player) (now : List Player)
    → IsValid p
    → find_player now p.entity_id ≡ none
    → length now < max_players
    → Decodes
        (record_bytes p.entity_id component_all record_spawn (fields_of component_all p))
        now
        (now ++ p ∷ [])
spawn-Decodes p now v absent room =
    let body = flatten (fields_of component_all p) in
    Decodes-of_body (header p.entity_id component_all record_spawn body) body now _ v.entity_id_lt
      (omega arith) (omega arith) refl (length-fields_of component_all p v.name_length_eq)
      (λ rest. decode_body-spawn p.entity_id body rest now absent room ∙ finish-spawn p now v)

pub update-Decodes :
    (p q : Player) (now : List Player) (mask : ℕ)
    → IsValid p
    → mask < 32
    → find_player now p.entity_id ≡ some q
    → Decodes
        (record_bytes p.entity_id mask record_update (fields_of mask p))
        now
        (replace_player now p.entity_id (merge_components mask p q))
update-Decodes p q now mask v hm there =
    let body = flatten (fields_of mask p) in
    Decodes-of_body (header p.entity_id mask record_update body) body now _ v.entity_id_lt hm
      (omega arith) refl (length-fields_of mask p v.name_length_eq)
      (λ rest.
        decode_body-update p.entity_id mask body rest now hm q there ∙ finish-update p q now mask v)

pub despawn-Decodes :
    (i : ℕ) (q : Player) (now : List Player)
    → i < 2 ^ 32
    → find_player now i ≡ some q
    → Decodes (record_bytes i 0 record_despawn []) now (remove_player now i)
despawn-Decodes i q now hi there =
    Decodes-of_body (header i 0 record_despawn []) [] now _ hi (omega arith) (omega arith) refl
      (omega arith) (λ rest. decode_body-despawn i rest now q there)
