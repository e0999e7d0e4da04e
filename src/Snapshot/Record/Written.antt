-- ===== src/Snapshot/Record/Written.antt =====
-- What `EncodeRecord` writes: every record fits its buffer, and its bytes are known.
use shroomio.Base.{
  ℕ, ◌+◌, ◌≤◌, ◌≡◌, refl, sym, ap, ◌∙◌, Bool, true, false, some, List, [], ◌∷◌, ◌++◌, length, arith,
  length-append, ltb, ◌==◌, if◌then◌else◌, Bool-cases, inl, inr,
}
use mathlib.Core.List.{append_assoc, append-nil}
use shroomio.Snapshot.{
  Player, RecordHeader, name_length, record_despawn, component_all, has_identity, has_transform,
  has_mass, has_effects, has_stats,
}
use shroomio.Snapshot.Record.{
  header_size, header_bytes, identity_fields, transform_fields, mass_fields, effects_fields,
  stats_fields, fields_if, fields_of, write_fields, with_header, encode_record,
}
use shroomio.Snapshot.Record.Codec.{flatten, flatten-append}

length-fields_if :
    (present : Bool) (fields : List (List ℕ)) (n : ℕ)
    → length (flatten fields) ≡ n
    → length (flatten (fields_if present fields)) ≤ n
length-fields_if true fields n h = omega arith
length-fields_if false fields n h = omega arith

length-flatten-append :
    (fs gs : List (List ℕ))
    → length (flatten (fs ++ gs)) ≡ length (flatten fs) + length (flatten gs)
length-flatten-append fs gs =
    ap length (flatten-append fs gs) ∙ length-append (flatten fs) (flatten gs)

length-identity_fields :
    (p : Player) → length p.name ≡ name_length → length (flatten (identity_fields p)) ≡ 41
length-identity_fields p h = rw (length-append p.name _, h) refl

length-flatten-five :
    (a b c d e : List (List ℕ))
    → length (flatten a) ≤ 41
    → length (flatten b) ≤ 8
    → length (flatten c) ≤ 8
    → length (flatten d) ≤ 2
    → length (flatten e) ≤ 7
    → length (flatten (a ++ b ++ c ++ d ++ e)) ≤ 66
length-flatten-five a b c d e ha hb hc hd he = omega (
  arith,
  length-flatten-append (a ++ b ++ c ++ d) e,
  length-flatten-append (a ++ b ++ c) d,
  length-flatten-append (a ++ b) c,
  length-flatten-append a b,
)

-- The largest record is 74 bytes long.
pub length-fields_of :
    (mask : ℕ) (p : Player) → length p.name ≡ name_length → length (flatten (fields_of mask p)) ≤ 66
unfolding fields_of
length-fields_of mask p h =
    length-flatten-five (fields_if (has_identity mask) (identity_fields p))
      (fields_if (has_transform mask) (transform_fields p))
      (fields_if (has_mass mask) (mass_fields p)) (fields_if (has_effects mask) (effects_fields p))
      (fields_if (has_stats mask) (stats_fields p))
      (length-fields_if (has_identity mask) (identity_fields p) 41 (length-identity_fields p h))
      (length-fields_if (has_transform mask) (transform_fields p) 8 refl)
      (length-fields_if (has_mass mask) (mass_fields p) 8 refl)
      (length-fields_if (has_effects mask) (effects_fields p) 2 refl)
      (length-fields_if (has_stats mask) (stats_fields p) 7 refl)

write_fields-flatten :
    (capacity : ℕ) (out : List ℕ) (fs : List (List ℕ))
    → header_size + (length out + length (flatten fs)) ≤ capacity
    → write_fields capacity out fs ≡ some (out ++ flatten fs)
unfolding write_fields
write_fields-flatten capacity out [] h = ap some (sym (append-nil out))
write_fields-flatten capacity out (f ∷ fs) h = rw (fits) (
    write_fields-flatten capacity (out ++ f) fs
      (rw (length-append out f) (omega (arith, length-append f (flatten fs))))
    ∙ ap some (append_assoc out f (flatten fs)))
  where
    fits : ltb capacity (header_size + (length out + length f)) ≡ false
    fits = ground (arith, length-append f (flatten fs))

-- The header of a record of some fields.
abbrev pub header_of : ℕ → ℕ → ℕ → List (List ℕ) → RecordHeader
header_of entity_id mask operation fields = record {
  entity_id = entity_id;
  component_mask = mask;
  operation = operation;
  size = header_size + length (flatten fields);
}

with_header-some :
    (entity_id mask operation : ℕ) (fields : List (List ℕ))
    → length (flatten fields) ≤ 66
    → with_header entity_id mask operation (some (flatten fields))
      ≡ some (header_bytes (header_of entity_id mask operation fields) ++ flatten fields)
with_header-some entity_id mask operation fields h = rw small refl
  where
    small : ltb 255 (header_size + length (flatten fields)) ≡ false
    small = ground arith

abbrev pub written_fields : ℕ → ℕ → Player → List (List ℕ)
written_fields operation mask p = if operation == record_despawn then [] else fields_of mask p

length-written_fields :
    (operation mask : ℕ) (p : Player)
    → length p.name ≡ name_length
    → length (flatten (written_fields operation mask p)) ≤ 66
length-written_fields operation mask p h = elim (Bool-cases (operation == record_despawn)) [
  | inl e ↦ rw e (omega arith)
  | inr e ↦ rw e (length-fields_of mask p h)
]

pub encode_record-some :
    (operation mask entity_id : ℕ) (p : Player)
    → length p.name ≡ name_length
    → encode_record 128 operation mask entity_id p
      ≡ some (
          header_bytes (header_of entity_id mask operation (written_fields operation mask p))
          ++ flatten (written_fields operation mask p))
unfolding encode_record
encode_record-some operation mask entity_id p h =
    rw (write_fields-flatten 128 [] (written_fields operation mask p) (omega (arith, small)))
      (with_header-some entity_id mask operation (written_fields operation mask p) small)
  where
    small : length (flatten (written_fields operation mask p)) ≤ 66
    small = length-written_fields operation mask p h

-- A record with all components has the same length for every player.
pub length-spawn :
    (p : Player) → length p.name ≡ name_length → length (flatten (fields_of component_all p)) ≡ 66
unfolding fields_of
length-spawn p h = rw (length-append p.name _, h) refl
