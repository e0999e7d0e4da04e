-- ===== src/WorldReplication/Bounds.antt =====
-- Whatever packets come in, the client's arrays hold what they have room for, and no id twice.
use shroomio.Base.{
  ℕ, ◌≤◌, ◌≡◌, refl, Bool, true, false, not, ◌&&◌, ◌||◌, none, List, [], ◌∷◌, ltb, ◌==◌,
  if◌then◌else◌, length, arith, Option-cases, Bool-cases, inl, inr, length-append,
}
use shroomio.WorldReplication.{
  Record, Packet, max_spores, max_powerups, entity_spore, entity_powerup, record_spawn,
  record_update, record_remove,
}
use shroomio.WorldReplication.Table.{find_entity, put_entity, keep_listed, id_in_list}
use shroomio.WorldReplication.Apply.{
  Client, ClientState, spore_of, powerup_of, apply_entity, apply_record, remember, listed,
  apply_records, has_keyframe_flag, is_bad_packet, has_bad_record, note_tick, begin_keyframe,
  keyframe_complete, finish_keyframe, with_state, apply_keyframe, apply_packet,
}
use shroomio.WorldReplication.Lookup.{
  Distinct, length-remove, length-replace, Distinct-remove, Distinct-append, Distinct-replace,
}

-- An array within its capacity that has no id twice.
pub record IsTable {A : Type 0} (id_of : A → ℕ) (capacity : ℕ) (xs : List A) : Type 0 where
  pub length_le : length xs ≤ capacity
  pub distinct : Distinct id_of xs

module _ {A : Type 0} (id_of : A → ℕ) (capacity : ℕ) where
  if-IsTable :
      (b : Bool) (xs ys : List A)
      → IsTable id_of capacity xs
      → IsTable id_of capacity ys
      → IsTable id_of capacity (if b then xs else ys)
  if-IsTable true xs ys hx hy = hx
  if-IsTable false xs ys hx hy = hy

  put_entity-IsTable :
      (xs : List A) (y : A)
      → IsTable id_of capacity xs
      → IsTable id_of capacity (put_entity id_of capacity xs y)
  unfolding put_entity
  put_entity-IsTable xs y t = elim (Option-cases (find_entity id_of xs (id_of y))) [
    | inr (x, e) ↦ rw e (record {
      length_le = omega (arith, length-replace id_of xs y, t.length_le);
      distinct = Distinct-replace id_of xs y t.distinct;
    })
    | inl e ↦ elim (Bool-cases (ltb (length xs) capacity)) [
      | inl free ↦
          rw (e, free)
            (record {
              length_le = ground (arith, length-append xs (y ∷ []));
              distinct = Distinct-append id_of xs y t.distinct e;
            })
      | inr full ↦ rw (e, full) t
    ]
  ]

  apply_entity-IsTable :
      (xs : List A) (r : Record) (y : A)
      → IsTable id_of capacity xs
      → IsTable id_of capacity (apply_entity id_of capacity xs r y)
  unfolding apply_entity
  apply_entity-IsTable xs r y t =
      if-IsTable (r.operation == record_remove) _ _
        (record {
          length_le = omega (arith, length-remove id_of xs r.entity_id, t.length_le);
          distinct = Distinct-remove id_of xs r.entity_id t.distinct;
        })
        (if-IsTable (r.operation == record_spawn || r.operation == record_update) _ xs
          (put_entity-IsTable xs y t) t)

  length-keep_listed : (ids : List ℕ) (xs : List A) → length (keep_listed id_of ids xs) ≤ length xs
  unfolding keep_listed
  length-keep_listed ids [] = omega arith
  length-keep_listed ids (x ∷ xs) = ground (arith, length-keep_listed ids xs)

  find_entity-keep_listed :
      (ids : List ℕ) (xs : List A) (i : ℕ)
      → find_entity id_of xs i ≡ none
      → find_entity id_of (keep_listed id_of ids xs) i ≡ none
  unfolding keep_listed find_entity
  find_entity-keep_listed ids [] i h = refl
  find_entity-keep_listed ids (x ∷ xs) i h = ground (arith, find_entity-keep_listed ids xs i)

  Distinct-keep_listed :
      (ids : List ℕ) (xs : List A) → Distinct id_of xs → Distinct id_of (keep_listed id_of ids xs)
  unfolding keep_listed
  Distinct-keep_listed ids [] d = tt
  Distinct-keep_listed ids (x ∷ xs) d = elim (Bool-cases (id_in_list ids (id_of x))) [
    | inl e ↦ rw e (find_entity-keep_listed ids xs (id_of x) d.0, Distinct-keep_listed ids xs d.1)
    | inr e ↦ rw e (Distinct-keep_listed ids xs d.1)
  ]

  keep_listed-IsTable :
      (ids : List ℕ) (xs : List A)
      → IsTable id_of capacity xs
      → IsTable id_of capacity (keep_listed id_of ids xs)
  keep_listed-IsTable ids xs t = record {
    length_le = omega (arith, length-keep_listed ids xs, t.length_le);
    distinct = Distinct-keep_listed ids xs t.distinct;
  }

pub record IsClient (c : Client) : Type 0 where
  pub spores : IsTable (λ s. s.entity_id) max_spores c.spores
  pub powerups : IsTable (λ p. p.entity_id) max_powerups c.powerups

apply_record-IsClient : (c : Client) (r : Record) → IsClient c → IsClient (apply_record c r)
unfolding apply_record
apply_record-IsClient c r h = elim (Bool-cases (r.entity_kind == entity_spore)) [
  | inl e ↦ rw e (record {
    spores = apply_entity-IsTable (λ s. s.entity_id) max_spores c.spores r (spore_of r) h.spores;
    powerups = h.powerups;
  })
  | inr e ↦ elim (Bool-cases (r.entity_kind == entity_powerup)) [
    | inl f ↦
        rw (e, f)
          (record {
            spores = h.spores;
            powerups =
                apply_entity-IsTable (λ p. p.entity_id) max_powerups c.powerups r (powerup_of r)
                  h.powerups;
          })
    | inr f ↦ rw (e, f) h
  ]
]

with_state-IsClient : (c : Client) (s : ClientState) → IsClient c → IsClient (with_state c s)
with_state-IsClient c s h = record { spores = h.spores; powerups = h.powerups }

listed-IsClient :
    (keyframe : Bool) (c : Client) (r : Record) → IsClient c → IsClient (listed keyframe c r)
listed-IsClient keyframe c r h =
    elim (Bool-cases (keyframe && not (r.operation == record_remove))) [
      | inl e ↦ rw e (with_state-IsClient c (remember c.state r) h)
      | inr e ↦ rw e h
    ]

apply_records-IsClient :
    (keyframe : Bool) (rs : List Record) (c : Client)
    → IsClient c
    → IsClient (apply_records keyframe c rs)
unfolding apply_records
apply_records-IsClient keyframe [] c h = h
apply_records-IsClient keyframe (r ∷ rs) c h =
    apply_records-IsClient keyframe rs _
      (listed-IsClient keyframe _ r (apply_record-IsClient c r h))

finish_keyframe-IsClient : (c : Client) → IsClient c → IsClient (finish_keyframe c)
unfolding finish_keyframe
finish_keyframe-IsClient c h =
    elim (Bool-cases (keyframe_complete c.state.keyframe_chunk_count c.state.keyframe_chunks)) [
      | inl e ↦ rw e (record {
        spores =
            keep_listed-IsTable (λ s. s.entity_id) max_spores c.state.keyframe_spores c.spores
              h.spores;
        powerups =
            keep_listed-IsTable (λ p. p.entity_id) max_powerups c.state.keyframe_powerups c.powerups
              h.powerups;
      })
      | inr e ↦ rw e h
    ]

-- A refusal changes no entity.
abbrev pub Kept : Bool → Client → Client → Type 0
Kept true c d = Unit
Kept false c d = (d.spores ≡ c.spores) × (d.powerups ≡ c.powerups)

apply_keyframe-IsClient :
    (c : Client) (s : ClientState) (p : Packet)
    → IsClient c
    → IsClient (apply_keyframe c s p).0 × Kept (apply_keyframe c s p).1 c (apply_keyframe c s p).0
apply_keyframe-IsClient c s p h =
    elim (Bool-cases
      (not (p.tick == s.keyframe_tick) || not (p.chunk_count == s.keyframe_chunk_count))) [
        | inl e ↦ rw e (with_state-IsClient c s h, (refl, refl))
        | inr e ↦ rw e (
          finish_keyframe-IsClient _ (
              with_state-IsClient _ _
                (apply_records-IsClient true p.records _ (with_state-IsClient c s h))),
          tt,
        )
      ]

-- Whatever packet a client gets, its arrays of spores and of power-ups stay within their capacities
-- and have no id twice; a packet that is refused changes neither.
pub apply_packet-IsClient :
    (c : Client) (p : Packet) (packet_size : ℕ)
    → IsClient c
    → IsClient (apply_packet c p packet_size).0
      × Kept (apply_packet c p packet_size).1 c (apply_packet c p packet_size).0
unfolding apply_packet
apply_packet-IsClient c p packet_size h =
    elim (Bool-cases (is_bad_packet c.state p packet_size || has_bad_record p.records)) [
      | inl bad ↦ rw bad (h, (refl, refl))
      | inr good ↦ elim (Bool-cases (has_keyframe_flag p.flags)) [
        | inl k ↦
            rw (good, k)
              (apply_keyframe-IsClient c (begin_keyframe (note_tick c.state p.tick) p) p h)
        | inr k ↦
            rw (good, k)
              (
                apply_records-IsClient false p.records _
                    (with_state-IsClient c (note_tick c.state p.tick) h),
                tt,
              )
      ]
    ]
