-- ===== src/Snapshot/Frame/Stream.antt =====
-- Whatever bytes the packets of a frame carry, they leave players that fit their array.
use shroomio.Base.{
  ℕ, zero, suc, ◌+◌, ◌-◌, ◌%◌, refl, subst, Option, none, some, List, [], ◌∷◌, length, ◌==◌,
  Option-cases, inl, inr, u16_mod,
}
use shroomio.Snapshot.{Player, RecordHeader, record_spawn, record_update, record_despawn}
use shroomio.Snapshot.Record.{header_size}
use shroomio.Snapshot.Frame.{Packet}
use shroomio.Snapshot.Frame.Decode.{
  read_header, body_of, is_bad_header, decode_body, decode_from, decode_record, apply_payload,
  check_count, apply_packets,
}
use shroomio.Snapshot.Frame.Safety.{
  ArePlayers, Holds, Holds-if, decode_despawn-Holds, decode_spawn-Holds, decode_update-Holds,
}

decode_body-Holds :
    (h : RecordHeader) (rest : List ℕ) (players : List Player)
    → ArePlayers players
    → Holds ArePlayers (decode_body h rest players)
unfolding decode_body
decode_body-Holds h rest players a =
    Holds-if ArePlayers (is_bad_header h (header_size + length rest)) none _ tt (
      Holds-if ArePlayers (h.operation == record_despawn) _ _
        (decode_despawn-Holds h players _ a refl)
        (Holds-if ArePlayers (h.operation == record_spawn) _ _
          (decode_spawn-Holds h players _ (body_of h rest) a refl)
          (Holds-if ArePlayers (h.operation == record_update) _ none
            (decode_update-Holds h players _ (body_of h rest) a refl) tt)))

decode_from-Holds :
    (players : List Player) (o : Option (RecordHeader × List ℕ))
    → ArePlayers players
    → Holds (λ r. ArePlayers r.0) (decode_from players o)
decode_from-Holds players none a = tt
decode_from-Holds players (some (h, rest)) a = elim (Option-cases (decode_body h rest players)) [
  | inl e ↦ rw (e, decode_from) tt
  | inr (next, e) ↦
      rw (e, decode_from) (subst (Holds ArePlayers) e (decode_body-Holds h rest players a))
]

decode_record-Holds :
    (bytes : List ℕ) (players : List Player)
    → ArePlayers players
    → Holds (λ r. ArePlayers r.0) (decode_record bytes players)
unfolding decode_record
decode_record-Holds bytes players a = decode_from-Holds players (read_header bytes) a

apply_payload-Holds :
    (skip : ℕ) (bytes : List ℕ) (players : List Player) (n : ℕ)
    → ArePlayers players
    → Holds (λ r. ArePlayers r.0) (apply_payload skip bytes players n)
unfolding apply_payload
apply_payload-Holds skip [] players n a = a
apply_payload-Holds (suc skip) (b ∷ bytes) players n a = apply_payload-Holds skip bytes players n a
apply_payload-Holds zero (b ∷ bytes) players n a =
    elim (Option-cases (decode_record (b ∷ bytes) players)) [
      | inl e ↦ rw (e, apply_payload) tt
      | inr ((next, size), e) ↦
          let fine : ArePlayers next =
            subst (Holds (λ r. ArePlayers r.0)) e (decode_record-Holds (b ∷ bytes) players a) in
          rw (e, apply_payload) (apply_payload-Holds (size - 1) bytes next ((n + 1) % u16_mod) fine)
    ]

check_count-Holds :
    (n : ℕ) (o : Option (List Player × ℕ))
    → Holds (λ r. ArePlayers r.0) o
    → Holds ArePlayers (check_count n o)
check_count-Holds n none h = tt
check_count-Holds n (some (players, records)) h = Holds-if ArePlayers (records == n) _ none h tt

pub apply_packets-Holds :
    (ps : List Packet) (players : List Player)
    → ArePlayers players
    → Holds ArePlayers (apply_packets ps players)
unfolding apply_packets
apply_packets-Holds [] players a = a
apply_packets-Holds (p ∷ ps) players a =
    elim (Option-cases (check_count p.record_count (apply_payload 0 p.payload players 0))) [
      | inl e ↦ rw (e, apply_packets) tt
      | inr (next, e) ↦
          let fine : ArePlayers next =
            subst (Holds ArePlayers) e
              (check_count-Holds p.record_count _ (apply_payload-Holds 0 p.payload players 0 a)) in
          rw (e, apply_packets) (apply_packets-Holds ps next fine)
    ]
