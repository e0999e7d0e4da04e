-- ===== src/Snapshot/Frame/Safety.antt =====
-- Whatever bytes a record has, applying it stays within the array of players and its own bytes, and
-- keeps the ids apart.
use shroomio.Base.{
  ℕ, ◌≤◌, ◌≡◌, refl, sym, subst, ◌∙◌, Bool, true, false, ◌||◌, not, Option, none, some, List, [],
  ◌∷◌, ◌++◌, length, arith, ◌==◌, leb, if◌then◌else◌, Bool-cases, inl, inr, length-append,
}
use mathlib.Core.Option.{none-ne-some}
use shroomio.Snapshot.{
  Player, RecordHeader, max_players, component_all, has_identity, has_transform, has_mass,
  has_effects, has_stats,
}
use shroomio.Snapshot.Record.{
  Reading, read_u8, read_u16, read_u32, read_name, read_identity, read_transform, read_mass,
  read_effects, read_stats, read_if, read_components, header_size, ◌>>=◌,
}
use shroomio.Snapshot.Frame.{find_player}
use shroomio.Snapshot.Frame.Decode.{
  new_player, replace_player, finish_reading, decode_despawn, decode_spawn, decode_update,
}
use shroomio.Snapshot.Frame.Lookup.{
  Distinct, find_player-id, Distinct-append, Distinct-replace, Distinct-remove, length-replace,
  length-remove,
}

-- The players fit their array, and no id stands twice.
pub record ArePlayers (players : List Player) : Type 0 where
  pub length_le : length players ≤ max_players
  pub distinct : Distinct players

-- A predicate of a result, if there is one.
abbrev pub Holds {ℓ κ} : {A : Type ℓ} → (A → Type κ) → Option A → Type κ
Holds P none = Unit
Holds P (some a) = P a

module _ {ℓ κ} {A : Type ℓ} (P : A → Type κ) where
  Holds-bind {μ} :
      {B : Type μ} (o : Option B) (f : B → Option A) → ((b : B) → Holds P (f b)) → Holds P (o >>= f)
  Holds-bind none f h = tt
  Holds-bind (some b) f h = h b

  pub Holds-if : (b : Bool) (x y : Option A) → Holds P x → Holds P y → Holds P (if b then x else y)
  Holds-if true x y hx hy = hx
  Holds-if false x y hx hy = hy

-- Reading changes no id.
abbrev SameId : ℕ → Option (Player × List ℕ) → Type 0
SameId i = Holds (λ r. r.0.entity_id ≡ i)

read_identity-id : (p : Player) (bytes : List ℕ) → SameId p.entity_id (read_identity p bytes)
unfolding read_identity
read_identity-id p bytes = Holds-bind _ (read_u32 bytes) _ (λ (a, bytes1).
    Holds-bind _ (read_name bytes1) _ (λ (n, bytes2).
      Holds-bind _ (read_u8 bytes2) _ (λ (b, bytes3).
        Holds-bind _ (read_u8 bytes3) _ (λ (c, bytes4).
          Holds-bind _ (read_u8 bytes4) _ (λ (d, bytes5).
            Holds-bind _ (read_u8 bytes5) _
              (λ (e, bytes6). Holds-bind _ (read_u8 bytes6) _ (λ (f, bytes7). refl)))))))

read_transform-id : (p : Player) (bytes : List ℕ) → SameId p.entity_id (read_transform p bytes)
unfolding read_transform
read_transform-id p bytes =
    Holds-bind _ (read_u32 bytes) _
      (λ (a, bytes1). Holds-bind _ (read_u32 bytes1) _ (λ (b, bytes2). refl))

read_mass-id : (p : Player) (bytes : List ℕ) → SameId p.entity_id (read_mass p bytes)
unfolding read_mass
read_mass-id p bytes =
    Holds-bind _ (read_u32 bytes) _
      (λ (a, bytes1). Holds-bind _ (read_u32 bytes1) _ (λ (b, bytes2). refl))

read_effects-id : (p : Player) (bytes : List ℕ) → SameId p.entity_id (read_effects p bytes)
unfolding read_effects
read_effects-id p bytes = Holds-bind _ (read_u16 bytes) _ (λ (a, bytes1). refl)

read_stats-id : (p : Player) (bytes : List ℕ) → SameId p.entity_id (read_stats p bytes)
unfolding read_stats
read_stats-id p bytes = Holds-bind _ (read_u16 bytes) _ (λ (a, bytes1).
    Holds-bind _ (read_u8 bytes1) _
      (λ (b, bytes2). Holds-bind _ (read_u32 bytes2) _ (λ (c, bytes3). refl)))

read_if-id :
    (present : Bool) (read : Player → List ℕ → Reading)
    → ((p : Player) (bytes : List ℕ) → SameId p.entity_id (read p bytes))
    → (i : ℕ) (p : Player) (bytes : List ℕ) → p.entity_id ≡ i
    → SameId i (read_if present read p bytes)
read_if-id true read h i p bytes e = subst (λ j. SameId j (read p bytes)) e (h p bytes)
read_if-id false read h i p bytes e = e

-- One reading after another.
Holds-then :
    (i : ℕ) (o : Reading) (f : Player × List ℕ → Reading)
    → SameId i o
    → ((p : Player) (bytes : List ℕ) → p.entity_id ≡ i → SameId i (f (p, bytes)))
    → SameId i (o >>= f)
Holds-then i none f s h = tt
Holds-then i (some (p, bytes)) f s h = h p bytes s

read_components-id :
    (mask : ℕ) (p : Player) (bytes : List ℕ) → SameId p.entity_id (read_components mask p bytes)
unfolding read_components
read_components-id mask p bytes =
    Holds-then p.entity_id _ _
      (read_if-id (has_identity mask) read_identity read_identity-id _ p bytes refl)
      (λ p1 bytes1 e1.
        Holds-then p.entity_id _ _
          (read_if-id (has_transform mask) read_transform read_transform-id _ p1 bytes1 e1)
          (λ p2 bytes2 e2.
            Holds-then p.entity_id _ _
              (read_if-id (has_mass mask) read_mass read_mass-id _ p2 bytes2 e2)
              (λ p3 bytes3 e3.
                Holds-then p.entity_id _ _
                  (read_if-id (has_effects mask) read_effects read_effects-id _ p3 bytes3 e3)
                  (λ p4 bytes4 e4.
                    read_if-id (has_stats mask) read_stats read_stats-id _ p4 bytes4 e4))))

finish_reading-Holds :
    (keep : Player → List Player) (i : ℕ) (o : Reading)
    → SameId i o
    → ((p : Player) → p.entity_id ≡ i → ArePlayers (keep p))
    → Holds ArePlayers (finish_reading keep o)
finish_reading-Holds keep i none s h = tt
finish_reading-Holds keep i (some (p, [])) s h = h p s
finish_reading-Holds keep i (some (p, b ∷ bytes)) s h = tt

pub decode_despawn-Holds :
    (h : RecordHeader) (players : List Player) (found : Option Player)
    → ArePlayers players
    → find_player players h.entity_id ≡ found
    → Holds ArePlayers (decode_despawn h players found)
unfolding decode_despawn
decode_despawn-Holds h players none a e = tt
decode_despawn-Holds h players (some p) a e =
    Holds-if ArePlayers (not (h.component_mask == 0) || not (h.size == header_size)) none _ tt
      (record {
        length_le = omega (
          arith,
          a.length_le,
          length-remove players h.entity_id (λ n. none-ne-some p (sym n ∙ e)),
        );
        distinct = Distinct-remove players h.entity_id a.distinct;
      })

pub decode_spawn-Holds :
    (h : RecordHeader) (players : List Player) (found : Option Player) (body : List ℕ)
    → ArePlayers players
    → find_player players h.entity_id ≡ found
    → Holds ArePlayers (decode_spawn h players found body)
unfolding decode_spawn
decode_spawn-Holds h players (some p) body a e = tt
decode_spawn-Holds h players none body a e = elim (Bool-cases (leb max_players (length players))) [
  | inl full ↦ rw full tt
  | inr free ↦ rw free (
      Holds-if ArePlayers (not (h.component_mask == component_all)) none _ tt (
        finish_reading-Holds (λ p. players ++ p ∷ []) h.entity_id _
          (read_components-id h.component_mask (new_player h.entity_id) body)
          (λ p is. record {
            length_le = rw (length-append players (p ∷ [])) (ground (arith, free));
            distinct =
                Distinct-append players p a.distinct
                  (subst (λ i. find_player players i ≡ none) (sym is) e);
          })))
]

pub decode_update-Holds :
    (h : RecordHeader) (players : List Player) (found : Option Player) (body : List ℕ)
    → ArePlayers players
    → find_player players h.entity_id ≡ found
    → Holds ArePlayers (decode_update h players found body)
unfolding decode_update
decode_update-Holds h players none body a e = tt
decode_update-Holds h players (some p) body a e =
    finish_reading-Holds (replace_player players h.entity_id) h.entity_id _
      (subst (λ i. SameId i (read_components h.component_mask p body))
        (find_player-id players h.entity_id p e) (read_components-id h.component_mask p body))
      (λ q is. record {
        length_le = omega (arith, a.length_le, length-replace players h.entity_id q);
        distinct =
            subst (λ i. Distinct (replace_player players i q)) is
              (Distinct-replace players q a.distinct);
      })
