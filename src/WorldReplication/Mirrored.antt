-- ===== src/WorldReplication/Mirrored.antt =====
-- What it is for a client to have what the server has told it of, and the world as the two loops of
-- ShroomWorldReplicationBuild see it.
use shroomio.Base.{ℕ, suc, ◌+◌, ◌≤◌, ◌≡◌, refl, ap, Bool, List, [], ◌∷◌, length}
use shroomio.WorldReplication.{Spore, Powerup, max_spores, max_powerups, spore_equal, powerup_equal}
use shroomio.WorldReplication.Table.{find_entity}
use shroomio.WorldReplication.Build.{
  World, WorldSpore, WorldPowerup, Peer, see_spores, see_powerups, spore_record, powerup_record,
}
use shroomio.WorldReplication.Apply.{Client, spore_of, powerup_of}
use shroomio.WorldReplication.Lookup.{Distinct}
use shroomio.WorldReplication.Follow.{Mirrors, told, Apart, new_count}
use shroomio.WorldReplication.Delta

abbrev pub spore_id : Spore → ℕ
spore_id s = s.entity_id

abbrev pub powerup_id : Powerup → ℕ
powerup_id p = p.entity_id

-- The client has what the server has told it of, and nothing else; an id stands once.
pub record Mirrored (c : Client) (peer : Peer) : Type 0 where
  pub spores :
      (i : ℕ)
      → Mirrors spore_equal
          (told (λ s. s.entity_id) peer.spores i)
          (find_entity (λ s. s.entity_id) c.spores i)
  pub powerups :
      (i : ℕ)
      → Mirrors powerup_equal
          (told (λ p. p.entity_id) peer.powerups i)
          (find_entity (λ p. p.entity_id) c.powerups i)
  pub spores_distinct : Distinct (λ s. s.entity_id) c.spores
  pub powerups_distinct : Distinct (λ p. p.entity_id) c.powerups

-- The arrays of the world and of the peer are as long, an id belongs to one index, and the client has
-- room for what is new.
pub record IsTellable (is_near : ℕ → ℕ → Bool) (peer : Peer) (world : World) (c : Client)
    : Type 0 where
  pub spores_length : length world.spores ≡ length peer.spores
  pub powerups_length : length world.powerups ≡ length peer.powerups
  pub spores_apart :
      Apart (λ s. s.entity_id) (see_spores is_near world.spore_count 0 world.spores) peer.spores
  pub powerups_apart :
      Apart
        (λ p. p.entity_id)
        (see_powerups is_near world.powerup_count 0 world.powerups)
        peer.powerups
  pub spores_room :
      length c.spores
        + new_count
            (λ s. s.entity_id)
            (see_spores is_near world.spore_count 0 world.spores)
            peer.spores
      ≤ max_spores
  pub powerups_room :
      length c.powerups
        + new_count
            (λ p. p.entity_id)
            (see_powerups is_near world.powerup_count 0 world.powerups)
            peer.powerups
      ≤ max_powerups

pub length-see_spores :
    (is_near : ℕ → ℕ → Bool) (n i : ℕ) (ws : List WorldSpore)
    → length (see_spores is_near n i ws) ≡ length ws
unfolding see_spores
length-see_spores is_near n i [] = refl
length-see_spores is_near n i (w ∷ ws) = ap suc (length-see_spores is_near n (suc i) ws)

pub length-see_powerups :
    (is_near : ℕ → ℕ → Bool) (n i : ℕ) (ws : List WorldPowerup)
    → length (see_powerups is_near n i ws) ≡ length ws
unfolding see_powerups
length-see_powerups is_near n i [] = refl
length-see_powerups is_near n i (w ∷ ws) = ap suc (length-see_powerups is_near n (suc i) ws)

pub spores-Faithful :
    (is_near : ℕ → ℕ → Bool) (n i : ℕ) (ws : List WorldSpore)
    → Delta.Faithful spore_id spore_equal spore_record spore_of max_spores
        (see_spores is_near n i ws)
unfolding see_spores
spores-Faithful is_near n i [] = tt
spores-Faithful is_near n i (w ∷ ws) = ((λ operation. refl), spores-Faithful is_near n (suc i) ws)

pub powerups-Faithful :
    (is_near : ℕ → ℕ → Bool) (n i : ℕ) (ws : List WorldPowerup)
    → Delta.Faithful powerup_id powerup_equal powerup_record powerup_of max_powerups
        (see_powerups is_near n i ws)
unfolding see_powerups
powerups-Faithful is_near n i [] = tt
powerups-Faithful is_near n i (w ∷ ws) =
    ((λ operation. refl), powerups-Faithful is_near n (suc i) ws)

pub spore-Carries : Delta.Carries spore_id spore_equal spore_record spore_of max_spores
spore-Carries = record { operation_eq = λ o i x. refl; entity_id_eq = λ o i x. refl }

pub powerup-Carries : Delta.Carries powerup_id powerup_equal powerup_record powerup_of max_powerups
powerup-Carries = record { operation_eq = λ o i x. refl; entity_id_eq = λ o i x. refl }
