-- ===== src/WorldReplication/Parts.antt =====
-- What a batch of ShroomWorldReplicationBuild is made of.
use shroomio.Base.{
  ℕ, ◌≡◌, refl, sym, ap, ◌∙◌, Bool, true, false, none, some, ◌++◌, if◌then◌else◌, Bool-cases, inl,
  inr,
}
use mathlib.Core.Option.{none-ne-some, some-injective}
use shroomio.WorldReplication.{Spore, Powerup}
use shroomio.WorldReplication.Build.{Built, Peer, Batch, finish}

-- What the two loops leave, when both had room.
pub record Parts (peer2 : Peer) (batch : Batch) (keyframe : Bool) (spores : Built Spore)
    (powerups : Built Powerup) : Type 0 where
  pub spores_fit : spores.fits ≡ true
  pub powerups_fit : powerups.fits ≡ true
  pub spores_eq : peer2.spores ≡ spores.slots
  pub powerups_eq : peer2.powerups ≡ powerups.slots
  pub records_eq : batch.records ≡ spores.records ++ powerups.records
  pub keyframe_eq : batch.keyframe ≡ keyframe

module _ (peer : Peer) (tick : ℕ) (keyframe : Bool) (spores : Built Spore)
    (powerups : Built Powerup) where
  finish-short :
      spores.fits ≡ false
      → finish peer tick keyframe spores powerups ≡ (record peer { spores = spores.slots }, none)
  finish-short e = rw e refl

  finish-shorter :
      spores.fits ≡ true
      → powerups.fits ≡ false
      → finish peer tick keyframe spores powerups
        ≡ (record peer { spores = spores.slots; powerups = powerups.slots }, none)
  finish-shorter e f = rw (e, f) refl

  finish-fits :
      spores.fits ≡ true
      → powerups.fits ≡ true
      → finish peer tick keyframe spores powerups ≡ (
        record {
          initialized = true;
          last_keyframe_tick = if keyframe then tick else peer.last_keyframe_tick;
          spores = spores.slots;
          powerups = powerups.slots;
        },
        some (record {
          tick = tick;
          records = spores.records ++ powerups.records;
          keyframe = keyframe;
        }),
      )
  finish-fits e f = rw (e, f) refl

pub finish-Parts :
    (peer peer2 : Peer) (batch : Batch) (tick : ℕ) (keyframe : Bool) (spores : Built Spore)
    (powerups : Built Powerup)
    → finish peer tick keyframe spores powerups ≡ (peer2, some batch)
    → Parts peer2 batch keyframe spores powerups
finish-Parts peer peer2 batch tick keyframe spores powerups e = elim (Bool-cases spores.fits) [
  | inr short ↦ absurd (
      none-ne-some batch
        (ap (λ r. r.1) (sym (finish-short peer tick keyframe spores powerups short) ∙ e)))
  | inl fit ↦ elim (Bool-cases powerups.fits) [
    | inr short ↦ absurd (
        none-ne-some batch
          (ap (λ r. r.1) (sym (finish-shorter peer tick keyframe spores powerups fit short) ∙ e)))
    | inl fit2 ↦
        let both = sym (finish-fits peer tick keyframe spores powerups fit fit2) ∙ e in
        let same_peer = ap (λ r. r.0) both in
        let same_batch = some-injective _ batch (ap (λ r. r.1) both) in
        record {
          spores_fit = fit;
          powerups_fit = fit2;
          spores_eq = sym (ap (λ p. p.spores) same_peer);
          powerups_eq = sym (ap (λ p. p.powerups) same_peer);
          records_eq = sym (ap (λ b. b.records) same_batch);
          keyframe_eq = sym (ap (λ b. b.keyframe) same_batch);
        }
  ]
]
