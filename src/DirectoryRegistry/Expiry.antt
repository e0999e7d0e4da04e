-- ===== src/DirectoryRegistry/Expiry.antt =====
-- What an eviction leaves.
use shroomio.Base.{
  ℕ, ◌+◌, ◌≡◌, refl, ap, ◌∙◌, Bool, ◌&&◌, leb, map, [], ◌∷◌, arith, count, Bool-cases, inl, inr,
  if◌then◌else◌,
}
use shroomio.DirectoryRegistry.{Registration, Registry}
use shroomio.DirectoryRegistry.Operations.{blank, is_expired, evict_expired}

abbrev pub active_count : Registry → ℕ
active_count = count (λ r. r.active)

-- A listed server that was last heard of fifteen seconds ago or earlier.
abbrev pub is_silent : ℕ → Registration → Bool
is_silent now_ms r = r.active && leb (r.last_seen_ms + 15000) now_ms

abbrev pub without_silent : ℕ → Registration → Registration
without_silent now_ms r = if is_silent now_ms r then blank else r

is_expired-is_silent : (r : Registration) (now_ms : ℕ) → is_expired r now_ms ≡ is_silent now_ms r
is_expired-is_silent r now_ms = ground arith

-- An eviction clears exactly the entries that are active and were last seen fifteen seconds ago or
-- earlier, and none whose last time lies in the future; it leaves every other entry where and as it
-- is. The number that it gives back is that of the entries it cleared, which are so many fewer active
-- ones.
pub evict_expired-count :
    (l : Registry) (now_ms : ℕ)
    → let (m, evicted) = evict_expired l now_ms in
      (m ≡ map (without_silent now_ms) l)
      × (evicted ≡ count (is_silent now_ms) l)
      × (active_count m + evicted ≡ active_count l)
unfolding evict_expired
evict_expired-count [] now = (refl, refl, refl)
evict_expired-count (r ∷ rs) now =
    let (rest, number, sum) = evict_expired-count rs now in
    let same = is_expired-is_silent r now in
    elim (Bool-cases (is_silent now r)) [
      | inl old ↦
          rw (same ∙ old, old)
            (ap (λ m. blank ∷ m) rest, omega (arith, number), ground (arith, old, sum))
      | inr young ↦
          rw (same ∙ young, young) (ap (λ m. r ∷ m) rest, omega (arith, number), omega (arith, sum))
    ]
