-- ===== src/NetTelemetry/Recent.antt =====
-- What a window counts, by the traffic that was recorded.
use mathlib.Core.Option.{some-injective}
use shroomio.Base.{
  ℕ, zero, suc, ◌+◌, ◌-◌, ◌%◌, ◌≤◌, ◌≡◌, ◌≢◌, refl, sym, ap, ◌∙◌, Bool, true, false, ◌&&◌, ◌||◌,
  not, some, List, [], ◌∷◌, arith, get_elem?, get_or-get_elem?, set, Bool-cases, inl, inr, ltb, leb,
  ◌==◌, if◌then◌else◌, add64, u64_mod,
}
use shroomio.NetTelemetry.{
  PeerTransport, Stats, Bucket, Direction, accepted, sent, dropped, Window, no_stats, fresh_bucket,
  bucket_count, count_in, slot_of, current_bucket,
}
use shroomio.NetTelemetry.ReadWindow.{
  add_stats, add_bucket, add_peer, is_recent, read_buckets, read_peers,
}

-- The number of packets that went one way.
abbrev pub packets_of : Direction → Stats → ℕ
packets_of accepted s = s.accepted.packets
packets_of sent s = s.sent.packets
packets_of dropped s = s.dropped.packets

abbrev pub is_same : Direction → Direction → Bool
is_same accepted accepted = true
is_same sent sent = true
is_same dropped dropped = true
is_same _ _ = false

pub packets_of-count_in :
    (d e : Direction) (bytes : ℕ) (s : Stats)
    → packets_of d (count_in e bytes s) % u64_mod
      ≡ (packets_of d s + (if is_same d e then 1 else 0)) % u64_mod
packets_of-count_in accepted accepted bytes s = omega arith
packets_of-count_in accepted sent bytes s = omega arith
packets_of-count_in accepted dropped bytes s = omega arith
packets_of-count_in sent accepted bytes s = omega arith
packets_of-count_in sent sent bytes s = omega arith
packets_of-count_in sent dropped bytes s = omega arith
packets_of-count_in dropped accepted bytes s = omega arith
packets_of-count_in dropped sent bytes s = omega arith
packets_of-count_in dropped dropped bytes s = omega arith

packets_of-add_stats :
    (d : Direction) (a b : Stats)
    → packets_of d (add_stats a b) ≡ add64 (packets_of d a) (packets_of d b)
packets_of-add_stats accepted a b = refl
packets_of-add_stats sent a b = refl
packets_of-add_stats dropped a b = refl

-- What the buckets of a window hold.
unfoldable pub recent_sum : Direction → ℕ → ℕ → List Bucket → ℕ
recent_sum d current n [] = 0
recent_sum d current n (b ∷ bs) =
    (if is_recent b current n then packets_of d b.totals else 0) + recent_sum d current n bs

add_bucket-packets_of :
    (d : Direction) (w : Window) (b : Bucket) (r : Bool)
    → packets_of d (if r then add_bucket w b else w).totals % u64_mod
      ≡ (packets_of d w.totals + (if r then packets_of d b.totals else 0)) % u64_mod
add_bucket-packets_of d w b true = omega (arith, packets_of-add_stats d w.totals b.totals)
add_bucket-packets_of d w b false = omega arith

pub read_buckets-recent_sum :
    (d : Direction) (current n : ℕ) (w : Window) (bs : List Bucket)
    → packets_of d (read_buckets current n w bs).totals % u64_mod
      ≡ (packets_of d w.totals + recent_sum d current n bs) % u64_mod
unfolding read_buckets recent_sum
read_buckets-recent_sum d current n w [] = omega arith
read_buckets-recent_sum d current n w (b ∷ bs) =
    let r = is_recent b current n in
    let one = add_bucket-packets_of d w b r in
    let more = read_buckets-recent_sum d current n (if r then add_bucket w b else w) bs in
    omega (arith, one, more)

pub read_peers-totals : (w : Window) (ps : List PeerTransport) → (read_peers w ps).totals ≡ w.totals
unfolding read_peers
read_peers-totals w [] = refl
read_peers-totals w (p ∷ ps) = elim (Bool-cases p.active) [
  | inl on ↦ read_peers-totals (if p.active then add_peer w p else w) ps ∙ rw on refl
  | inr off ↦ read_peers-totals (if p.active then add_peer w p else w) ps ∙ rw off refl
]

-- Every bucket that is in use stands in the slot of its epoch, which is not after an epoch.
abbrev pub InSlot : ℕ → ℕ → Bucket → Type 0
InSlot latest i b = b.initialized ≡ true → (slot_of b.epoch ≡ i) × (b.epoch ≤ latest)

abbrev pub InSlots : ℕ → List Bucket → Type 0
InSlots latest bs = (i : ℕ) (b : Bucket) → get_elem? bs i ≡ some b → InSlot latest i b

pub recent_sum-set :
    (d : Direction) (current n : ℕ) (bs : List Bucket) (i : ℕ) (a v : Bucket)
    → get_elem? bs i ≡ some a
    → recent_sum d current n (set bs i v)
        + (if is_recent a current n then packets_of d a.totals else 0)
      ≡ recent_sum d current n bs + (if is_recent v current n then packets_of d v.totals else 0)
unfolding recent_sum
recent_sum-set d current n [] i a v h = cc
recent_sum-set d current n (x ∷ xs) zero a v h =
    let part : Bucket → ℕ = λ b. if is_recent b current n then packets_of d b.totals else 0 in
    let same : part x ≡ part a = ap part (some-injective x a h) in omega (arith, same)
recent_sum-set d current n (x ∷ xs) (suc i) a v h =
    omega (arith, recent_sum-set d current n xs i a v h)

is_recent-outside :
    (b : Bucket) (current n epoch : ℕ)
    → slot_of b.epoch ≡ slot_of epoch
    → b.epoch ≤ epoch
    → b.epoch ≢ epoch
    → epoch ≤ current
    → n ≤ bucket_count
    → is_recent b current n ≡ false
is_recent-outside b current n epoch slot le ne now small = old b.initialized b.epoch slot le ne
  where
    old :
        (i : Bool) (e : ℕ)
        → slot_of e ≡ slot_of epoch
        → e ≤ epoch
        → e ≢ epoch
        → (i && leb e current && ltb (current - e) n) ≡ false
    old i e slot le ne =
        let far : e + bucket_count ≤ epoch = omega (arith, slot, le, ne) in
        ground (arith, far, now, small)

pub packets_of-no_stats : (d : Direction) → packets_of d no_stats ≡ 0
packets_of-no_stats accepted = refl
packets_of-no_stats sent = refl
packets_of-no_stats dropped = refl

-- What a bucket has in a window.
abbrev pub part : Direction → ℕ → ℕ → Bucket → ℕ
part d current n b = if is_recent b current n then packets_of d b.totals else 0

-- The bucket that is recorded in is that of the epoch, and has what the one in the slot had.
pub current_bucket-part :
    (d : Direction) (bs : List Bucket) (epoch current n : ℕ) (a : Bucket)
    → get_elem? bs (slot_of epoch) ≡ some a
    → InSlot epoch (slot_of epoch) a
    → epoch ≤ current
    → n ≤ bucket_count
    → let c = current_bucket bs epoch in
      (c.epoch ≡ epoch)
      × (c.initialized ≡ true)
      × ((if ltb (current - epoch) n then packets_of d c.totals else 0) ≡ part d current n a)
unfolding current_bucket
current_bucket-part d bs epoch current n a there in_slot now small =
    rw (get_or-get_elem? bs (slot_of epoch) (fresh_bucket 0 false) a there)
      (elim (Bool-cases (not a.initialized || not (a.epoch == epoch))) [
        | inl stale ↦ rw stale (refl, refl, nothing (ltb (current - epoch) n) ∙ sym (gone stale))
        | inr same ↦ rw same (
          ground arith,
          ground arith,
          ap (λ r. if r then packets_of d a.totals else 0) (agree a.initialized a.epoch same),
        )
      ])
  where
    nothing : (r : Bool) → (if r then packets_of d no_stats else 0) ≡ 0
    nothing true = packets_of-no_stats d
    nothing false = refl

    idle : (i : Bool) (e : ℕ) → i ≡ false → (i && leb e current && ltb (current - e) n) ≡ false
    idle i e off = ground (arith, off)

    differs : (i : Bool) (e : ℕ) → (not i || not (e == epoch)) ≡ true → i ≡ true → e ≢ epoch
    differs i e h on = λ is. ground (arith, h, on, is)

    gone : (not a.initialized || not (a.epoch == epoch)) ≡ true → part d current n a ≡ 0
    gone stale = elim (Bool-cases a.initialized) [
      | inr off ↦ ap (λ r. if r then packets_of d a.totals else 0) (idle a.initialized a.epoch off)
      | inl on ↦
          ap (λ r. if r then packets_of d a.totals else 0)
            (is_recent-outside a current n epoch (in_slot on).0 (in_slot on).1
              (differs a.initialized a.epoch stale on) now small)
    ]

    agree :
        (i : Bool) (e : ℕ)
        → (not i || not (e == epoch)) ≡ false
        → ltb (current - epoch) n ≡ (i && leb e current && ltb (current - e) n)
    agree i e same = ground (arith, same, now)
