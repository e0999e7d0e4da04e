-- ===== src/NetTelemetry/Log.antt =====
-- A window against a log of the traffic.
use shroomio.Base.{
  ℕ, ◌+◌, ◌-◌, ◌/◌, ◌%◌, ◌≤◌, ◌≡◌, refl, sym, ap, ◌∙◌, Bool, true, false, ◌&&◌, some, List, [], ◌∷◌,
  arith, length, get_elem?-some, get_elem?-set_cases, set, replicate, length-set, length-replicate,
  All, All-get, All-replicate, inl, inr, ltb, leb, if◌then◌else◌, u64_mod,
}
use shroomio.NetTelemetry.{
  Bucket, Direction, Telemetry, fresh_bucket, reset, bucket_count, bucket_ms, slot_of,
  current_bucket, count_bucket, record_traffic, type_index,
}
use shroomio.NetTelemetry.ReadWindow.{
  empty_window, is_recent, read_buckets, window_buckets, read_window,
}
use shroomio.NetTelemetry.Recent.{
  packets_of, is_same, packets_of-count_in, packets_of-no_stats, read_buckets-recent_sum,
  read_peers-totals, recent_sum, recent_sum-set, InSlot, InSlots, part, current_bucket-part,
}

-- A call of one of the three functions that record traffic.
pub record Event : Type 0 where
  pub direction : Direction
  pub peer_index : ℕ
  pub channel : ℕ
  pub type : ℕ
  pub bytes : ℕ
  pub now_ms : ℕ

abbrev pub recorded : Telemetry → Event → Telemetry
recorded t e = record_traffic t e.peer_index e.channel e.type e.bytes e.now_ms e.direction

unfoldable pub run : Telemetry → List Event → Telemetry
run t [] = t
run t (e ∷ es) = run (recorded t e) es

-- The events of a log that went one way in the epochs of a window.
abbrev pub in_window : Direction → ℕ → ℕ → Event → Bool
in_window d current n e = ltb (current - e.now_ms / bucket_ms) n && is_same d e.direction

unfoldable pub counted : Direction → ℕ → ℕ → List Event → ℕ
counted d current n [] = 0
counted d current n (e ∷ es) = (if in_window d current n e then 1 else 0) + counted d current n es

-- The times do not go back, from one time to another.
abbrev pub Ordered : ℕ → List Event → ℕ → Type 0
Ordered start [] now_ms = start ≤ now_ms
Ordered start (e ∷ es) now_ms = (start ≤ e.now_ms) × Ordered e.now_ms es now_ms

Ordered-le : (start : ℕ) (es : List Event) (now : ℕ) → Ordered start es now → start ≤ now
Ordered-le start [] now o = o
Ordered-le start (e ∷ es) now o = omega (arith, Ordered-le e.now_ms es now o.1, o.0)

-- What the buckets need to be, at an epoch.
abbrev IsValid : ℕ → Telemetry → Type 0
IsValid latest t = (length t.buckets ≡ bucket_count) × InSlots latest t.buckets

recorded-recent_sum :
    (d : Direction) (t : Telemetry) (e : Event) (latest current n : ℕ)
    → IsValid latest t
    → latest ≤ e.now_ms / bucket_ms
    → e.now_ms / bucket_ms ≤ current
    → n ≤ bucket_count
    → IsValid (e.now_ms / bucket_ms) (recorded t e)
      × (recent_sum d current n (recorded t e).buckets % u64_mod
          ≡ (recent_sum d current n t.buckets + (if in_window d current n e then 1 else 0))
            % u64_mod)
unfolding record_traffic
recorded-recent_sum d t e latest current n v le now small =
    let epoch = e.now_ms / bucket_ms in
    let slot = slot_of epoch in
    let c = current_bucket t.buckets epoch in
    let b = count_bucket e.direction e.bytes e.channel (type_index e.type) c in
    let (a, there) = get_elem?-some t.buckets slot (omega (arith, v.0)) in
    let old : InSlot epoch slot a =
      λ on. let (s, l) = v.1 slot a there on in (s, omega (arith, l, le)) in
    let (c_epoch, c_on, c_part) =
      current_bucket-part d t.buckets epoch current n a there old now small in
    let moved = recent_sum-set d current n t.buckets slot a b there in
    let more = packets_of-count_in d e.direction e.bytes c.totals in
    let recent : is_recent b current n ≡ ltb (current - epoch) n =
      is_now c.initialized c.epoch c_on c_epoch in
    (
      (
        length-set t.buckets slot b ∙ v.0,
        λ i k got on. elim (get_elem?-set_cases t.buckets slot i b k got) [
          | inl (i_is, k_is) ↦
              let k_epoch : k.epoch ≡ epoch = ap (λ y. y.epoch) k_is ∙ c_epoch in
              (ap slot_of k_epoch ∙ sym i_is, omega (arith, k_epoch))
          | inr before ↦ let (s, l) = v.1 i k before on in (s, omega (arith, l, le))
        ],
      ),
      combine (ltb (current - epoch) n) (is_same d e.direction) (packets_of d c.totals)
          (packets_of d b.totals) (recent_sum d current n t.buckets)
          (recent_sum d current n (set t.buckets slot b)) (part d current n a)
          (moved
            ∙ ap (λ r. recent_sum d current n t.buckets + (if r then packets_of d b.totals else 0))
                recent)
          c_part more,
    )
  where
    is_now :
        (i : Bool) (k : ℕ)
        → i ≡ true
        → k ≡ e.now_ms / bucket_ms
        → (i && leb k current && ltb (current - k) n) ≡ ltb (current - e.now_ms / bucket_ms) n
    is_now i k on is = rw on (rw is (inner (e.now_ms / bucket_ms) now))
      where
        inner : (m : ℕ) → m ≤ current → (leb m current && ltb (current - m) n) ≡ ltb (current - m) n
        inner m h = ground (arith, h)

    combine :
        (r same : Bool) (pc pb before after old : ℕ)
        → after + old ≡ before + (if r then pb else 0)
        → (if r then pc else 0) ≡ old
        → pb % u64_mod ≡ (pc + (if same then 1 else 0)) % u64_mod
        → after % u64_mod ≡ (before + (if r && same then 1 else 0)) % u64_mod
    combine true true pc pb before after old sum was more = omega arith
    combine true false pc pb before after old sum was more = omega arith
    combine false same pc pb before after old sum was more = omega arith

run-recent_sum :
    (d : Direction) (t : Telemetry) (latest start now n : ℕ) (es : List Event)
    → IsValid latest t
    → latest ≤ start / bucket_ms
    → Ordered start es now
    → n ≤ bucket_count
    → recent_sum d (now / bucket_ms) n (run t es).buckets % u64_mod
      ≡ (recent_sum d (now / bucket_ms) n t.buckets + counted d (now / bucket_ms) n es) % u64_mod
unfolding run counted
run-recent_sum d t latest start now n [] v le o small = omega arith
run-recent_sum d t latest start now n (e ∷ es) v le o small =
    let (w, one) =
      recorded-recent_sum d t e latest (now / bucket_ms) n v (omega (arith, o.0, le))
        (omega (arith, Ordered-le e.now_ms es now o.1)) small in
    let more =
      run-recent_sum d (recorded t e) (e.now_ms / bucket_ms) e.now_ms now n es w (omega arith) o.1
        small in
    omega (arith, one, more)

recent_sum-idle :
    (d : Direction) (current n : ℕ) (bs : List Bucket)
    → All (λ b. b.initialized ≡ false) bs
    → recent_sum d current n bs ≡ 0
unfolding recent_sum
recent_sum-idle d current n [] idle = refl
recent_sum-idle d current n (b ∷ bs) idle =
    rw (idle.0) (omega (arith, recent_sum-idle d current n bs idle.1))

reset-recent_sum : (d : Direction) (current n : ℕ) → recent_sum d current n reset.buckets ≡ 0
unfolding reset
reset-recent_sum d current n =
    recent_sum-idle d current n (replicate bucket_count (fresh_bucket 0 false))
      (All-replicate (λ b. b.initialized ≡ false) bucket_count (fresh_bucket 0 false) refl)

reset-IsValid : IsValid 0 reset
unfolding reset
reset-IsValid = (
  length-replicate bucket_count (fresh_bucket 0 false),
  λ i b there on. absurd (
      apart (
        sym (
          All-get (λ b. b.initialized ≡ false) (replicate bucket_count (fresh_bucket 0 false)) i b
            reset-idle there)
        ∙ on)),
)
  where
    reset-idle : All (λ b. b.initialized ≡ false) (replicate bucket_count (fresh_bucket 0 false))
    reset-idle = All-replicate (λ b. b.initialized ≡ false) bucket_count (fresh_bucket 0 false) refl

    apart : ◌≡◌ {A = Bool} false true → ⊥
    apart e = cc

-- If the times of the calls that record traffic do not go back, the packets that a window counts
-- one way are, as a 64-bit number, those recorded that way since the first of its epochs of a
-- tenth of a second: as many as its length covers, the current one with them, and at most twenty.
-- Nothing older is counted, and nothing recorded in them is lost.
pub read_window-counted :
    (d : Direction) (es : List Event) (now_ms window_ms : ℕ)
    → Ordered 0 es now_ms
    → packets_of d (read_window (some (run reset es)) now_ms window_ms).totals % u64_mod
      ≡ counted d (now_ms / bucket_ms) (window_buckets window_ms) es % u64_mod
unfolding read_window
read_window-counted d es now window o =
    let current = now / bucket_ms in
    let n = window_buckets window in
    let t = run reset es in
    let w = read_buckets current n empty_window t.buckets in
    let sum = read_buckets-recent_sum d current n empty_window t.buckets in
    let runs = run-recent_sum d reset 0 0 now n es reset-IsValid (omega arith) o (omega arith) in
    let start : recent_sum d current n reset.buckets ≡ 0 = reset-recent_sum d current n in
    ap (λ s. packets_of d s % u64_mod) (read_peers-totals w t.peer_transport)
    ∙ omega (arith, sum, packets_of-no_stats d, runs, start)
