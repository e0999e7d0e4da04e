-- ===== src/Snapshot/Assembly/Order.antt =====
-- The packets of a frame may arrive in any order, and more than once.
use shroomio.Base.{
  ℕ, zero, suc, ◌<◌, ◌≤◌, ◌≡◌, refl, sym, ap, subst, ◌∙◌, Bool, true, false, ◌||◌, ◌&&◌, not, none,
  some, List, [], ◌∷◌, length, arith, ◌==◌, if◌then◌else◌, get_elem?, take, All,
}
use shroomio.Snapshot.{max_chunks}
use shroomio.Snapshot.Frame.{Packet, History}
use shroomio.Snapshot.Frame.Encode.{Parameters}
use shroomio.Snapshot.Assembly.{
  Assembly, pending, is_malformed, is_older, starts_new, begin, matches, gather, receive, push,
  complete_if, finish, apply_chunks,
}
use shroomio.Snapshot.Assembly.Slots.{
  gather-all, gather-missing, covers, covers→delivered, covers_false→missing,
}
use shroomio.Snapshot.Assembly.Frames.{
  IsFrame, Collecting, Chunk-well_formed, Collecting-matches, begin-Collecting, Collecting-keep,
}

-- Packets that are pushed one after another, the last one first, each of which leaves the frame
-- pending.
pub data Collects (h : History) : Assembly → List Packet → Assembly → Type 0 where
  nothing : {a : Assembly} → Collects h a [] a
  then_push :
      {a b d : Assembly} {ps : List Packet} (p : Packet)
      → Collects h a ps b
      → push b p p.size h ≡ (pending, d, h)
      → Collects h a (p ∷ ps) d

-- Before the first packet of a frame, and after some of them.
pub data Ready (c : Parameters) (fs : List Packet) : List Packet → Assembly → Type 0 where
  fresh : {a : Assembly} → starts_new a c.metadata.tick ≡ true → Ready c fs [] a
  begun : {ps : List Packet} {a : Assembly} → Collecting c fs ps a → Ready c fs ps a

-- A packet of the frame.
abbrev pub IsOf : List Packet → Packet → Type 0
IsOf fs p = get_elem? fs p.chunk_index ≡ some p

get_elem?-lt : (fs : List Packet) (i : ℕ) (p : Packet) → get_elem? fs i ≡ some p → i < length fs
get_elem?-lt [] i p h = cc
get_elem?-lt (f ∷ fs) zero p h = omega arith
get_elem?-lt (f ∷ fs) (suc i) p h = omega (arith, get_elem?-lt fs i p h)

not_older :
    (active same newer : Bool)
    → (not active || not same && (not same && newer)) ≡ true
    → (active && not same && not (not same && newer)) ≡ false
not_older active same newer h = ground arith

starts_new-is_older : (a : Assembly) (tick : ℕ) → starts_new a tick ≡ true → is_older a tick ≡ false
unfolding starts_new is_older
starts_new-is_older a tick h = not_older a.active (tick == a.tick) _ h

same_tick :
    (a : Assembly) (tick : ℕ)
    → a.active ≡ true
    → a.tick ≡ tick
    → (is_older a tick ≡ false) × (starts_new a tick ≡ false)
unfolding starts_new is_older
same_tick a tick ha ht = ground (arith, ha, ht)

push-new :
    (a : Assembly) (p : Packet) (h : History)
    → is_malformed p p.size ≡ false
    → starts_new a p.metadata.tick ≡ true
    → push a p p.size h ≡ receive (begin p) h p
unfolding push
push-new a p h hm hs = rw (hm, starts_new-is_older a p.metadata.tick hs, hs) refl

push-more :
    (a : Assembly) (p : Packet) (h : History)
    → is_malformed p p.size ≡ false
    → a.active ≡ true
    → a.tick ≡ p.metadata.tick
    → matches a p ≡ true
    → push a p p.size h ≡ receive a h p
unfolding push
push-more a p h hm ha ht hk =
    let (older, new) = same_tick a p.metadata.tick ha ht in rw (hm, older, new, hk) refl

-- The next packet of the frame is kept, whatever else was delivered.
push-Ready :
    (c : Parameters) (fs ps : List Packet) (a : Assembly) (p : Packet) (h : History)
    → IsFrame c fs
    → Ready c fs ps a
    → IsOf fs p
    → (d : Assembly) × Collecting c fs (p ∷ ps) d
      × (push a p p.size h ≡ complete_if d h (gather (take d.chunk_count d.chunks)))
push-Ready c fs [] a p h f (fresh new) of =
    let k = f.chunk p.chunk_index p of in
    let lt = get_elem?-lt fs p.chunk_index p of in
    let good =
      Chunk-well_formed c (length fs) p.chunk_index p k lt f.chunks_le f.players_le f.baseline in
    (
      _,
      Collecting-keep c fs [] (begin p) p.chunk_index p (begin-Collecting c fs p.chunk_index p k) k
          (omega (arith, f.chunks_le)) of,
      push-new a p h good (subst (λ m. starts_new a m.tick ≡ true) (sym k.metadata_eq) new),
    )
push-Ready c fs ps a p h f (begun s) of =
    let k = f.chunk p.chunk_index p of in
    let lt = get_elem?-lt fs p.chunk_index p of in
    let good =
      Chunk-well_formed c (length fs) p.chunk_index p k lt f.chunks_le f.players_le f.baseline in
    (
      _,
      Collecting-keep c fs ps a p.chunk_index p s k (omega (arith, f.chunks_le)) of,
      push-more a p h good s.is_active (s.tick_eq ∙ sym (ap (λ m. m.tick) k.metadata_eq))
          (Collecting-matches c fs ps a p.chunk_index p s k),
    )

gather-Collecting_all :
    (c : Parameters) (fs ps : List Packet) (d : Assembly)
    → Collecting c fs ps d
    → length fs ≤ max_chunks
    → covers (length fs) ps ≡ true
    → gather (take d.chunk_count d.chunks) ≡ some fs
gather-Collecting_all c fs ps d s small all =
    subst (λ n. gather (take n d.chunks) ≡ some fs) (sym s.count_eq)
      (gather-all fs d.chunks (omega (arith, s.places)) (λ i hi.
        s.slots i
        ∙ ap (λ b. if b then get_elem? fs i else none) (covers→delivered (length fs) ps i all hi)))

gather-Collecting_missing :
    (c : Parameters) (fs ps : List Packet) (d : Assembly)
    → Collecting c fs ps d
    → length fs ≤ max_chunks
    → covers (length fs) ps ≡ false
    → gather (take d.chunk_count d.chunks) ≡ none
gather-Collecting_missing c fs ps d s small all =
    let (i, hi, hd) = covers_false→missing (length fs) ps all in
    subst (λ n. gather (take n d.chunks) ≡ none) (sym s.count_eq)
      (gather-missing (length fs) d.chunks i hi (omega (arith, s.places))
        (s.slots i ∙ ap (λ b. if b then get_elem? fs i else none) hd))

covers-cons :
    (n : ℕ) (p : Packet) (ps : List Packet) → covers n ps ≡ true → covers n (p ∷ ps) ≡ true
covers-cons zero p ps h = refl
covers-cons (suc n) p ps h = ground (arith, h, covers-cons n p ps)

covers-tail :
    (n : ℕ) (p : Packet) (ps : List Packet) → covers n (p ∷ ps) ≡ false → covers n ps ≡ false
covers-tail n p ps h = ground (arith, h, covers-cons n p ps)

-- As long as some packet is missing, every push leaves the frame pending.
collect :
    (c : Parameters) (fs ps : List Packet) (a : Assembly) (h : History)
    → IsFrame c fs
    → starts_new a c.metadata.tick ≡ true
    → All (IsOf fs) ps
    → covers (length fs) ps ≡ false
    → (b : Assembly) × Collects h a ps b × Ready c fs ps b
collect c fs [] a h f new of missing = (a, nothing, fresh new)
collect c fs (p ∷ ps) a h f new of missing =
    let (b, before, ready) =
      collect c fs ps a h f new of.1 (covers-tail (length fs) p ps missing) in
    let (d, collecting, pushed) = push-Ready c fs ps b p h f ready of.0 in
    let none_yet = gather-Collecting_missing c fs (p ∷ ps) d collecting f.chunks_le missing in
    (d, then_push p before (pushed ∙ ap (complete_if d h) none_yet), begun collecting)

-- The push that leaves no packet missing applies the frame.
pub push-last :
    (c : Parameters) (fs ps : List Packet) (p : Packet) (a : Assembly) (h : History)
    → IsFrame c fs
    → starts_new a c.metadata.tick ≡ true
    → All (IsOf fs) (p ∷ ps)
    → covers (length fs) ps ≡ false
    → covers (length fs) (p ∷ ps) ≡ true
    → (b d : Assembly) × Collects h a ps b
      × (push b p p.size h ≡ finish d h (apply_chunks h fs))
      × (d.metadata ≡ c.metadata)
push-last c fs ps p a h f new of missing all =
    let (b, before, ready) = collect c fs ps a h f new of.1 missing in
    let (d, collecting, pushed) = push-Ready c fs ps b p h f ready of.0 in
    let everything = gather-Collecting_all c fs (p ∷ ps) d collecting f.chunks_le all in
    (b, d, before, pushed ∙ ap (complete_if d h) everything, collecting.metadata_eq)
