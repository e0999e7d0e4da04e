-- ===== src/Snapshot/Assembly/Slots.antt =====
-- The places for the packets of a frame: what is kept, and when none is missing.
use shroomio.Base.{
  ℕ, zero, suc, ◌<◌, ◌≤◌, ◌≡◌, ◌≢◌, ◌⊎◌, refl, sym, ap, ◌∙◌, Bool, true, false, ◌||◌, ◌&&◌, Option,
  none, some, List, [], ◌∷◌, length, arith, ◌==◌, Bool-cases, inl, inr, get_elem?, take, replicate,
}
use shroomio.Snapshot.Frame.{Packet}
use shroomio.Snapshot.Assembly.{keep_chunk, gather}

-- The packet in a place.
abbrev pub slot : List (Option Packet) → ℕ → Option Packet
slot [] i = none
slot (o ∷ os) zero = o
slot (o ∷ os) (suc i) = slot os i

pub slot-replicate : (n i : ℕ) → slot (replicate n none) i ≡ none
slot-replicate zero i = refl
slot-replicate (suc n) zero = refl
slot-replicate (suc n) (suc i) = slot-replicate n i

pub length-keep_chunk :
    (os : List (Option Packet)) (i : ℕ) (p : Packet) → length (keep_chunk os i p) ≡ length os
unfolding keep_chunk
length-keep_chunk [] i p = refl
length-keep_chunk (none ∷ os) zero p = refl
length-keep_chunk (some q ∷ os) zero p = refl
length-keep_chunk (none ∷ os) (suc i) p = ap suc (length-keep_chunk os i p)
length-keep_chunk (some q ∷ os) (suc i) p = ap suc (length-keep_chunk os i p)

pub slot-keep_chunk_ne :
    (os : List (Option Packet)) (i j : ℕ) (p : Packet)
    → i ≢ j
    → slot (keep_chunk os i p) j ≡ slot os j
unfolding keep_chunk
slot-keep_chunk_ne [] i j p h = refl
slot-keep_chunk_ne (o ∷ os) zero zero p h = absurd (h refl)
slot-keep_chunk_ne (none ∷ os) zero (suc j) p h = refl
slot-keep_chunk_ne (some q ∷ os) zero (suc j) p h = refl
slot-keep_chunk_ne (none ∷ os) (suc i) zero p h = refl
slot-keep_chunk_ne (some q ∷ os) (suc i) zero p h = refl
slot-keep_chunk_ne (none ∷ os) (suc i) (suc j) p h = slot-keep_chunk_ne os i j p (λ e. h (ap suc e))
slot-keep_chunk_ne (some q ∷ os) (suc i) (suc j) p h =
    slot-keep_chunk_ne os i j p (λ e. h (ap suc e))

-- What stands in a place is what was first kept there.
pub slot-keep_chunk_self :
    (os : List (Option Packet)) (i : ℕ) (p : Packet)
    → i < length os
    → (slot os i ≡ none) ⊎ (slot os i ≡ some p)
    → slot (keep_chunk os i p) i ≡ some p
unfolding keep_chunk
slot-keep_chunk_self [] i p h e = absurd (omega arith)
slot-keep_chunk_self (none ∷ os) zero p h e = refl
slot-keep_chunk_self (some q ∷ os) zero p h e = elim e [ inl e1 ↦ cc | inr e1 ↦ e1 ]
slot-keep_chunk_self (none ∷ os) (suc i) p h e = slot-keep_chunk_self os i p (omega arith) e
slot-keep_chunk_self (some q ∷ os) (suc i) p h e = slot-keep_chunk_self os i p (omega arith) e

-- With every packet in its place, the frame is gathered.
pub gather-all :
    (fs : List Packet) (os : List (Option Packet))
    → length fs ≤ length os
    → ((i : ℕ) → i < length fs → slot os i ≡ get_elem? fs i)
    → gather (take (length fs) os) ≡ some fs
unfolding gather
gather-all [] os h e = refl
gather-all (f ∷ fs) [] h e = absurd (omega arith)
gather-all (f ∷ fs) (o ∷ os) h e =
    rw (e 0 (omega arith), gather-all fs os (omega arith) (λ i hi. e (suc i) (omega arith))) refl

-- With one missing, it is not.
pub gather-missing :
    (n : ℕ) (os : List (Option Packet)) (i : ℕ)
    → i < n
    → n ≤ length os
    → slot os i ≡ none
    → gather (take n os) ≡ none
unfolding gather
gather-missing zero os i h hn e = absurd (omega arith)
gather-missing (suc n) [] i h hn e = absurd (omega arith)
gather-missing (suc n) (none ∷ os) i h hn e = refl
gather-missing (suc n) (some p ∷ os) zero h hn e = cc
gather-missing (suc n) (some p ∷ os) (suc i) h hn e =
    rw (gather-missing n os i (omega arith) (omega arith) e) refl

-- Whether a packet is among those that were delivered, by its index, and whether all are.
abbrev pub is_delivered : List Packet → ℕ → Bool
is_delivered [] i = false
is_delivered (p ∷ ps) i = p.chunk_index == i || is_delivered ps i

abbrev pub covers : ℕ → List Packet → Bool
covers zero order = true
covers (suc n) order = is_delivered order n && covers n order

pub covers→delivered :
    (n : ℕ) (order : List Packet) (i : ℕ)
    → covers n order ≡ true
    → i < n
    → is_delivered order i ≡ true
covers→delivered zero order i h hi = absurd (omega arith)
covers→delivered (suc n) order i h hi = elim (Bool-cases (i == n)) [
  | inl e ↦ ground (arith, h, e)
  | inr e ↦ covers→delivered n order i (ground arith) (ground arith)
]

pub covers_false→missing :
    (n : ℕ) (order : List Packet)
    → covers n order ≡ false
    → (i : ℕ) × (i < n) × (is_delivered order i ≡ false)
covers_false→missing zero order h = cc
covers_false→missing (suc n) order h = elim (Bool-cases (is_delivered order n)) [
  | inl e ↦
      let (i, hi, hd) = covers_false→missing n order (sym (ap (λ b. b && covers n order) e) ∙ h) in
      (i, omega arith, hd)
  | inr e ↦ (n, omega arith, e)
]
