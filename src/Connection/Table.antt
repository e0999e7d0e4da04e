-- ===== src/Connection/Table.antt =====
-- The table: the number of active connections is the number of slots in use.
use shroomio.Base.{
  ℕ, zero, suc, ◌+◌, ◌-◌, ◌≤◌, ◌<◌, ◌≡◌, refl, sym, subst, ap, ◌∙◌, Bool, true, false, not, Option,
  none, some, List, [], ◌∷◌, inl, inr, arith, count, length, get_elem?, count-set, length-set,
  count-le-length, Bool-cases, Option-cases, u32_mod, if◌then◌else◌, replicate, length-replicate,
}
use shroomio.Connection.{
  connecting, Connection, Manager, is_disconnected, init, add, remove, get_available_slot, no_slot,
  slot, store, claim, get_active_count, release, reset, first_free, zeroed,
}

abbrev pub in_use : Connection → Bool
in_use c = not (is_disconnected c.state)

-- The number of slots in use, read off the table itself.
abbrev pub used : Manager → ℕ
used m = elim m.connections [ none ↦ 0 | some cs ↦ count in_use cs ]

abbrev pub room : Manager → ℕ
room m = elim m.connections [ none ↦ m.max_connections | some cs ↦ length cs ]

pub record IsValid (m : Manager) : Type 0 where
  pub counted : m.active_connections ≡ used m
  pub sized : room m ≡ m.max_connections
  pub word : m.max_connections < u32_mod

count-replicate : (n : ℕ) → count in_use (replicate n zeroed) ≡ 0
unfolding zeroed
count-replicate zero = refl
count-replicate (suc n) = omega (arith, count-replicate n)

-- A new table is valid, whether or not its memory was found.
pub init-IsValid : (found : Bool) (max : ℕ) → max < u32_mod → IsValid (init found max)
unfolding init
init-IsValid found max h = ground (arith, count-replicate max, length-replicate max zeroed)

-- The weight of a connection in the count.
abbrev weight : Connection → ℕ
weight c = if in_use c then 1 else 0

record Stored (m n : Manager) (c d : Connection) : Type 0 where
  pub balance : used n + weight c ≡ used m + weight d
  pub room : room n ≡ room m
  pub max : n.max_connections ≡ m.max_connections
  pub active : n.active_connections ≡ m.active_connections

store-Stored :
    (m : Manager) (i : ℕ) (c d : Connection) → slot m i ≡ some c → Stored m (store m i d) c d
unfolding store slot
store-Stored m i c d e = elim (Option-cases m.connections) [
  | inl empty ↦ cc (rw empty at e)
  | inr (cs, there) ↦ ground (arith, count-set in_use cs i c d, length-set cs i d)
]

used-le-room : (m : Manager) → used m ≤ room m
used-le-room m = elim (Option-cases m.connections) [
  | inl empty ↦ ground arith
  | inr (cs, there) ↦ rw there (count-le-length in_use cs)
]

abbrev claimed : ℕ → Connection → Connection
claimed i c = record (reset c) { peer_id = i; state = connecting }

claim-IsValid :
    (m : Manager) (i : ℕ) (c : Connection) → IsValid m → slot m i ≡ some c → IsValid (claim m i c).0
unfolding claim
claim-IsValid m i c v e =
    ground (arith, store-Stored m i c (claimed i c) e, used-le-room (store m i (claimed i c)))

release-IsValid :
    (m : Manager) (i : ℕ) (c : Connection) → IsValid m → slot m i ≡ some c → IsValid (release m i c)
unfolding release reset zeroed
release-IsValid m i c v e = ground (arith, store-Stored m i c (reset c) e)

-- `ShroomConnectionManagerAdd` keeps the table valid on every branch.
pub add-IsValid : (m : Manager) (i : ℕ) → IsValid m → IsValid (add m i).0
unfolding add
add-IsValid m i v = elim (Option-cases (slot m i)) [
  | inl empty ↦ rw (empty, add) v
  | inr (c, there) ↦ rw (there, add) (claim-IsValid m i c v there)
]

pub remove-IsValid : (m : Manager) (i : ℕ) → IsValid m → IsValid (remove m i)
unfolding remove
remove-IsValid m i v = elim (Option-cases (slot m i)) [
  | inl empty ↦ rw (empty, remove) v
  | inr (c, there) ↦ rw (there, remove) (release-IsValid m i c v there)
]

-- What a server does with its table.
pub data Call : Type 0 where
  adds removes : ℕ → Call

unfoldable pub run : Manager → List Call → Manager
run m [] = m
run m (adds i ∷ cs) = run (add m i).0 cs
run m (removes i ∷ cs) = run (remove m i) cs

run-IsValid : (m : Manager) (cs : List Call) → IsValid m → IsValid (run m cs)
unfolding run
run-IsValid m [] v = v
run-IsValid m (adds i ∷ cs) v = run-IsValid (add m i).0 cs (add-IsValid m i v)
run-IsValid m (removes i ∷ cs) v = run-IsValid (remove m i) cs (remove-IsValid m i v)

-- After any history of additions and removals, of any peers, the count that the manager reports is
-- the number of slots in use, and at most the size of the table; also where no memory was found.
pub run-counted :
    (found : Bool) (max : ℕ) (cs : List Call)
    → max < u32_mod
    → let m = run (init found max) cs in
      (get_active_count (some m) ≡ used m) × (get_active_count (some m) ≤ m.max_connections)
unfolding get_active_count
run-counted found max cs h =
    let v = run-IsValid (init found max) cs (init-IsValid found max h) in
    (v.counted, omega (arith, v.counted, v.sized, used-le-room (run (init found max) cs)))

-- The loop of `GetAvailableSlot` stops at the first free slot, if there is one.
abbrev Found : ℕ → List Connection → Option ℕ → Type 0
Found i cs none = count in_use cs ≡ length cs
Found i cs (some j) =
    (i ≤ j)
    × (j < i + length cs)
    × ((c : Connection) × (get_elem? cs (j - i) ≡ some c) × (is_disconnected c.state ≡ true))

Found-next :
    (i : ℕ) (c : Connection) (cs : List Connection) (o : Option ℕ)
    → is_disconnected c.state ≡ false
    → Found (suc i) cs o
    → Found i (c ∷ cs) o
Found-next i c cs none h f = ground arith
Found-next i c cs (some j) h (low, high, there) =
    let back : j - i ≡ suc (j - suc i) = omega arith in (omega arith, omega arith, rw back there)

first_free-Found : (i : ℕ) (cs : List Connection) → Found i cs (first_free i cs)
unfolding first_free
first_free-Found i [] = refl
first_free-Found i (c ∷ cs) = elim (Bool-cases (is_disconnected c.state)) [
  | inl free ↦
      rw free
        (let here : i - i ≡ 0 = omega arith in (omega arith, omega arith, rw here (c, refl, free)))
  | inr taken ↦
      rw taken (Found-next i c cs (first_free (suc i) cs) taken (first_free-Found (suc i) cs))
]

-- What `GetAvailableSlot` promises: no slot, and then there
-- is no table or every slot is in use, or a slot that is free, at
-- which an addition succeeds.
pub data Offers (m : Manager) (i : ℕ) : Type 0 where
  missing : i ≡ no_slot → m.connections ≡ none → Offers m i
  full : i ≡ no_slot → used m ≡ room m → Offers m i
  free : i < m.max_connections → (add m i).1 ≡ some i → Offers m i

add-free :
    (m : Manager) (i : ℕ) (c : Connection)
    → slot m i ≡ some c
    → is_disconnected c.state ≡ true
    → (add m i).1 ≡ some i
unfolding add claim
add-free m i c e h = rw (e, add) (rw h)

slot-there :
    (m : Manager) (i : ℕ) (cs : List Connection)
    → m.connections ≡ some cs
    → i < m.max_connections
    → slot m i ≡ get_elem? cs i
unfolding slot
slot-there m i cs e h = ground arith

Offers-Found :
    (m : Manager) (cs : List Connection) (o : Option ℕ)
    → m.connections ≡ some cs
    → IsValid m
    → Found 0 cs o
    → Offers m (elim o [ none ↦ no_slot | some i ↦ i ])
Offers-Found m cs none e v f = full refl (rw e f)
Offers-Found m cs (some i) e v (low, high, (c, there, idle)) =
    let inside : i < m.max_connections = ground arith in
    let same : i ≡ i - 0 = omega arith in
    free inside (add-free m i c (slot-there m i cs e inside ∙ ap (get_elem? cs) same ∙ there) idle)

answer-there :
    (m : Manager) (cs : List Connection)
    → m.connections ≡ some cs
    → get_available_slot m ≡ (elim (first_free 0 cs) [ none ↦ no_slot | some i ↦ i ])
unfolding get_available_slot
answer-there m cs e = rw e

-- `ShroomConnectionManagerGetAvailableSlot` answers UINT32_MAX only where no slot is free, or
-- there is no memory, and any other answer is a slot of the table that an addition then gets.
pub get_available_slot-Offers : (m : Manager) → IsValid m → Offers m (get_available_slot m)
unfolding get_available_slot
get_available_slot-Offers m v = elim (Option-cases m.connections) [
  | inl empty ↦ missing (rw empty) empty
  | inr (cs, there) ↦
      subst (Offers m) (sym (answer-there m cs there))
        (Offers-Found m cs (first_free 0 cs) there v (first_free-Found 0 cs))
]
