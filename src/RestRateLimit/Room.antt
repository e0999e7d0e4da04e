-- ===== src/RestRateLimit/Room.antt =====
-- An entry for every client: a limiter that serves no more clients than it has entries.
use shroomio.Base.{
  ℕ, zero, suc, ◌+◌, ◌≤◌, ◌<◌, ◌≡◌, refl, ap, Bool, true, false, none, some, List, [], ◌∷◌, ◌==◌,
  arith, length, get_elem?, set, count, count-set, All, All-set, Bool-cases, inl, inr,
}
use shroomio.RestRateLimit.{
  Route, Entry, Limiter, is_entry_for, new_entry, find_entry, key_capacity,
}
use shroomio.RestRateLimit.Search.{
  search_entry-Free, FirstAt-exists, FirstAt-new, is_free, FirstAt, search-FirstAt,
  is_entry_for-new,
}

-- The clients that a limiter knows no entry for, and the entries that are free.
abbrev pub Client : Type 0
Client = List ℕ × Route

abbrev pub entries_of : Client → Limiter → ℕ
entries_of c = count (is_entry_for c.0 c.1)

abbrev pub unknown : Limiter → Client → Bool
unknown l c = entries_of c l == 0

-- There is a free entry for every client that has none yet, and a free entry is as it was cleared.
pub record HasRoom (clients : List Client) (l : Limiter) : Type 0 where
  pub enough : count (unknown l) clients ≤ count is_free l
  pub cleared : All (λ e. e.active ≡ false → e.last_seen ≡ 0) l

abbrev pub IsAmong : Client → List Client → Type 0
IsAmong c clients = (k : ℕ) × (get_elem? clients k ≡ some c)

count_mono :
    {A : Type 0} (p q : A → Bool) (xs : List A)
    → ((x : A) → p x ≡ true → q x ≡ true)
    → count p xs ≤ count q xs
count_mono p q [] h = omega arith
count_mono p q (x ∷ xs) h = ground (arith, h x, count_mono p q xs h)

count_mono_lt :
    {A : Type 0} (p q : A → Bool) (xs : List A) (k : ℕ) (a : A)
    → ((x : A) → p x ≡ true → q x ≡ true)
    → get_elem? xs k ≡ some a
    → p a ≡ false
    → q a ≡ true
    → count p xs + 1 ≤ count q xs
count_mono_lt p q [] k a h at hp hq = ground arith
count_mono_lt p q (x ∷ xs) zero a h at hp hq = ground (arith, count_mono p q xs h)
count_mono_lt p q (x ∷ xs) (suc k) a h at hp hq =
    ground (arith, h x, count_mono_lt p q xs k a h at hp hq)

-- What `FindEntry` gives back: the client's entry as it is, or a new one in place of a free one.
pub data Obtains (l : Limiter) (c : Client) : Type 0 where
  kept : (j : ℕ) (e : Entry) → find_entry l c.0 c.1 ≡ (l, j) → FirstAt c.0 c.1 l j e → Obtains l c
  taken :
      (j : ℕ) (x : Entry)
      → find_entry l c.0 c.1 ≡ (set l j (new_entry c.0 c.1), j)
      → get_elem? l j ≡ some x
      → x.active ≡ false
      → entries_of c l ≡ 0
      → FirstAt c.0 c.1 (set l j (new_entry c.0 c.1)) j (new_entry c.0 c.1)
      → Obtains l c

pub find_entry-Obtains :
    (clients : List Client) (l : Limiter) (c : Client)
    → HasRoom clients l
    → IsAmong c clients
    → length c.0 < key_capacity
    → Obtains l c
unfolding find_entry
find_entry-Obtains clients l c room (k, among) short = elim (Bool-cases (unknown l c)) [
  | inr known ↦
      let (j, e, first) = FirstAt-exists c.0 c.1 l (ground (arith, known)) in
      kept j e
        (rw (search-FirstAt c.0 c.1 0 none l j e first, find_entry)
          (ap (λ i. (l, i)) (omega arith)))
        first
  | inl new ↦
      let absent : entries_of c l ≡ 0 = ground (arith, new) in
      let some_free : 0 < count is_free l = omega (
        arith,
        count_mono_lt (λ d. false) (unknown l) clients k c (λ d h. cc) among refl new,
        room.enough,
      ) in
      let f = search_entry-Free c.0 c.1 0 none l absent room.cleared (inr some_free) in
      elim (f.origin) [
        | inl nothing ↦ cc
        | inr (j, at, there) ↦
            let same : f.at ≡ j = omega (arith, at) in
            taken j f.entry
              (rw (f.found, find_entry) (ap (λ i. (set l i (new_entry c.0 c.1), i)) same)) there
              f.free absent
              (FirstAt-new c.0 c.1 l j f.entry (new_entry c.0 c.1) absent there
                (is_entry_for-new c.0 c.1 short))
      ]
]

-- Two entries of the same client, if of any.
abbrev pub SameClient : Entry → Entry → Type 0
SameClient e d = (c : Client) → is_entry_for c.0 c.1 d ≡ is_entry_for c.0 c.1 e

-- A change of an entry in use leaves room.
pub set-HasRoom :
    (clients : List Client) (l : Limiter) (j : ℕ) (e d : Entry)
    → get_elem? l j ≡ some e
    → e.active ≡ true
    → d.active ≡ true
    → SameClient e d
    → HasRoom clients l
    → HasRoom clients (set l j d)
set-HasRoom clients l j e d at on on' same room = record {
  enough = omega (
    arith,
    room.enough,
    count_mono (unknown (set l j d)) (unknown l) clients
        (λ c h. ground (arith, h, same c, count-set (is_entry_for c.0 c.1) l j e d at)),
    left,
  );
  cleared =
      All-set (λ x. x.active ≡ false → x.last_seen ≡ 0) l j d room.cleared (λ off. cc (on', off));
}
  where
    left : count is_free (set l j d) ≡ count is_free l
    left = ground (arith, count-set is_free l j e d at, on, on')

-- So does a new entry for a client that had none, in place of a free one.
pub take-HasRoom :
    (clients : List Client) (l : Limiter) (j : ℕ) (x d : Entry) (c : Client)
    → IsAmong c clients
    → get_elem? l j ≡ some x
    → x.active ≡ false
    → entries_of c l ≡ 0
    → d.active ≡ true
    → is_entry_for c.0 c.1 d ≡ true
    → HasRoom clients l
    → HasRoom clients (set l j d)
take-HasRoom clients l j x d c (k, among) at off absent on new room = record {
  enough = omega (arith, room.enough, left, fewer);
  cleared =
      All-set (λ y. y.active ≡ false → y.last_seen ≡ 0) l j d room.cleared (λ free. cc (on, free));
}
  where
    left : count is_free (set l j d) + 1 ≡ count is_free l
    left = ground (arith, count-set is_free l j x d at, off, on)

    fewer : count (unknown (set l j d)) clients + 1 ≤ count (unknown l) clients
    fewer =
        count_mono_lt (unknown (set l j d)) (unknown l) clients k c
          (λ b h. ground (arith, h, off, count-set (is_entry_for b.0 b.1) l j x d at)) among
          (ground (arith, new, count-set (is_entry_for c.0 c.1) l j x d at))
          (ground (arith, absent))
