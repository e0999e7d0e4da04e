-- ===== src/DirectoryRegistry/Listing.antt =====
-- What the registry lists, after any calls.
use shroomio.Base.{
  ℕ, zero, suc, ◌≤◌, ◌≡◌, ◌≢◌, inl, inr, refl, sym, ◌∙◌, Bool, true, false, ◌&&◌, ◌||◌, not, Option,
  none, some, List, [], ◌∷◌, arith, length, get_elem?, set, All, All-set, All-get, All-replicate,
  Bool-cases, ltb, leb, ◌==◌, if◌then◌else◌, equal_lists, equal_lists→eq,
}
use mathlib.Core.Path.{ap₂}
use shroomio.DirectoryRegistry.{
  Server, Registration, Registry, Heartbeat, max_clients, max_entries, host_length,
  endpoint_matches, stable_endpoint_id, validate_and_clamp, is_refused, clamp, is_valid_host,
  is_printable_text,
}
use shroomio.DirectoryRegistry.Operations.{
  blank, init, Matches, no_matches, find_matches, is_stale, target, clear_moved, put, place,
  is_heartbeat, observed, register, is_expired, evict_expired,
}
use shroomio.DirectoryRegistry.Unique.{Unique, OnlyAt, Unique-set, target-OnlyAt}

-- An entry as `ValidateAndClampEntry` leaves it.
abbrev pub IsListed : Registration → Type 0
IsListed r =
    r.active ≡ true
    → (r.server.server_id ≡ stable_endpoint_id r.server.host r.server.port)
      × (r.server.player_count ≤ r.server.capacity)
      × (r.server.capacity ≤ max_clients)
      × (r.server.port ≢ 0)

abbrev pub IsValid : Registry → Type 0
IsValid l = All IsListed l × Unique l

idle-Unique : (l : Registry) → All (λ r. r.active ≡ false) l → Unique l
idle-Unique l idle i j a b ga gb aa ab same =
    absurd (apart (sym (All-get (λ r. r.active ≡ false) l i a idle ga) ∙ aa))
  where
    apart : ◌≡◌ {A = Bool} false true → ⊥
    apart e = cc

blank-IsListed : IsListed blank
blank-IsListed = λ on. cc

init-IsValid : IsValid init
init-IsValid = (
  All-replicate IsListed max_entries blank blank-IsListed,
  idle-Unique init (All-replicate (λ r. r.active ≡ false) max_entries blank refl),
)

set-blank-IsValid : (l : Registry) (j : ℕ) → IsValid l → IsValid (set l j blank)
set-blank-IsValid l j v =
    (All-set IsListed l j blank v.0 blank-IsListed, Unique-set l j blank v.1 (λ on. cc))

get-set-blank :
    (l : Registry) (j q : ℕ) (b : Registration)
    → get_elem? (set l j blank) q ≡ some b
    → b.active ≡ true
    → get_elem? l q ≡ some b
get-set-blank [] j q b h on = h
get-set-blank (x ∷ xs) zero zero b h on = cc (h, on)
get-set-blank (x ∷ xs) zero (suc q) b h on = h
get-set-blank (x ∷ xs) (suc j) zero b h on = h
get-set-blank (x ∷ xs) (suc j) (suc q) b h on = get-set-blank xs j q b h on

-- Dropping an entry keeps the registry valid, and adds none.
clear_moved-IsValid :
    (l : Registry) (a b : Option ℕ) (id i : ℕ)
    → IsValid l
    → OnlyAt l id i
    → IsValid (clear_moved l a b) × OnlyAt (clear_moved l a b) id i
clear_moved-IsValid l none b id i v only = (v, only)
clear_moved-IsValid l (some k) none id i v only = (v, only)
clear_moved-IsValid l (some k) (some j) id i v only = elim (Bool-cases (k == j)) [
  | inl same ↦ rw same (v, only)
  | inr other ↦
      rw other
        (set-blank-IsValid l j v, λ q b there on. only q b (get-set-blank l j q b there on) on)
]

put-IsValid :
    (l : Registry) (o : Option ℕ) (s : Matches) (e : Server) (now : ℕ)
    → IsValid l
    → ((i : ℕ) → o ≡ some i → OnlyAt l e.server_id i)
    → IsListed (record { server = e; last_seen_ms = now; active = true })
    → IsValid (put l o s e now).0
put-IsValid l none s e now v only listed = v
put-IsValid l (some i) s e now v only listed =
    let r : Registration = record { server = e; last_seen_ms = now; active = true } in
    let m : Registry = clear_moved l s.id_match s.endpoint_match in
    let (w, only_m) =
      clear_moved-IsValid l s.id_match s.endpoint_match e.server_id i v (only i refl) in
    (All-set IsListed m i r w.0 listed, Unique-set m i r w.1 (λ on. only_m))

place-IsValid :
    (l : Registry) (e : Server) (now : ℕ)
    → IsValid l
    → IsListed (record { server = e; last_seen_ms = now; active = true })
    → IsValid (place l e now).0
unfolding place
place-IsValid l e now v listed =
    let s = find_matches e 0 l no_matches in
    elim (Bool-cases (is_stale l s.id_match now || is_stale l s.endpoint_match now)) [
      | inl stale ↦ rw stale v
      | inr fresh ↦
          rw fresh (put-IsValid l (target s) s e now v (λ i h. target-OnlyAt l e i v.1 h) listed)
    ]

clamp-IsListed :
    (e : Server) (now : ℕ)
    → e.server_id ≡ stable_endpoint_id e.host e.port
    → is_refused e ≡ false
    → IsListed (record { server = clamp e; last_seen_ms = now; active = true })
clamp-IsListed e now id fine =
    let ((port, players), small) =
      facts (e.server_id == 0) (not (is_printable_text false e.name))
        (not (is_valid_host e.host host_length)) e.port e.capacity e.player_count fine in
    λ on. (id, least players small, most, port)
  where
    facts :
        (a b c : Bool) (port capacity players : ℕ)
        → (a
            || b
            || c
            || port == 0
            || capacity == 0
            || ltb capacity players
            || ltb max_clients players)
          ≡ false
        → ((port ≢ 0) × (players ≤ capacity)) × (players ≤ max_clients)
    facts a b c port capacity players h = (((λ z. ground arith), ground arith), ground arith)

    least :
        e.player_count ≤ e.capacity
        → e.player_count ≤ max_clients
        → e.player_count ≤ (if ltb max_clients e.capacity then max_clients else e.capacity)
    least a b = ground arith

    most : (if ltb max_clients e.capacity then max_clients else e.capacity) ≤ max_clients
    most = ground arith

register-IsValid :
    (l : Registry) (o : Option Heartbeat) (size : ℕ) (host : Option (List ℕ)) (now : ℕ)
    → IsValid l
    → IsValid (register l o size host now).0
unfolding register validate_and_clamp
register-IsValid l none size host now v = v
register-IsValid l (some h) size none now v = v
register-IsValid l (some h) size (some host) now v =
    elim (Bool-cases (not (is_heartbeat h size) || leb host_length (length host))) [
      | inl bad ↦ rw bad v
      | inr good ↦ rw good (elim (Bool-cases (is_refused (observed h.server host))) [
        | inl refused ↦ rw refused v
        | inr fine ↦ rw fine (
            place-IsValid l (clamp (observed h.server host)) now v
              (clamp-IsListed (observed h.server host) now refl fine))
      ])
    ]

evict_expired-get :
    (l : Registry) (now i : ℕ) (a : Registration)
    → get_elem? (evict_expired l now).0 i ≡ some a
    → a.active ≡ true
    → get_elem? l i ≡ some a
unfolding evict_expired
evict_expired-get [] now i a = λ h on. h
evict_expired-get (r ∷ rs) now zero a = elim (Bool-cases (is_expired r now)) [
  | inl old ↦ rw old (λ h on. cc (h, on))
  | inr young ↦ rw young (λ h on. h)
]
evict_expired-get (r ∷ rs) now (suc i) a = elim (Bool-cases (is_expired r now)) [
  | inl old ↦ rw old (λ h on. evict_expired-get rs now i a h on)
  | inr young ↦ rw young (λ h on. evict_expired-get rs now i a h on)
]

evict_expired-All : (l : Registry) (now : ℕ) → All IsListed l → All IsListed (evict_expired l now).0
unfolding evict_expired
evict_expired-All [] now all = all
evict_expired-All (r ∷ rs) now all = elim (Bool-cases (is_expired r now)) [
  | inl old ↦ rw old (blank-IsListed, evict_expired-All rs now all.1)
  | inr young ↦ rw young (all.0, evict_expired-All rs now all.1)
]

evict_expired-IsValid : (l : Registry) (now : ℕ) → IsValid l → IsValid (evict_expired l now).0
evict_expired-IsValid l now v = (
  evict_expired-All l now v.0,
  λ i j a b ga gb aa ab same.
      v.1 i j a b (evict_expired-get l now i a ga aa) (evict_expired-get l now j b gb ab) aa ab
        same,
)

pub data Call : Type 0 where
  registers : Option Heartbeat → ℕ → Option (List ℕ) → ℕ → Call
  evicts : ℕ → Call

unfoldable pub run : Registry → List Call → Registry
run l [] = l
run l (registers o size host now ∷ cs) = run (register l o size host now).0 cs
run l (evicts now ∷ cs) = run (evict_expired l now).0 cs

run_from-IsValid : (l : Registry) (cs : List Call) → IsValid l → IsValid (run l cs)
unfolding run
run_from-IsValid l [] v = v
run_from-IsValid l (registers o size host now ∷ cs) v =
    run_from-IsValid (register l o size host now).0 cs (register-IsValid l o size host now v)
run_from-IsValid l (evicts now ∷ cs) v =
    run_from-IsValid (evict_expired l now).0 cs (evict_expired-IsValid l now v)

-- Whatever packets register servers, and whenever entries are evicted, every active entry of the
-- registry has the id of its endpoint, no more players than its capacity, which is at most that of
-- a server, and a port; and no two active entries have the same id, nor the same endpoint.
pub run-Listed :
    (cs : List Call)
    → IsValid (run init cs)
      × ((i j : ℕ) (a b : Registration)
          → get_elem? (run init cs) i ≡ some a
          → get_elem? (run init cs) j ≡ some b
          → a.active ≡ true
          → b.active ≡ true
          → endpoint_matches a.server b.server ≡ true
          → i ≡ j)
run-Listed cs =
    let v = run_from-IsValid init cs init-IsValid in
    (
      v,
      λ i j a b ga gb aa ab same.
          let (port, host) = endpoint a b same in
          v.1 i j a b ga gb aa ab (
            (All-get IsListed (run init cs) i a v.0 ga aa).0
            ∙ ap₂ stable_endpoint_id host port
            ∙ sym (All-get IsListed (run init cs) j b v.0 gb ab).0),
    )
  where
    both : (x y : ℕ) (b : Bool) → (x == y && b) ≡ true → (x ≡ y) × (b ≡ true)
    both x y b h = (ground arith, ground arith)

    endpoint :
        (a b : Registration)
        → endpoint_matches a.server b.server ≡ true
        → (a.server.port ≡ b.server.port) × (a.server.host ≡ b.server.host)
    endpoint a b same =
        let (port, host) =
          both a.server.port b.server.port (equal_lists a.server.host b.server.host) same in
        (port, equal_lists→eq a.server.host b.server.host host)
