-- ===== src/RestRateLimit/Clients.antt =====
-- The requests of several clients, and what one of them leaves.
use mathlib.Core.Bool.{true≢false}
use mathlib.Core.Option.{some-injective}
use mathlib.Core.Path.{ap₂}
use shroomio.Base.{
  ℕ, zero, suc, ◌≡◌, filter_list, refl, sym, ap, subst, ◌∙◌, Bool, true, false, ◌&&◌, none, some,
  List, [], ◌∷◌, map, arith, length, get_elem?, set, count-set, equal_lists, equal_lists→eq, leb,
  if◌then◌else◌, Bool-cases, inl, inr,
}
use shroomio.RestRateLimit.{
  Route, register, login, refresh, authenticated, Entry, Result, Limiter, limit_for_route, is_route,
  is_entry_for, in_window, find_entry, attempt, check,
}
use shroomio.RestRateLimit.Window.{Agrees}
use shroomio.RestRateLimit.Search.{FirstAt, search-FirstAt, get-FirstAt, set-FirstAt}
use shroomio.RestRateLimit.Room.{Client, entries_of, HasRoom, set-HasRoom}

-- A request of some client.
pub record Request : Type 0 where
  pub key : List ℕ
  pub route : Route
  pub at : ℕ

abbrev pub is_client : List ℕ → Route → Request → Bool
is_client key route q = is_route q.route route && equal_lists q.key key

-- What a client is told, of the requests of all clients, and the times of its own.
unfoldable pub results : Limiter → List ℕ → Route → List Request → List Result
results l key route [] = []
results l key route (q ∷ qs) =
    let (m, r) = check l (some q.key) q.route q.at in
    let rest = results m key route qs in if is_client key route q then r ∷ rest else rest

abbrev pub times : List ℕ → Route → List Request → List ℕ
times key route qs = map (λ q. q.at) (filter_list (is_client key route) qs)

pub find_entry-FirstAt :
    (l : Limiter) (key : List ℕ) (route : Route) (j : ℕ) (e : Entry)
    → FirstAt key route l j e
    → find_entry l key route ≡ (l, j)
unfolding find_entry
find_entry-FirstAt l key route j e h =
    rw (search-FirstAt key route 0 none l j e h, find_entry) (ap (λ k. (l, k)) (omega arith))

-- An attempt leaves whose entry it is.
attempt-client :
    (key : List ℕ) (route : Route) (e : Entry) (limit now : ℕ)
    → is_entry_for key route (attempt e limit now).0 ≡ is_entry_for key route e
unfolding attempt
attempt-client key route e limit now =
    elim (Bool-cases (leb limit (length (filter_list (in_window now) e.attempts)))) [
      | inl full ↦ rw full
      | inr room ↦ rw room
    ]

pub FirstAt-is :
    (key : List ℕ) (route : Route) (es : List Entry) (j : ℕ) (e : Entry)
    → FirstAt key route es j e
    → is_entry_for key route e ≡ true
FirstAt-is key route [] j e h = absurd h
FirstAt-is key route (x ∷ xs) zero e h = subst (λ y. is_entry_for key route y ≡ true) h.0 h.1
FirstAt-is key route (x ∷ xs) (suc j) e h = FirstAt-is key route xs j e h.1

-- A call for the client of an entry is an attempt at that entry, which stays the client's.
check-FirstAt :
    (l m : Limiter) (b : ℕ) (key : List ℕ) (route : Route) (now j : ℕ) (e : Entry)
    → find_entry l (b ∷ key) route ≡ (m, j)
    → FirstAt (b ∷ key) route m j e
    → let (d, r) = attempt e (limit_for_route route) now in
      (check l (some (b ∷ key)) route now ≡ (set m j d, r))
      × FirstAt (b ∷ key) route (set m j d) j d
unfolding check
check-FirstAt l m b key route now j e found h = (
  rw (found, check) (rw (get-FirstAt (b ∷ key) route m j e h) (rw found)),
  set-FirstAt (b ∷ key) route m j e (attempt e (limit_for_route route) now).0 h (
      attempt-client (b ∷ key) route e (limit_for_route route) now
      ∙ FirstAt-is (b ∷ key) route m j e h),
)

attempt-active : (e : Entry) (limit now : ℕ) → (attempt e limit now).0.active ≡ e.active
unfolding attempt
attempt-active e limit now =
    elim (Bool-cases (leb limit (length (filter_list (in_window now) e.attempts)))) [
      | inl full ↦ rw full refl
      | inr room ↦ rw room refl
    ]

active_of :
    (key : List ℕ) (route : Route) (e : Entry) → is_entry_for key route e ≡ true → e.active ≡ true
active_of key route e h = ground arith

pub is_route→eq : (r s : Route) → is_route r s ≡ true → r ≡ s
is_route→eq register register h = refl
is_route→eq login login h = refl
is_route→eq refresh refresh h = refl
is_route→eq authenticated authenticated h = refl
is_route→eq register login h = cc
is_route→eq register refresh h = cc
is_route→eq register authenticated h = cc
is_route→eq login register h = cc
is_route→eq login refresh h = cc
is_route→eq login authenticated h = cc
is_route→eq refresh register h = cc
is_route→eq refresh login h = cc
is_route→eq refresh authenticated h = cc
is_route→eq authenticated register h = cc
is_route→eq authenticated login h = cc
is_route→eq authenticated refresh h = cc

-- An entry of one client is another's exactly if they are the same.
pub is_entry_for-other :
    (ks : List ℕ) (r : Route) (key : List ℕ) (route : Route) (e : Entry)
    → is_entry_for ks r e ≡ true
    → is_entry_for key route e ≡ (is_route r route && equal_lists ks key)
is_entry_for-other ks r key route e h =
    ap₂ (λ a s. a && is_route s route && equal_lists e.key key) on (is_route→eq e.route r to)
    ∙ ap (λ k. is_route r route && equal_lists k key) (equal_lists→eq e.key ks same)
  where
    on : e.active ≡ true
    on = ground arith

    to : is_route e.route r ≡ true
    to = ground arith

    same : equal_lists e.key ks ≡ true
    same = ground arith

-- The client has no entry, and no request of it was allowed; or it has one, which agrees with the log
-- of the requests that were.
pub data Standing (key : List ℕ) (route : Route) (start : ℕ) (log : List ℕ) (l : Limiter)
    : Type 0 where
  absent : log ≡ [] → entries_of (key, route) l ≡ 0 → Standing key route start log l
  present :
      (j : ℕ) (e : Entry)
      → FirstAt key route l j e
      → Agrees start e log
      → Standing key route start log l

-- What a request does to the limiter, before the attempt and with it.
pub record Made (clients : List Client) (l : Limiter) (b : ℕ) (ks : List ℕ) (r : Route) (now : ℕ)
    (m : Limiter) (j : ℕ) (e : Entry) : Type 0 where
  pub told :
      check l (some (b ∷ ks)) r now
      ≡ (set m j (attempt e (limit_for_route r) now).0, (attempt e (limit_for_route r) now).1)
  pub first :
      FirstAt
        (b ∷ ks)
        r
        (set m j (attempt e (limit_for_route r) now).0)
        j
        (attempt e (limit_for_route r) now).0
  pub is_new : is_entry_for (b ∷ ks) r (attempt e (limit_for_route r) now).0 ≡ true
  pub room : HasRoom clients (set m j (attempt e (limit_for_route r) now).0)

pub made :
    (clients : List Client) (l m : Limiter) (b : ℕ) (ks : List ℕ) (r : Route) (now j : ℕ)
    (e : Entry)
    → find_entry l (b ∷ ks) r ≡ (m, j)
    → FirstAt (b ∷ ks) r m j e
    → HasRoom clients m
    → Made clients l b ks r now m j e
made clients l m b ks r now j e found first room =
    let (told_, first_) = check-FirstAt l m b ks r now j e found first in
    let on = active_of (b ∷ ks) r e (FirstAt-is (b ∷ ks) r m j e first) in
    record {
      told = told_;
      first = first_;
      is_new =
          attempt-client (b ∷ ks) r e (limit_for_route r) now ∙ FirstAt-is (b ∷ ks) r m j e first;
      room =
          set-HasRoom clients m j e (attempt e (limit_for_route r) now).0
            (get-FirstAt (b ∷ ks) r m j e first) on (attempt-active e (limit_for_route r) now ∙ on)
            (λ c. attempt-client c.0 c.1 e (limit_for_route r) now) room;
    }

-- A change of an entry that is not the client's.
set-other :
    (key : List ℕ) (route : Route) (es : List Entry) (i j : ℕ) (e x d : Entry)
    → get_elem? es j ≡ some x
    → is_entry_for key route x ≡ false
    → is_entry_for key route d ≡ false
    → FirstAt key route es i e
    → FirstAt key route (set es j d) i e
set-other key route [] i j e x d at old new h = h
set-other key route (y ∷ ys) zero zero e x d at old new h = absurd (
    true≢false
      (sym h.1 ∙ subst (λ z. is_entry_for key route z ≡ false) (sym (some-injective y x at)) old))
set-other key route (y ∷ ys) zero (suc j) e x d at old new h = h
set-other key route (y ∷ ys) (suc i) zero e x d at old new h = (new, h.1)
set-other key route (y ∷ ys) (suc i) (suc j) e x d at old new h =
    (h.0, set-other key route ys i j e x d at old new h.1)

pub set-Standing :
    (key : List ℕ) (route : Route) (start : ℕ) (log : List ℕ) (l : Limiter) (j : ℕ) (x d : Entry)
    → get_elem? l j ≡ some x
    → is_entry_for key route x ≡ false
    → is_entry_for key route d ≡ false
    → Standing key route start log l
    → Standing key route start log (set l j d)
set-Standing key route start log l j x d at old new (absent none_ no_entry) =
    absent none_ (ground (arith, no_entry, old, new, count-set (is_entry_for key route) l j x d at))
set-Standing key route start log l j x d at old new (present i e first agrees) =
    present i e (set-other key route l i j e x d at old new first) agrees
