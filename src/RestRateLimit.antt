-- ===== src/RestRateLimit.antt =====
-- src/server/rest_rate_limit.c: the sliding window in front of the account service. A call holds
-- the limiter's lock from its first read to its last write, so calls are steps one after another.
-- A text is the list of its bytes, without the terminator.
pub mod Window
pub mod Search
pub mod Room
pub mod Clients
pub mod Entries
mod Tests
use shroomio.Base.{
  ℕ, suc, ◌+◌, ◌-◌, ◌%◌, Bool, true, false, ◌&&◌, ◌||◌, not, Option, none, some, List, [], ◌∷◌,
  ◌++◌, ltb, leb, ◌==◌, if◌then◌else◌, length, get_elem?, get_or, set, take, replicate, filter_list,
  equal_lists, add64, u32_mod,
}

pub data Route : Type 0 where
  register login refresh authenticated : Route

pub record Result : Type 0 where
  pub allowed : Bool
  pub limit : ℕ
  pub remaining : ℕ
  pub reset_at : ℕ
  pub retry_after : ℕ

-- `attempts` holds the first `attempt_count` elements of the array, the only ones that are read.
pub record Entry : Type 0 where
  pub key : List ℕ
  pub route : Route
  pub attempts : List ℕ
  pub last_seen : ℕ
  pub active : Bool

abbrev pub Limiter : Type 0
Limiter = List Entry

abbrev pub max_keys : ℕ
max_keys = 128

abbrev pub max_attempts : ℕ
max_attempts = 60

abbrev pub key_capacity : ℕ
key_capacity = 64

abbrev pub window_seconds : ℕ
window_seconds = 60

abbrev pub limit_for_route : Route → ℕ
limit_for_route register = 5
limit_for_route login = 5
limit_for_route refresh = 10
limit_for_route authenticated = 60

abbrev pub is_route : Route → Route → Bool
is_route register register = true
is_route login login = true
is_route refresh refresh = true
is_route authenticated authenticated = true
is_route _ _ = false

abbrev pub empty_entry : Entry
empty_entry = record { key = []; route = register; attempts = []; last_seen = 0; active = false }

pub init : Limiter
init = replicate max_keys empty_entry

abbrev pub is_entry_for : List ℕ → Route → Entry → Bool
is_entry_for key route e = e.active && is_route e.route route && equal_lists e.key key

-- The loop of `FindEntry` from index `i` on, with the replacement that it has found so far.
pub data Found : Type 0 where
  match : ℕ → Found
  replace : Option (ℕ × Entry) → Found

abbrev pub better : Entry → Option (ℕ × Entry) → Bool
better e none = true
better e (some (j, r)) = not e.active || ltb e.last_seen r.last_seen

pub search_entry : List ℕ → Route → ℕ → Option (ℕ × Entry) → List Entry → Found
search_entry key route i best [] = replace best
search_entry key route i best (e ∷ es) =
    let rest = search_entry key route (suc i) (if better e best then some (i, e) else best) es in
    if is_entry_for key route e then match i else rest

-- A new entry; the key is cut to the array that holds it.
abbrev pub new_entry : List ℕ → Route → Entry
new_entry key route = record {
  key = take (key_capacity - 1) key;
  route = route;
  attempts = [];
  last_seen = 0;
  active = true;
}

-- `FindEntry`: the limiter after it, and the index of the entry.
pub find_entry : Limiter → List ℕ → Route → Limiter × ℕ
unfolding search_entry
find_entry l key route = elim (search_entry key route 0 none l) [
  | match i ↦ (l, i)
  | replace (some (i, e)) ↦ (set l i (new_entry key route), i)
  | replace none ↦ (l, 0)
]

abbrev pub in_window : ℕ → ℕ → Bool
in_window now at = ltb now (add64 at window_seconds)

-- The first attempt that is kept. Every limit is positive, so where it is read there is one.
abbrev pub first_attempt : List ℕ → ℕ
first_attempt attempts = get_or attempts 0 0

-- What happens to the entry: the attempts in the window are kept, and the new one joins them if the
-- limit allows it.
pub attempt : Entry → ℕ → ℕ → Entry × Result
attempt e limit now =
    let kept = filter_list (in_window now) e.attempts in
    let reset_at = add64 (first_attempt kept) window_seconds in
    if leb limit (length kept)
    then (
      record e { attempts = kept; last_seen = now },
      record {
        allowed = false;
        limit = limit;
        remaining = 0;
        reset_at = reset_at;
        retry_after = if ltb now reset_at then (reset_at - now) % u32_mod else 1;
      },
    )
    else (
      record e { attempts = kept ++ now ∷ []; last_seen = now },
      record {
        allowed = true;
        limit = limit;
        remaining = limit - (length kept + 1);
        reset_at = add64 (first_attempt (kept ++ now ∷ [])) window_seconds;
        retry_after = 0;
      },
    )

abbrev pub refused : ℕ → Result
refused limit = record {
  allowed = false;
  limit = limit;
  remaining = 0;
  reset_at = 0;
  retry_after = 0;
}

-- The entry at the index is changed in place. No key, or an empty one, is refused.
pub check : Limiter → Option (List ℕ) → Route → ℕ → Limiter × Result
check l none route now = (l, refused (limit_for_route route))
check l (some []) route now = (l, refused (limit_for_route route))
check l (some (b ∷ key)) route now =
    let (m, i) = find_entry l (b ∷ key) route in
    elim (get_elem? m i) [
      | none ↦ (m, refused (limit_for_route route))
      | some e ↦ let (d, r) = attempt e (limit_for_route route) now in (set m i d, r)
    ]
