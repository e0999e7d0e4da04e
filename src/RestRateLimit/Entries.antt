-- ===== src/RestRateLimit/Entries.antt =====
-- What one client of several is told.
use mathlib.Core.Path.{ap₂}
use shroomio.Base.{
  ℕ, zero, suc, ◌+◌, ◌-◌, ◌≤◌, ◌<◌, ◌≡◌, ◌≢◌, ◌++◌, All, All-get, All-replicate, refl, sym, ap,
  subst, ◌∙◌, true, false, ◌&&◌, some, List, [], ◌∷◌, map, arith, length, set, count,
  count-le-length, equal_lists, equal_lists→eq, ltb, if◌then◌else◌, Bool-cases, inl, inr,
}
use shroomio.RestRateLimit.{
  Route, Entry, Result, Limiter, limit_for_route, is_route, in_window, empty_entry, init, new_entry,
  find_entry, attempt, check, max_keys, key_capacity,
}
use shroomio.RestRateLimit.Window.{
  answer, answers, rule, Fits, answers-rule, attempt_lem, Agrees, Agrees-later, Ordered,
}
use shroomio.RestRateLimit.Search.{FirstAt, get-FirstAt}
use shroomio.RestRateLimit.Room.{
  Client, entries_of, unknown, HasRoom, IsAmong, kept, taken, find_entry-Obtains, take-HasRoom,
}
use shroomio.RestRateLimit.Clients.{
  Request, is_client, results, times, find_entry-FirstAt, FirstAt-is, is_route→eq,
  is_entry_for-other, Standing, absent, present, made, set-Standing,
}

FirstAt-entries :
    (key : List ℕ) (route : Route) (es : List Entry) (j : ℕ) (e : Entry)
    → FirstAt key route es j e
    → entries_of (key, route) es ≢ 0
FirstAt-entries key route [] j e h = absurd h
FirstAt-entries key route (x ∷ xs) zero e h = ground (arith, h.1)
FirstAt-entries key route (x ∷ xs) (suc j) e h =
    λ none_. FirstAt-entries key route xs j e h.1 (omega (arith, none_))

module _ (clients : List Client) (short : All (λ c. length c.0 < key_capacity) clients) (b : ℕ)
    (key : List ℕ) (route : Route) where
  -- A request of another client.
  other-step :
      (l : Limiter) (ks : List ℕ) (r : Route) (now start : ℕ) (log : List ℕ)
      → IsAmong (ks, r) clients
      → (is_route r route && equal_lists ks (b ∷ key)) ≡ false
      → HasRoom clients l
      → Standing (b ∷ key) route start log l
      → let m = (check l (some ks) r now).0 in
        HasRoom clients m × Standing (b ∷ key) route start log m
  unfolding check
  other-step l [] r now start log among other room s = (room, s)
  other-step l (k ∷ ks) r now start log (i, among) other room s =
      elim (find_entry-Obtains clients l (k ∷ ks, r) room (i, among)
        (All-get (λ c. length c.0 < key_capacity) clients i (k ∷ ks, r) short among)) [
          | kept j e found first ↦
              let d = made clients l l k ks r now j e found first room in
              let is_old = FirstAt-is (k ∷ ks) r l j e first in
              subst (λ o. HasRoom clients o.0 × Standing (b ∷ key) route start log o.0) (sym d.told)
                (
                  d.room,
                  set-Standing (b ∷ key) route start log l j e _
                      (get-FirstAt (k ∷ ks) r l j e first)
                      (is_entry_for-other (k ∷ ks) r (b ∷ key) route e is_old ∙ other)
                      (is_entry_for-other (k ∷ ks) r (b ∷ key) route
                          (attempt e (limit_for_route r) now).0 d.is_new
                        ∙ other)
                      s,
                )
          | taken j x found at off no_entry first ↦
              let e = new_entry (k ∷ ks) r in
              let m = set l j e in
              let is_old = FirstAt-is (k ∷ ks) r m j e first in
              let with_entry =
                take-HasRoom clients l j x e (k ∷ ks, r) (i, among) at off no_entry refl is_old
                  room in
              let d = made clients l m k ks r now j e found first with_entry in
              let mine = is_entry_for-other (k ∷ ks) r (b ∷ key) route e is_old ∙ other in
              subst (λ o. HasRoom clients o.0 × Standing (b ∷ key) route start log o.0) (sym d.told)
                (
                  d.room,
                  set-Standing (b ∷ key) route start log m j e _
                      (get-FirstAt (k ∷ ks) r m j e first) mine
                      (is_entry_for-other (k ∷ ks) r (b ∷ key) route
                          (attempt e (limit_for_route r) now).0 d.is_new
                        ∙ other)
                      (set-Standing (b ∷ key) route start log l j x e at (ground (arith, off)) mine
                        s),
                )
        ]

  -- What a request of the client itself leads to, by the rule.
  abbrev Answered : ℕ → List ℕ → Limiter × Result → Type 0
  Answered now log o =
      let limit = limit_for_route route in
      let recent = count (in_window now) log in
      let ok = ltb recent limit in
      HasRoom clients o.0
      × (answer o.1 ≡ (if ok then (true, limit - (recent + 1)) else (false, 0)))
      × Standing (b ∷ key) route now (if ok then log ++ now ∷ [] else log) o.0

  answered :
      (l m : Limiter) (now j : ℕ) (e : Entry) (log : List ℕ)
      → find_entry l (b ∷ key) route ≡ (m, j)
      → FirstAt (b ∷ key) route m j e
      → HasRoom clients m
      → Agrees now e log
      → Answered now log (check l (some (b ∷ key)) route now)
  answered l m now j e log found first room agrees =
      let d = made clients l m b key route now j e found first room in
      let (said, then_) = attempt_lem e (limit_for_route route) now log agrees in
      subst (Answered now log) (sym d.told) (d.room, said, present j _ d.first then_)

  own-step :
      (l : Limiter) (now : ℕ) (log : List ℕ)
      → IsAmong (b ∷ key, route) clients
      → HasRoom clients l
      → Standing (b ∷ key) route now log l
      → Answered now log (check l (some (b ∷ key)) route now)
  own-step l now log among room (present j e first agrees) =
      answered l l now j e log (find_entry-FirstAt l (b ∷ key) route j e first) first room agrees
  own-step l now log (i, among) room (absent none_ no_entry) =
      elim (find_entry-Obtains clients l (b ∷ key, route) room (i, among)
        (All-get (λ c. length c.0 < key_capacity) clients i (b ∷ key, route) short among)) [
          | kept j e found first ↦ absurd (FirstAt-entries (b ∷ key) route l j e first no_entry)
          | taken j x found at off no_entry_ first ↦
              let e = new_entry (b ∷ key) route in
              answered l (set l j e) now j e log found first
                (take-HasRoom clients l j x e (b ∷ key, route) (i, among) at off no_entry refl
                  (FirstAt-is (b ∷ key) route (set l j e) j e first) room)
                (λ t le. ap (count (in_window t)) (sym none_))
        ]

  Standing-later :
      (start now : ℕ) (log : List ℕ) (l : Limiter)
      → start ≤ now
      → Standing (b ∷ key) route start log l
      → Standing (b ∷ key) route now log l
  Standing-later start now log l le (absent none_ no_entry) = absent none_ no_entry
  Standing-later start now log l le (present j e first agrees) =
      present j e first (Agrees-later start now e log le agrees)

  times-own :
      (q : Request) (qs : List Request)
      → is_client (b ∷ key) route q ≡ true
      → times (b ∷ key) route (q ∷ qs) ≡ q.at ∷ times (b ∷ key) route qs
  times-own q qs e = rw e refl

  times-other :
      (q : Request) (qs : List Request)
      → is_client (b ∷ key) route q ≡ false
      → times (b ∷ key) route (q ∷ qs) ≡ times (b ∷ key) route qs
  times-other q qs e = rw e refl

  results-own :
      (l : Limiter) (q : Request) (qs : List Request)
      → is_client (b ∷ key) route q ≡ true
      → results l (b ∷ key) route (q ∷ qs)
        ≡ (check l (some q.key) q.route q.at).1
          ∷ results (check l (some q.key) q.route q.at).0 (b ∷ key) route qs
  unfolding results
  results-own l q qs e = rw e refl

  results-other :
      (l : Limiter) (q : Request) (qs : List Request)
      → is_client (b ∷ key) route q ≡ false
      → results l (b ∷ key) route (q ∷ qs)
        ≡ results (check l (some q.key) q.route q.at).0 (b ∷ key) route qs
  unfolding results
  results-other l q qs e = rw e refl

  own-request :
      (l : Limiter) (q : Request) (log : List ℕ)
      → is_client (b ∷ key) route q ≡ true
      → IsAmong (q.key, q.route) clients
      → HasRoom clients l
      → Standing (b ∷ key) route q.at log l
      → Answered q.at log (check l (some q.key) q.route q.at)
  own-request l q log e among room s =
      let to : q.route ≡ route = is_route→eq q.route route (ground arith) in
      let same : q.key ≡ b ∷ key = equal_lists→eq q.key (b ∷ key) (ground arith) in
      subst (Answered q.at log) (ap₂ (λ k r. check l (some k) r q.at) (sym same) (sym to)) (
        own-step l q.at log (subst (λ c. IsAmong c clients) (ap₂ (λ k r. (k, r)) same to) among)
          room s)

  results-answers_from :
      (l : Limiter) (log : List ℕ) (start : ℕ) (qs : List Request)
      → HasRoom clients l
      → Standing (b ∷ key) route start log l
      → All (λ q. IsAmong (q.key, q.route) clients) qs
      → Ordered start (times (b ∷ key) route qs)
      → map answer (results l (b ∷ key) route qs)
        ≡ answers (limit_for_route route) log (times (b ∷ key) route qs)
  unfolding results answers
  results-answers_from l log start [] room s among ordered = refl
  results-answers_from l log start (q ∷ qs) room s among ordered =
      elim (Bool-cases (is_client (b ∷ key) route q)) [
        | inr theirs ↦
            let (room_, s_) = other-step l q.key q.route q.at start log among.0 theirs room s in
            ap (map answer) (results-other l q qs theirs)
            ∙ results-answers_from (check l (some q.key) q.route q.at).0 log start qs room_ s_
                among.1 (subst (Ordered start) (times-other q qs theirs) ordered)
            ∙ ap (answers (limit_for_route route) log) (sym (times-other q qs theirs))
        | inl mine ↦
            let (first, rest) = subst (Ordered start) (times-own q qs mine) ordered in
            let (room_, said, s_) =
              own-request l q log mine among.0 room (Standing-later start q.at log l first s) in
            let m = (check l (some q.key) q.route q.at).0 in
            ap (map answer) (results-own l q qs mine)
            ∙ elim (Bool-cases (ltb (count (in_window q.at) log) (limit_for_route route))) [
              | inl ok ↦ rw ok (
                  ap₂ ◌∷◌ (said ∙ rw ok) (
                    results-answers_from m (log ++ q.at ∷ []) q.at qs room_
                      (subst
                        (λ a. Standing (b ∷ key) route q.at (if a then log ++ q.at ∷ [] else log) m)
                        ok s_)
                      among.1 rest))
              | inr full ↦ rw full (
                  ap₂ ◌∷◌ (said ∙ rw full) (
                    results-answers_from m log q.at qs room_
                      (subst
                        (λ a. Standing (b ∷ key) route q.at (if a then log ++ q.at ∷ [] else log) m)
                        full s_)
                      among.1 rest))
            ]
            ∙ ap (answers (limit_for_route route) log) (sym (times-own q qs mine))
      ]

init-HasRoom : (clients : List Client) → length clients ≤ max_keys → HasRoom clients init
unfolding init
init-HasRoom clients few = record {
  enough = omega (arith, few, count-le-length (unknown init) clients);
  cleared =
      All-replicate (λ e. e.active ≡ false → e.last_seen ≡ 0) max_keys empty_entry (λ h. refl);
}

-- A limiter that from its initialisation on serves at most 128 clients (a client is a key with a
-- route), each with a key that fits in an entry, tells each of them at every request what the rule of
-- the sliding window says of that client's own requests, however the requests of the others come
-- between, if the times of its own do not go back and do not reach the last minute of the 64-bit
-- clock: a request is allowed exactly if fewer than the limit of those allowed before came less than
-- a minute ago, and it is told how many more are.
pub results-answers :
    (clients : List Client) (b : ℕ) (key : List ℕ) (route : Route) (qs : List Request)
    → length clients ≤ max_keys
    → All (λ c. length c.0 < key_capacity) clients
    → All (λ q. IsAmong (q.key, q.route) clients) qs
    → Ordered 0 (times (b ∷ key) route qs)
    → All Fits (times (b ∷ key) route qs)
    → map answer (results init (b ∷ key) route qs)
      ≡ rule (limit_for_route route) [] (times (b ∷ key) route qs)
unfolding init
results-answers clients b key route qs few short among ordered fits =
    results-answers_from clients short b key route init [] 0 qs (init-HasRoom clients few)
      (absent refl refl) among ordered
    ∙ answers-rule (limit_for_route route) [] (times (b ∷ key) route qs) tt fits
