-- ===== src/RestRateLimit/Window.antt =====
-- One entry against a log of all the requests that were allowed.
use shroomio.Base.{
  ℕ, ◌+◌, ◌-◌, ◌≤◌, ◌<◌, ◌^◌, ◌≡◌, refl, ap, All, All-append, Bool-cases, inl, inr, ◌∙◌, Bool, true,
  false, List, [], ◌∷◌, ◌++◌, arith, length, count, count-append, count-filter_list,
  length-filter_list, filter_list, ltb, if◌then◌else◌,
}
use shroomio.RestRateLimit.{Entry, Result, attempt, in_window}

-- What a request is told: whether it is allowed, and how many more are.
abbrev pub answer : Result → Bool × ℕ
answer r = (r.allowed, r.remaining)

-- A time of less than a minute ago, and one that a minute can be added to without a wrap.
abbrev pub is_recent : ℕ → ℕ → Bool
is_recent now at = ltb now (at + 60)

abbrev pub Fits : ℕ → Type 0
Fits at = at + 60 < 2 ^ 64

-- The rule: of the requests allowed so far, `log`, fewer than the limit were in the last minute.
unfoldable pub rule : ℕ → List ℕ → List ℕ → List (Bool × ℕ)
rule limit log [] = []
rule limit log (now ∷ nows) =
    let recent = count (is_recent now) log in
    let yes_ = (true, limit - (recent + 1)) ∷ rule limit (log ++ now ∷ []) nows in
    let no_ = (false, 0) ∷ rule limit log nows in if ltb recent limit then yes_ else no_

-- The same with the additions of the code, which wrap around.
unfoldable pub answers : ℕ → List ℕ → List ℕ → List (Bool × ℕ)
answers limit log [] = []
answers limit log (now ∷ nows) =
    let recent = count (in_window now) log in
    let yes_ = (true, limit - (recent + 1)) ∷ answers limit (log ++ now ∷ []) nows in
    let no_ = (false, 0) ∷ answers limit log nows in if ltb recent limit then yes_ else no_

abbrev pub Ordered : ℕ → List ℕ → Type 0
Ordered start [] = Unit
Ordered start (now ∷ nows) = (start ≤ now) × Ordered now nows

-- From a time on, an entry and a log agree on what is recent.
abbrev pub Agrees : ℕ → Entry → List ℕ → Type 0
Agrees start e log = (t : ℕ) → start ≤ t → count (in_window t) e.attempts ≡ count (in_window t) log

in_window-le : (t now a : ℕ) → now ≤ t → in_window t a ≡ true → in_window now a ≡ true
in_window-le t now a h e = ground arith

count-kept :
    (now t : ℕ) (xs : List ℕ)
    → now ≤ t
    → count (in_window t) (filter_list (in_window now) xs) ≡ count (in_window t) xs
count-kept now t xs h =
    count-filter_list (in_window t) (in_window now) xs (λ a. in_window-le t now a h)

-- What an attempt does, by the number of recent attempts.
pub attempt_lem :
    (e : Entry) (limit now : ℕ) (log : List ℕ)
    → Agrees now e log
    → let (d, r) = attempt e limit now in
      let ok = ltb (count (in_window now) log) limit in
      (answer r ≡ (if ok then (true, limit - (count (in_window now) log + 1)) else (false, 0)))
      × Agrees now d (if ok then log ++ now ∷ [] else log)
unfolding attempt
attempt_lem e limit now log h =
    let kept = filter_list (in_window now) e.attempts in
    let size : length kept ≡ count (in_window now) log =
      length-filter_list (in_window now) e.attempts ∙ h now (omega arith) in
    (
      ground (arith, size),
      λ t le. ground (
        arith,
        size,
        count-append (in_window t) kept (now ∷ []),
        count-append (in_window t) log (now ∷ []),
        count-kept now t e.attempts le,
        h t le,
      ),
    )

pub Agrees-later :
    (start now : ℕ) (e : Entry) (log : List ℕ) → start ≤ now → Agrees start e log → Agrees now e log
Agrees-later start now e log le h t lt = h t (omega arith)

count-recent :
    (now : ℕ) (log : List ℕ) → All Fits log → count (in_window now) log ≡ count (is_recent now) log
count-recent now [] h = refl
count-recent now (x ∷ xs) h = ground (arith, h.0, count-recent now xs h.1)

All-snoc : (xs : List ℕ) (x : ℕ) → All Fits xs → Fits x → All Fits (xs ++ x ∷ [])
All-snoc xs x h hx = All-append Fits xs (x ∷ []) h (hx, tt)

pub answers-rule :
    (limit : ℕ) (log nows : List ℕ)
    → All Fits log
    → All Fits nows
    → answers limit log nows ≡ rule limit log nows
unfolding answers rule
answers-rule limit log [] hl hn = refl
answers-rule limit log (now ∷ nows) hl hn =
    rw (count-recent now log hl) (elim (Bool-cases (ltb (count (is_recent now) log) limit)) [
      | inl ok ↦ rw ok (
          ap (λ rs. (true, limit - (count (is_recent now) log + 1)) ∷ rs)
            (answers-rule limit (log ++ now ∷ []) nows (All-snoc log now hl hn.0) hn.1))
      | inr full ↦ rw full (ap (λ rs. (false, 0) ∷ rs) (answers-rule limit log nows hl hn.1))
    ])
