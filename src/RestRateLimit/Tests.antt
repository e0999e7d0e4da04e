-- ===== src/RestRateLimit/Tests.antt =====
-- Two clients of the limiter.
use shroomio.Base.{◌≡◌, refl, true, false, List, [], ◌∷◌, ℕ, map, arith}
use shroomio.RestRateLimit.{Route, login, refresh, init, check, attempt, find_entry, search_entry}
use shroomio.RestRateLimit.Window.{answer, rule}
use shroomio.RestRateLimit.Room.{Client}
use shroomio.RestRateLimit.Clients.{Request, results}
use shroomio.RestRateLimit.Entries.{results-answers}

abbrev client : List ℕ
client = 117 ∷ 49 ∷ []

abbrev other : List ℕ
other = 117 ∷ 50 ∷ []

abbrev request : List ℕ → Route → ℕ → Request
request key route at = record { key = key; route = route; at = at }

abbrev requests : List Request
requests =
    request client login 0
    ∷ request other login 1
    ∷ request client login 1
    ∷ request client refresh 2
    ∷ request client login 2
    ∷ request client login 3
    ∷ request other login 3
    ∷ request client login 4
    ∷ request client login 5
    ∷ request client login 59
    ∷ request client login 60
    ∷ request client login 61
    ∷ []

-- Five logins are allowed, the next two are refused, and a minute after the first there is room.
told :
    map (λ r. r.allowed) (results init client login requests)
    ≡ true ∷ true ∷ true ∷ true ∷ true ∷ false ∷ false ∷ true ∷ true ∷ []
unfolding results check attempt find_entry search_entry init
told = refl

abbrev clients : List Client
clients = (client, login) ∷ (other, login) ∷ (client, refresh) ∷ []

abbrev few_requests : List Request
few_requests =
    request client login 3
    ∷ request other login 3
    ∷ request client login 3
    ∷ request client refresh 4
    ∷ request client login 64
    ∷ []

results-answers_example :
    map answer (results init client login few_requests) ≡ rule 5 [] (3 ∷ 3 ∷ 64 ∷ [])
results-answers_example =
    results-answers clients 117 (49 ∷ []) login few_requests (omega arith)
      (omega arith, (omega arith, (omega arith, tt)))
      ((0, refl), ((1, refl), ((0, refl), ((2, refl), ((0, refl), tt)))))
      (omega arith, (omega arith, (omega arith, tt)))
      (omega arith, (omega arith, (omega arith, tt)))
