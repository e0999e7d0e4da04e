-- ===== src/Intermission/Tests.antt =====
-- A vote of three players.
use shroomio.Base.{ℕ, ◌≤◌, ◌≡◌, refl, ◌≢◌, false, some, List, [], ◌∷◌}
use shroomio.Intermission.{
  Intermission, begin, cast_vote, remove_voter, resolve, play_again, return_to_lobby, spectate,
  find_voter, recast, adjust_total, withdraw, lobby_total,
}
use shroomio.Intermission.Tally.{IsValid, Call, casts, leaves, run, run-begin-IsValid}
use shroomio.Intermission.Decision.{Beats, resolve-best, resolve_final}

abbrev players : List ℕ
players = 11 ∷ 0 ∷ 12 ∷ 13 ∷ []

-- Player 11 changes sides, 14 is no voter, 7 is no vote, and 13 leaves.
abbrev history : List Call
history =
    casts 11 spectate ∷ casts 11 play_again ∷ casts 14 play_again ∷ casts 12 7 ∷ leaves 13 ∷ []

abbrev vote : Intermission
vote = run (begin (some players) 4) history

totals : (vote.eligible_count ≡ 2) × (vote.play_again_votes ≡ 1) × (vote.spectate_votes ≡ 0)
unfolding run begin cast_vote remove_voter find_voter recast adjust_total withdraw lobby_total
totals = (refl, refl, refl)

tie_goes_to_lobby : (resolve vote).1 ≡ return_to_lobby
unfolding run begin cast_vote remove_voter find_voter recast adjust_total withdraw lobby_total
    resolve
tie_goes_to_lobby = refl

run-begin-IsValid_example : IsValid vote
run-begin-IsValid_example = run-begin-IsValid (some players) 4 history

still_open : vote.resolved ≡ false
unfolding run begin cast_vote remove_voter find_voter recast adjust_total withdraw lobby_total
still_open = refl

resolve-best_example :
    (play_again ≤ (resolve vote).1)
    × ((resolve vote).1 ≤ spectate)
    × ((o : ℕ)
        → play_again ≤ o
        → o ≤ spectate
        → o ≢ (resolve vote).1
        → Beats vote (resolve vote).1 o)
resolve-best_example = resolve-best (some players) 4 history still_open

resolve_final_example :
    (run (resolve vote).0 history ≡ (resolve vote).0)
    × (resolve (run (resolve vote).0 history) ≡ resolve vote)
resolve_final_example = resolve_final vote history
