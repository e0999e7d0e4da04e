-- ===== src/Intermission.antt =====
-- src/shared/intermission.c: the vote between two rounds of a match.
-- `voters` holds the first `voter_count` entries of the array, the only ones that are ever read.
pub mod Tally
pub mod Decision
mod Tests
use shroomio.Base.{
  ℕ, suc, ◌+◌, ◌-◌, ◌*◌, ◌%◌, Bool, true, false, ◌&&◌, ◌||◌, not, Option, none, some, List, [], ◌∷◌,
  ◌++◌, ltb, leb, ◌==◌, if◌then◌else◌, length, set, take, add16, sub16, u16_mod,
}

-- SHROOM_REMATCH_VOTE_*. A vote is a number, since the code compares and stores it as one.
abbrev pub vote_none : ℕ
vote_none = 0

abbrev pub play_again : ℕ
play_again = 1

abbrev pub return_to_lobby : ℕ
return_to_lobby = 2

abbrev pub spectate : ℕ
spectate = 3

abbrev pub max_participants : ℕ
max_participants = 256

pub record Voter : Type 0 where
  pub player_id : ℕ
  pub vote : ℕ
  pub eligible : Bool

pub record Intermission : Type 0 where
  pub voters : List Voter
  pub eligible_count : ℕ
  pub play_again_votes : ℕ
  pub return_to_lobby_votes : ℕ
  pub spectate_votes : ℕ
  pub round_id : ℕ
  pub resolved : Bool
  pub decision : ℕ

-- `delta` is 1, or -1 as a word of 16 bits.
abbrev pub minus_one : ℕ
minus_one = u16_mod - 1

adjust_total : Intermission → ℕ → ℕ → Intermission
adjust_total s vote delta =
    if vote == play_again
    then record s { play_again_votes = add16 s.play_again_votes delta }
    else if vote == return_to_lobby
    then record s { return_to_lobby_votes = add16 s.return_to_lobby_votes delta }
    else if vote == spectate
    then record s { spectate_votes = add16 s.spectate_votes delta }
    else s

abbrev pub new_voter : ℕ → Voter
new_voter id = record { player_id = id; vote = vote_none; eligible = true }

-- The loop of `Begin`: player 0 is no player.
enroll : Intermission → List ℕ → Intermission
enroll s [] = s
enroll s (id ∷ ids) =
    enroll
      (if id == 0 then s else record s {
        voters = s.voters ++ new_voter id ∷ [];
        eligible_count = add16 s.eligible_count 1;
      })
      ids

-- The state behind the `memset` of `Begin`.
abbrev pub fresh : ℕ → Intermission
fresh round = record {
  voters = [];
  eligible_count = 0;
  play_again_votes = 0;
  return_to_lobby_votes = 0;
  spectate_votes = 0;
  round_id = round;
  resolved = false;
  decision = 0;
}

-- The array of `player_count` ids, or NULL.
pub begin : Option (List ℕ) → ℕ → Intermission
unfolding enroll
begin none round = fresh round
begin (some ids) round = enroll (fresh round) (take max_participants ids)

abbrev pub is_voter : ℕ → Voter → Bool
is_voter id v = v.eligible && v.player_id == id

-- The search that three functions share: the first eligible voter with the id, and its index.
pub find_voter : ℕ → List Voter → Option (ℕ × Voter)
find_voter id [] = none
find_voter id (v ∷ vs) =
    let rest = find_voter id vs in
    if is_voter id v then some (0, v) else elim rest [ none ↦ none | some (i, w) ↦ some (suc i, w) ]

-- What `CastVote` does to the voter that it found.
recast : Intermission → ℕ → ℕ → Voter → Intermission × Bool
recast s vote i v = if v.vote == vote then (s, false) else (
  adjust_total
      (record (adjust_total s v.vote minus_one) {
        voters = set s.voters i (record v { vote = vote });
      })
      vote 1,
  true,
)

pub cast_vote : Intermission → ℕ → ℕ → Intermission × Bool
cast_vote s id vote =
    if s.resolved || ltb vote play_again || ltb spectate vote
    then (s, false)
    else elim (find_voter id s.voters) [ none ↦ (s, false) | some (i, v) ↦ recast s vote i v ]

withdraw : Intermission → ℕ → Voter → Intermission
withdraw s i v = record (adjust_total s v.vote minus_one) {
  voters = set s.voters i (record v { eligible = false });
  eligible_count = sub16 s.eligible_count 1;
}

pub remove_voter : Intermission → ℕ → Intermission × Bool
remove_voter s id =
    if s.resolved
    then (s, false)
    else elim (find_voter id s.voters) [ none ↦ (s, false) | some (i, v) ↦ (withdraw s i v, true) ]

pub all_eligible_voted : Intermission → Bool
all_eligible_voted s =
    if s.eligible_count == 0
    then false
    else (s.play_again_votes + s.return_to_lobby_votes + s.spectate_votes) % u16_mod
      == s.eligible_count

-- The votes for the lobby and the voters that have not voted; the difference wraps at 16 bits.
lobby_total : Intermission → ℕ
lobby_total s =
    (s.return_to_lobby_votes
      + s.eligible_count
      + 4 * u16_mod
      - s.play_again_votes
      - s.return_to_lobby_votes
      - s.spectate_votes)
    % u16_mod

decide : Intermission → ℕ
decide s =
    if ltb (lobby_total s) s.play_again_votes && leb s.spectate_votes s.play_again_votes
    then play_again
    else if ltb (lobby_total s) s.spectate_votes && ltb s.play_again_votes s.spectate_votes
    then spectate
    else return_to_lobby

pub resolve : Intermission → Intermission × ℕ
unfolding decide
resolve s =
    if s.resolved
    then (s, s.decision)
    else (record s { decision = decide s; resolved = true }, decide s)

pub player_continues_match : Intermission → ℕ → Bool
player_continues_match s id =
    if not s.resolved || id == 0 || not (s.decision == play_again)
    then false
    else elim (find_voter id s.voters) [ none ↦ false | some _ ↦ true ]
