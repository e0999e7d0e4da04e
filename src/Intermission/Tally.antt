-- ===== src/Intermission/Tally.antt =====
-- The totals are the votes of the eligible voters.
use shroomio.Base.{
  ℕ, suc, ◌+◌, ◌≤◌, ◌<◌, ◌≡◌, refl, subst, inl, inr, Bool, true, false, ◌&&◌, ◌||◌, add16, Option,
  none, some, List, [], ◌∷◌, ◌++◌, arith, count, length, get_elem?, set, count-set, count-append,
  length-set, length-append, length-take-le, count-le-length, take, Bool-cases, Option-cases,
  if◌then◌else◌, ltb, ◌==◌,
}
use shroomio.Intermission.{
  Voter, Intermission, play_again, return_to_lobby, spectate, max_participants, new_voter,
  adjust_total, enroll, fresh, begin, is_voter, find_voter, recast, cast_vote, withdraw,
  remove_voter,
}

-- An eligible voter whose vote this is.
abbrev pub votes_for : ℕ → Voter → Bool
votes_for vote v = v.eligible && v.vote == vote

abbrev pub is_eligible : Voter → Bool
is_eligible v = v.eligible

-- The votes, counted over the voters themselves.
abbrev pub tally : Intermission → ℕ → ℕ
tally s vote = count (votes_for vote) s.voters

pub record IsValid (s : Intermission) : Type 0 where
  pub size : length s.voters ≤ max_participants
  pub eligible : s.eligible_count ≡ count is_eligible s.voters
  pub play : s.play_again_votes ≡ tally s play_again
  pub lobby : s.return_to_lobby_votes ≡ tally s return_to_lobby
  pub spectators : s.spectate_votes ≡ tally s spectate

abbrev Found : ℕ → List Voter → Option (ℕ × Voter) → Type 0
Found id vs none = Unit
Found id vs (some (i, v)) = (get_elem? vs i ≡ some v) × (is_voter id v ≡ true)

Found-next :
    (id : ℕ) (w : Voter) (vs : List Voter) (o : Option (ℕ × Voter))
    → Found id vs o
    → Found id (w ∷ vs) (elim o [ none ↦ none | some (i, v) ↦ some (suc i, v) ])
Found-next id w vs none h = tt
Found-next id w vs (some (i, v)) h = h

find_voter-Found : (id : ℕ) (vs : List Voter) → Found id vs (find_voter id vs)
unfolding find_voter
find_voter-Found id [] = tt
find_voter-Found id (v ∷ vs) = elim (Bool-cases (is_voter id v)) [
  | inl here ↦ rw here (refl, here)
  | inr other ↦ rw other (Found-next id v vs (find_voter id vs) (find_voter-Found id vs))
]

pub found_voter :
    (id : ℕ) (vs : List Voter) (i : ℕ) (v : Voter)
    → find_voter id vs ≡ some (i, v)
    → (get_elem? vs i ≡ some v) × (is_voter id v ≡ true)
found_voter id vs i v e = subst (Found id vs) e (find_voter-Found id vs)

-- How each count changes when one voter is replaced.
record Replaced (vs : List Voter) (i : ℕ) (v w : Voter) : Type 0 where
  pub size : length (set vs i w) ≡ length vs
  pub eligible :
      count is_eligible (set vs i w) + (if v.eligible then 1 else 0)
      ≡ count is_eligible vs + (if w.eligible then 1 else 0)
  pub votes :
      (c : ℕ)
      → count (votes_for c) (set vs i w) + (if votes_for c v then 1 else 0)
        ≡ count (votes_for c) vs + (if votes_for c w then 1 else 0)
  pub small : (c : ℕ) → count (votes_for c) (set vs i w) ≤ length vs

set-Replaced : (vs : List Voter) (i : ℕ) (v w : Voter) → get_elem? vs i ≡ some v → Replaced vs i v w
set-Replaced vs i v w e = record {
  size = length-set vs i w;
  eligible = count-set is_eligible vs i v w e;
  votes = λ c. count-set (votes_for c) vs i v w e;
  small = λ c. omega (arith, count-le-length (votes_for c) (set vs i w), length-set vs i w);
}

recast-IsValid :
    (s : Intermission) (vote i : ℕ) (v : Voter)
    → IsValid s
    → get_elem? s.voters i ≡ some v
    → v.eligible ≡ true
    → play_again ≤ vote
    → vote ≤ spectate
    → IsValid (recast s vote i v).0
unfolding recast adjust_total
recast-IsValid s vote i v val there el lo hi =
    let r = set-Replaced s.voters i v (record v { vote = vote }) there in
    ground (
      arith,
      r.size,
      r.eligible,
      r.votes play_again,
      r.votes return_to_lobby,
      r.votes spectate,
      r.small play_again,
      r.small return_to_lobby,
      r.small spectate,
    )

withdraw-IsValid :
    (s : Intermission) (i : ℕ) (v : Voter)
    → IsValid s
    → get_elem? s.voters i ≡ some v
    → v.eligible ≡ true
    → IsValid (withdraw s i v)
unfolding withdraw adjust_total
withdraw-IsValid s i v val there el =
    let r = set-Replaced s.voters i v (record v { eligible = false }) there in
    ground (
      arith,
      r.size,
      r.eligible,
      r.votes play_again,
      r.votes return_to_lobby,
      r.votes spectate,
      r.small play_again,
      r.small return_to_lobby,
      r.small spectate,
      count-le-length is_eligible s.voters,
    )

eligible_of : (id : ℕ) (v : Voter) → is_voter id v ≡ true → v.eligible ≡ true
eligible_of id v h = ground arith

-- A vote, accepted or refused, leaves every total equal to the votes of the eligible voters.
pub cast_vote-IsValid :
    (s : Intermission) (id vote : ℕ) → IsValid s → IsValid (cast_vote s id vote).0
unfolding cast_vote
cast_vote-IsValid s id vote v =
    elim (Bool-cases (s.resolved || ltb vote play_again || ltb spectate vote)) [
      | inl refused ↦ rw refused v
      | inr open_ ↦ rw open_ (elim (Option-cases (find_voter id s.voters)) [
        | inl nobody ↦ rw nobody v
        | inr (f, e) ↦
            let (there, is) = found_voter id s.voters f.0 f.1 e in
            rw e (
              recast-IsValid s vote f.0 f.1 v there (eligible_of id f.1 is) (ground arith)
                (ground arith))
      ])
    ]

-- So does the removal of a voter, and it takes the voter's vote back.
pub remove_voter-IsValid : (s : Intermission) (id : ℕ) → IsValid s → IsValid (remove_voter s id).0
unfolding remove_voter
remove_voter-IsValid s id v = elim (Bool-cases s.resolved) [
  | inl refused ↦ simp refused v
  | inr open_ ↦ simp open_ (elim (Option-cases (find_voter id s.voters)) [
    | inl nobody ↦ rw nobody v
    | inr (f, e) ↦
        let (there, is) = found_voter id s.voters f.0 f.1 e in
        rw e (withdraw-IsValid s f.0 f.1 v there (eligible_of id f.1 is))
  ])
]

abbrev pub enrolled : Intermission → ℕ → Intermission
enrolled s id = record s {
  voters = s.voters ++ new_voter id ∷ [];
  eligible_count = add16 s.eligible_count 1;
}

enrolled-IsValid :
    (s : Intermission) (id : ℕ)
    → IsValid s
    → length s.voters < max_participants
    → IsValid (enrolled s id)
enrolled-IsValid s id v h =
    let added = λ (c : Voter → Bool). count-append c s.voters (new_voter id ∷ []) in
    ground (
      arith,
      length-append s.voters (new_voter id ∷ []),
      added is_eligible,
      added (votes_for play_again),
      added (votes_for return_to_lobby),
      added (votes_for spectate),
      count-le-length is_eligible s.voters,
    )

enroll-IsValid :
    (s : Intermission) (ids : List ℕ)
    → IsValid s
    → length s.voters + length ids ≤ max_participants
    → IsValid (enroll s ids)
unfolding enroll
enroll-IsValid s [] v h = v
enroll-IsValid s (id ∷ ids) v h = elim (Bool-cases (id == 0)) [
  | inl nobody ↦ rw nobody (enroll-IsValid s ids v (omega arith))
  | inr player ↦ rw player (
      enroll-IsValid (enrolled s id) ids (enrolled-IsValid s id v (omega arith))
        (omega (arith, length-append s.voters (new_voter id ∷ []))))
]

-- A vote starts with its totals in order, for any array of ids, of any length, or none.
pub begin-IsValid : (ids : Option (List ℕ)) (round : ℕ) → IsValid (begin ids round)
unfolding begin
begin-IsValid none round = omega arith
begin-IsValid (some ids) round =
    enroll-IsValid (fresh round) (take max_participants ids) (omega arith)
      (omega (arith, length-take-le max_participants ids))

-- What can happen in an intermission.
pub data Call : Type 0 where
  casts : ℕ → ℕ → Call
  leaves : ℕ → Call

unfoldable pub run : Intermission → List Call → Intermission
run s [] = s
run s (casts id vote ∷ cs) = run (cast_vote s id vote).0 cs
run s (leaves id ∷ cs) = run (remove_voter s id).0 cs

run-IsValid : (s : Intermission) (cs : List Call) → IsValid s → IsValid (run s cs)
unfolding run
run-IsValid s [] v = v
run-IsValid s (casts id vote ∷ cs) v =
    run-IsValid (cast_vote s id vote).0 cs (cast_vote-IsValid s id vote v)
run-IsValid s (leaves id ∷ cs) v =
    run-IsValid (remove_voter s id).0 cs (remove_voter-IsValid s id v)

-- After any votes, changes of mind, refused calls and departures, each total of an intermission is
-- the number of eligible voters whose vote it is, and `eligible_count` is their number.
pub run-begin-IsValid :
    (ids : Option (List ℕ)) (round : ℕ) (cs : List Call) → IsValid (run (begin ids round) cs)
run-begin-IsValid ids round cs = run-IsValid (begin ids round) cs (begin-IsValid ids round)
