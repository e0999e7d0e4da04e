-- ===== src/Intermission/Decision.antt =====
-- What the vote decides.
use shroomio.Base.{
  ℕ, zero, suc, ◌+◌, ◌≤◌, ◌<◌, ◌≡◌, refl, sym, subst, ◌≢◌, ◌↔◌, ◌⊎◌, inl, inr, true, false, ◌||◌,
  Option, none, some, List, [], ◌∷◌, ◌++◌, arith, count, All, All-set, All-get, count-le-length,
  take, Bool-cases, Option-cases, if◌then◌else◌, ltb, ◌==◌,
}
use shroomio.Intermission.{
  Voter, Intermission, vote_none, play_again, return_to_lobby, spectate, max_participants,
  new_voter, adjust_total, enroll, fresh, begin, is_voter, find_voter, recast, cast_vote, withdraw,
  remove_voter, all_eligible_voted, lobby_total, decide, resolve, player_continues_match,
}
use shroomio.Intermission.Tally.{
  votes_for, enrolled, is_eligible, tally, IsValid, Call, casts, leaves, run, found_voter,
  run-begin-IsValid,
}

-- Every vote is one of the four.
abbrev IsVote : Voter → Type 0
IsVote v = v.vote ≤ spectate

abbrev pub InRange : Intermission → Type 0
InRange s = All IsVote s.voters

voters-adjust_total :
    (s : Intermission) (vote delta : ℕ) → (adjust_total s vote delta).voters ≡ s.voters
unfolding adjust_total
voters-adjust_total s vote delta = ground arith

recast-InRange :
    (s : Intermission) (vote i : ℕ) (v : Voter)
    → InRange s
    → vote ≤ spectate
    → InRange (recast s vote i v).0
unfolding recast
recast-InRange s vote i v h le = elim (Bool-cases (v.vote == vote)) [
  | inl same ↦ rw same h
  | inr new ↦ rw new (
      subst (All IsVote) (sym (voters-adjust_total _ vote 1))
        (All-set IsVote s.voters i (record v { vote = vote }) h le))
]

cast_vote-InRange : (s : Intermission) (id vote : ℕ) → InRange s → InRange (cast_vote s id vote).0
unfolding cast_vote
cast_vote-InRange s id vote h =
    elim (Bool-cases (s.resolved || ltb vote play_again || ltb spectate vote)) [
      | inl refused ↦ simp refused h
      | inr open_ ↦ simp open_ (elim (Option-cases (find_voter id s.voters)) [
        | inl nobody ↦ rw nobody h
        | inr (f, e) ↦ rw e (recast-InRange s vote f.0 f.1 h (ground arith))
      ])
    ]

remove_voter-InRange : (s : Intermission) (id : ℕ) → InRange s → InRange (remove_voter s id).0
unfolding remove_voter withdraw
remove_voter-InRange s id h = elim (Bool-cases s.resolved) [
  | inl refused ↦ simp refused h
  | inr open_ ↦ simp open_ (elim (Option-cases (find_voter id s.voters)) [
    | inl nobody ↦ rw nobody h
    | inr (f, e) ↦ rw e (
        All-set IsVote s.voters f.0 _ h
          (All-get IsVote s.voters f.0 f.1 h (found_voter id s.voters f.0 f.1 e).0))
  ])
]

run-InRange : (s : Intermission) (cs : List Call) → InRange s → InRange (run s cs)
unfolding run
run-InRange s [] h = h
run-InRange s (casts id vote ∷ cs) h =
    run-InRange (cast_vote s id vote).0 cs (cast_vote-InRange s id vote h)
run-InRange s (leaves id ∷ cs) h =
    run-InRange (remove_voter s id).0 cs (remove_voter-InRange s id h)

All-append_one :
    (vs : List Voter) (v : Voter) → All IsVote vs → IsVote v → All IsVote (vs ++ v ∷ [])
All-append_one [] v h hv = (hv, tt)
All-append_one (w ∷ vs) v h hv = (h.0, All-append_one vs v h.1 hv)

enroll-InRange : (s : Intermission) (ids : List ℕ) → InRange s → InRange (enroll s ids)
unfolding enroll
enroll-InRange s [] h = h
enroll-InRange s (id ∷ ids) h = elim (Bool-cases (id == 0)) [
  | inl nobody ↦ rw (nobody, enroll) (enroll-InRange s ids h)
  | inr player ↦
      rw (player, enroll)
        (enroll-InRange (enrolled s id) ids
          (All-append_one s.voters (new_voter id) h (omega arith)))
]

begin-InRange : (ids : Option (List ℕ)) (round : ℕ) → InRange (begin ids round)
unfolding begin
begin-InRange none round = tt
begin-InRange (some ids) round = enroll-InRange (fresh round) (take max_participants ids) tt

-- The eligible voters split by their votes.
tally_split :
    (vs : List Voter)
    → All IsVote vs
    → count is_eligible vs
      ≡ count (votes_for vote_none) vs
        + count (votes_for play_again) vs
        + count (votes_for return_to_lobby) vs
        + count (votes_for spectate) vs
tally_split [] h = omega arith
tally_split (v ∷ vs) h = ground (arith, tally_split vs h.1)

-- The support of an option: its votes, and for the lobby those who have not voted.
abbrev pub support : Intermission → ℕ → ℕ
support s d = tally s d + (if d == return_to_lobby then tally s vote_none else 0)

-- Among equals the lobby comes first, then another round.
abbrev pub rank : ℕ → ℕ
rank d = if d == return_to_lobby then 0 else if d == play_again then 1 else 2

abbrev pub Beats : Intermission → ℕ → ℕ → Type 0
Beats s d o = (support s o < support s d) ⊎ ((support s o ≡ support s d) × (rank d < rank o))

lobby_total-support :
    (s : Intermission) → IsValid s → InRange s → lobby_total s ≡ support s return_to_lobby
unfolding lobby_total
lobby_total-support s v h =
    omega (arith, tally_split s.voters h, count-le-length is_eligible s.voters)

decide-best :
    (s : Intermission) (o : ℕ)
    → IsValid s
    → InRange s
    → play_again ≤ o
    → o ≤ spectate
    → o ≢ decide s
    → Beats s (decide s) o
unfolding decide
decide-best s zero v h lo hi ne = absurd (omega arith)
decide-best s (suc zero) v h lo hi ne = ground (arith, lobby_total-support s v h)
decide-best s (suc (suc zero)) v h lo hi ne = ground (arith, lobby_total-support s v h)
decide-best s (suc (suc (suc zero))) v h lo hi ne = ground (arith, lobby_total-support s v h)
decide-best s (suc (suc (suc (suc n)))) v h lo hi ne = absurd (omega arith)

decide_range : (s : Intermission) → (play_again ≤ decide s) × (decide s ≤ spectate)
unfolding decide
decide_range s = ground arith

resolve_open : (s : Intermission) → s.resolved ≡ false → (resolve s).1 ≡ decide s
unfolding resolve
resolve_open s e = simp e

-- The decision of a vote of any history is one of the three options, and beats every other: it has
-- more support among the eligible voters, those who have not voted counting for the lobby, or as
-- much, and then the lobby goes before another round, and that before spectating.
pub resolve-best :
    (ids : Option (List ℕ)) (round : ℕ) (cs : List Call)
    → let s = run (begin ids round) cs in
      s.resolved ≡ false
      → let d = (resolve s).1 in
        (play_again ≤ d)
        × (d ≤ spectate)
        × ((o : ℕ) → play_again ≤ o → o ≤ spectate → o ≢ d → Beats s d o)
resolve-best ids round cs e =
    let s = run (begin ids round) cs in
    let v = run-begin-IsValid ids round cs in
    let h = run-InRange (begin ids round) cs (begin-InRange ids round) in
    rw (resolve_open s e)
      ((decide_range s).0, (decide_range s).1, λ o lo hi ne. decide-best s o v h lo hi ne)

resolve-resolved :
    (s : Intermission) → ((resolve s).0.resolved ≡ true) × ((resolve s).0.decision ≡ (resolve s).1)
unfolding resolve
resolve-resolved s = ground arith

run-resolved : (s : Intermission) (cs : List Call) → s.resolved ≡ true → run s cs ≡ s
unfolding run cast_vote remove_voter
run-resolved s [] e = refl
run-resolved s (casts id vote ∷ cs) e = simp e (run-resolved s cs e)
run-resolved s (leaves id ∷ cs) e = simp e (run-resolved s cs e)

resolve_again : (s : Intermission) → s.resolved ≡ true → resolve s ≡ (s, s.decision)
unfolding resolve
resolve_again s e = simp e

-- A decision is final: after it no vote and no departure changes anything, and resolving again
-- gives the same answer.
pub resolve_final :
    (s : Intermission) (cs : List Call)
    → let (t, d) = resolve s in (run t cs ≡ t) × (resolve (run t cs) ≡ (t, d))
resolve_final s cs =
    let (r, d) = resolve-resolved s in
    let same = run-resolved (resolve s).0 cs r in
    (same, rw same (rw (resolve_again (resolve s).0 r, d)))

all_voted_iff :
    (s : Intermission)
    → IsValid s
    → InRange s
    → all_eligible_voted s ≡ true ↔ (0 < count is_eligible s.voters) × (tally s vote_none ≡ 0)
unfolding all_eligible_voted
all_voted_iff s v h =
    let split = tally_split s.voters h in
    let small = count-le-length is_eligible s.voters in (λ e. ground arith, λ e. ground arith)

-- After any history `ShroomIntermissionAllEligibleVoted` says yes exactly when there are eligible
-- voters and each of them has cast a vote.
pub all_eligible_voted_iff :
    (ids : Option (List ℕ)) (round : ℕ) (cs : List Call)
    → let s = run (begin ids round) cs in
      all_eligible_voted s ≡ true ↔ (0 < count is_eligible s.voters) × (tally s vote_none ≡ 0)
all_eligible_voted_iff ids round cs =
    all_voted_iff (run (begin ids round) cs) (run-begin-IsValid ids round cs)
      (run-InRange (begin ids round) cs (begin-InRange ids round))

-- The answer of the search, as a number of voters.
abbrev Answers : ℕ → List Voter → Option (ℕ × Voter) → Type 0
Answers id vs none = count (is_voter id) vs ≡ 0
Answers id vs (some _) = 0 < count (is_voter id) vs

Answers-next :
    (id : ℕ) (v : Voter) (vs : List Voter) (o : Option (ℕ × Voter))
    → is_voter id v ≡ false
    → Answers id vs o
    → Answers id (v ∷ vs) (elim o [ none ↦ none | some (i, w) ↦ some (suc i, w) ])
Answers-next id v vs none other h = rw other (omega arith)
Answers-next id v vs (some f) other h = rw other (omega arith)

find_voter-Answers : (id : ℕ) (vs : List Voter) → Answers id vs (find_voter id vs)
unfolding find_voter
find_voter-Answers id [] = refl
find_voter-Answers id (v ∷ vs) = elim (Bool-cases (is_voter id v)) [
  | inl here ↦ rw here (rw here (omega arith))
  | inr other ↦ rw other (Answers-next id v vs (find_voter id vs) other (find_voter-Answers id vs))
]

-- A player carries over to the next round exactly when the vote is resolved for another round and
-- the player is still one of the eligible voters; player 0 never does.
pub player_continues_match_iff :
    (s : Intermission) (id : ℕ)
    → player_continues_match s id ≡ true
      ↔ (s.resolved ≡ true)
        × (id ≢ 0)
        × (s.decision ≡ play_again)
        × (0 < count (is_voter id) s.voters)
unfolding player_continues_match
player_continues_match_iff s id = elim (Option-cases (find_voter id s.voters)) [
  | inl nobody ↦
      let none_ = rw nobody at (find_voter-Answers id s.voters) in
      (λ e. ground arith, λ e. ground arith)
  | inr (f, found) ↦
      let some_ = rw found at (find_voter-Answers id s.voters) in
      (λ e. ground arith, λ e. ground arith)
]
