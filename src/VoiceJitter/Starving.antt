-- ===== src/VoiceJitter/Starving.antt =====
-- A stream that receives nothing more.
use mathlib.Core.Path.{ap₂}
use shroomio.Base.{
  ℕ, zero, suc, ◌+◌, ◌-◌, ◌%◌, ◌≤◌, ◌≡◌, inl, inr, refl, ap, ◌∙◌, true, false, none, List, [], ◌∷◌,
  map, arith, Bool-cases, ltb, ◌==◌, sub16, add16,
}
use shroomio.VoiceJitter.{
  Jitter, PopKind, plc, finished, no_frame, reset, find, has_sequence, find_sequence,
  find_next_sequence, substitute, conceal, pop_next, max_consecutive_loss,
}
use shroomio.VoiceJitter.Buffer.{play_next-lost, pop_next-down}
use shroomio.VoiceJitter.Playback.{pops, pop_next-started}

-- Some pops that conceal a loss, and then the end.
unfoldable pub starving : ℕ → List ℕ → List PopKind
starving k [] = []
starving zero (now ∷ nows) = finished ∷ starving zero nows
starving (suc k) (now ∷ nows) = plc ∷ starving k nows

kinds-down :
    (j : Jitter) (nows : List ℕ)
    → j.initialized ≡ false
    → map (λ r. r.kind) (pops j nows) ≡ starving 0 nows
unfolding pops starving
kinds-down j [] down = refl
kinds-down j (now ∷ nows) down =
    rw (pop_next-down j now down, pops) (ap (λ ks. finished ∷ ks) (kinds-down j nows down))

find_sequence-empty : (j : Jitter) (s : ℕ) → j.frames ≡ [] → find_sequence j s ≡ none
unfolding find
find_sequence-empty j s e = ap (find (has_sequence s)) e

find_next_sequence-empty : (j : Jitter) → j.frames ≡ [] → find_next_sequence j ≡ none
unfolding find
find_next_sequence-empty j e = ap (find (λ f. sub16 f.sequence j.expected_sequence == 1)) e

substitute-empty : (j : Jitter) → j.frames ≡ [] → substitute j ≡ (plc, no_frame)
substitute-empty j e = rw (find_next_sequence-empty j e, substitute) refl

conceal-many :
    (j : Jitter)
    → ltb max_consecutive_loss ((j.consecutive_loss + 1) % 256) ≡ true
    → ((conceal j).0 ≡ reset) × ((conceal j).1.kind ≡ finished)
unfolding conceal
conceal-many j many = (rw many refl, rw many refl)

conceal-few :
    (j : Jitter)
    → j.frames ≡ []
    → ltb max_consecutive_loss ((j.consecutive_loss + 1) % 256) ≡ false
    → ((conceal j).0 ≡ record j {
      expected_sequence = add16 j.expected_sequence 1;
      consecutive_loss = (j.consecutive_loss + 1) % 256;
    })
      × ((conceal j).1.kind ≡ plc)
unfolding conceal
conceal-few j empty few = (rw few refl, rw few (ap (λ s. s.0) (substitute-empty j empty)))

-- A stream that plays but receives nothing, with an empty buffer, conceals as many more losses as
-- make five in a row, and is over from the next pop on.
pub pops-starving :
    (j : Jitter) (nows : List ℕ)
    → j.initialized ≡ true
    → j.started ≡ true
    → j.frames ≡ []
    → j.consecutive_loss ≤ max_consecutive_loss
    → map (λ r. r.kind) (pops j nows) ≡ starving (max_consecutive_loss - j.consecutive_loss) nows
unfolding pops starving
pops-starving j [] up on empty few = refl
pops-starving j (now ∷ nows) up on empty few =
    let k : Jitter = record j { started = true } in
    let pop : pop_next j now ≡ conceal k =
      pop_next-started j now up on
      ∙ play_next-lost k (find_sequence-empty k k.expected_sequence empty) in
    rw (pop, pops)
      (elim (Bool-cases (ltb max_consecutive_loss ((j.consecutive_loss + 1) % 256))) [
        | inl many ↦
            let (state, kind_is) = conceal-many k many in
            ap₂ ◌∷◌ kind_is
              (ap (λ m. map (λ r. r.kind) (pops m nows)) state ∙ kinds-down reset nows refl)
            ∙ ap (λ n. starving n (now ∷ nows)) (none_left j.consecutive_loss many few)
        | inr more ↦
            let (state, kind_is) = conceal-few k empty more in
            let m : Jitter = record k {
              expected_sequence = add16 j.expected_sequence 1;
              consecutive_loss = (j.consecutive_loss + 1) % 256;
            } in
            ap₂ ◌∷◌ kind_is (
              ap (λ m. map (λ r. r.kind) (pops m nows)) state
              ∙ pops-starving m nows up refl empty (ground arith))
            ∙ ap (λ n. starving n (now ∷ nows)) (left j.consecutive_loss more few)
      ])
  where
    none_left :
        (c : ℕ)
        → ltb max_consecutive_loss ((c + 1) % 256) ≡ true
        → c ≤ max_consecutive_loss
        → 0 ≡ max_consecutive_loss - c
    none_left c many few = ground arith

    left :
        (c : ℕ)
        → ltb max_consecutive_loss ((c + 1) % 256) ≡ false
        → c ≤ max_consecutive_loss
        → suc (max_consecutive_loss - (c + 1) % 256) ≡ max_consecutive_loss - c
    left c more few = ground arith
