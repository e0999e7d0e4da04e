-- ===== src/VoiceRelay/Recipients.antt =====
-- The peers of a relay that are to hear a frame.
use shroomio.Base.{
  ℕ, zero, suc, ◌+◌, ◌<◌, ◌≡◌, ◌≢◌, ◌↔◌, refl, sym, ap, subst, ◌∙◌, Bool, true, false, ◌||◌, ◌&&◌,
  not, Option, none, some, List, [], ◌∷◌, arith, get_elem?, ◌==◌, if◌then◌else◌, Option-cases, inl,
  inr,
}
use mathlib.Core.Bool.{false≢true}
use mathlib.Core.Option.{some-injective}
use shroomio.VoiceRelay.{Peer, Relay}

-- Another client, connected and in the lobby.
abbrev pub is_recipient : ℕ → ℕ → ℕ → Peer → Bool
is_recipient sender lobby i p = not (i == sender) && p.connected && p.lobby_id == lobby

-- The indices of the peers that are to hear a frame, from index `i` on.
unfoldable pub recipients : ℕ → ℕ → ℕ → Relay → List ℕ
recipients sender lobby i [] = []
recipients sender lobby i (p ∷ r) =
    let rest = recipients sender lobby (suc i) r in
    if is_recipient sender lobby i p then i ∷ rest else rest

-- Where a number stands in a list.
abbrev pub is_in : ℕ → List ℕ → Bool
is_in j [] = false
is_in j (i ∷ is) = i == j || is_in j is

-- A peer is among the recipients exactly when it is another client, connected, in the lobby.
abbrev pub Hears : ℕ → ℕ → ℕ → Peer → Type 0
Hears sender lobby j p = (j ≢ sender) × (p.connected ≡ true) × (p.lobby_id ≡ lobby)

is_recipient_iff :
    (sender lobby j : ℕ) (p : Peer) → is_recipient sender lobby j p ≡ true ↔ Hears sender lobby j p
is_recipient_iff sender lobby j p = (λ e. ground arith, λ e. ground arith)

below_out :
    (sender lobby i j : ℕ) (r : Relay) → j < i → is_in j (recipients sender lobby i r) ≡ false
unfolding recipients
below_out sender lobby i j [] h = refl
below_out sender lobby i j (p ∷ r) h = ground (arith, below_out sender lobby (suc i) j r)

-- The test at an index of the relay.
abbrev hears_at : ℕ → ℕ → ℕ → Option Peer → Bool
hears_at sender lobby j none = false
hears_at sender lobby j (some p) = is_recipient sender lobby j p

is_in-recipients :
    (sender lobby i j : ℕ) (r : Relay)
    → is_in (i + j) (recipients sender lobby i r) ≡ hears_at sender lobby (i + j) (get_elem? r j)
unfolding recipients
is_in-recipients sender lobby i j [] = refl
is_in-recipients sender lobby i zero (p ∷ r) =
    let here : i + 0 ≡ i = omega arith in
    rw here (ground (arith, below_out sender lobby (suc i) i r))
is_in-recipients sender lobby i (suc j) (p ∷ r) =
    let next : i + suc j ≡ suc i + j = omega arith in
    rw next (ground (arith, is_in-recipients sender lobby (suc i) j r))

is_in-recipients_at :
    (sender lobby j : ℕ) (r : Relay) (o : Option Peer)
    → get_elem? r j ≡ o
    → is_in j (recipients sender lobby 0 r) ≡ hears_at sender lobby j o
is_in-recipients_at sender lobby j r o e =
    let from_start : 0 + j ≡ j = omega arith in
    subst (λ k. is_in k (recipients sender lobby 0 r) ≡ hears_at sender lobby k o) from_start
      (is_in-recipients sender lobby 0 j r ∙ ap (hears_at sender lobby (0 + j)) e)

none_is_not_some : (p : Peer) → ◌≢◌ {A = Option Peer} none (some p)
none_is_not_some p = λ e. cc

-- The recipients of a frame are exactly the other clients that are connected and in the sender's
-- lobby.
pub is_in-recipients_iff :
    (sender lobby j : ℕ) (r : Relay)
    → is_in j (recipients sender lobby 0 r) ≡ true
      ↔ (p : Peer) × (get_elem? r j ≡ some p) × Hears sender lobby j p
is_in-recipients_iff sender lobby j r = elim (Option-cases (get_elem? r j)) [
  | inl empty ↦
      let at = is_in-recipients_at sender lobby j r none empty in
      (
        λ e. absurd (false≢true (sym at ∙ e)),
        λ (p, there, _). absurd (none_is_not_some p (sym empty ∙ there)),
      )
  | inr (p, there) ↦
      let at = is_in-recipients_at sender lobby j r (some p) there in
      (
        λ e. (p, there, (is_recipient_iff sender lobby j p).0 (sym at ∙ e)),
        λ (q, also, h).
            at
            ∙ (is_recipient_iff sender lobby j p).1
                (subst (Hears sender lobby j) (some-injective q p (sym also ∙ there)) h),
      )
]
