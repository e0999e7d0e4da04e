-- ===== src/VoiceRelay/Delivery.antt =====
-- Who hears a frame.
use shroomio.Base.{
  ℕ, zero, suc, ◌+◌, ◌≡◌, ◌≢◌, ◌⊎◌, refl, ap, subst, get_elem?-set_there, get_elem?-map, ◌∙◌, Bool,
  ◌||◌, not, some, List, [], ◌∷◌, arith, get_elem?, set, leb, ◌==◌, if◌then◌else◌, Bool-cases,
  Option-cases, inl, inr,
}
use shroomio.VoiceFrame.{VoiceFrame, is_valid}
use shroomio.VoiceRelay.{
  Peer, Outcome, accepted, Relay, Routed, max_clients, expire, expire_talkers, reset_rate_window,
  refusal, heard, hears, deliver, deliver_all, relay_frame, admit, enter, route,
}
use shroomio.VoiceRelay.Recipients.{is_recipient, recipients}

hears-is_recipient :
    (sender lobby i : ℕ) (p : Peer) → hears sender lobby i p ≡ is_recipient sender lobby i p
hears-is_recipient sender lobby i p = ground arith

-- One call of the sending function for each index of a list, in order.
unfoldable pub send_each :
    {C : Type 0} → (C → ℕ → VoiceFrame → ℕ → C × Bool) → VoiceFrame → ℕ → List ℕ → C → C × ℕ
send_each g f wire [] c = (c, 0)
send_each g f wire (i ∷ is) c =
    let (d, sent) = g c i f wire in
    let (e, n) = send_each g f wire is d in (e, (if sent then 1 else 0) + n)

deliver-send_each :
    {C : Type 0} (g : C → ℕ → VoiceFrame → ℕ → C × Bool) (sender lobby : ℕ) (f : VoiceFrame)
    (wire i : ℕ) (r : Relay) (c : C)
    → deliver g sender lobby f wire i r c ≡ send_each g f wire (recipients sender lobby i r) c
unfolding deliver send_each recipients
deliver-send_each g sender lobby f wire i [] c = refl
deliver-send_each g sender lobby f wire i (p ∷ r) c =
    elim (Bool-cases (is_recipient sender lobby i p)) [
      | inl yes_ ↦
          rw (hears-is_recipient sender lobby i p ∙ yes_, yes_)
            (rw (deliver-send_each g sender lobby f wire (suc i) r (g c i f wire).0))
      | inr no_ ↦
          rw (hears-is_recipient sender lobby i p ∙ no_, no_)
            (deliver-send_each g sender lobby f wire (suc i) r c)
    ]

-- A change of a peer that leaves its place: whether it is connected, its lobby and its player.
record SamePlace (p q : Peer) : Type 0 where
  pub connected : q.connected ≡ p.connected
  pub lobby : q.lobby_id ≡ p.lobby_id
  pub player : q.player_id ≡ p.player_id

expire-place : (now : ℕ) (p : Peer) → SamePlace p (expire now p)
unfolding expire
expire-place now p = ground arith

reset_rate_window-place : (p : Peer) (now : ℕ) → SamePlace p (reset_rate_window p now)
unfolding reset_rate_window
reset_rate_window-place p now = ground arith

-- Nothing that a relay changes on the way moves a peer in or out of a lobby.
recipients-expire_talkers :
    (sender lobby i now : ℕ) (r : Relay)
    → recipients sender lobby i (expire_talkers r now) ≡ recipients sender lobby i r
unfolding recipients expire_talkers
recipients-expire_talkers sender lobby i now [] = refl
recipients-expire_talkers sender lobby i now (p ∷ r) =
    ground (arith, expire-place now p, recipients-expire_talkers sender lobby (suc i) now r)

recipients-set :
    (sender lobby i j : ℕ) (p q : Peer) (r : Relay)
    → get_elem? r j ≡ some p
    → q.connected ≡ p.connected
    → q.lobby_id ≡ p.lobby_id
    → recipients sender lobby i (set r j q) ≡ recipients sender lobby i r
unfolding recipients
recipients-set sender lobby i j p q [] e a b = refl
recipients-set sender lobby i zero p q (x ∷ r) e a b = ground arith
recipients-set sender lobby i (suc j) p q (x ∷ r) e a b =
    ground (arith, recipients-set sender lobby (suc i) j p q r e a b)

refusal-ne-accepted :
    (r : Relay) (p : Peer) (f : VoiceFrame) (wire : ℕ) (o : Outcome)
    → refusal r p f wire ≡ some o
    → o ≢ accepted
unfolding refusal
refusal-ne-accepted r p f wire o e k = ground arith

get_elem?-expire_talkers :
    (r : Relay) (now i : ℕ) (p : Peer)
    → get_elem? r i ≡ some p
    → get_elem? (expire_talkers r now) i ≡ some (expire now p)
unfolding expire_talkers
get_elem?-expire_talkers r now i p e = get_elem?-map (expire now) r i p e

module _ {C : Type 0} (g : C → ℕ → VoiceFrame → ℕ → C × Bool) where
  -- What sending a frame of the peer `p` comes to: each recipient in `r` once, in order, with the
  -- sender's player put in.
  abbrev pub sent : ℕ → Peer → VoiceFrame → ℕ → Relay → C → C × ℕ
  sent sender p f wire r c =
      send_each g (record f { sender_id = p.player_id }) wire (recipients sender p.lobby_id 0 r) c

  -- What an accepted call has done, by its outcome.
  abbrev pub Sends : Routed C → C × ℕ → C → Type 0
  Sends out all c =
      ((out.outcome ≡ accepted) × ((out.context, out.delivered) ≡ all))
      ⊎ ((out.outcome ≢ accepted) × (out.context ≡ c) × (out.delivered ≡ 0))

  sent-place :
      (sender : ℕ) (p q : Peer) (f : VoiceFrame) (wire : ℕ) (r s : Relay) (c : C)
      → SamePlace p q
      → recipients sender p.lobby_id 0 s ≡ recipients sender p.lobby_id 0 r
      → sent sender q f wire s c ≡ sent sender p f wire r c
  sent-place sender p q f wire r s c place same = rw (place.lobby, place.player, same)

  relay_frame-sent :
      (r : Relay) (sender : ℕ) (p : Peer) (f : VoiceFrame) (wire now : ℕ) (c : C)
      → get_elem? r sender ≡ some p
      → Sends (relay_frame (some g) r sender p f wire now c) (sent sender p f wire r c) c
  unfolding relay_frame deliver_all
  relay_frame-sent r sender p f wire now c e =
      let out = record f { sender_id = p.player_id } in
      let s = set r sender (heard p f wire now) in
      inl (
        refl,
        deliver-send_each g sender p.lobby_id out wire 0 s c
            ∙ ap (λ is. send_each g out wire is c)
                (recipients-set sender p.lobby_id 0 sender p (heard p f wire now) r e refl refl),
      )

  admit-sent :
      (r : Relay) (sender : ℕ) (p : Peer) (f : VoiceFrame) (wire now : ℕ) (c : C)
      → get_elem? r sender ≡ some p
      → Sends (admit (some g) r sender p f wire now c) (sent sender p f wire r c) c
  unfolding admit
  admit-sent r sender p f wire now c e =
      let q = reset_rate_window p now in
      let place = reset_rate_window-place p now in
      let s = set r sender q in
      let same = recipients-set sender p.lobby_id 0 sender p q r e place.connected place.lobby in
      elim (Option-cases (refusal s q f wire)) [
        | inl passes ↦
            rw (passes, admit)
              (subst (λ all. Sends (relay_frame (some g) s sender q f wire now c) all c)
                (sent-place sender p q f wire r s c place same)
                (relay_frame-sent s sender q f wire now c (get_elem?-set_there r sender p q e)))
        | inr (o, refused) ↦
            rw (refused, admit) (inr (refusal-ne-accepted s q f wire o refused, refl, refl))
      ]

  enter-sent :
      (r : Relay) (sender : ℕ) (p : Peer) (f : VoiceFrame) (wire now : ℕ) (c : C)
      → get_elem? r sender ≡ some p
      → Sends (enter (some g) r sender p f wire now c) (sent sender p f wire r c) c
  unfolding enter
  enter-sent r sender p f wire now c e =
      elim (Bool-cases (not p.connected || p.lobby_id == 0 || p.player_id == 0)) [
        | inl out ↦ simp out (inr (λ k. cc, refl, refl))
        | inr in_ ↦ simp in_ (
            subst
              (λ all.
                Sends (admit (some g) (expire_talkers r now) sender (expire now p) f wire now c) all
                  c)
              (sent-place sender p (expire now p) f wire r (expire_talkers r now) c
                (expire-place now p) (recipients-expire_talkers sender p.lobby_id 0 now r))
              (admit-sent (expire_talkers r now) sender (expire now p) f wire now c
                (get_elem?-expire_talkers r now sender p e)))
      ]

  -- A frame from the peer `p` of a relay is refused, and then nothing is sent and none counts as
  -- delivered; or it is accepted, and then it goes to each recipient once, which is every other client
  -- that is connected and in the lobby of `p`, in the order of the slots, with the number of `p`'s
  -- player for its sender, and what is reported is how many of the calls succeeded.
  pub route-Sends :
      (r : Relay) (sender : ℕ) (p : Peer) (f : VoiceFrame) (wire now : ℕ) (c : C)
      → get_elem? r sender ≡ some p
      → Sends (route (some g) r sender (some f) wire now c) (sent sender p f wire r c) c
  unfolding route
  route-Sends r sender p f wire now c e = elim (Bool-cases (leb max_clients sender)) [
    | inl out ↦ rw out (inr (λ k. cc, refl, refl))
    | inr in_ ↦ rw in_ (elim (Bool-cases (is_valid (some f) wire)) [
      | inl good ↦ rw good (rw e (enter-sent r sender p f wire now c e))
      | inr bad ↦ rw bad (inr (λ k. cc, refl, refl))
    ])
  ]
