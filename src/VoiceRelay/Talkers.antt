-- ===== src/VoiceRelay/Talkers.antt =====
-- The limit on the talkers of a lobby.
use shroomio.Base.{
  ℕ, ◌≤◌, ◌<◌, ◌≡◌, ◌⊎◌, refl, Bool, true, ◌||◌, not, Option, none, some, List, [], ◌∷◌, arith,
  count, count-set, get_elem?, get_elem?-set_there, get_elem?-map, set, leb, ◌==◌, Bool-cases,
  Option-cases, inl, inr, replicate, zero, suc,
}
use shroomio.VoiceFrame.{VoiceFrame, is_valid, is_end}
use shroomio.VoiceRelay.{
  Peer, Relay, blank, silenced, max_clients, max_active_talkers, init, expire, expire_talkers,
  reset_rate_window, assign, set_peer, refusal, heard, relay_frame, admit, enter, route, talks_in,
  count_lobby_talkers,
}

-- At most eight peers talk in any lobby.
abbrev pub IsQuiet : Relay → Type 0
IsQuiet r = (lobby : ℕ) → count_lobby_talkers r lobby ≤ max_active_talkers

-- A peer that is replaced by one that talks in no lobby, or only where it talked before, keeps the
-- relay quiet.
abbrev NoLouder : Peer → Peer → Type 0
NoLouder p q = (lobby : ℕ) → talks_in lobby q ≡ true → talks_in lobby p ≡ true

set-IsQuiet :
    (r : Relay) (i : ℕ) (p q : Peer)
    → get_elem? r i ≡ some p
    → NoLouder p q
    → IsQuiet r
    → IsQuiet (set r i q)
unfolding count_lobby_talkers
set-IsQuiet r i p q e less h lobby =
    ground (arith, count-set (talks_in lobby) r i p q e, less lobby, h lobby)

assign-NoLouder : (p : Peer) (c : Bool) (lobby player : ℕ) → NoLouder p (assign p c lobby player)
unfolding assign
assign-NoLouder p c lobby player k h = ground arith

set_peer-IsQuiet :
    (r : Relay) (i : ℕ) (c : Bool) (lobby player : ℕ)
    → IsQuiet r
    → IsQuiet (set_peer r i c lobby player)
unfolding set_peer
set_peer-IsQuiet r i c lobby player h = elim (Bool-cases (leb max_clients i)) [
  | inl out ↦ rw out h
  | inr in_ ↦ rw in_ (elim (Option-cases (get_elem? r i)) [
    | inl empty ↦ rw empty h
    | inr (p, e) ↦
        rw e (set-IsQuiet r i p (assign p c lobby player) e (assign-NoLouder p c lobby player) h)
  ])
]

expire-NoLouder : (now : ℕ) (p : Peer) → NoLouder p (expire now p)
unfolding expire
expire-NoLouder now p k h = ground arith

count-expire_talkers :
    (r : Relay) (now lobby : ℕ)
    → count (talks_in lobby) (expire_talkers r now) ≤ count (talks_in lobby) r
unfolding expire_talkers
count-expire_talkers [] now lobby = omega arith
count-expire_talkers (p ∷ r) now lobby =
    ground (arith, count-expire_talkers r now lobby, expire-NoLouder now p lobby)

-- Of a frame that passes the tests the sender talked already, or the lobby has room.
refusal-room :
    (r : Relay) (p : Peer) (f : VoiceFrame) (wire : ℕ)
    → refusal r p f wire ≡ none
    → (p.active_talker ≡ true) ⊎ (count_lobby_talkers r p.lobby_id < max_active_talkers)
unfolding refusal
refusal-room r p f wire e = ground arith

heard-IsQuiet :
    (r : Relay) (i : ℕ) (p : Peer) (f : VoiceFrame) (wire now : ℕ)
    → get_elem? r i ≡ some p
    → refusal r p f wire ≡ none
    → IsQuiet r
    → IsQuiet (set r i (heard p f wire now))
unfolding count_lobby_talkers heard
heard-IsQuiet r i p f wire now e passes h lobby = ground (
  arith,
  count-set (talks_in lobby) r i p (heard p f wire now) e,
  h lobby,
  refusal-room r p f wire passes,
)

silenced-NoLouder : (p : Peer) → NoLouder p (silenced p)
silenced-NoLouder p k h = ground arith

reset_rate_window-NoLouder : (p : Peer) (now : ℕ) → NoLouder p (reset_rate_window p now)
unfolding reset_rate_window
reset_rate_window-NoLouder p now k h = ground arith

expire_talkers-IsQuiet : (r : Relay) (now : ℕ) → IsQuiet r → IsQuiet (expire_talkers r now)
unfolding count_lobby_talkers
expire_talkers-IsQuiet r now h lobby = omega (arith, count-expire_talkers r now lobby, h lobby)

get_elem?-expire_talkers :
    (r : Relay) (now i : ℕ) (p : Peer)
    → get_elem? r i ≡ some p
    → get_elem? (expire_talkers r now) i ≡ some (expire now p)
unfolding expire_talkers
get_elem?-expire_talkers r now i p e = get_elem?-map (expire now) r i p e

module _ {C : Type 0} (send : Option (C → ℕ → VoiceFrame → ℕ → C × Bool)) where
  relay_frame-IsQuiet :
      (r : Relay) (sender : ℕ) (p : Peer) (f : VoiceFrame) (wire now : ℕ) (c : C)
      → get_elem? r sender ≡ some p
      → refusal r p f wire ≡ none
      → IsQuiet r
      → IsQuiet (relay_frame send r sender p f wire now c).relay
  unfolding relay_frame
  relay_frame-IsQuiet r sender p f wire now c e passes h =
      let q = heard p f wire now in
      let k = heard-IsQuiet r sender p f wire now e passes h in
      elim (Bool-cases (is_end f)) [
        | inl end ↦ rw end (
            set-IsQuiet (set r sender q) sender q (silenced q) (get_elem?-set_there r sender p q e)
              (silenced-NoLouder q) k)
        | inr more ↦ rw more k
      ]

  admit-IsQuiet :
      (r : Relay) (sender : ℕ) (p : Peer) (f : VoiceFrame) (wire now : ℕ) (c : C)
      → get_elem? r sender ≡ some p
      → IsQuiet r
      → IsQuiet (admit send r sender p f wire now c).relay
  unfolding admit
  admit-IsQuiet r sender p f wire now c e h =
      let q = reset_rate_window p now in
      let k = set-IsQuiet r sender p q e (reset_rate_window-NoLouder p now) h in
      elim (Option-cases (refusal (set r sender q) q f wire)) [
        | inl passes ↦
            rw (passes, admit)
              (relay_frame-IsQuiet (set r sender q) sender q f wire now c
                (get_elem?-set_there r sender p q e) passes k)
        | inr (o, refused) ↦ rw (refused, admit) k
      ]

  enter-IsQuiet :
      (r : Relay) (sender : ℕ) (p : Peer) (f : VoiceFrame) (wire now : ℕ) (c : C)
      → get_elem? r sender ≡ some p
      → IsQuiet r
      → IsQuiet (enter send r sender p f wire now c).relay
  unfolding enter
  enter-IsQuiet r sender p f wire now c e h =
      elim (Bool-cases (not p.connected || p.lobby_id == 0 || p.player_id == 0)) [
        | inl out ↦ simp out h
        | inr in_ ↦ simp in_ (
            admit-IsQuiet (expire_talkers r now) sender (expire now p) f wire now c
              (get_elem?-expire_talkers r now sender p e) (expire_talkers-IsQuiet r now h))
      ]

  route-IsQuiet :
      (r : Relay) (sender : ℕ) (data_ : Option VoiceFrame) (wire now : ℕ) (c : C)
      → IsQuiet r
      → IsQuiet (route send r sender data_ wire now c).relay
  unfolding route
  route-IsQuiet r sender none wire now c h = h
  route-IsQuiet r sender (some f) wire now c h = elim (Bool-cases (leb max_clients sender)) [
    | inl out ↦ rw out h
    | inr in_ ↦ rw in_ (elim (Bool-cases (is_valid (some f) wire)) [
      | inl good ↦ rw good (elim (Option-cases (get_elem? r sender)) [
        | inl empty ↦ rw empty h
        | inr (p, e) ↦ rw e (enter-IsQuiet r sender p f wire now c e h)
      ])
      | inr bad ↦ rw bad h
    ])
  ]

-- What reaches a relay: a change of a client's lobby, or a frame on the wire with its length.
pub data Call : Type 0 where
  assigns : ℕ → Bool → ℕ → ℕ → Call
  receives : ℕ → Option VoiceFrame → ℕ → ℕ → Call

module _ {C : Type 0} (send : Option (C → ℕ → VoiceFrame → ℕ → C × Bool)) where
  unfoldable pub run : Relay → C → List Call → Relay
  run r c [] = r
  run r c (assigns i on lobby player ∷ cs) = run (set_peer r i on lobby player) c cs
  run r c (receives i f wire now ∷ cs) =
      run (route send r i f wire now c).relay (route send r i f wire now c).context cs

  run-IsQuiet_from : (r : Relay) (c : C) (cs : List Call) → IsQuiet r → IsQuiet (run r c cs)
  unfolding run
  run-IsQuiet_from r c [] h = h
  run-IsQuiet_from r c (assigns i on lobby player ∷ cs) h =
      run-IsQuiet_from (set_peer r i on lobby player) c cs (set_peer-IsQuiet r i on lobby player h)
  run-IsQuiet_from r c (receives i f wire now ∷ cs) h =
      run-IsQuiet_from (route send r i f wire now c).relay (route send r i f wire now c).context cs
        (route-IsQuiet send r i f wire now c h)

count-blank : (n lobby : ℕ) → count (talks_in lobby) (replicate n blank) ≡ 0
count-blank zero lobby = refl
count-blank (suc n) lobby = omega (arith, count-blank n lobby)

init-IsQuiet : IsQuiet init
unfolding count_lobby_talkers init
init-IsQuiet lobby = omega (arith, count-blank max_clients lobby)

-- After any history of lobby changes and received frames, with any clock and any way of sending, no
-- lobby has more than eight talkers.
pub run-IsQuiet :
    {C : Type 0} (send : Option (C → ℕ → VoiceFrame → ℕ → C × Bool)) (c : C) (cs : List Call)
    (lobby : ℕ)
    → count_lobby_talkers (run send init c cs) lobby ≤ max_active_talkers
run-IsQuiet send c cs = run-IsQuiet_from send init c cs init-IsQuiet
