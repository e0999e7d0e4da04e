-- ===== src/VoiceRelay/Limits.antt =====
-- The rate limits: no peer ever holds more frames or bytes in its window than it may.
use shroomio.Base.{
  ℕ, ◌≤◌, ◌≡◌, Bool, ◌||◌, not, Option, none, some, [], ◌∷◌, arith, All, All-set, All-get,
  All-replicate, get_elem?, set, leb, ◌==◌, Bool-cases, Option-cases, inl, inr,
}
use shroomio.VoiceFrame.{VoiceFrame, is_valid, is_end}
use shroomio.VoiceRelay.{
  Peer, Relay, blank, max_clients, max_frames_per_window, max_bytes_per_window, init, expire,
  expire_talkers, reset_rate_window, assign, set_peer, refusal, heard, relay_frame, admit, enter,
  route,
}

-- What a peer's window holds.
pub record Within (p : Peer) : Type 0 where
  pub frames : p.frame_count ≤ max_frames_per_window
  pub bytes : p.byte_count ≤ max_bytes_per_window

abbrev pub AllWithin : Relay → Type 0
AllWithin = All Within

expire-Within : (now : ℕ) (p : Peer) → Within p → Within (expire now p)
unfolding expire
expire-Within now p w = ground arith

expire_talkers-AllWithin : (r : Relay) (now : ℕ) → AllWithin r → AllWithin (expire_talkers r now)
unfolding expire_talkers
expire_talkers-AllWithin [] now h = tt
expire_talkers-AllWithin (p ∷ r) now h =
    (expire-Within now p h.0, expire_talkers-AllWithin r now h.1)

reset_rate_window-Within : (p : Peer) (now : ℕ) → Within p → Within (reset_rate_window p now)
unfolding reset_rate_window
reset_rate_window-Within p now w = ground arith

assign-Within :
    (p : Peer) (c : Bool) (lobby player : ℕ) → Within p → Within (assign p c lobby player)
unfolding assign
assign-Within p c lobby player w = ground arith

set_peer-AllWithin :
    (r : Relay) (i : ℕ) (c : Bool) (lobby player : ℕ)
    → AllWithin r
    → AllWithin (set_peer r i c lobby player)
unfolding set_peer
set_peer-AllWithin r i c lobby player h = elim (Bool-cases (leb max_clients i)) [
  | inl out ↦ rw out h
  | inr in_ ↦ rw in_ (elim (Option-cases (get_elem? r i)) [
    | inl empty ↦ rw empty h
    | inr (p, e) ↦ rw e (
        All-set Within r i (assign p c lobby player) h
          (assign-Within p c lobby player (All-get Within r i p h e)))
  ])
]

-- An accepted frame still fits in its sender's window.
heard-Within :
    (r : Relay) (p : Peer) (f : VoiceFrame) (wire now : ℕ)
    → refusal r p f wire ≡ none
    → Within p
    → Within (heard p f wire now)
unfolding refusal heard
heard-Within r p f wire now e w = ground arith

module _ {C : Type 0} (send : Option (C → ℕ → VoiceFrame → ℕ → C × Bool)) where
  relay_frame-AllWithin :
      (r : Relay) (sender : ℕ) (p : Peer) (f : VoiceFrame) (wire now : ℕ) (c : C)
      → AllWithin r
      → Within (heard p f wire now)
      → AllWithin (relay_frame send r sender p f wire now c).relay
  unfolding relay_frame
  relay_frame-AllWithin r sender p f wire now c h w = elim (Bool-cases (is_end f)) [
    | inl end ↦ rw end (All-set Within _ sender _ (All-set Within r sender _ h w) (omega arith))
    | inr more ↦ rw more (All-set Within r sender _ h w)
  ]

  admit-AllWithin :
      (r : Relay) (sender : ℕ) (p : Peer) (f : VoiceFrame) (wire now : ℕ) (c : C)
      → AllWithin r
      → Within p
      → AllWithin (admit send r sender p f wire now c).relay
  unfolding admit
  admit-AllWithin r sender p f wire now c h w =
      let q = reset_rate_window p now in
      let v = reset_rate_window-Within p now w in
      let k = All-set Within r sender q h v in
      elim (Option-cases (refusal (set r sender q) q f wire)) [
        | inl passes ↦
            rw (passes, admit)
              (relay_frame-AllWithin (set r sender q) sender q f wire now c k
                (heard-Within (set r sender q) q f wire now passes v))
        | inr (o, refused) ↦ rw (refused, admit) k
      ]

  enter-AllWithin :
      (r : Relay) (sender : ℕ) (p : Peer) (f : VoiceFrame) (wire now : ℕ) (c : C)
      → AllWithin r
      → Within p
      → AllWithin (enter send r sender p f wire now c).relay
  unfolding enter
  enter-AllWithin r sender p f wire now c h w =
      elim (Bool-cases (not p.connected || p.lobby_id == 0 || p.player_id == 0)) [
        | inl out ↦ simp out h
        | inr in_ ↦ simp in_ (
            admit-AllWithin (expire_talkers r now) sender (expire now p) f wire now c
              (expire_talkers-AllWithin r now h) (expire-Within now p w))
      ]

  -- Whatever is received, from whomever and at whatever time, no peer has more than 50 frames or
  -- 16384 bytes in its window afterwards, if none had before.
  pub route-AllWithin :
      (r : Relay) (sender : ℕ) (data_ : Option VoiceFrame) (wire now : ℕ) (c : C)
      → AllWithin r
      → AllWithin (route send r sender data_ wire now c).relay
  unfolding route
  route-AllWithin r sender none wire now c h = h
  route-AllWithin r sender (some f) wire now c h = elim (Bool-cases (leb max_clients sender)) [
    | inl out ↦ rw out h
    | inr in_ ↦ rw in_ (elim (Bool-cases (is_valid (some f) wire)) [
      | inl good ↦ rw good (elim (Option-cases (get_elem? r sender)) [
        | inl empty ↦ rw empty h
        | inr (p, e) ↦
            rw e (enter-AllWithin r sender p f wire now c h (All-get Within r sender p h e))
      ])
      | inr bad ↦ rw bad h
    ])
  ]

pub init-AllWithin : AllWithin init
unfolding init
init-AllWithin = All-replicate Within max_clients blank (omega arith)
