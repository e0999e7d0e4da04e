-- ===== src/VoiceJitter/Tests.antt =====
-- A stream whose sequence numbers wrap around, with its frames out of order.
use shroomio.Base.{ℕ, ◌≡◌, refl, true, some, List, [], ◌∷◌, map, arith}
use shroomio.VoiceFrame.{VoiceFrame, is_valid}
use shroomio.VoiceJitter.{
  Jitter, init, frame, frame_of, start_stream, find, remove_at, remove_frame, store, push, play,
  conceal, play_next, pop_next,
}
use shroomio.VoiceJitter.Buffer.{IsValid, Call, pushes, pops, run, run-IsValid}
use shroomio.VoiceJitter.Playback.{after, slot, InOrder, pops-InOrder}
use shroomio.VoiceJitter.Playback
use shroomio.VoiceJitter.Delivery.{pop_next-plays}
use shroomio.VoiceJitter.Starving.{starving, pops-starving}

abbrev packet : ℕ → ℕ → VoiceFrame
packet sequence flags = record {
  type = 20;
  channel = 4;
  size = 27;
  sender_id = 9;
  stream_id = 5;
  timestamp = 0;
  sequence = sequence;
  payload_size = 3;
  flags = flags;
  reserved = (0, 0, 0);
  payload = 1 ∷ 2 ∷ 3 ∷ [];
}

abbrev history : List Call
history =
    pushes (some (packet 65535 1)) 27 10
    ∷ pushes (some (packet 1 0)) 27 11
    ∷ pushes (some (packet 1 0)) 27 12
    ∷ pushes (some (packet 0 0)) 27 13
    ∷ pops 14
    ∷ []

-- The stream after the first frame has been played: the frames 1 and 0 wait.
abbrev playing : Jitter
playing = record (start_stream (packet 65535 1) 10) {
  frames = frame_of (packet 1 0) 11 ∷ frame_of (packet 0 0) 13 ∷ [];
  expected_sequence = 0;
  started = true;
}

so_far : run init history ≡ playing
unfolding run push is_valid store start_stream find remove_at remove_frame pop_next play_next play
    conceal
so_far = refl

come_out :
    map slot (Playback.pops playing (20 ∷ 40 ∷ 60 ∷ 80 ∷ []))
    ≡ some 0 ∷ some 1 ∷ some 2 ∷ some 3 ∷ []
unfolding Playback.pops pop_next play_next play conceal find remove_at remove_frame start_stream
come_out = refl

run-IsValid_example : IsValid (run init history)
run-IsValid_example = run-IsValid history

pops-InOrder_example : InOrder 0 0 (Playback.pops playing (20 ∷ 40 ∷ 60 ∷ 80 ∷ []))
unfolding start_stream
pops-InOrder_example = pops-InOrder playing (20 ∷ 40 ∷ 60 ∷ 80 ∷ []) refl refl (omega arith)

playing-IsValid : IsValid playing
unfolding start_stream
playing-IsValid =
    (omega arith, ((λ h. omega (arith, h), tt), (tt, tt)), omega arith, λ down. cc down)

pop_next-plays_example :
    let r = (pop_next (after playing (20 ∷ [])) 40).1 in
    (r.kind ≡ frame) × (r.frame ≡ frame_of (packet 1 0) 11)
unfolding start_stream after pop_next play_next play find remove_frame remove_at
pop_next-plays_example =
    pop_next-plays playing (frame_of (packet 1 0) 11) (20 ∷ []) 40 playing-IsValid refl refl
      (0, refl) (omega arith) (omega arith) refl refl

abbrev starved : Jitter
starved = record (start_stream (packet 65535 1) 10) { started = true; consecutive_loss = 3 }

pops-starving_example :
    map (λ r. r.kind) (Playback.pops starved (20 ∷ 40 ∷ 60 ∷ 80 ∷ []))
    ≡ starving 2 (20 ∷ 40 ∷ 60 ∷ 80 ∷ [])
unfolding start_stream
pops-starving_example = pops-starving starved (20 ∷ 40 ∷ 60 ∷ 80 ∷ []) refl refl refl (omega arith)
