-- ===== src/Snapshot/Frame/Finish.antt =====
-- How `ShroomSnapshotEncodeFrame` ends: the packets are numbered.
use shroomio.Base.{
  ℕ, suc, ◌≤◌, ◌≡◌, refl, ap, Bool, true, false, Option, List, [], ◌∷◌, length, arith, ltb,
}
use shroomio.Snapshot.{Player, max_players}
use shroomio.Snapshot.Frame.{Metadata, Packet, Frame}
use shroomio.Snapshot.Frame.Encode.{
  empty_encoded, finish_packets, finish_frame, then_despawns, encode_players, base_of, has_base,
  parameters, encode_frame,
}

pub length-finish_packets :
    (k n : ℕ) (ps : List Packet) → length (finish_packets k n ps) ≡ length ps
unfolding finish_packets
length-finish_packets k n [] = refl
length-finish_packets k n (p ∷ ps) = ap suc (length-finish_packets (suc k) n ps)

pub encode_frame-finish :
    (m : Metadata) (players : List Player) (baseline : Option Frame) (keyframe : Bool)
    → has_base baseline keyframe ≡ true
    → length players ≤ max_players
    → let base = base_of baseline keyframe in
      let c = parameters m players base keyframe in
      encode_frame m players baseline keyframe
      ≡ finish_frame c (
          then_despawns c players base.players
            (encode_players c base.players players empty_encoded))
unfolding encode_frame
encode_frame-finish m players baseline keyframe there small = rw (fits, there) refl
  where
    fits : ltb max_players (length players) ≡ false
    fits = ground arith
