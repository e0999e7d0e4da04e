-- ===== src/VoiceFrame.antt =====
-- The voice frames of src/shared/protocol.h: the packet, its size and its validation. The length of
-- a packet on the wire comes beside it, as in the source.
use shroomio.Base.{
  ℕ, ◌+◌, ◌/◌, ◌%◌, Bool, false, ◌&&◌, ◌||◌, not, Option, none, some, List, ltb, ◌==◌,
  if◌then◌else◌,
}

-- The header's fields come first; `payload` holds the bytes that follow the fixed part.
pub record VoiceFrame : Type 0 where
  pub type : ℕ
  pub channel : ℕ
  pub size : ℕ
  pub sender_id : ℕ
  pub stream_id : ℕ
  pub timestamp : ℕ
  pub sequence : ℕ
  pub payload_size : ℕ
  pub flags : ℕ
  pub reserved : ℕ × ℕ × ℕ
  pub payload : List ℕ

abbrev pub packet_voice_frame : ℕ
packet_voice_frame = 20

abbrev pub channel_voice : ℕ
channel_voice = 4

abbrev pub max_payload_size : ℕ
max_payload_size = 512

-- `offsetof(ShroomVoiceFramePacket, payload)`.
abbrev pub header_size : ℕ
header_size = 24

abbrev pub max_size : ℕ
max_size = header_size + max_payload_size

-- `flags & SHROOM_VOICE_FLAG_START` and `flags & SHROOM_VOICE_FLAG_END`: bits 0 and 1.
abbrev pub is_start : VoiceFrame → Bool
is_start f = f.flags % 2 == 1

abbrev pub is_end : VoiceFrame → Bool
is_end f = f.flags / 2 % 2 == 1

unfoldable pub packet_size : ℕ → ℕ
packet_size payload_size = header_size + payload_size

-- The tests on the fields; of the flags no bit above the two known ones may be set.
unfoldable pub is_well_formed : VoiceFrame → ℕ → Bool
unfolding packet_size
is_well_formed f wire =
    f.type == packet_voice_frame
    && f.channel == channel_voice
    && f.size == wire
    && not (f.stream_id == 0)
    && not (f.payload_size == 0)
    && not (ltb max_payload_size f.payload_size)
    && packet_size f.payload_size == wire
    && f.flags / 4 == 0
    && f.reserved.0 == 0
    && f.reserved.1 == 0
    && f.reserved.2 == 0

-- `none` is a NULL pointer.
unfoldable pub is_valid : Option VoiceFrame → ℕ → Bool
unfolding is_well_formed
is_valid none wire = false
is_valid (some f) wire =
    if ltb wire header_size || ltb max_size wire || ltb 0xffff wire
    then false
    else is_well_formed f wire
