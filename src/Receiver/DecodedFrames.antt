-- ===== src/Receiver/DecodedFrames.antt =====
-- src/rtc/rtp_rtcp/rtp/receiver/video/jitter/decoded_frames_history.hpp and decoded_frames_history.cpp: which of the
-- latest frames were decoded, as flags in a cyclic buffer.
pub mod Flags
pub mod Jump
pub mod Refinement
use naivertc.Base.{
  ℕ, zero, suc, ◌+◌, ◌-◌, ◌%◌, ◌^◌, ltb, leb, if◌then◌else◌, Bool, true, false, not, ◌&&◌, Option,
  none, some, List, [], ◌∷◌, length, set, get_or, replicate,
}
use naivertc.Base.Int.{ℤ, pos, negsuc, ◌-ℤ◌, ltb_ℤ, to_int32, to_uint64}

-- The size of `buffer` is `window_size`.
pub record DecodedFramesHistory : Type 0 where
  pub window_size : ℕ
  pub buffer : List Bool
  pub last_decoded_frame_id : Option ℤ
  pub last_decoded_frame_timestamp : Option ℕ

pub new_history : ℕ → DecodedFramesHistory
new_history window_size = record {
  window_size = window_size;
  buffer = replicate window_size false;
  last_decoded_frame_id = none;
  last_decoded_frame_timestamp = none;
}

-- The operands of `%` and of `+` are made unsigned, of 64 bits, and what they give an int.
pub frame_id_to_index : DecodedFramesHistory → ℤ → ℤ
frame_id_to_index h frame_id =
    let size = length h.buffer in
    let index = to_int32 (to_uint64 frame_id % size) in
    if ltb_ℤ index (pos 0) then to_int32 ((to_uint64 index + size) % 2 ^ 64) else index

-- std::fill with false from place `first` to before `last`; `i` is the place of the head.
pub fill_false : ℕ → ℕ → ℕ → List Bool → List Bool
fill_false i first last [] = []
fill_false i first last (x ∷ xs) =
    (if leb first i && ltb i last then false else x) ∷ fill_false (suc i) first last xs

-- The flags after what expired with a new frame is cleared. Places that an index too large for an int gives are
-- outside the buffer, which C++ leaves open; here they hold nothing.
pub clear_expired : DecodedFramesHistory → ℤ → Option ℤ → List Bool
unfolding frame_id_to_index fill_false
clear_expired h frame_id none = h.buffer
clear_expired h frame_id (some last) =
    let new_index = frame_id_to_index h frame_id in
    let last_index = frame_id_to_index h last in
    let size = length h.buffer in
    if not (ltb_ℤ (frame_id -ℤ last) (pos h.window_size))
    then fill_false 0 0 size h.buffer
    else if ltb_ℤ last_index new_index
    then fill_false 0 (to_uint64 last_index + 1) (to_uint64 new_index) h.buffer
    else fill_false 0 0 (to_uint64 new_index)
        (fill_false 0 (to_uint64 last_index + 1) size h.buffer)

pub insert_frame : DecodedFramesHistory → ℤ → ℕ → DecodedFramesHistory
unfolding clear_expired frame_id_to_index
insert_frame h frame_id timestamp = record h {
  buffer =
      set (clear_expired h frame_id h.last_decoded_frame_id)
        (to_uint64 (frame_id_to_index h frame_id)) true;
  last_decoded_frame_id = some frame_id;
  last_decoded_frame_timestamp = some timestamp;
}

pub was_decoded_since : DecodedFramesHistory → ℤ → Option ℤ → Bool
unfolding frame_id_to_index
was_decoded_since h frame_id none = false
was_decoded_since h frame_id (some last) =
    if not (ltb_ℤ (last -ℤ pos h.window_size) frame_id)
    then false
    else if ltb_ℤ last frame_id
    then false
    else get_or h.buffer (to_uint64 (frame_id_to_index h frame_id)) false

pub was_decoded : DecodedFramesHistory → ℤ → Bool
unfolding was_decoded_since
was_decoded h frame_id = was_decoded_since h frame_id h.last_decoded_frame_id

pub clear : DecodedFramesHistory → DecodedFramesHistory
unfolding fill_false
clear h = record h {
  buffer = fill_false 0 0 (length h.buffer) h.buffer;
  last_decoded_frame_id = none;
  last_decoded_frame_timestamp = none;
}
