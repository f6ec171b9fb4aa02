-- ===== src/Receiver/PacketBuffer/State.antt =====
-- src/rtc/rtp_rtcp/rtp/receiver/video/jitter/packet_buffer.cpp: the state of the buffer, Clear, ClearTo and UpdateMissingPackets. `none` is a loop that has not ended within
-- its fuel.
use naivertc.Base.{
  ℕ, zero, suc, ◌+◌, ◌-◌, ◌%◌, ◌^◌, if◌then◌else◌, Bool, true, false, not, ◌&&◌, min, Option, none,
  some, List, [], length, set, replicate,
}
use mathlib.Core.Option
use naivertc.Modulo.{forward_diff}
use naivertc.WrapAround.{ahead_of}
use naivertc.Receiver.NackModule.Ordered.{
  erase_to_lower_bound, erase, put, erase_before_upper_bound,
}
use naivertc.Receiver.PacketBuffer.Packets.{Packet, Frame, Slots, slot, next_num}

abbrev pub max_missing_packet_count : ℕ
max_missing_packet_count = 1000

abbrev pub itself : ℕ → ℕ
itself n = n

pub record PacketBuffer : Type 0 where
  pub max_packet_buffer_size : ℕ
  pub packet_buffer : Slots
  pub first_seq_num : ℕ
  pub first_packet_received : Bool
  pub is_cleared_to_first_seq_num : Bool
  pub sps_pps_idr_is_h264_keyframe : Bool
  pub newest_inserted_seq_num : Option ℕ
  pub missing_packets : List ℕ

pub record InsertResult : Type 0 where
  pub assembled_frames : List Frame
  pub keyframe_requested : Bool

abbrev pub no_result : InsertResult
no_result = record { assembled_frames = []; keyframe_requested = false }

abbrev pub new_packet_buffer : ℕ → ℕ → PacketBuffer
new_packet_buffer initial_buffer_size max_buffer_size = record {
  max_packet_buffer_size = max_buffer_size;
  packet_buffer = replicate initial_buffer_size none;
  first_seq_num = 0;
  first_packet_received = false;
  is_cleared_to_first_seq_num = false;
  sps_pps_idr_is_h264_keyframe = true;
  newest_inserted_seq_num = none;
  missing_packets = [];
}

unfoldable pub clear : PacketBuffer → PacketBuffer
clear b = record b {
  packet_buffer = replicate (length b.packet_buffer) none;
  first_packet_received = false;
  is_cleared_to_first_seq_num = false;
  newest_inserted_seq_num = none;
  missing_packets = [];
}

-- A slot is cleared where its packet is older than `seq_num`.
unfoldable pub clear_stored : Slots → ℕ → ℕ → Option Packet → Slots
clear_stored slots i seq_num none = slots
clear_stored slots i seq_num (some stored) =
    if ahead_of 16 seq_num stored.seq_num then set slots i none else slots

-- The loop that clears slots, from `first` on.
unfoldable pub clear_slots : ℕ → ℕ → ℕ → Slots → Slots
clear_slots zero first seq_num slots = slots
clear_slots (suc iterations) first seq_num slots =
    let i = first % length slots in
    clear_slots iterations (next_num first) seq_num (clear_stored slots i seq_num (slot slots i))

unfoldable pub clear_to : PacketBuffer → ℕ → PacketBuffer
clear_to b seq_num =
    let s = next_num seq_num in
    let iterations = min (forward_diff 16 b.first_seq_num s) (length b.packet_buffer) in
    if b.is_cleared_to_first_seq_num && ahead_of 16 b.first_seq_num seq_num
    then b
    else if not b.first_packet_received
    then b
    else record b {
      packet_buffer = clear_slots iterations b.first_seq_num s b.packet_buffer;
      first_seq_num = s;
      is_cleared_to_first_seq_num = true;
      missing_packets = erase_before_upper_bound itself s b.missing_packets;
    }

-- The loop that inserts the missing numbers, with what `newest_inserted_seq_num_` is after it.
unfoldable pub insert_missing : ℕ → ℕ → ℕ → List ℕ → Option (ℕ × List ℕ)
insert_missing zero seq_num newest missing = none
insert_missing (suc fuel) seq_num newest missing =
    let n = next_num newest in
    let rest = insert_missing fuel seq_num n (put itself n missing) in
    if ahead_of 16 seq_num n then rest else some (n, missing)

unfoldable pub newest_or : ℕ → Option ℕ → ℕ
newest_or s none = s
newest_or s (some n) = n

unfoldable pub update_missing_packets : PacketBuffer → ℕ → ℕ → Option PacketBuffer
update_missing_packets b seq_num window_size =
    let newest = newest_or seq_num b.newest_inserted_seq_num in
    let old = (seq_num + 2 ^ 64 - window_size) % 2 ^ 64 % 2 ^ 16 in
    let kept = erase_to_lower_bound itself old b.missing_packets in
    let from = if ahead_of 16 old newest then old else newest in
    if ahead_of 16 seq_num newest
    then Option.map
        (λ (n, missing). record b { newest_inserted_seq_num = some n; missing_packets = missing })
        (insert_missing (2 ^ 16) seq_num from kept)
    else some (record b {
      newest_inserted_seq_num = some newest;
      missing_packets = erase itself seq_num b.missing_packets;
    })
