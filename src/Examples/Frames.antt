-- ===== src/Examples/Frames.antt =====
-- The theorems on the packet buffer, the packetizer and the reader of bits, at concrete packets, and runs of them.
use naivertc.Base.{
  ℕ, ◌+◌, ◌*◌, ◌≤◌, ◌<◌, ◌⊎◌, ◌≡◌, refl, arith, true, false, Bool, none, some, Option, List, [],
  ◌∷◌, inl, map,
}
use naivertc.Base.Int.{pos, negsuc}
use mathlib.Core.Option
use naivertc.Rtcp.Items.{All}
use naivertc.Receiver.PacketBuffer.{put_packet, insert_at, insert_packet, assembled}
use naivertc.Receiver.PacketBuffer.Packets.{Packet, Frame, monostate, vp8, empty, is_h264, slot}
use naivertc.Receiver.PacketBuffer.State.{
  PacketBuffer, InsertResult, new_packet_buffer, update_missing_packets, newest_or, insert_missing,
}
use naivertc.Receiver.PacketBuffer.Assembly.{
  is_continuous, continuous_at, continuous_with, take_packets, take_packet, begin_frame, end_frame,
  append_packet, walk, checked,
}
use naivertc.Receiver.PacketBuffer.Rounds.{
  try_to_assemble_frames, assemble_loop, assemble_step, assemble_held, assemble_at, finish_frame,
  take_frame, give_frame,
}
use naivertc.Receiver.PacketBuffer.Held.{IsSize}
use naivertc.Receiver.PacketBuffer.Whole.{IsWhole}
use naivertc.Receiver.PacketBuffer.Receiving.{
  IsPlain, IsFitting, slots_with, created, insert_packet-IsWhole,
}
use naivertc.Receiver.PacketBuffer.Receiving
use naivertc.Receiver.PacketBuffer.Completion.{IsCompleted, IsCurrent, insert_packet-IsCompleted}
use naivertc.Receiver.NackModule.Ordered.{put, erase, erase_to_lower_bound, erase_to_upper_bound}
use naivertc.WrapAround.{ahead_of, ahead_or_at, is_at_distance, older_than}
use naivertc.Modulo.{forward_diff}
use naivertc.Sender.Packetizer.{
  to_size, current_size, split_loop, num_of_packets, split_several, split_about_equally,
}
use naivertc.Sender.Packetizer.Split.{limits_of, IsSplit, split_about_equally-IsSplit}
use naivertc.Receiver.PacketBuffer.Expansion.{expand_if_necessary}
use naivertc.Receiver.PacketBuffer.Filled.{IsFilled, created-IsFilled}
use naivertc.Receiver.PacketBuffer.Growing.{expand_if_necessary-IsFilled}
use naivertc.Receiver.PacketBuffer.Reaching
use naivertc.Receiver.PacketBuffer.Reaching.{packet_buffer-IsFilled}
use naivertc.Receiver.PacketBuffer.State.{clear_to}
use naivertc.Bytes.{ok}
use naivertc.BitReader.{
  BitReader, read_exp_golomb, skip_zeros, peek_bits, peek_bytes, remaining_bit_count,
  left_most_bits, right_most_bits, is_zero_bit, consume_bits, golomb_after, finish_golomb,
  read_bits, consume_peeked, seek,
}
use naivertc.BitReader.Safety.{IsInside, IsRead, read_exp_golomb-IsRead}

-- Number, payload, whether it begins and whether it ends a frame.
abbrev packet : ℕ → List ℕ → Bool → Bool → Packet
packet seq_num payload begins finishes = record {
  video_header = record {
    frame_width = 0;
    frame_height = 0;
    frame_type = empty;
    codec_type = vp8;
    is_first_packet_in_frame = begins;
    is_last_packet_in_frame = finishes;
  };
  video_codec_header = monostate;
  video_payload = payload;
  continuous = false;
  seq_num = seq_num;
  timestamp = 9000;
  received_time_ms = pos 5;
  times_nacked = negsuc 0;
}

abbrev inserted_all : PacketBuffer → List Packet → Option (PacketBuffer × List Frame)
inserted_all b [] = some (b, [])
inserted_all b (p ∷ []) = Option.map (λ (b, r). (b, r.assembled_frames)) (insert_packet b p)
inserted_all b (p ∷ q ∷ ps) = Option.bind (insert_packet b p) (λ (b', r). inserted_all b' (q ∷ ps))

abbrev frames_of : Option (PacketBuffer × List Frame) → List (List ℕ)
frames_of none = []
frames_of (some (b, frames)) = map (λ f. f.bitstream) frames

-- Three packets of a frame, over the wrap of the numbers and out of order.
abbrev three_packets : List Packet
three_packets =
    packet 65535 (1 ∷ 2 ∷ []) true false
    ∷ packet 1 (5 ∷ []) false true
    ∷ packet 0 (3 ∷ 4 ∷ []) false false
    ∷ []

frame_of_three :
    frames_of (inserted_all (new_packet_buffer 4 8) three_packets) ≡ (1 ∷ 2 ∷ 3 ∷ 4 ∷ 5 ∷ []) ∷ []
unfolding insert_packet insert_at put_packet assembled update_missing_packets newest_or
    insert_missing try_to_assemble_frames assemble_loop assemble_step assemble_held assemble_at
    is_continuous continuous_at continuous_with finish_frame take_frame give_frame take_packets
    take_packet begin_frame end_frame append_packet walk checked slot is_h264 Option.bind ahead_of
    ahead_or_at is_at_distance forward_diff put erase erase_to_lower_bound erase_to_upper_bound
    older_than
frame_of_three = refl

abbrev single : Packet
single = packet 7 (1 ∷ 2 ∷ []) true true

size4 : IsSize 4
unfolding IsSize
size4 = (omega arith, omega arith, refl)

single-IsPlain : IsPlain single
unfolding IsPlain is_h264
single-IsPlain = (omega arith, refl)

insert_packet-IsWhole_example :
    (out : PacketBuffer × InsertResult) × (insert_packet (new_packet_buffer 4 8) single ≡ some out)
    × Receiving.Reachable out.0
    × All (IsWhole (slots_with (new_packet_buffer 4 8).packet_buffer single)) out.1.assembled_frames
unfolding IsFitting slot
insert_packet-IsWhole_example =
    insert_packet-IsWhole single (created 4 8 size4) single-IsPlain (inl refl)

-- Four packets for 13 bytes.
split_run : split_about_equally 13 (limits_of 5 1 2 0) ≡ some (3 ∷ 4 ∷ 4 ∷ 2 ∷ [])
unfolding to_size current_size split_loop num_of_packets split_several split_about_equally
split_run = refl

split_about_equally-IsSplit_example :
    (0 + 13 ≤ 5) × (split_about_equally 13 (limits_of 5 1 2 0) ≡ some (13 ∷ []))
    ⊎ (5 < 0 + 13)
      × (13 < num_of_packets (13 + 1 + 2) 5)
      × (split_about_equally 13 (limits_of 5 1 2 0) ≡ some [])
    ⊎ (5 < 0 + 13)
      × (num_of_packets (13 + 1 + 2) 5 ≤ 13)
      × IsSplit 13 5 1 2
          (num_of_packets (13 + 1 + 2) 5)
          (split_about_equally 13 (limits_of 5 1 2 0))
split_about_equally-IsSplit_example =
    split_about_equally-IsSplit 13 5 1 2 0 (omega arith) (omega arith) (omega arith) (omega arith)
      (omega arith)

abbrev five_slots : PacketBuffer
five_slots = new_packet_buffer 5 8

five_slots-IsFilled : IsFilled five_slots
five_slots-IsFilled = created-IsFilled 5 8 (omega arith) (omega arith) (omega arith)

expand_if_necessary-IsFilled_example :
    (out : PacketBuffer × Bool) × (expand_if_necessary five_slots 7 ≡ some out) × IsFilled out.0
expand_if_necessary-IsFilled_example = expand_if_necessary-IsFilled five_slots 7 five_slots-IsFilled

packet_buffer-IsFilled_example : IsFilled (clear_to five_slots 7)
packet_buffer-IsFilled_example =
    packet_buffer-IsFilled
      (Reaching.cleared_to 7 (Reaching.created 5 8 (omega arith) (omega arith) (omega arith)))

-- The code of 3 in 5 bits, at the third bit; and the next one, which is cut off.
abbrev golomb_bits : BitReader
golomb_bits = record { bytes = 0b11001000 ∷ []; byte_offset = 0; bit_offset = 2 }

abbrev cut_bits : BitReader
cut_bits = record golomb_bits { bit_offset = 5 }

golomb_run :
    (read_exp_golomb golomb_bits ≡ ok (record golomb_bits { bit_offset = 7 }, some 3))
    × (read_exp_golomb cut_bits ≡ ok (cut_bits, none))
unfolding read_exp_golomb skip_zeros peek_bits peek_bytes remaining_bit_count left_most_bits
    right_most_bits is_zero_bit consume_bits golomb_after finish_golomb read_bits consume_peeked
    seek
golomb_run = (refl, refl)

golomb_bits-IsInside : IsInside golomb_bits
unfolding IsInside
golomb_bits-IsInside = (omega arith, omega arith)

read_exp_golomb-IsRead_example :
    (out : BitReader × Option ℕ) × (n : ℕ) × (read_exp_golomb golomb_bits ≡ ok out)
    × IsRead golomb_bits (2 * n + 1) out
read_exp_golomb-IsRead_example = read_exp_golomb-IsRead golomb_bits golomb_bits-IsInside

insert_packet-IsCompleted_example :
    IsCompleted
      (slots_with (new_packet_buffer 4 8).packet_buffer single)
      7
      (insert_packet (new_packet_buffer 4 8) single)
unfolding slot is_continuous continuous_at IsCurrent
insert_packet-IsCompleted_example =
    insert_packet-IsCompleted single (Receiving.created 4 8 size4) single-IsPlain refl refl refl
      refl
