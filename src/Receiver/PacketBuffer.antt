-- ===== src/Receiver/PacketBuffer.antt =====
-- src/rtc/rtp_rtcp/rtp/receiver/video/jitter/packet_buffer.hpp and packet_buffer.cpp: packets in slots by their numbers,
-- out of which whole frames are taken; InsertPacket and InsertPadding. `none` is a round of Rounds that is `bad`, or a
-- loop that has not ended within its fuel.
pub mod Packets
pub mod Assembly
pub mod State
pub mod Rounds
pub mod Expansion
pub mod Held
pub mod Taken
pub mod Linked
pub mod Marked
pub mod Emptied
pub mod Whole
pub mod Delivery
pub mod Missing
pub mod Insertion
pub mod Kept
pub mod Thinner
pub mod Filled
pub mod Growing
pub mod Reaching
pub mod Receiving
pub mod Completion
use naivertc.Base.{
  ℕ, zero, suc, ◌+◌, ◌-◌, ◌*◌, ◌%◌, ◌^◌, ltb, leb, ◌==◌, if◌then◌else◌, Bool, true, false, not,
  ◌&&◌, ◌||◌, min, Option, none, some, List, [], ◌∷◌, ◌++◌, length, set, replicate,
}
use mathlib.Core.Option
use naivertc.WrapAround.{ahead_of}
use Packets.{Packet, Frame, slot, next_num}
use State.{
  PacketBuffer, InsertResult, no_result, clear, update_missing_packets, max_missing_packet_count,
}
use Rounds.{try_to_assemble_frames}
use Expansion.{expand_if_necessary}

unfoldable pub assembled : PacketBuffer × List Frame → PacketBuffer × InsertResult
assembled (b, frames) = (b, record no_result { assembled_frames = frames })

-- The packet goes to its slot, and frames that are whole by it are taken out.
unfoldable pub put_packet : PacketBuffer → Packet → Option (PacketBuffer × InsertResult)
put_packet b p =
    let s = p.seq_num in
    let stored = record b {
      packet_buffer =
          set b.packet_buffer (s % length b.packet_buffer) (some (record p { continuous = false }));
    } in
    Option.map assembled (
      Option.bind (update_missing_packets stored s max_missing_packet_count)
        (λ b'. try_to_assemble_frames b' s))

-- The packet after the buffer was expanded for it, where it could be.
unfoldable pub put_expanded : Packet → PacketBuffer × Bool → Option (PacketBuffer × InsertResult)
put_expanded p (b, true) = put_packet b p
put_expanded p (b, false) = some (clear b, record no_result { keyframe_requested = true })

-- A packet that is not older than what was cleared.
unfoldable pub insert_at : PacketBuffer → Packet → Option (PacketBuffer × InsertResult)
insert_at b p = elim (slot b.packet_buffer (p.seq_num % length b.packet_buffer)) [
  | none ↦ put_packet b p
  | some stored ↦
      if stored.seq_num == p.seq_num
      then some (b, no_result)
      else Option.bind (expand_if_necessary b p.seq_num) (put_expanded p)
]

unfoldable pub insert_packet : PacketBuffer → Packet → Option (PacketBuffer × InsertResult)
insert_packet b p =
    if not b.first_packet_received
    then insert_at (record b { first_seq_num = p.seq_num; first_packet_received = true }) p
    else if ahead_of 16 b.first_seq_num p.seq_num
    then (if b.is_cleared_to_first_seq_num
        then some (b, no_result)
        else insert_at (record b { first_seq_num = p.seq_num }) p)
    else insert_at b p

unfoldable pub insert_padding : PacketBuffer → ℕ → Option (PacketBuffer × InsertResult)
insert_padding b seq_num = Option.map assembled (
    Option.bind (update_missing_packets b seq_num max_missing_packet_count)
      (λ b'. try_to_assemble_frames b' (next_num seq_num)))
