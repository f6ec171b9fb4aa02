-- ===== src/Receiver/PacketBuffer/Expansion.antt =====
-- src/rtc/rtp_rtcp/rtp/receiver/video/jitter/packet_buffer.cpp, ExpandPacketBufferIfNecessary and ExpandPacketBuffer. `none` is a loop that has not ended within its fuel.
use naivertc.Base.{
  is_some, ℕ, zero, suc, ◌*◌, ◌%◌, ◌^◌, ltb, leb, ◌==◌, if◌then◌else◌, Bool, true, false, not, ◌||◌,
  min, Option, none, some, [], ◌∷◌, length, set, replicate,
}
use mathlib.Core.Option
use naivertc.Receiver.PacketBuffer.Packets.{Slots, slot}
use naivertc.Receiver.PacketBuffer.State.{PacketBuffer}

-- Whether a packet has the number, as its remainder at the new size.
unfoldable pub has_conflict : ℕ → ℕ → Slots → Bool
has_conflict new_size seq_num [] = false
has_conflict new_size seq_num (none ∷ slots) = has_conflict new_size seq_num slots
has_conflict new_size seq_num (some p ∷ slots) =
    p.seq_num % new_size == seq_num || has_conflict new_size seq_num slots

-- The loop that looks for a size, with whether there is no more space.
unfoldable pub find_size : ℕ → PacketBuffer → ℕ → ℕ → Option (ℕ × Bool)
find_size zero b seq_num new_size = none
find_size (suc fuel) b seq_num new_size =
    let max_size = b.max_packet_buffer_size in
    let larger = find_size fuel b seq_num (min max_size (2 * new_size % 2 ^ 64)) in
    if leb new_size max_size
    then (if has_conflict new_size seq_num b.packet_buffer
        then (if ltb new_size max_size then larger else some (new_size, true))
        else some (new_size, false))
    else some (new_size, false)

unfoldable pub place_all : Slots → Slots → Slots
place_all [] slots = slots
place_all (none ∷ packets) slots = place_all packets slots
place_all (some p ∷ packets) slots =
    place_all packets (set slots (p.seq_num % length slots) (some p))

unfoldable pub expand_packet_buffer : PacketBuffer → ℕ → PacketBuffer
expand_packet_buffer b new_size =
    if length b.packet_buffer == b.max_packet_buffer_size then b else record b {
      packet_buffer =
          place_all b.packet_buffer (replicate (min b.max_packet_buffer_size new_size) none);
    }

unfoldable pub expanded : PacketBuffer → ℕ × Bool → PacketBuffer × Bool
expanded b (new_size, no_more_space) =
    (if no_more_space then b else expand_packet_buffer b new_size, not no_more_space)

-- With whether there is room for the packet.
unfoldable pub expand_if_necessary : PacketBuffer → ℕ → Option (PacketBuffer × Bool)
expand_if_necessary b seq_num =
    let size = length b.packet_buffer in
    let max_size = b.max_packet_buffer_size in
    if not (is_some (slot b.packet_buffer (seq_num % size)))
    then some (b, true)
    else if size == max_size
    then some (b, false)
    else Option.map (expanded b)
        (find_size (suc max_size) b seq_num (min max_size (2 * size % 2 ^ 64)))
