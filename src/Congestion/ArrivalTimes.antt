-- ===== src/Congestion/ArrivalTimes.antt =====
-- src/rtc/congestion_control/receive_side/packet_arrival_time_map.hpp and packet_arrival_time_map.cpp: when the
-- packets arrived, in a queue from the id `begin_packet_id` on. The time 0 stands for no packet.
pub mod Entry
pub mod Bounds
pub mod View
pub mod Trimming
pub mod Adding
pub mod Refinement
use naivertc.Base.{
  ℕ, zero, suc, ◌+◌, ◌-◌, min, ltb, leb, if◌then◌else◌, Bool, true, false, not, ◌&&◌, Option, none,
  some, List, [], ◌∷◌, ◌++◌, length, get_elem?, set, drop, replicate, ◌^◌,
}
use naivertc.Base.Int.{ℤ, pos, negsuc, ◌+ℤ◌, ◌-ℤ◌, ltb_ℤ, max_ℤ, min_ℤ}

pub record PacketArrivalTimeMap : Type 0 where
  pub arrival_times : List ℤ
  pub begin_packet_id : ℤ
  pub has_received_packet : Bool

abbrev pub fresh_map : PacketArrivalTimeMap
fresh_map = record { arrival_times = []; begin_packet_id = pos 0; has_received_packet = false }

abbrev pub max_number_of_packets : ℕ
max_number_of_packets = 2 ^ 15

abbrev pub packet_id_placeholder : ℤ
packet_id_placeholder = pos 0

abbrev pub is_placeholder : ℤ → Bool
is_placeholder (pos zero) = true
is_placeholder (pos (suc n)) = false
is_placeholder (negsuc n) = false

abbrev pub end_packet_id : PacketArrivalTimeMap → ℤ
end_packet_id m = m.begin_packet_id +ℤ pos (length m.arrival_times)

-- The queue at an offset, which may be before it or behind it.
at_offset : List ℤ → ℤ → Option ℤ
at_offset times (pos n) = get_elem? times n
at_offset times (negsuc n) = none

-- `none` is the exception.
pub at : PacketArrivalTimeMap → ℤ → Option ℤ
unfolding at_offset
at m packet_id = at_offset m.arrival_times (packet_id -ℤ m.begin_packet_id)

is_received : Option ℤ → Bool
is_received none = false
is_received (some time) = not (is_placeholder time)

pub has_received : PacketArrivalTimeMap → ℤ → Bool
unfolding at_offset is_received
has_received m packet_id = is_received (at_offset m.arrival_times (packet_id -ℤ m.begin_packet_id))

-- The loop over the leading places without a packet, from the place `remove` on, where `times` is the rest.
pub skip_placeholders : ℕ → List ℤ → ℕ
skip_placeholders remove [] = remove
skip_placeholders remove (time ∷ times) =
    if is_placeholder time then skip_placeholders (suc remove) times else remove

-- Old packets go where the queue would grow too long; with the offset in what is left.
pub trim : PacketArrivalTimeMap → ℤ → ℕ → PacketArrivalTimeMap × ℕ
unfolding skip_placeholders
trim m packet_id offset =
    let packets_to_remove = offset - max_number_of_packets + 1 in
    let skipped = skip_placeholders packets_to_remove (drop packets_to_remove m.arrival_times) in
    if leb max_number_of_packets offset
    then (if leb (length m.arrival_times) packets_to_remove
        then (record m { arrival_times = []; begin_packet_id = packet_id }, 0)
        else (
          record m {
            arrival_times = drop skipped m.arrival_times;
            begin_packet_id = m.begin_packet_id +ℤ pos skipped;
          },
          offset - skipped,
        ))
    else (m, offset)

-- The gap up to the offset, and the packet.
pub push_after : PacketArrivalTimeMap × ℕ → ℤ → PacketArrivalTimeMap
push_after (m, offset) arrival_time = record m {
  arrival_times =
      m.arrival_times
      ++ (replicate (offset - length m.arrival_times) packet_id_placeholder ++ arrival_time ∷ []);
}

pub add_at : PacketArrivalTimeMap → ℤ → ℤ → ℤ → PacketArrivalTimeMap
unfolding trim push_after
add_at m (negsuc k) packet_id arrival_time =
    if ltb max_number_of_packets (suc k + length m.arrival_times) then m else record m {
      arrival_times =
          set (replicate (suc k) packet_id_placeholder ++ m.arrival_times) 0 arrival_time;
      begin_packet_id = packet_id;
    }
add_at m (pos offset) packet_id arrival_time =
    if ltb offset (length m.arrival_times)
    then record m { arrival_times = set m.arrival_times offset arrival_time }
    else push_after (trim m packet_id offset) arrival_time

pub add_packet : PacketArrivalTimeMap → ℤ → ℤ → PacketArrivalTimeMap
unfolding add_at
add_packet m packet_id arrival_time =
    if m.has_received_packet
    then add_at m (packet_id -ℤ m.begin_packet_id) packet_id arrival_time
    else record m {
      arrival_times = m.arrival_times ++ arrival_time ∷ [];
      begin_packet_id = packet_id;
      has_received_packet = true;
    }

pub erase_front : PacketArrivalTimeMap → ℕ → PacketArrivalTimeMap
erase_front m packets_to_remove = record m {
  arrival_times = drop packets_to_remove m.arrival_times;
  begin_packet_id = m.begin_packet_id +ℤ pos packets_to_remove;
}

pub erase_offset : PacketArrivalTimeMap → ℤ → PacketArrivalTimeMap
unfolding erase_front
erase_offset m (negsuc k) = m
erase_offset m (pos offset) = erase_front m (min offset (length m.arrival_times))

pub erase_to : PacketArrivalTimeMap → ℤ → PacketArrivalTimeMap
unfolding erase_offset
erase_to m packet_id = erase_offset m (packet_id -ℤ m.begin_packet_id)

-- The loop over the queue, with the id of its front.
pub remove_loop : List ℤ → ℤ → ℤ → ℤ → List ℤ × ℤ
remove_loop [] begin packet_id arrival_time = ([], begin)
remove_loop (time ∷ times) begin packet_id arrival_time =
    if ltb_ℤ begin packet_id && not (ltb_ℤ arrival_time time)
    then remove_loop times (begin +ℤ pos 1) packet_id arrival_time
    else (time ∷ times, begin)

pub remove_old_packets : PacketArrivalTimeMap → ℤ → ℤ → PacketArrivalTimeMap
unfolding remove_loop
remove_old_packets m packet_id arrival_time =
    let (times, begin) = remove_loop m.arrival_times m.begin_packet_id packet_id arrival_time in
    record m { arrival_times = times; begin_packet_id = begin }

pub clamp : PacketArrivalTimeMap → ℤ → ℤ
clamp m packet_id = min_ℤ (end_packet_id m) (max_ℤ packet_id m.begin_packet_id)
