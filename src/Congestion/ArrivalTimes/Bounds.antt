-- ===== src/Congestion/ArrivalTimes/Bounds.antt =====
-- How long the queue of arrival times gets.
use naivertc.Base.{
  ℕ, zero, suc, ◌+◌, ◌-◌, ◌≤◌, ◌<◌, ◌≡◌, arith, inl, inr, Bool-cases, false, List, [], ◌∷◌, ◌++◌,
  length, length-append, length-set, length-drop, length-replicate, min, ap, refl, ◌∙◌, drop,
  replicate,
}
use naivertc.Base.Int.{ℤ, pos, negsuc, ◌+ℤ◌, ◌-ℤ◌}
use naivertc.Congestion.ArrivalTimes.{
  PacketArrivalTimeMap, max_number_of_packets, packet_id_placeholder, fresh_map, add_packet, add_at,
  trim, push_after, skip_placeholders, erase_to, erase_offset, erase_front, remove_old_packets,
  remove_loop,
}

-- At most 2 ^ 15 places, and none before the first packet.
unfoldable pub IsBounded : PacketArrivalTimeMap → Type 0
IsBounded m =
    (length m.arrival_times ≤ max_number_of_packets)
    × (m.has_received_packet ≡ false → m.arrival_times ≡ [])

ruleset lengths = (arith, length-append, length-set, length-drop, length-replicate)

pub skip_bound :
    (r : ℕ) (times : List ℤ)
    → (r ≤ skip_placeholders r times) × (skip_placeholders r times ≤ r + length times)
unfolding skip_placeholders
skip_bound r [] = omega arith
skip_bound r (t ∷ times) = ground (arith, skip_bound (suc r) times)

-- The queue that is trimmed has room for the gap and the packet.
pub trim-fits :
    (m : PacketArrivalTimeMap) (packet_id : ℤ) (offset : ℕ)
    → length m.arrival_times ≤ max_number_of_packets
    → length m.arrival_times ≤ offset
    → (length (trim m packet_id offset).0.arrival_times ≤ (trim m packet_id offset).1)
      × ((trim m packet_id offset).1 < max_number_of_packets)
unfolding trim
trim-fits m packet_id offset le beyond =
    let r = offset - max_number_of_packets + 1 in
    ground (
      arith,
      length-drop (skip_placeholders r (drop r m.arrival_times)) m.arrival_times,
      skip_bound r (drop r m.arrival_times),
      length-drop r m.arrival_times,
    )

trim-received :
    (m : PacketArrivalTimeMap) (packet_id : ℤ) (offset : ℕ)
    → (trim m packet_id offset).0.has_received_packet ≡ m.has_received_packet
unfolding trim
trim-received m packet_id offset = ground arith

add_at-length :
    (m : PacketArrivalTimeMap) (offset packet_id arrival_time : ℤ)
    → length m.arrival_times ≤ max_number_of_packets
    → length (add_at m offset packet_id arrival_time).arrival_times ≤ max_number_of_packets
unfolding add_at push_after
add_at-length m (negsuc k) packet_id arrival_time le = ground (
  arith,
  length-set (replicate (suc k) packet_id_placeholder ++ m.arrival_times) 0 arrival_time,
  length-append (replicate (suc k) packet_id_placeholder) m.arrival_times,
  length-replicate (suc k) packet_id_placeholder,
)
add_at-length m (pos offset) packet_id arrival_time le =
    let (trimmed, place) = trim m packet_id offset in
    let gap = replicate (place - length trimmed.arrival_times) packet_id_placeholder in
    ground (
      arith,
      length-set m.arrival_times offset arrival_time,
      trim-fits m packet_id offset le,
      length-append trimmed.arrival_times (gap ++ arrival_time ∷ []),
      length-append gap (arrival_time ∷ []),
      length-replicate (place - length trimmed.arrival_times) packet_id_placeholder,
    )

pub add_at-received :
    (m : PacketArrivalTimeMap) (offset packet_id arrival_time : ℤ)
    → (add_at m offset packet_id arrival_time).has_received_packet ≡ m.has_received_packet
unfolding add_at push_after
add_at-received m (negsuc k) packet_id arrival_time = ground arith
add_at-received m (pos offset) packet_id arrival_time =
    ground (arith, trim-received m packet_id offset)

remove_loop-length :
    (times : List ℤ) (begin packet_id arrival_time : ℤ)
    → length (remove_loop times begin packet_id arrival_time).0 ≤ length times
unfolding remove_loop
remove_loop-length [] begin packet_id arrival_time = omega arith
remove_loop-length (t ∷ times) begin packet_id arrival_time =
    ground (arith, remove_loop-length times (begin +ℤ pos 1) packet_id arrival_time)

add_packet-IsBounded :
    (m : PacketArrivalTimeMap) (packet_id arrival_time : ℤ)
    → IsBounded m
    → IsBounded (add_packet m packet_id arrival_time)
unfolding IsBounded add_packet
add_packet-IsBounded m packet_id arrival_time (le, none_yet) =
    let offset = packet_id -ℤ m.begin_packet_id in
    elim (Bool-cases m.has_received_packet) [
      | inl held ↦ ground (
        arith,
        held,
        add_at-length m offset packet_id arrival_time le,
        add_at-received m offset packet_id arrival_time,
      )
      | inr lacks ↦ ground (arith, lacks, none_yet lacks)
    ]

drop-nil : (n : ℕ) {xs : List ℤ} → xs ≡ [] → drop n xs ≡ []
drop-nil n {xs} e = ap (drop n) e ∙ drop-empty n
  where
    drop-empty : (n : ℕ) → drop {A = ℤ} n [] ≡ []
    drop-empty zero = refl
    drop-empty (suc n) = refl

erase_offset-IsBounded :
    (m : PacketArrivalTimeMap) (offset : ℤ) → IsBounded m → IsBounded (erase_offset m offset)
unfolding IsBounded erase_offset erase_front
erase_offset-IsBounded m (negsuc k) bounded = bounded
erase_offset-IsBounded m (pos offset) (le, none_yet) =
    let r = min offset (length m.arrival_times) in
    (omega (arith, length-drop r m.arrival_times), λ lacks. drop-nil r (none_yet lacks))

remove_loop-nil :
    {times : List ℤ} (begin packet_id arrival_time : ℤ)
    → times ≡ []
    → (remove_loop times begin packet_id arrival_time).0 ≡ []
unfolding remove_loop
remove_loop-nil begin packet_id arrival_time e =
    ap (λ times. (remove_loop times begin packet_id arrival_time).0) e

remove_old_packets-IsBounded :
    (m : PacketArrivalTimeMap) (packet_id arrival_time : ℤ)
    → IsBounded m
    → IsBounded (remove_old_packets m packet_id arrival_time)
unfolding IsBounded remove_old_packets
remove_old_packets-IsBounded m packet_id arrival_time (le, none_yet) = (
  omega (arith, remove_loop-length m.arrival_times m.begin_packet_id packet_id arrival_time),
  λ lacks. remove_loop-nil m.begin_packet_id packet_id arrival_time (none_yet lacks),
)

erase_to-IsBounded :
    (m : PacketArrivalTimeMap) (packet_id : ℤ) → IsBounded m → IsBounded (erase_to m packet_id)
unfolding erase_to
erase_to-IsBounded m packet_id bounded =
    erase_offset-IsBounded m (packet_id -ℤ m.begin_packet_id) bounded

-- What is reached from a fresh map by the operations.
pub data Reachable : PacketArrivalTimeMap → Type 0 where
  fresh : Reachable fresh_map
  adds :
      {m : PacketArrivalTimeMap} (packet_id arrival_time : ℤ)
      → Reachable m
      → Reachable (add_packet m packet_id arrival_time)
  erases :
      {m : PacketArrivalTimeMap} (packet_id : ℤ) → Reachable m → Reachable (erase_to m packet_id)
  removes :
      {m : PacketArrivalTimeMap} (packet_id arrival_time : ℤ)
      → Reachable m
      → Reachable (remove_old_packets m packet_id arrival_time)

-- In every state that a map of arrival times reaches by adding packets, erasing and removing old
-- packets, it has at most 2 ^ 15 places, and none before its first packet.
pub arrival_times-IsBounded : (m : PacketArrivalTimeMap) → Reachable m → IsBounded m
unfolding IsBounded
arrival_times-IsBounded m fresh = (omega arith, λ e. refl)
arrival_times-IsBounded m (adds {m = n} packet_id arrival_time r) =
    add_packet-IsBounded n packet_id arrival_time (arrival_times-IsBounded n r)
arrival_times-IsBounded m (erases {m = n} packet_id r) =
    erase_to-IsBounded n packet_id (arrival_times-IsBounded n r)
arrival_times-IsBounded m (removes {m = n} packet_id arrival_time r) =
    remove_old_packets-IsBounded n packet_id arrival_time (arrival_times-IsBounded n r)
