-- ===== src/Receiver/PacketBuffer/Growing.antt =====
-- The packet buffer grows: the search for a size ends, and the buffer stays in shape.
use naivertc.Base.{
  is_some, ℕ, zero, suc, ◌+◌, ◌*◌, ◌%◌, ◌^◌, ◌≤◌, ◌<◌, ◌≡◌, arith, ◌==◌, if-rule, Bool, true, false,
  Bool-cases, inl, inr, min, Option, none, some, length, replicate, length-replicate, dec_lt,
  ℕ_discrete,
}
use naivertc.Receiver.PacketBuffer.Packets.{Packet, slot}
use naivertc.Receiver.PacketBuffer.State.{PacketBuffer}
use naivertc.Receiver.PacketBuffer.Expansion.{
  has_conflict, find_size, expand_packet_buffer, expanded, expand_if_necessary,
}
use naivertc.Receiver.PacketBuffer.Linked.{IsPlaced}
use naivertc.Receiver.PacketBuffer.Filled.{IsFilled, place_all-IsPlaced, empty-IsPlaced}

-- A size between the one that the search started with and the largest.
IsFound : ℕ → ℕ → Option (ℕ × Bool) → Type 0
IsFound from max_size result =
    (n : ℕ) × (full : Bool) × (result ≡ some (n, full)) × (from ≤ n) × (n ≤ max_size)

find_size-IsFound :
    (fuel : ℕ) (b : PacketBuffer) (s new_size : ℕ)
    → b.max_packet_buffer_size < 2 ^ 63
    → 0 < new_size
    → new_size ≤ b.max_packet_buffer_size
    → b.max_packet_buffer_size < new_size + fuel
    → IsFound new_size b.max_packet_buffer_size (find_size fuel b s new_size)
unfolding IsFound find_size
find_size-IsFound zero b s new_size limit positive le room = absurd (omega arith)
find_size-IsFound (suc fuel) b s new_size limit positive le room =
    let max_size = b.max_packet_buffer_size in
    let larger = min max_size (2 * new_size % 2 ^ 64) in
    elim (Bool-cases (has_conflict new_size s b.packet_buffer)) [
      | inr fits ↦ (new_size, false, ground (arith, fits, le), omega arith, le)
      | inl conflict ↦ elim (dec_lt new_size max_size) [
        | no full ↦ (new_size, true, ground (arith, conflict, full, le), omega arith, le)
        | yes lt ↦
            let (n, full, found, from, up_to) =
              find_size-IsFound fuel b s larger limit (omega arith) (omega arith) (omega arith) in
            (n, full, ground (arith, conflict, lt, le, found), omega arith, up_to)
      ]
    ]

expand-IsFilled :
    (b : PacketBuffer) (new_size : ℕ)
    → 0 < new_size
    → IsFilled b
    → IsFilled (expand_packet_buffer b new_size)
unfolding expand_packet_buffer IsPlaced
expand-IsFilled b new_size positive filled =
    let max_size = b.max_packet_buffer_size in
    let empty : Option Packet = none in
    let slots = replicate (min max_size new_size) empty in
    let size : length slots ≡ min max_size new_size =
      length-replicate (min max_size new_size) empty in
    if-rule IsFilled (length b.packet_buffer == max_size) (λ full. filled)
      (λ grows.
        let (placed, same) =
          place_all-IsPlaced b.packet_buffer slots
            (omega (arith, size, filled.some_slot, filled.bounded))
            (λ i p held. (filled.placed i p held).1) (empty-IsPlaced (min max_size new_size)) in
        record {
          some_slot = omega (arith, same, size, filled.some_slot, filled.bounded);
          bounded = omega (arith, same, size);
          limit = filled.limit;
          placed = placed;
          newest = filled.newest;
        })

-- For a buffer of at least one slot and at most its maximum below 2 ^ 63, with every packet in the
-- slot of its number, ExpandPacketBufferIfNecessary ends, and the buffer that it leaves is such a
-- one again.
pub expand_if_necessary-IsFilled :
    (b : PacketBuffer) (s : ℕ)
    → IsFilled b
    → (out : PacketBuffer × Bool) × (expand_if_necessary b s ≡ some out) × IsFilled out.0
unfolding expand_if_necessary IsFound expanded
expand_if_necessary-IsFilled b s filled =
    let size = length b.packet_buffer in
    let max_size = b.max_packet_buffer_size in
    let held = is_some (slot b.packet_buffer (s % size)) in
    let start = min max_size (2 * size % 2 ^ 64) in
    elim (Bool-cases held) [
      | inr free ↦ ((b, true), ground (arith, free), filled)
      | inl conflict ↦ elim (ℕ_discrete size max_size) [
        | yes full ↦ ((b, false), ground (arith, conflict, full), filled)
        | no room ↦
            let (n, full, found, from, up_to) =
              find_size-IsFound (suc max_size) b s start filled.limit
                (omega (arith, filled.some_slot, filled.bounded, filled.limit)) (omega arith)
                (omega arith) in
            (
              expanded b (n, full),
              ground (arith, conflict, room, found),
              if-rule IsFilled full (λ no_more. filled)
                  (λ more.
                    expand-IsFilled b n
                      (omega (arith, filled.some_slot, filled.bounded, filled.limit)) filled),
            )
      ]
    ]
