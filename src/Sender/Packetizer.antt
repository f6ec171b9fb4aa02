-- ===== src/Sender/Packetizer.antt =====
-- src/rtc/rtp_rtcp/rtp/packetizer/rtp_packetizer.hpp and rtp_packetizer.cpp: a payload is split into packets of about the
-- same size. `none` is a loop that has not ended within its fuel, or a division by 0. Sizes are of 64 bits, and their sums
-- wrap.
pub mod Weights
pub mod Loop
pub mod Split
use naivertc.Base.{
  ℕ, zero, suc, ◌+◌, ◌-◌, ◌/◌, ◌%◌, ◌^◌, ltb, leb, ◌==◌, if◌then◌else◌, Bool, true, false, ◌&&◌,
  ◌||◌, Option, none, some, List, [], ◌∷◌,
}
use mathlib.Core.Option
use naivertc.Base.Int.{ℤ, pos, negsuc, pos_part, ltb_ℤ}

pub record PayloadSizeLimits : Type 0 where
  pub max_payload_size : ℕ
  pub first_packet_reduction_size : ℤ
  pub last_packet_reduction_size : ℤ
  pub single_packet_reduction_size : ℤ

-- An ssize_t converted to size_t.
unfoldable pub to_size : ℤ → ℕ
to_size (pos n) = n
to_size (negsuc n) = 2 ^ 64 - 1 - n

-- The size of the current packet.
unfoldable pub current_size : ℕ → ℕ → ℕ → ℕ → Bool → ℕ
current_size reduction bytes left remaining first =
    let reduced =
      if first then (if ltb (reduction + 1) bytes then bytes - reduction else 1) else bytes in
    let current = if ltb remaining reduced then remaining else reduced in
    if left == 2 && current == remaining then current - 1 else current

-- The loop over the packets; `bytes` is `bytes_per_packet`.
unfoldable pub split_loop : ℕ → ℕ → ℕ → ℕ → ℕ → ℕ → Bool → Option (List ℕ)
split_loop zero reduction larger bytes left remaining first = none
split_loop (suc fuel) reduction larger bytes left remaining first =
    let bytes' = if left == larger then bytes + 1 else bytes in
    let current = current_size reduction bytes' left remaining first in
    let rest =
      split_loop fuel reduction larger bytes' ((left + 2 ^ 64 - 1) % 2 ^ 64) (remaining - current)
        false in
    if remaining == 0 then some [] else Option.map (λ sizes. current ∷ sizes) rest

-- The number of packets, rounded up; one is made two.
unfoldable pub num_of_packets : ℕ → ℕ → ℕ
num_of_packets total_size max_size =
    let rounded = (total_size + (max_size + 2 ^ 64 - 1) % 2 ^ 64) % 2 ^ 64 in
    let n = rounded / max_size in if n == 1 then n + 1 else n

-- Into more than one packet.
unfoldable pub split_several : ℕ → ℕ → ℕ → ℕ → Option (List ℕ)
split_several payload_size max_size first last =
    let total_size = (payload_size + first + last) % 2 ^ 64 in
    let n = num_of_packets total_size max_size in
    if max_size == 0
    then none
    else if ltb payload_size n
    then some []
    else if n == 0
    then none
    else split_loop (payload_size + 3) first (total_size % n) (total_size / n) n payload_size true

unfoldable pub split_about_equally : ℕ → PayloadSizeLimits → Option (List ℕ)
split_about_equally payload_size limits =
    let max_size = limits.max_payload_size in
    let first = to_size limits.first_packet_reduction_size in
    let last = to_size limits.last_packet_reduction_size in
    let single = (to_size limits.single_packet_reduction_size + payload_size) % 2 ^ 64 in
    if payload_size == 0
    then some []
    else if ltb_ℤ limits.first_packet_reduction_size (pos 0)
        || ltb_ℤ limits.last_packet_reduction_size (pos 0)
    then some []
    else if leb single max_size
    then some (payload_size ∷ [])
    else if ltb ((max_size + 2 ^ 64 - first) % 2 ^ 64) 1
        || ltb ((max_size + 2 ^ 64 - last) % 2 ^ 64) 1
    then some []
    else split_several payload_size max_size first last
