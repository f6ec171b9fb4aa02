-- ===== src/WrapAround.antt =====
-- src/rtc/rtp_rtcp/components/wrap_around_utils.hpp, and wrap_around_checker.hpp beside it: which of
-- two wrapping numbers is the newer one. `w` is the width of the unsigned type.
pub mod Order
use naivertc.Base.{
  ℕ, ◌+◌, ◌-◌, ◌/◌, ◌%◌, ◌^◌, ltb, leb, ◌==◌, if◌then◌else◌, Bool, true, false, ◌&&◌, not,
}
use naivertc.Base.Int.{ℤ, pos, negsuc}
use naivertc.Modulo.{forward_diff_mod, forward_diff, reverse_diff, min_diff_mod}

pub ahead_or_at_mod : ℕ → ℕ → ℕ → Bool
ahead_or_at_mod m a b =
    let max_dist = m / 2 in
    let is_even = m % 2 == 0 in
    if is_even && min_diff_mod m a b == max_dist
    then ltb b a
    else leb (forward_diff_mod m b a) max_dist

-- `a - b == max_dist`: types below 32 bits are promoted to int, so that the difference is negative
-- where `a < b`; at 32 bits and more it wraps.
unfoldable pub is_at_distance : ℕ → ℕ → ℕ → ℕ → Bool
is_at_distance w a b dist =
    if ltb w 32 then leb b a && a - b == dist else (a + 2 ^ w - b) % 2 ^ w == dist

unfoldable pub ahead_or_at : ℕ → ℕ → ℕ → Bool
unfolding is_at_distance
ahead_or_at w a b =
    let max_dist = (2 ^ w - 1) / 2 + 1 in
    if is_at_distance w a b max_dist then ltb b a else ltb (forward_diff w b a) max_dist

pub ahead_of_mod : ℕ → ℕ → ℕ → Bool
ahead_of_mod m a b = not (a == b) && ahead_or_at_mod m a b

unfoldable pub ahead_of : ℕ → ℕ → ℕ → Bool
ahead_of w a b = not (a == b) && ahead_or_at w a b

pub latest : ℕ → ℕ → ℕ → ℕ
latest w a b = if ahead_of w a b then a else b

-- `static_cast<int32_t>(x) > 0`.
pub is_positive32 : ℕ → Bool
is_positive32 x = ltb 0 (x % 2 ^ 32) && ltb (x % 2 ^ 32) (2 ^ 31)

pub detect_wrap_around : ℕ → ℕ → ℕ → ℤ
unfolding is_positive32
detect_wrap_around w prev curr =
    if ltb curr prev
    then if is_positive32 (forward_diff w prev curr) then pos 1 else pos 0
    else if is_positive32 (reverse_diff w prev curr)
    then negsuc 0
    else pos 0

-- The functors for ordered containers.
pub newer_than : ℕ → ℕ → ℕ → Bool
newer_than w a b = ahead_of w a b

unfoldable pub older_than : ℕ → ℕ → ℕ → Bool
older_than w a b = ahead_of w b a

-- The deprecated test.
pub is_newer : ℕ → ℕ → ℕ → Bool
unfolding is_at_distance
is_newer w value prev =
    let breakpoint = (2 ^ w - 1) / 2 + 1 in
    if is_at_distance w value prev breakpoint
    then ltb prev value
    else not (value == prev) && ltb ((value + 2 ^ w - prev) % 2 ^ w) breakpoint
