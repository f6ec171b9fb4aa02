-- ===== src/Congestion/IntervalBudget.antt =====
-- src/rtc/congestion_control/components/interval_budget.hpp and interval_budget.cpp: how many bytes may be sent in an
-- interval. A rate is in bits per second, a time in microseconds, both not negative and finite.
pub mod Bounds
use naivertc.Base.{
  ℕ, suc, ◌+◌, ◌-◌, ◌*◌, ◌/◌, ◌%◌, ◌^◌, ◌<◌, ◌≤◌, ◌≡◌, ltb, if◌then◌else◌, Bool, true, false, ◌||◌,
  arith, refl, if-rule,
}
use naivertc.Base.Int.{
  ℤ, pos, negsuc, pos_part, neg_part, ◌+ℤ◌, ◌-ℤ◌, ◌≤ℤ◌, ltb_ℤ, max_ℤ, min_ℤ, +ℤ_parts, -ℤ_parts,
  to_int64, to_int32,
}

-- The division of signed numbers, which rounds towards 0.
quotient : ℤ → ℕ → ℤ
quotient (pos n) d = pos (n / d)
quotient (negsuc n) d = pos 0 -ℤ pos (suc n / d)

-- DataRate * TimeDelta (src/rtc/base/units/data_rate.hpp), rounded. The sum is an int64_t; where it
-- overflows, which C++ leaves open, it wraps here.
pub bytes_in : ℕ → ℕ → ℤ
unfolding quotient
bytes_in bps us = quotient (to_int64 (bps * us + 4000000)) 8000000

abbrev pub budget_window : ℕ
budget_window = 500000

pub record IntervalBudget : Type 0 where
  pub target_bitrate : ℕ
  pub max_bytes_in_budget : ℤ
  pub bytes_remaining : ℤ
  pub can_build_up_from_underuse : Bool

unfoldable pub set_target_bitrate : IntervalBudget → ℕ → IntervalBudget
unfolding bytes_in
set_target_bitrate b bitrate =
    let max_bytes = bytes_in bitrate budget_window in
    record b {
      target_bitrate = bitrate;
      max_bytes_in_budget = max_bytes;
      bytes_remaining = min_ℤ (max_ℤ (pos 0 -ℤ max_bytes) b.bytes_remaining) max_bytes;
    }

unfoldable pub new_budget : ℕ → Bool → IntervalBudget
unfolding set_target_bitrate
new_budget initial_target_bitrate can_build_up_underuse =
    set_target_bitrate
      (record {
        target_bitrate = 0;
        max_bytes_in_budget = pos 0;
        bytes_remaining = pos 0;
        can_build_up_from_underuse = can_build_up_underuse;
      })
      initial_target_bitrate

-- bytes_remaining()
pub available_bytes : IntervalBudget → ℕ
available_bytes b = pos_part (max_ℤ (pos 0) b.bytes_remaining)

pub increase_budget : IntervalBudget → ℕ → IntervalBudget
unfolding bytes_in
increase_budget b interval_time =
    let increased_bytes = bytes_in b.target_bitrate interval_time in
    let overused_last_interval = ltb_ℤ b.bytes_remaining (pos 0) in
    if overused_last_interval || b.can_build_up_from_underuse
    then record b {
      bytes_remaining = min_ℤ (b.bytes_remaining +ℤ increased_bytes) b.max_bytes_in_budget;
    }
    else record b { bytes_remaining = min_ℤ increased_bytes b.max_bytes_in_budget }

pub consume_budget : IntervalBudget → ℕ → IntervalBudget
consume_budget b bytes = record b {
  bytes_remaining = max_ℤ (b.bytes_remaining -ℤ to_int32 bytes) (pos 0 -ℤ b.max_bytes_in_budget);
}
