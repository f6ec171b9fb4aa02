-- ===== src/Congestion/IntervalBudget/Bounds.antt =====
-- The budget stays within half a second of the target rate, on both sides.
use naivertc.Base.{ℕ, ◌+◌, ◌*◌, ◌/◌, ◌%◌, ◌^◌, ◌<◌, ◌≤◌, ◌≡◌, Bool, arith, refl}
use naivertc.Base.Int.{pos, ◌-ℤ◌, ◌≤ℤ◌, +ℤ_parts, -ℤ_parts, to_int64}
use naivertc.Congestion.IntervalBudget.{
  IntervalBudget, quotient, bytes_in, budget_window, new_budget, set_target_bitrate,
  increase_budget, consume_budget, available_bytes,
}

-- The bytes that a rate gives in a time, to the nearest.
abbrev pub nearest_bytes : ℕ → ℕ → ℕ
nearest_bytes bps us = (bps * us + 4000000) / 8000000

-- The product of the rate and the time, with half a byte, is an int64_t.
abbrev pub IsInRange : ℕ → ℕ → Type 0
IsInRange bps us = bps * us + 4000000 < 2 ^ 63

quotient_in_range : (n : ℕ) → n < 2 ^ 63 → quotient (to_int64 n) 8000000 ≡ pos (n / 8000000)
unfolding quotient
quotient_in_range n small = ground (arith, small)

bytes_in_range : (bps us : ℕ) → IsInRange bps us → bytes_in bps us ≡ pos (nearest_bytes bps us)
unfolding bytes_in
bytes_in_range bps us small = quotient_in_range (bps * us + 4000000) small

-- The most is what the target rate gives in the window; below 0 at most that is owed.
unfoldable pub IsBalanced : IntervalBudget → Type 0
IsBalanced b =
    (b.max_bytes_in_budget ≡ pos (nearest_bytes b.target_bitrate budget_window))
    × ((pos 0 -ℤ b.max_bytes_in_budget) ≤ℤ b.bytes_remaining)
    × (b.bytes_remaining ≤ℤ b.max_bytes_in_budget)

set_target_bitrate-IsBalanced :
    (b : IntervalBudget) (bitrate : ℕ)
    → IsInRange bitrate budget_window
    → IsBalanced (set_target_bitrate b bitrate)
unfolding IsBalanced set_target_bitrate
set_target_bitrate-IsBalanced b bitrate small =
    let most = nearest_bytes bitrate budget_window in
    let least = -ℤ_parts (pos 0) (pos most) in
    rw (bytes_in_range bitrate budget_window small)
      (refl, ground (arith, least), ground (arith, least))

increase_budget-IsBalanced :
    (b : IntervalBudget) (interval_time : ℕ)
    → IsInRange b.target_bitrate interval_time
    → IsBalanced b
    → IsBalanced (increase_budget b interval_time)
unfolding IsBalanced increase_budget
increase_budget-IsBalanced b interval_time small (most, low, high) =
    let increased = nearest_bytes b.target_bitrate interval_time in
    let sum = +ℤ_parts b.bytes_remaining (pos increased) in
    let least = -ℤ_parts (pos 0) b.max_bytes_in_budget in
    rw (bytes_in_range b.target_bitrate interval_time small)
      (ground (arith, most), ground (arith, most, low, high, sum, least), ground (arith, most, sum))

consume_budget-IsBalanced :
    (b : IntervalBudget) (bytes : ℕ)
    → bytes < 2 ^ 31
    → IsBalanced b
    → IsBalanced (consume_budget b bytes)
unfolding IsBalanced consume_budget
consume_budget-IsBalanced b bytes small (most, low, high) =
    let diff = -ℤ_parts b.bytes_remaining (pos (bytes % 2 ^ 32)) in
    let least = -ℤ_parts (pos 0) b.max_bytes_in_budget in
    (most, ground (arith, low, diff, least), ground (arith, most, small, high, diff, least))

available-bound :
    (b : IntervalBudget)
    → IsBalanced b
    → available_bytes b ≤ nearest_bytes b.target_bitrate budget_window
unfolding IsBalanced available_bytes
available-bound b (most, low, high) = ground (arith, most, high)

-- What is reached from a new budget by the operations, with rates and times whose product an int64_t
-- holds and sizes that an int holds.
pub data Reachable : IntervalBudget → Type 0 where
  created :
      (initial_target_bitrate : ℕ) (can_build_up_underuse : Bool)
      → IsInRange initial_target_bitrate budget_window
      → Reachable (new_budget initial_target_bitrate can_build_up_underuse)
  retargeted :
      {b : IntervalBudget} (bitrate : ℕ)
      → IsInRange bitrate budget_window
      → Reachable b
      → Reachable (set_target_bitrate b bitrate)
  increased :
      {b : IntervalBudget} (interval_time : ℕ)
      → IsInRange b.target_bitrate interval_time
      → Reachable b
      → Reachable (increase_budget b interval_time)
  consumed :
      {b : IntervalBudget} (bytes : ℕ)
      → bytes < 2 ^ 31
      → Reachable b
      → Reachable (consume_budget b bytes)

-- In every state that an interval budget reaches from its creation by setting the rate,
-- increasing, and consuming less than 2 ^ 31 bytes at a time, where the product of each rate with
-- 500 ms and of the rate with each interval, in bits per second and microseconds, and 4000000 more
-- is below 2 ^ 63, the bytes remaining are at most what the target rate gives in 500 ms, to the
-- nearest byte, and at least the negative of that; so are the bytes it offers.
pub interval_budget-IsBalanced :
    (b : IntervalBudget)
    → Reachable b
    → IsBalanced b × (available_bytes b ≤ nearest_bytes b.target_bitrate budget_window)
unfolding new_budget set_target_bitrate
interval_budget-IsBalanced b reach = (go b reach, available-bound b (go b reach))
  where
    go : (b : IntervalBudget) → Reachable b → IsBalanced b
    go b (created bitrate flag small) =
        set_target_bitrate-IsBalanced
          (record {
            target_bitrate = 0;
            max_bytes_in_budget = pos 0;
            bytes_remaining = pos 0;
            can_build_up_from_underuse = flag;
          })
          bitrate small
    go b (retargeted {b = before} bitrate small reach) =
        set_target_bitrate-IsBalanced before bitrate small
    go b (increased {b = before} interval_time small reach) =
        increase_budget-IsBalanced before interval_time small (go before reach)
    go b (consumed {b = before} bytes small reach) =
        consume_budget-IsBalanced before bytes small (go before reach)
