-- ===== src/Modulo/Laws.antt =====
-- The differences of wrapping numbers: they undo addition, and the overloads agree.
use native.Mathlib.Nat.{mod-eq_of_lt, mod-lt, add-mod-mod, mod-add-mod, mod-eq-sub-mod}
use naivertc.Base.{ℕ, ◌+◌, ◌-◌, ◌/◌, ◌%◌, ◌^◌, ◌≤◌, ◌<◌, ◌≡◌, refl, arith, ltb, leb, if◌then◌else◌}
use naivertc.Modulo.{
  add, subtract, forward_diff_mod, forward_diff, reverse_diff_mod, reverse_diff, min_diff_mod,
}

pub mod_step : (m x : ℕ) → x < m + m → x % m ≡ (if leb m x then x - m else x)
mod_step m x h = ground (
  arith,
  λ (p : x < m). mod-eq_of_lt p,
  λ (p : m ≤ x). mod-eq-sub-mod p,
  λ (p : x - m < m). mod-eq_of_lt p,
)

-- A counter that moves on by less than the modulus wraps at most once.
pub mod_shift :
    (m a d : ℕ)
    → 0 < m
    → d < m
    → (a + d) % m ≡ (if leb m (a % m + d) then a % m + d - m else a % m + d)
mod_shift m a d pos h = ground (arith, mod-add-mod a m d, mod_step m (a % m + d), mod-lt a pos)

-- On numbers of w bits, ForwardDiff at the width of the type is ForwardDiff at the modulus 2 ^ w.
pub forward_diff-eq-mod :
    (w a b : ℕ) → a < 2 ^ w → b < 2 ^ w → forward_diff w a b ≡ forward_diff_mod (2 ^ w) a b
unfolding forward_diff forward_diff_mod
forward_diff-eq-mod w a b ha hb = ground (arith, mod_step (2 ^ w) (b + 2 ^ w - a))

pub reverse_diff-eq-mod :
    (w a b : ℕ) → a < 2 ^ w → b < 2 ^ w → reverse_diff w a b ≡ reverse_diff_mod (2 ^ w) a b
unfolding reverse_diff reverse_diff_mod
reverse_diff-eq-mod w a b ha hb = ground (arith, mod_step (2 ^ w) (a + 2 ^ w - b))

add_closed :
    (m a b : ℕ)
    → 0 < m
    → m < 2 ^ 63
    → a < m
    → add m a b ≡ (if ltb a (m - b % m) then a + b % m else a + b % m - m)
unfolding add
add_closed m a b pos small h = ground (arith, mod-lt b pos)

-- For a modulus above 0 and under 2 ^ 63 and a first number below it, adding and subtracting any
-- number undo each other, and the sum is the sum modulo the modulus.
pub add-subtract :
    (m a b : ℕ)
    → 0 < m
    → m < 2 ^ 63
    → a < m
    → (add m (subtract m a b) b ≡ a) × (subtract m (add m a b) b ≡ a) × (add m a b ≡ (a + b) % m)
unfolding subtract
add-subtract m a b pos small h = (
  ground (arith, add_closed m (subtract m a b) b pos small below, mod-lt b pos),
  ground (arith, add_closed m a b pos small h, mod-lt b pos),
  ground (
    arith,
    add_closed m a b pos small h,
    mod-lt b pos,
    add-mod-mod a b m,
    mod_step m (a + b % m),
  ),
)
  where
    below : subtract m a b < m
    below = ground (arith, mod-lt b pos)

-- For two numbers below a modulus, going forward by the forward difference meets the other number;
-- the reverse difference is the forward one the other way; and both together go once round.
pub forward_diff_mod_round :
    (m a b : ℕ)
    → a < m
    → b < m
    → ((a + forward_diff_mod m a b) % m ≡ b)
      × (reverse_diff_mod m b a ≡ forward_diff_mod m a b)
      × ((forward_diff_mod m a b + reverse_diff_mod m a b) % m ≡ 0)
unfolding forward_diff_mod reverse_diff_mod
forward_diff_mod_round m a b ha hb = (
  ground (arith, mod_step m (a + (if leb a b then b - a else m - (a - b)))),
  refl,
  ground (arith, mod_step m (forward_diff_mod m a b + reverse_diff_mod m a b)),
)

-- For two numbers below a modulus, the least distance is symmetric, at most half the modulus, and
-- 0 only for equal numbers.
pub min_diff_mod_lem :
    (m a b : ℕ)
    → a < m
    → b < m
    → (min_diff_mod m a b ≡ min_diff_mod m b a)
      × (min_diff_mod m a b ≤ m / 2)
      × (min_diff_mod m a b ≡ 0 → a ≡ b)
unfolding min_diff_mod forward_diff_mod reverse_diff_mod
min_diff_mod_lem m a b ha hb = (ground arith, ground arith, ground arith)
