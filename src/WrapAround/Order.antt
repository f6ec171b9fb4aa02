-- ===== src/WrapAround/Order.antt =====
-- Of two different numbers exactly one is ahead, whatever the modulus; the test at the type's width
-- is the test at the modulus 2 ^ w, and the deprecated test is the same again.
use native.Mathlib.Nat.{pow-suc, one-le-pow, mod-lt}
use naivertc.Base.{
  ℕ, suc, ◌+◌, ◌-◌, ◌*◌, ◌/◌, ◌%◌, ◌^◌, ◌<◌, ◌≡◌, ◌≢◌, ◌↔◌, arith, ltb, leb, if◌then◌else◌, false,
  not,
}
use naivertc.Base.Int.{pos, negsuc}
use naivertc.Modulo.{forward_diff_mod, forward_diff, reverse_diff, reverse_diff_mod, min_diff_mod}
use naivertc.Modulo.Laws.{mod_step, mod_shift}
use naivertc.WrapAround.{
  ahead_or_at_mod, ahead_or_at, ahead_of_mod, ahead_of, latest, detect_wrap_around, is_newer,
}

-- What `AheadOrAt` comes to: the way forward from `b` to `a` is shorter than half the modulus, or
-- just half of it and `a` is the greater number.
pub ahead_or_at_mod_closed :
    (m a b : ℕ)
    → a < m
    → b < m
    → ahead_or_at_mod m a b ≡ (if leb b a then leb (2 * (a - b)) m else ltb m (2 * (b - a)))
unfolding ahead_or_at_mod min_diff_mod forward_diff_mod reverse_diff_mod
ahead_or_at_mod_closed m a b ha hb = ground arith

pub half_of_pow : (w : ℕ) → (2 ^ suc w - 1) / 2 + 1 ≡ 2 ^ w
half_of_pow w = omega (arith, pow-suc 2 w, one-le-pow w 2 (omega arith))

pub ahead_or_at_closed :
    (w a b : ℕ)
    → a < 2 ^ suc w
    → b < 2 ^ suc w
    → ahead_or_at (suc w) a b ≡ (if leb b a then leb (a - b) (2 ^ w) else ltb (2 ^ w) (b - a))
unfolding ahead_or_at forward_diff
ahead_or_at_closed w a b ha hb =
    ground (arith, half_of_pow w, pow-suc 2 w, mod_step (2 ^ suc w) (a + 2 ^ suc w - b))

-- On numbers of a type of at least one bit, AheadOrAt at the width of the type is AheadOrAt at the
-- modulus 2 ^ w.
pub ahead_or_at-eq-mod :
    (w a b : ℕ)
    → a < 2 ^ suc w
    → b < 2 ^ suc w
    → ahead_or_at (suc w) a b ≡ ahead_or_at_mod (2 ^ suc w) a b
ahead_or_at-eq-mod w a b ha hb = ground (
  arith,
  ahead_or_at_closed w a b ha hb,
  ahead_or_at_mod_closed (2 ^ suc w) a b ha hb,
  pow-suc 2 w,
)

-- Of two different numbers below a modulus, odd or even, exactly one is ahead of the other.
pub ahead_of_mod_trichotomy :
    (m a b : ℕ) → a < m → b < m → a ≢ b → ahead_of_mod m a b ≡ not (ahead_of_mod m b a)
unfolding ahead_of_mod
ahead_of_mod_trichotomy m a b ha hb ne =
    ground (arith, ahead_or_at_mod_closed m a b ha hb, ahead_or_at_mod_closed m b a hb ha)

-- Of two different numbers of a type of at least one bit, exactly one is ahead of the other.
pub ahead_of_trichotomy :
    (w a b : ℕ)
    → a < 2 ^ suc w
    → b < 2 ^ suc w
    → a ≢ b
    → ahead_of (suc w) a b ≡ not (ahead_of (suc w) b a)
unfolding ahead_of
ahead_of_trichotomy w a b ha hb ne =
    ground (arith, ahead_or_at_closed w a b ha hb, ahead_or_at_closed w b a hb ha)

-- On numbers of a type of at least one bit, Latest does not depend on the order of its arguments,
-- and neither of the two is ahead of it.
pub latest_lem :
    (w a b : ℕ)
    → a < 2 ^ suc w
    → b < 2 ^ suc w
    → (latest (suc w) a b ≡ latest (suc w) b a)
      × (ahead_of (suc w) a (latest (suc w) a b) ≡ false)
      × (ahead_of (suc w) b (latest (suc w) a b) ≡ false)
unfolding latest ahead_of
latest_lem w a b ha hb = (
  ground (arith, ahead_or_at_closed w a b ha hb, ahead_or_at_closed w b a hb ha),
  ground (arith, ahead_or_at_closed w a b ha hb, ahead_or_at_closed w b a hb ha),
  ground (arith, ahead_or_at_closed w a b ha hb, ahead_or_at_closed w b a hb ha),
)

-- On numbers of a type of at least one bit the deprecated IsNewer and AheadOf agree.
pub is_newer-eq-ahead_of :
    (w a b : ℕ) → a < 2 ^ suc w → b < 2 ^ suc w → is_newer (suc w) a b ≡ ahead_of (suc w) a b
unfolding is_newer ahead_of
is_newer-eq-ahead_of w a b ha hb = ground (
  arith,
  ahead_or_at_closed w a b ha hb,
  half_of_pow w,
  pow-suc 2 w,
  mod_step (2 ^ suc w) (a + 2 ^ suc w - b),
)

-- For counters less than half the modulus apart, the wrapped number of one is ahead of the other's
-- exactly when the counter is greater.
pub ahead_of-eq-lt :
    (w a b : ℕ)
    → a < b + 2 ^ w
    → b < a + 2 ^ w
    → ahead_of (suc w) (b % 2 ^ suc w) (a % 2 ^ suc w) ≡ ltb a b
unfolding ahead_of
ahead_of-eq-lt w a b near near' = ground (
  arith,
  ahead_or_at_closed w (b % 2 ^ suc w) (a % 2 ^ suc w) (mod-lt b positive) (mod-lt a positive),
  pow-suc 2 w,
  mod_shift (2 ^ suc w) a (b - a) positive,
  mod_shift (2 ^ suc w) b (a - b) positive,
  mod-lt a positive,
  mod-lt b positive,
)
  where
    positive : 0 < 2 ^ suc w
    positive = one-le-pow (suc w) 2 (omega arith)

-- On 32-bit timestamps DetectWrapAround gives 1 exactly when the current one is smaller by more
-- than 2 ^ 31, and -1 exactly when it is greater by more than 2 ^ 31.
pub detect_wrap_around32_lem :
    (prev curr : ℕ)
    → prev < 2 ^ 32
    → curr < 2 ^ 32
    → ((detect_wrap_around 32 prev curr ≡ pos 1) ↔ (curr + 2 ^ 31 < prev))
      × ((detect_wrap_around 32 prev curr ≡ negsuc 0) ↔ (prev + 2 ^ 31 < curr))
unfolding detect_wrap_around forward_diff reverse_diff
detect_wrap_around32_lem prev curr hp hc = ground arith
