-- ===== src/Base/Bits.antt =====
-- `|` and `&` of the source: what they are on disjoint fields and low masks, at every width.
use Prim.Native.Nat.{digits, bit_and-bitwise, bit_or-bitwise}
use native.Mathlib.Nat.{div-div-eq-div-mul, pow-suc, one-le-pow}
use naivertc.Base.{
  ℕ, zero, suc, ◌+◌, ◌-◌, ◌*◌, ◌/◌, ◌%◌, ◌^◌, ◌≤◌, ◌<◌, min, max, bit_and, bit_or, ◌≡◌, refl, sym,
  ap, ◌∙◌, ◌-◌, arith,
}

-- `x << k` without the cut at the word's width, and `x >> k`.
abbrev pub shl : ℕ → ℕ → ℕ
shl x k = x * 2 ^ k

abbrev pub shr : ℕ → ℕ → ℕ
shr x k = x / 2 ^ k

-- The library gives `|` and `&` by a recursion on digits with fuel. More fuel than the first number needs
-- changes nothing, so that both follow their lowest digits.
module _ (low : ℕ → ℕ) (join : ℕ → ℕ → ℕ) where
  one_more : (n a b : ℕ) → a ≤ n → digits low join (suc n) a b ≡ digits low join n a b
  one_more n zero b le = no_digits n
    where
      no_digits : (n : ℕ) → digits low join (suc n) 0 b ≡ digits low join n 0 b
      no_digits zero = refl
      no_digits (suc n) = refl
  one_more zero (suc a) b le = absurd (omega arith)
  one_more (suc n) (suc a) b le =
      ap (λ (t : ℕ). t * 2 + join (suc a % 2) (b % 2))
        (one_more n (suc a / 2) (b / 2) (omega arith))

  spare : (d n m a b : ℕ) → a ≤ n → m ≡ d + n → digits low join m a b ≡ digits low join n a b
  spare zero n m a b le e = ap (λ (t : ℕ). digits low join t a b) (omega arith)
  spare (suc d) n zero a b le e = absurd (omega arith)
  spare (suc d) n (suc m) a b le e = one_more m a b (omega arith) ∙ spare d n m a b le (omega arith)

  module _ (op : ℕ → ℕ → ℕ) (law : (a b : ℕ) → op a b ≡ digits low join a a b) where
    lowest : (a b : ℕ) → op (suc a) b ≡ op (suc a / 2) (b / 2) * 2 + join (suc a % 2) (b % 2)
    lowest a b =
        law (suc a) b
        ∙ ap (λ (t : ℕ). t * 2 + join (suc a % 2) (b % 2))
            (spare (a - suc a / 2) (suc a / 2) a (suc a / 2) (b / 2) (omega arith) (omega arith)
              ∙ sym (law (suc a / 2) (b / 2)))

-- The lowest digit of the result, and twice the rest.
abbrev pub FollowsDigits : (ℕ → ℕ → ℕ) → (ℕ → ℕ → ℕ) → ℕ → ℕ → Type 0
FollowsDigits op join x y = op x y ≡ join (x % 2) (y % 2) + 2 * op (x / 2) (y / 2)

pub bit_or-digits : (x y : ℕ) → FollowsDigits bit_or max x y
bit_or-digits (suc x) y = omega (arith, lowest (λ y. y) max bit_or bit_or-bitwise x y)
bit_or-digits zero y = omega (arith, bit_or-bitwise 0 y, bit_or-bitwise 0 (y / 2))

pub bit_and-digits : (x y : ℕ) → FollowsDigits bit_and min x y
bit_and-digits (suc x) y = omega (arith, lowest (λ y. 0) min bit_and bit_and-bitwise x y)
bit_and-digits zero y = omega (arith, bit_and-bitwise 0 y, bit_and-bitwise 0 (y / 2))

or-zero_below : (n a : ℕ) → a < n → bit_or a 0 ≡ a
or-zero_below zero a h = absurd (omega arith)
or-zero_below (suc n) zero h = refl
or-zero_below (suc n) (suc a) h =
    omega (arith, bit_or-digits (suc a) 0, or-zero_below n (suc a / 2) (omega arith))

and-zero_below : (n a : ℕ) → a < n → bit_and a 0 ≡ 0
and-zero_below zero a h = absurd (omega arith)
and-zero_below (suc n) zero h = refl
and-zero_below (suc n) (suc a) h =
    omega (arith, bit_and-digits (suc a) 0, and-zero_below n (suc a / 2) (omega arith))

pub bit_or-zero : (a : ℕ) → bit_or a 0 ≡ a
bit_or-zero a = or-zero_below (suc a) a (omega arith)

pub bit_and-zero : (a : ℕ) → bit_and a 0 ≡ 0
bit_and-zero a = and-zero_below (suc a) a (omega arith)

shl-suc : (a k : ℕ) → shl a (suc k) ≡ shl a k * 2
shl-suc a k = omega (arith, ap (λ (t : ℕ). a * t) (pow-suc 2 k))

-- `(hi << k) | lo` is a sum where `lo` fits the `k` low bits.
pub bit_or-shl : (k hi lo : ℕ) → lo < 2 ^ k → bit_or (shl hi k) lo ≡ hi * 2 ^ k + lo
bit_or-shl zero hi lo h = ground (arith, bit_or-zero hi)
bit_or-shl (suc k) hi lo h = omega (
  arith,
  bit_or-digits (shl hi (suc k)) lo,
  shl-suc hi k,
  pow-suc 2 k,
  ap (λ (t : ℕ). bit_or t (lo / 2)) half,
  bit_or-shl k hi (lo / 2) (omega (arith, pow-suc 2 k)),
)
  where
    half : shl hi (suc k) / 2 ≡ shl hi k
    half = omega (arith, shl-suc hi k)

-- A remainder by twice the modulus, from the digit below.
mod-double : (m a : ℕ) → 0 < m → a % (m * 2) ≡ a / 2 % m * 2 + a % 2
mod-double m a h = grind arith

-- `a & (2 ^ k - 1)` is the remainder.
pub bit_and-mask : (k a : ℕ) → bit_and a (2 ^ k - 1) ≡ a % 2 ^ k
bit_and-mask zero a = rw (bit_and-zero a) (omega arith)
bit_and-mask (suc k) a = omega (
  arith,
  bit_and-digits a (2 ^ suc k - 1),
  pow-suc 2 k,
  one-le-pow k 2 (omega arith),
  ap (bit_and (a / 2)) halves,
  bit_and-mask k (a / 2),
  ap (λ (t : ℕ). a % t) (pow-suc 2 k),
  mod-double (2 ^ k) a (one-le-pow k 2 (omega arith)),
)
  where
    halves : (2 ^ suc k - 1) / 2 ≡ 2 ^ k - 1
    halves = omega (arith, pow-suc 2 k, one-le-pow k 2 (omega arith))

pub halve_pow : (v k : ℕ) → v / 2 ^ suc k ≡ v / 2 / 2 ^ k
halve_pow v k = ap (λ (t : ℕ). v / t) two_first ∙ sym (div-div-eq-div-mul v 2 (2 ^ k))
  where
    two_first : 2 ^ suc k ≡ 2 * 2 ^ k
    two_first = omega (arith, pow-suc 2 k)

-- One bit of a number.
pub bit_and-bit : (k a : ℕ) → bit_and a (2 ^ k) ≡ a / 2 ^ k % 2 * 2 ^ k
bit_and-bit zero a = omega (arith, bit_and-digits a 1, bit_and-zero (a / 2))
bit_and-bit (suc k) a = omega (
  arith,
  pow-suc 2 k,
  bit_and-digits a (2 ^ suc k),
  ap (bit_and (a / 2)) half,
  bit_and-bit k (a / 2),
  ap (λ (t : ℕ). t % 2 * 2 ^ k) (halve_pow a k),
  twice (a / 2 ^ suc k % 2) (2 ^ k) (2 ^ suc k) (omega (arith, pow-suc 2 k)),
)
  where
    half : 2 ^ suc k / 2 ≡ 2 ^ k
    half = omega (arith, pow-suc 2 k)

    twice : (q m n : ℕ) → n ≡ 2 * m → q * n ≡ 2 * (q * m)
    twice q m n e = ap (λ (t : ℕ). q * t) e ∙ grind arith
