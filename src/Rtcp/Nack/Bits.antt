-- ===== src/Rtcp/Nack/Bits.antt =====
-- The bits of a mask: setting one above the others, and the ids that they unpack to.
use native.Mathlib.Nat.{pow-suc, add-zero}
use naivertc.Base.{
  ℕ, zero, suc, ◌+◌, ◌/◌, ◌%◌, ◌^◌, ◌<◌, ◌≡◌, refl, ap, ◌∙◌, arith, bit_or, ◌==◌, if◌then◌else◌,
  List, [], ◌∷◌, ◌++◌,
}
use naivertc.Base.Bits.{shl, bit_or-digits, bit_or-shl}
use naivertc.Rtcp.Nack.{unpack_bits}

or_comm_below : (n a b : ℕ) → a + b < n → bit_or a b ≡ bit_or b a
or_comm_below zero a b h = absurd (omega arith)
or_comm_below (suc n) zero zero h = refl
or_comm_below (suc n) zero (suc b) h = omega (
  arith,
  bit_or-digits 0 (suc b),
  bit_or-digits (suc b) 0,
  or_comm_below n 0 (suc b / 2) (omega arith),
)
or_comm_below (suc n) (suc a) b h = omega (
  arith,
  bit_or-digits (suc a) b,
  bit_or-digits b (suc a),
  or_comm_below n (suc a / 2) (b / 2) (omega arith),
)

-- A bit above all others is added to a mask.
pub set_bit : (mask s : ℕ) → mask < 2 ^ s → bit_or mask (shl 1 s) ≡ mask + 2 ^ s
set_bit mask s h = omega (
  arith,
  or_comm_below (suc (mask + shl 1 s)) mask (shl 1 s) (omega arith),
  bit_or-shl s 1 mask h,
)

pub unpack_bits-zero : (fuel pid : ℕ) → unpack_bits fuel 0 pid ≡ []
unfolding unpack_bits
unpack_bits-zero zero pid = refl
unpack_bits-zero (suc fuel) pid = refl

prefix : ℕ → ℕ → List ℕ → List ℕ
prefix bit pid rest = if bit == 1 then pid ∷ rest else rest

prefix-append : (bit pid : ℕ) (xs ys : List ℕ) → prefix bit pid (xs ++ ys) ≡ prefix bit pid xs ++ ys
unfolding prefix
prefix-append bit pid xs ys = ground arith

-- One round, also where the mask has run out.
unpack_bits-suc :
    (fuel mask pid : ℕ)
    → unpack_bits (suc fuel) mask pid
      ≡ prefix (mask % 2) pid (unpack_bits fuel (mask / 2) ((pid + 1) % 2 ^ 16))
unfolding unpack_bits prefix
unpack_bits-suc fuel mask pid = ground (arith, unpack_bits-zero fuel ((pid + 1) % 2 ^ 16))

-- The highest bit of a mask stands for the last id.
pub unpack_bits-top :
    (s fuel mask pid : ℕ)
    → mask < 2 ^ s
    → s < fuel
    → unpack_bits fuel (mask + 2 ^ s) (pid % 2 ^ 16)
      ≡ unpack_bits fuel mask (pid % 2 ^ 16) ++ ((pid + s) % 2 ^ 16) ∷ []
unpack_bits-top s zero mask pid h k = absurd (omega arith)
unpack_bits-top zero (suc fuel) mask pid h k =
    rw (unpack_bits-suc fuel (mask + 1) (pid % 2 ^ 16), nothing)
      (unfold prefix in
        rw
          (
            unpack_bits-zero (suc fuel) (pid % 2 ^ 16),
            unpack_bits-zero fuel ((pid % 2 ^ 16 + 1) % 2 ^ 16),
            add-zero pid,
          )
          refl)
  where
    nothing : mask ≡ 0
    nothing = omega arith
unpack_bits-top (suc s) (suc fuel) mask pid h k =
    unpack_bits-suc fuel (mask + 2 ^ suc s) (pid % 2 ^ 16)
    ∙ rw
        (
          digit,
          halves,
          next,
          unpack_bits-top s fuel (mask / 2) (pid + 1) (omega (arith, pow-suc 2 s)) (omega arith),
          prefix-append (mask % 2) (pid % 2 ^ 16) (unpack_bits fuel (mask / 2) ((pid + 1) % 2 ^ 16))
              ((pid + 1 + s) % 2 ^ 16 ∷ []),
          unpack_bits-suc fuel mask (pid % 2 ^ 16),
          next,
        )
        (ap
          (λ (t : ℕ).
            prefix (mask % 2) (pid % 2 ^ 16) (unpack_bits fuel (mask / 2) ((pid + 1) % 2 ^ 16))
            ++ (t % 2 ^ 16) ∷ [])
          shift)
  where
    shift : pid + 1 + s ≡ pid + suc s
    shift = omega arith

    next : (pid % 2 ^ 16 + 1) % 2 ^ 16 ≡ (pid + 1) % 2 ^ 16
    next = omega arith

    digit : (mask + 2 ^ suc s) % 2 ≡ mask % 2
    digit = omega (arith, pow-suc 2 s)

    halves : (mask + 2 ^ suc s) / 2 ≡ mask / 2 + 2 ^ s
    halves = omega (arith, pow-suc 2 s)
