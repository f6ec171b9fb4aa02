-- ===== src/Bytes/Signed/Laws.antt =====
-- Signed integers of three bytes are read back.
use naivertc.Base.{ℕ, ◌-◌, ◌/◌, ◌%◌, ◌^◌, ◌<◌, ◌≡◌, ap, arith, List, ◌++◌}
use naivertc.Base.Int.{ℤ, pos, negsuc}
use naivertc.Base.Bits.{bit_and-bit, bit_or-shl, bit_and-mask}
use naivertc.Bytes.{ok}
use naivertc.Bytes.Laws.{read-write_big_endian}
use naivertc.Bytes.Signed.{
  sign_extend, reinterpret_as_signed, reinterpret_as_unsigned, read_signed, write_signed,
}

sign_extend-low : (n : ℕ) → n < 2 ^ 23 → sign_extend 3 n ≡ n
unfolding sign_extend
sign_extend-low n h = rw (bit_and-bit 7 (n / 2 ^ 16 % 256)) (ground arith)

sign_extend-high : (n : ℕ) → n < 2 ^ 23 → sign_extend 3 (2 ^ 24 - 1 - n) ≡ 2 ^ 32 - 1 - n
unfolding sign_extend
sign_extend-high n h =
    rw
      (
        bit_and-bit 7 ((2 ^ 24 - 1 - n) / 2 ^ 16 % 256),
        bit_or-shl 24 0xff (2 ^ 24 - 1 - n) (omega arith),
      )
      (ground arith)

signed-low : (v : ℕ) → v < 2 ^ 31 → reinterpret_as_signed v ≡ pos v
unfolding reinterpret_as_signed
signed-low v h = rw (bit_and-bit 31 v) (ground arith)

signed-high : (n : ℕ) → n < 2 ^ 31 → reinterpret_as_signed (2 ^ 32 - 1 - n) ≡ negsuc n
unfolding reinterpret_as_signed
signed-high n h =
    rw (bit_and-bit 31 (2 ^ 32 - 1 - n), bit_and-mask 31 (2 ^ 32 - 1 - n)) (ground arith)

-- The values of `b` bytes with a sign.
abbrev pub InSigned24 : ℤ → Type 0
InSigned24 (pos n) = n < 2 ^ 23
InSigned24 (negsuc n) = n < 2 ^ 23

back :
    (z : ℤ)
    → InSigned24 z
    → reinterpret_as_signed (sign_extend 3 (reinterpret_as_unsigned z % 2 ^ 24)) ≡ z
unfolding reinterpret_as_unsigned
back (pos n) h = rw (wrapped, sign_extend-low n h) (signed-low n (omega arith))
  where
    wrapped : n % 2 ^ 32 % 2 ^ 24 ≡ n
    wrapped = omega arith
back (negsuc n) h = rw (wrapped, sign_extend-high n h) (signed-high n (omega arith))
  where
    wrapped : (2 ^ 32 - 1 - n % 2 ^ 32) % 2 ^ 24 ≡ 2 ^ 24 - 1 - n
    wrapped = omega arith

-- A signed number of 24 bits, written in three bytes, is read back with its sign.
pub read-write_signed :
    (z : ℤ) (rest : List ℕ) → InSigned24 z → read_signed 3 (write_signed 3 z ++ rest) 0 ≡ ok z
unfolding read_signed write_signed
read-write_signed z rest h =
    rw (read-write_big_endian 3 (reinterpret_as_unsigned z) rest) (ap ok (back z h))
