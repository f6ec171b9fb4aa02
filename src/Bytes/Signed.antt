-- ===== src/Bytes/Signed.antt =====
-- src/rtc/base/memory/byte_io_reader.hpp and byte_io_writer.hpp: signed integers of `b` bytes in an `int32_t`.
pub mod Laws
use naivertc.Base.{
  ℕ, zero, suc, ◌+◌, ◌-◌, ◌*◌, ◌/◌, ◌%◌, ◌^◌, bit_or, bit_and, ◌==◌, if◌then◌else◌, Bool, List,
}
use naivertc.Base.Int.{ℤ, pos, negsuc, sub_ℕ}
use naivertc.Base.Bits.{shl, shr}
use naivertc.Bytes.{Outcome, ok, ◌>>=◌, read_big_endian, write_big_endian, u8}

-- A set top bit is spread over the bytes above.
pub sign_extend : ℕ → ℕ → ℕ
sign_extend b val =
    let used_bit_mask = shl 1 (b * 8) - 1 in
    if bit_and (u8 (shr val ((b - 1) * 8))) 0x80 == 0
    then val
    else bit_or (2 ^ 32 - 1 - used_bit_mask) val

-- The bits below the highest, and then the least value of the type for the highest.
pub reinterpret_as_signed : ℕ → ℤ
reinterpret_as_signed v =
    if bit_and v (2 ^ 31) == 0 then pos v else sub_ℕ (bit_and v (2 ^ 31 - 1)) (2 ^ 31)

pub reinterpret_as_unsigned : ℤ → ℕ
reinterpret_as_unsigned (pos n) = n % 2 ^ 32
reinterpret_as_unsigned (negsuc n) = 2 ^ 32 - 1 - n % 2 ^ 32

-- For fewer bytes than the type has.
unfoldable pub read_signed : ℕ → List ℕ → ℕ → Outcome ℤ
unfolding sign_extend reinterpret_as_signed
read_signed b p i = do val ← read_big_endian b p i; ok (reinterpret_as_signed (sign_extend b val))

unfoldable pub write_signed : ℕ → ℤ → List ℕ
unfolding reinterpret_as_unsigned
write_signed b z = write_big_endian b (reinterpret_as_unsigned z)
