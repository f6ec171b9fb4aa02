-- ===== src/BitReader.antt =====
-- src/rtc/base/memory/bit_io_reader.hpp, bit_io_reader.cpp and bit_io.cpp: bits read from bytes in network order. A call
-- gives the reader after it and the value, `none` for false; `fault` is a read outside the bytes, or a loop that has not
-- ended within its fuel.
pub mod Safety
use naivertc.Base.{
  ℕ, zero, suc, ◌+◌, ◌-◌, ◌*◌, ◌/◌, ◌%◌, ◌^◌, ltb, ◌==◌, if◌then◌else◌, Bool, true, false, ◌&&◌,
  ◌||◌, bit_and, bit_or, Option, none, some, List, length,
}
use naivertc.Base.Bits.{shl, shr}
use naivertc.Base.Int.{ℤ, pos, sub_ℕ}
use naivertc.Bytes.{Outcome, ok, fault, ◌>>=◌, byte_at}

pub record BitReader : Type 0 where
  pub bytes : List ℕ
  pub byte_offset : ℕ
  pub bit_offset : ℕ

unfoldable pub right_most_bits : ℕ → ℕ → ℕ
right_most_bits byte bit_count = bit_and byte (2 ^ bit_count - 1)

unfoldable pub left_most_bits : ℕ → ℕ → ℕ
left_most_bits byte bit_count =
    let shift = 8 - bit_count in shr (bit_and byte (shl 255 shift % 2 ^ 8)) shift

unfoldable pub remaining_bit_count : BitReader → ℕ
remaining_bit_count r = (length r.bytes - r.byte_offset) * 8 - r.bit_offset

-- The loop over the whole bytes, and the bits of the last byte; `w` is the width of the value.
unfoldable pub peek_bytes : ℕ → ℕ → ℕ → List ℕ → ℕ → ℕ → Outcome (Option ℕ)
peek_bytes w zero last_bits bytes i bits =
    let last = byte_at bytes i >>= λ byte.
    ok (some (bit_or (shl bits last_bits % 2 ^ w) (left_most_bits byte last_bits))) in
    if ltb 0 last_bits then last else ok (some bits)
peek_bytes w (suc count) last_bits bytes i bits = byte_at bytes i >>= λ byte.
    peek_bytes w count last_bits bytes (i + 1) (bit_or (shl bits 8 % 2 ^ w) byte)

unfoldable pub peek_bits : ℕ → BitReader → ℕ → Outcome (Option ℕ)
peek_bits w r bit_count =
    let left = 8 - r.bit_offset in
    let peeked = byte_at r.bytes r.byte_offset >>= λ byte.
    if ltb bit_count left
    then ok (some (left_most_bits (right_most_bits byte left) (r.bit_offset + bit_count)))
    else peek_bytes w ((bit_count - left) / 8) ((bit_count - left) % 8) r.bytes (r.byte_offset + 1)
        (right_most_bits byte left) in
    if ltb (remaining_bit_count r) bit_count || ltb w bit_count then ok none else peeked

unfoldable pub consume_bits : BitReader → ℕ → BitReader × Bool
consume_bits r bit_count =
    let new_bit_offset = r.bit_offset + bit_count in
    if ltb (remaining_bit_count r) bit_count then (r, false) else (
      record r {
        byte_offset = r.byte_offset + new_bit_offset / 8;
        bit_offset = new_bit_offset % 8;
      },
      true,
    )

-- After a peek, with what it gave.
unfoldable pub consume_peeked : BitReader → ℕ → Option ℕ → BitReader × Option ℕ
consume_peeked r bit_count none = (r, none)
consume_peeked r bit_count (some value) =
    let (r', done) = consume_bits r bit_count in (r', if done then some value else none)

unfoldable pub read_bits : ℕ → BitReader → ℕ → Outcome (BitReader × Option ℕ)
read_bits w r bit_count =
    peek_bits w r bit_count >>= λ peeked. ok (consume_peeked r bit_count peeked)

unfoldable pub read_byte : ℕ → BitReader → Outcome (BitReader × Option ℕ)
read_byte w r = read_bits w r w

unfoldable pub seek : BitReader → ℕ → ℕ → BitReader × Bool
seek r byte_offset bit_offset =
    let byte_count = length r.bytes in
    if ltb byte_count byte_offset
      || ltb 7 bit_offset
      || (byte_offset == byte_count && ltb 0 bit_offset)
    then (r, false)
    else (record r { byte_offset = byte_offset; bit_offset = bit_offset }, true)

unfoldable pub is_zero_bit : Option ℕ → Bool
is_zero_bit none = false
is_zero_bit (some bit) = bit == 0

-- The loop over the leading zeros, with their number.
unfoldable pub skip_zeros : ℕ → BitReader → ℕ → Outcome (BitReader × ℕ)
skip_zeros zero r zero_bit_count = fault
skip_zeros (suc fuel) r zero_bit_count = peek_bits 32 r 1 >>= λ peeked.
    let rest = skip_zeros fuel (consume_bits r 1).0 (zero_bit_count + 1) in
    if is_zero_bit peeked then rest else ok (r, zero_bit_count)

-- The value after the zeros, or the way back to `start`.
unfoldable pub finish_golomb : BitReader → BitReader × Option ℕ → BitReader × Option ℕ
finish_golomb start (r, none) = ((seek r start.byte_offset start.bit_offset).0, none)
finish_golomb start (r, some value) = (r, some ((value + 2 ^ 32 - 1) % 2 ^ 32))

unfoldable pub golomb_after : BitReader → BitReader × ℕ → Outcome (BitReader × Option ℕ)
golomb_after start (r, zero_bit_count) =
    let value_bit_count = zero_bit_count + 1 in
    let read = read_bits 32 r value_bit_count >>= λ out. ok (finish_golomb start out) in
    if ltb 32 value_bit_count then ok (finish_golomb start (r, none)) else read

unfoldable pub read_exp_golomb : BitReader → Outcome (BitReader × Option ℕ)
read_exp_golomb start =
    skip_zeros (suc (remaining_bit_count start)) start 0 >>= λ out. golomb_after start out

-- The value of 32 bits, as a signed one.
unfoldable pub signed_of : ℕ → ℤ
signed_of value = if value % 2 == 0 then sub_ℕ 0 (value / 2) else pos ((value + 1) / 2)

unfoldable pub signed_golomb : BitReader × Option ℕ → BitReader × Option ℤ
signed_golomb (r, none) = (r, none)
signed_golomb (r, some value) = (r, some (signed_of value))

unfoldable pub read_signed_exp_golomb : BitReader → Outcome (BitReader × Option ℤ)
read_signed_exp_golomb r = read_exp_golomb r >>= λ out. ok (signed_golomb out)
