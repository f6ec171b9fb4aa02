-- ===== src/Bytes.antt =====
-- src/rtc/base/memory/byte_io_reader.hpp and byte_io_writer.hpp: unsigned integers in network order.
-- Memory is the list of the bytes from a pointer on; a read past its end is a fault.
pub mod Laws
pub mod Signed
use naivertc.Base.{
  ℕ, zero, suc, ◌+◌, ◌-◌, ◌*◌, ◌%◌, bit_or, if◌then◌else◌, Bool, true, false, Option, none, some,
  List, [], ◌∷◌, get_elem?,
}
use naivertc.Base.Bits.{shl, shr}

-- What a parser does: it accepts with a value, returns false, or reads where it may not.
pub data Outcome {ℓ} (A : Type ℓ) : Type ℓ where
  ok : A → Outcome A
  rejected : Outcome A
  fault : Outcome A

infixl 5 ◌>>=◌ ◌>>◌
abbrev pub ◌>>=◌ {ℓ κ} : {A : Type ℓ} {B : Type κ} → Outcome A → (A → Outcome B) → Outcome B
ok a >>= f = f a
rejected >>= f = rejected
fault >>= f = fault

abbrev pub ◌>>◌ {ℓ} : {B : Type ℓ} → Outcome (Unit {0}) → Outcome B → Outcome B
m >> k = m >>= λ _. k

-- `if (!b) return false;`
abbrev pub require : Bool → Outcome (Unit {0})
require true = ok tt
require false = rejected

abbrev pub or_fault {ℓ} : {A : Type ℓ} → Option A → Outcome A
or_fault none = fault
or_fault (some a) = ok a

-- `data[i]`.
abbrev pub byte_at : List ℕ → ℕ → Outcome ℕ
byte_at p i = or_fault (get_elem? p i)

unfoldable pub read16 : List ℕ → ℕ → Outcome ℕ
read16 p i = do a ← byte_at p i; b ← byte_at p (i + 1); ok (bit_or (shl a 8) b)

unfoldable pub read32 : List ℕ → ℕ → Outcome ℕ
read32 p i = do
  a ← byte_at p i
  b ← byte_at p (i + 1)
  c ← byte_at p (i + 2)
  d ← byte_at p (i + 3)
  ok (bit_or (bit_or (bit_or (shl a 24) (shl b 16)) (shl c 8)) d)

-- The loop of the general reader, with `left` bytes to go.
unfoldable pub read_loop : ℕ → List ℕ → ℕ → ℕ → Outcome ℕ
read_loop zero p i val = ok val
read_loop (suc left) p i val = do
  a ← byte_at p i
  read_loop left p (i + 1) (bit_or val (shl a (left * 8)))

unfoldable pub read_big_endian : ℕ → List ℕ → ℕ → Outcome ℕ
unfolding read_loop
read_big_endian b p i = read_loop b p i 0

-- Each byte is cut to 8 bits by its type.
abbrev pub u8 : ℕ → ℕ
u8 n = n % 256

abbrev pub write8 : ℕ → List ℕ
write8 v = u8 v ∷ []

abbrev pub write16 : ℕ → List ℕ
write16 v = u8 (shr v 8) ∷ u8 v ∷ []

abbrev pub write32 : ℕ → List ℕ
write32 v = u8 (shr v 24) ∷ u8 (shr v 16) ∷ u8 (shr v 8) ∷ u8 v ∷ []

-- The general writer, with `left` bytes to go.
unfoldable pub write_big_endian : ℕ → ℕ → List ℕ
write_big_endian zero v = []
write_big_endian (suc left) v = u8 (shr v (left * 8)) ∷ write_big_endian left v
