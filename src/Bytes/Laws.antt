-- ===== src/Bytes/Laws.antt =====
-- Reading back what was written, at the fixed widths and at every width; and reads that stay inside.
use native.Mathlib.Nat.{one-le-pow, mod-lt, mod-eq_of_lt, div-add-mod', mul-add-mod_self_right}
use native.Mathlib.Numerals.{towards_suc}
use mathlib.Core.List.{append_assoc}
use naivertc.Base.{
  ℕ, zero, suc, ◌+◌, ◌*◌, ◌/◌, ◌%◌, ◌^◌, ◌≤◌, ◌<◌, ◌≡◌, refl, ap, ◌∙◌, arith, bit_or, some, List,
  [], ◌∷◌, ◌++◌, get_elem?, length, length-append,
}
use naivertc.Base.Bits.{shl, shr, bit_or-shl}
use naivertc.Bytes.{
  Outcome, ok, rejected, fault, ◌>>=◌, or_fault, byte_at, u8, read16, read32, read_loop,
  read_big_endian, write16, write32, write_big_endian,
}

pub join16 : (v : ℕ) → v < 2 ^ 16 → bit_or (shl (v / 2 ^ 8 % 256) 8) (v % 256) ≡ v
join16 v h = omega (arith, bit_or-shl 8 (v / 2 ^ 8 % 256) (v % 256) (omega arith))

pub join32 :
    (v : ℕ)
    → v < 2 ^ 32
    → bit_or
        (bit_or
          (bit_or (shl (v / 2 ^ 24 % 256) 24) (shl (v / 2 ^ 16 % 256) 16))
          (shl (v / 2 ^ 8 % 256) 8))
        (v % 256)
      ≡ v
join32 v h = rw (first, second, third) (omega arith)
  where
    first : bit_or (shl (v / 2 ^ 24 % 256) 24) (shl (v / 2 ^ 16 % 256) 16) ≡ shl (v / 2 ^ 16) 16
    first =
        omega (arith, bit_or-shl 24 (v / 2 ^ 24 % 256) (shl (v / 2 ^ 16 % 256) 16) (omega arith))

    second : bit_or (shl (v / 2 ^ 16) 16) (shl (v / 2 ^ 8 % 256) 8) ≡ shl (v / 2 ^ 8) 8
    second = omega (arith, bit_or-shl 16 (v / 2 ^ 16) (shl (v / 2 ^ 8 % 256) 8) (omega arith))

    third : bit_or (shl (v / 2 ^ 8) 8) (v % 256) ≡ v
    third = omega (arith, bit_or-shl 8 (v / 2 ^ 8) (v % 256) (omega arith))

pub read16-write16 : (v : ℕ) (rest : List ℕ) → v < 2 ^ 16 → read16 (write16 v ++ rest) 0 ≡ ok v
unfolding read16
read16-write16 v rest h = ap ok (join16 v h)

pub read32-write32 : (v : ℕ) (rest : List ℕ) → v < 2 ^ 32 → read32 (write32 v ++ rest) 0 ≡ ok v
unfolding read32
read32-write32 v rest h = ap ok (join32 v h)

pow-add_byte : (k : ℕ) → 2 ^ (k + 8) ≡ 2 ^ k * 256
pow-add_byte k = simp towards_suc (omega arith)

pow-byte : (l : ℕ) → 2 ^ (suc l * 8) ≡ 2 ^ (l * 8) * 256
pow-byte l = ap (λ (t : ℕ). 2 ^ t) one_more ∙ pow-add_byte (l * 8)
  where
    one_more : suc l * 8 ≡ l * 8 + 8
    one_more = omega arith

pub mod_unique : (q m r v : ℕ) → v ≡ q * m + r → r < m → v % m ≡ r
mod_unique q m r v e h = ap (λ (t : ℕ). t % m) e ∙ mul-add-mod_self_right q m r ∙ mod-eq_of_lt h

-- A remainder by 256 times as much has one more byte.
mod-split : (p v : ℕ) → 0 < p → v % (p * 256) ≡ v / p % 256 * p + v % p
mod-split p v h =
    mod_unique (v / p / 256) (p * 256) (v / p % 256 * p + v % p) v
      (omega (arith, div-add-mod' v p, ap (λ (t : ℕ). t * p) (div-add-mod' (v / p) 256)))
      (below (v / p % 256) (v % p) (omega arith) (mod-lt v h))
  where
    below : (r s : ℕ) → r < 256 → s < p → r * p + s < p * 256
    below r s hr hs = grind arith

get_elem?-middle :
    (pre : List ℕ) (x : ℕ) (rest : List ℕ) → get_elem? (pre ++ x ∷ rest) (length pre) ≡ some x
get_elem?-middle [] x rest = refl
get_elem?-middle (y ∷ pre) x rest = get_elem?-middle pre x rest

read_loop-suc :
    (l : ℕ) (p : List ℕ) (i a val : ℕ)
    → byte_at p i ≡ ok a
    → read_loop (suc l) p i val ≡ read_loop l p (i + 1) (bit_or val (shl a (l * 8)))
unfolding read_loop
read_loop-suc l p i a val e =
    ap (λ (m : Outcome ℕ). m >>= λ a. read_loop l p (i + 1) (bit_or val (shl a (l * 8)))) e

below_byte : (a p : ℕ) → a < 256 → 0 < p → a * p < p * 256
below_byte a p h pos = grind arith

read_loop-write :
    (l hi v : ℕ) (pre rest : List ℕ)
    → read_loop l (pre ++ (write_big_endian l v ++ rest)) (length pre) (shl hi (l * 8))
      ≡ ok (shl hi (l * 8) + v % 2 ^ (l * 8))
unfolding read_loop write_big_endian
read_loop-write zero hi v pre rest = ap ok (omega arith)
read_loop-write (suc l) hi v pre rest =
    read_loop-suc l (pre ++ (a ∷ (write_big_endian l v ++ rest))) (length pre) a
      (shl hi (suc l * 8)) (ap or_fault (get_elem?-middle pre a (write_big_endian l v ++ rest)))
    ∙ rw
        (
          joined,
          ← append_assoc pre (a ∷ []) (write_big_endian l v ++ rest),
          ← length-append pre (a ∷ []),
        )
        (read_loop-write l (hi * 256 + a) v (pre ++ a ∷ []) rest ∙ ap ok total)
  where
    a : ℕ
    a = u8 (shr v (l * 8))

    fits : shl a (l * 8) < 2 ^ (suc l * 8)
    fits =
        rw (pow-byte l)
          (below_byte a (2 ^ (l * 8)) (omega arith) (one-le-pow (l * 8) 2 (omega arith)))

    joined : bit_or (shl hi (suc l * 8)) (shl a (l * 8)) ≡ shl (hi * 256 + a) (l * 8)
    joined =
        omega (
          arith,
          bit_or-shl (suc l * 8) hi (shl a (l * 8)) fits,
          ap (λ (t : ℕ). hi * t) (pow-byte l),
        )

    total : shl (hi * 256 + a) (l * 8) + v % 2 ^ (l * 8) ≡ shl hi (suc l * 8) + v % 2 ^ (suc l * 8)
    total = omega (
      arith,
      ap (λ (t : ℕ). hi * t) (pow-byte l),
      ap (λ (t : ℕ). v % t) (pow-byte l),
      mod-split (2 ^ (l * 8)) v (one-le-pow (l * 8) 2 (omega arith)),
    )

-- At every number of bytes the general reader gives back the low bits of what the general writer
-- wrote.
pub read-write_big_endian :
    (b v : ℕ) (rest : List ℕ)
    → read_big_endian b (write_big_endian b v ++ rest) 0 ≡ ok (v % 2 ^ (b * 8))
unfolding read_big_endian
read-write_big_endian b v rest =
    ap (read_loop b (write_big_endian b v ++ rest) 0) zero_start
    ∙ read_loop-write b 0 v [] rest
    ∙ ap ok (omega arith)
  where
    zero_start : 0 ≡ shl 0 (b * 8)
    zero_start = omega arith

-- Reads inside the memory are no faults.
pub byte_at-ok : (p : List ℕ) (i : ℕ) → i < length p → (x : ℕ) × (byte_at p i ≡ ok x)
byte_at-ok [] i h = absurd (omega arith)
byte_at-ok (x ∷ p) zero h = (x, refl)
byte_at-ok (x ∷ p) (suc i) h = byte_at-ok p i (omega arith)

pub read16-ok : (p : List ℕ) (i : ℕ) → i + 2 ≤ length p → (x : ℕ) × (read16 p i ≡ ok x)
unfolding read16
read16-ok p i h =
    let (a, ea) = byte_at-ok p i (omega arith) in
    let (b, eb) = byte_at-ok p (i + 1) (omega arith) in (bit_or (shl a 8) b, rw (ea, eb))

pub read32-ok : (p : List ℕ) (i : ℕ) → i + 4 ≤ length p → (x : ℕ) × (read32 p i ≡ ok x)
unfolding read32
read32-ok p i h =
    let (a, ea) = byte_at-ok p i (omega arith) in
    let (b, eb) = byte_at-ok p (i + 1) (omega arith) in
    let (c, ec) = byte_at-ok p (i + 2) (omega arith) in
    let (d, ed) = byte_at-ok p (i + 3) (omega arith) in
    (bit_or (bit_or (bit_or (shl a 24) (shl b 16)) (shl c 8)) d, rw (ea, eb, ec, ed))

value_or {ℓ} : {A : Type ℓ} → A → Outcome A → A
value_or a (ok b) = b
value_or a rejected = a
value_or a fault = a

pub ok_injective {ℓ} : {A : Type ℓ} {a b : A} → ok a ≡ ok b → a ≡ b
unfolding value_or
ok_injective {a = a} e = ap (value_or a) e
