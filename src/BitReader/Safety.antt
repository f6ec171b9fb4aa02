-- ===== src/BitReader/Safety.antt =====
-- Reads of bits stay inside the bytes, and a read that fails leaves the reader where it was.
use naivertc.Base.{
  ℕ, zero, suc, ◌+◌, ◌-◌, ◌*◌, ◌/◌, ◌%◌, ◌^◌, ◌≤◌, ◌<◌, ◌≡◌, refl, ap, ◌∙◌, subst, arith, Bool,
  true, Bool-cases, ◌⊎◌, inl, inr, Option, none, some, List, [], ◌∷◌, length, dec_lt, bit_or,
}
use naivertc.Base.Bits.{shl}
use naivertc.Bytes.{◌>>=◌, ok, byte_at}
use naivertc.BitReader.{
  BitReader, remaining_bit_count, left_most_bits, right_most_bits, peek_bytes, peek_bits,
  consume_bits, consume_peeked, read_bits, seek, is_zero_bit, skip_zeros, finish_golomb,
  golomb_after, read_exp_golomb,
}

-- The offsets that the operations lead to.
unfoldable pub IsInside : BitReader → Type 0
IsInside r = (r.bit_offset < 8) × (r.byte_offset * 8 + r.bit_offset ≤ length r.bytes * 8)

in_bounds : (xs : List ℕ) (i : ℕ) → i < length xs → (x : ℕ) × (byte_at xs i ≡ ok x)
in_bounds [] i h = absurd (omega arith)
in_bounds (x ∷ xs) zero h = (x, refl)
in_bounds (x ∷ xs) (suc i) h = in_bounds xs i (omega arith)

peek_bytes-some :
    (w count last_bits : ℕ) (bytes : List ℕ) (i bits : ℕ)
    → (i + count) * 8 + last_bits ≤ length bytes * 8
    → (value : ℕ) × (peek_bytes w count last_bits bytes i bits ≡ ok (some value))
unfolding peek_bytes
peek_bytes-some w zero last_bits bytes i bits room = elim (dec_lt 0 last_bits) [
  | no none_left ↦ (bits, ground (arith, none_left))
  | yes more ↦
      let (byte, at) = in_bounds bytes i (omega arith) in
      (
        bit_or (shl bits last_bits % 2 ^ w) (left_most_bits byte last_bits),
        ground (arith, more, at),
      )
]
peek_bytes-some w (suc count) last_bits bytes i bits room =
    let (byte, at) = in_bounds bytes i (omega arith) in
    let (value, done) =
      peek_bytes-some w count last_bits bytes (i + 1) (bit_or (shl bits 8 % 2 ^ w) byte)
        (omega arith) in
    (value, ground (arith, at, done))

-- A peek of at least one bit gives no value where the bits are not enough, or too many, else a value.
peek_bits_lem :
    (w : ℕ) (r : BitReader) (bit_count : ℕ)
    → IsInside r
    → 0 < bit_count
    → ((peek_bits w r bit_count ≡ ok none)
        × ((remaining_bit_count r < bit_count) ⊎ (w < bit_count)))
      ⊎ ((value : ℕ) × (peek_bits w r bit_count ≡ ok (some value))
          × (bit_count ≤ remaining_bit_count r)
          × (bit_count ≤ w))
unfolding IsInside peek_bits remaining_bit_count
peek_bits_lem w r bit_count inside some_bit =
    let left = 8 - r.bit_offset in
    elim (dec_lt (remaining_bit_count r) bit_count) [
      | yes few ↦ inl (ground (arith, few), inl few)
      | no enough ↦ elim (dec_lt w bit_count) [
        | yes wide ↦ inl (ground (arith, enough, wide), inr wide)
        | no narrow ↦
            let (byte, at) = in_bounds r.bytes r.byte_offset (omega arith) in
            let bits = right_most_bits byte left in
            elim (dec_lt bit_count left) [
              | yes here ↦ inr (
                left_most_bits bits (r.bit_offset + bit_count),
                ground (arith, enough, narrow, at, here),
                omega arith,
                omega arith,
              )
              | no beyond ↦
                  let (value, done) =
                    peek_bytes-some w ((bit_count - left) / 8) ((bit_count - left) % 8) r.bytes
                      (r.byte_offset + 1) bits (omega arith) in
                  inr (
                    value,
                    ground (arith, enough, narrow, at, beyond, done),
                    omega arith,
                    omega arith,
                  )
            ]
      ]
    ]

-- A reader of the same bytes, `n` bits further on.
pub record IsAfter (r : BitReader) (n : ℕ) (r' : BitReader) : Type 0 where
  pub bytes : r'.bytes ≡ r.bytes
  pub position : r'.byte_offset * 8 + r'.bit_offset ≡ r.byte_offset * 8 + r.bit_offset + n
  pub inside : IsInside r'

consume_bits-IsAfter :
    (r : BitReader) (n : ℕ)
    → IsInside r
    → n ≤ remaining_bit_count r
    → IsAfter r n (consume_bits r n).0 × ((consume_bits r n).1 ≡ true)
unfolding IsInside consume_bits remaining_bit_count
consume_bits-IsAfter r n inside enough = (
  record {
    bytes = ground (arith, enough);
    position = ground (arith, enough);
    inside = ground (arith, enough);
  },
  ground (arith, enough),
)

-- What a read gives: no value and the same reader, or a value and the reader behind it.
unfoldable pub IsRead : BitReader → ℕ → BitReader × Option ℕ → Type 0
IsRead r n out =
    (out ≡ (r, none)) ⊎ (value : ℕ) × (r' : BitReader) × (out ≡ (r', some value)) × IsAfter r n r'

pub read_bits-IsRead :
    (w : ℕ) (r : BitReader) (n : ℕ)
    → IsInside r
    → 0 < n
    → (out : BitReader × Option ℕ) × (read_bits w r n ≡ ok out) × IsRead r n out
unfolding IsRead read_bits consume_peeked
read_bits-IsRead w r n inside some_bit = elim (peek_bits_lem w r n inside some_bit) [
  | inl (failed, why) ↦ ((r, none), ground (arith, failed), inl refl)
  | inr (value, peeked, enough, narrow) ↦
      let (after, done) = consume_bits-IsAfter r n inside enough in
      let r' = (consume_bits r n).0 in
      ((r', some value), ground (arith, peeked, done), inr (value, r', refl, after))
]

IsAfter-trans :
    (r r' r'' : BitReader) (n m : ℕ) → IsAfter r n r' → IsAfter r' m r'' → IsAfter r (n + m) r''
IsAfter-trans r r' r'' n m a b = record {
  bytes = b.bytes ∙ a.bytes;
  position = omega (arith, a.position, b.position);
  inside = b.inside;
}

-- The fuel is more than the bits that remain.
skip_zeros-IsAfter :
    (fuel : ℕ) (r : BitReader) (counted : ℕ)
    → IsInside r
    → remaining_bit_count r < fuel
    → (r' : BitReader) × (k : ℕ) × (skip_zeros fuel r counted ≡ ok (r', counted + k))
      × IsAfter r k r'
unfolding skip_zeros IsInside remaining_bit_count is_zero_bit
skip_zeros-IsAfter zero r counted inside enough = absurd (omega arith)
skip_zeros-IsAfter (suc fuel) r counted inside enough =
    let same : counted + 0 ≡ counted = omega arith in
    let here : IsAfter r 0 r = record { bytes = refl; position = omega arith; inside = inside } in
    elim (peek_bits_lem 32 r 1 inside (omega arith)) [
      | inl (failed, why) ↦ (r, 0, ground (arith, failed, same), here)
      | inr (value, peeked, some_left, narrow) ↦ elim (Bool-cases (is_zero_bit (some value))) [
        | inr is_one ↦ (r, 0, ground (arith, peeked, is_one, same), here)
        | inl is_zero ↦
            let next = (consume_bits r 1).0 in
            let (after, done) = consume_bits-IsAfter r 1 inside some_left in
            let (r', k, skipped, after') =
              skip_zeros-IsAfter fuel next (counted + 1) after.inside
                (omega (arith, after.position, ap length after.bytes, after.inside)) in
            let e : counted + 1 + k ≡ counted + suc k = omega arith in
            (
              r',
              suc k,
              ground (arith, peeked, is_zero, skipped, e),
              subst (λ n. IsAfter r n r') (omega arith) (IsAfter-trans r next r' 1 k after after'),
            )
      ]
    ]

abbrev with_bytes : BitReader → List ℕ → BitReader
with_bytes r bs = record r { bytes = bs }

-- The way back is always open.
finish_golomb-back :
    (start r : BitReader)
    → IsInside start
    → r.bytes ≡ start.bytes
    → finish_golomb start (r, none) ≡ (start, none)
unfolding finish_golomb seek IsInside
finish_golomb-back start r inside same =
    let moved : BitReader = record r {
      byte_offset = start.byte_offset;
      bit_offset = start.bit_offset;
    } in
    let found : seek r start.byte_offset start.bit_offset ≡ (moved, true) =
      ground (arith, inside, ap length same) in
    let restored : moved ≡ start = ap (λ bs. with_bytes start bs) same in
    ap (λ (p : BitReader × Bool). (p.0, none)) found ∙ ap (λ x. (x, none)) restored

finish_golomb-some :
    (start r : BitReader) (value : ℕ)
    → finish_golomb start (r, some value) ≡ (r, some ((value + 2 ^ 32 - 1) % 2 ^ 32))
unfolding finish_golomb
finish_golomb-some start r value = refl

golomb_finished :
    (start r : BitReader) (k : ℕ) (out : BitReader × Option ℕ)
    → IsInside start
    → IsAfter start k r
    → IsRead r (k + 1) out
    → IsRead start (k + (k + 1)) (finish_golomb start out)
unfolding IsRead
golomb_finished start r k out inside after (inl failed) =
    inl (ap (finish_golomb start) failed ∙ finish_golomb-back start r inside after.bytes)
golomb_finished start r k out inside after (inr (value, r', read, after')) =
    let back : finish_golomb start (r', some value) ≡ (r', some ((value + 2 ^ 32 - 1) % 2 ^ 32)) =
      finish_golomb-some start r' value in
    inr (
      (value + 2 ^ 32 - 1) % 2 ^ 32,
      r',
      ap (finish_golomb start) read ∙ back,
      IsAfter-trans start r r' k (k + 1) after after',
    )

-- After the zeros: the value is read, or the reader goes back.
golomb_after_lem :
    (start r : BitReader) (k : ℕ)
    → IsInside start
    → IsAfter start k r
    → (out : BitReader × Option ℕ) × (golomb_after start (r, k) ≡ ok out)
      × IsRead start (k + (k + 1)) out
unfolding golomb_after IsRead
golomb_after_lem start r k inside after = elim (dec_lt 32 (k + 1)) [
  | yes long ↦
      let back = finish_golomb-back start r inside after.bytes in
      ((start, none), ground (arith, long, back), inl refl)
  | no short ↦
      let (out, done, what) = read_bits-IsRead 32 r (k + 1) after.inside (omega arith) in
      let read : golomb_after start (r, k) ≡ ok (finish_golomb start out) =
        ground (arith, short, done) in
      (finish_golomb start out, read, golomb_finished start r k out inside after what)
]

-- From a position inside its bytes, ReadExpGolomb ends and reads nothing outside of them; either
-- it fails and the reader is where it was, or it gives a value and the reader is an odd number of
-- bits further on, inside the same bytes.
pub read_exp_golomb-IsRead :
    (r : BitReader)
    → IsInside r
    → (out : BitReader × Option ℕ) × (n : ℕ) × (read_exp_golomb r ≡ ok out)
      × IsRead r (2 * n + 1) out
unfolding read_exp_golomb
read_exp_golomb-IsRead r inside =
    let (r', k, skipped, after) =
      skip_zeros-IsAfter (suc (remaining_bit_count r)) r 0 inside (omega arith) in
    let (out, done, what) = golomb_after_lem r r' k inside after in
    let e : 0 + k ≡ k = omega arith in
    let reach : read_exp_golomb r ≡ golomb_after r (r', k) =
      ap (λ o. o >>= λ out. golomb_after r out) (skipped ∙ ap (λ n. ok (r', n)) e) in
    (out, k, reach ∙ done, subst (λ n. IsRead r n out) (omega arith) what)
