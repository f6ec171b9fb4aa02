-- ===== src/Rtcp/LastChunk/Codec.antt =====
-- The two loops between sizes and the bits of a chunk undo each other.
use native.Mathlib.Nat.{
  pow-suc, one-le-pow, mul-lt-mul_of_pos_right, mul-add-div_right, mul-add-mod_self_right,
  mod-eq_of_lt, div-eq_of_lt, div-div-eq-div-mul, mul-div_left,
}
use naivertc.Base.{
  ℕ, zero, suc, ◌+◌, ◌-◌, ◌*◌, ◌/◌, ◌%◌, ◌^◌, ◌≤◌, ◌<◌, ◌≡◌, refl, ap, ap₂, sym, ◌∙◌, arith, bit_or,
  List, [], ◌∷◌, length,
}
use naivertc.Base.Bits.{shl, bit_or-shl, bit_and-mask}
use naivertc.Rtcp.Items.{All}
use naivertc.Rtcp.LastChunk.{encode_loop, decode_loop}

abbrev pub Fits : ℕ → ℕ → Type 0
Fits w d = d < 2 ^ w

pow_add : (m n : ℕ) → 2 ^ (m + n) ≡ 2 ^ m * 2 ^ n
pow_add zero n = ap (λ t. 2 ^ t) zero_add ∙ one_mul
  where
    zero_add : 0 + n ≡ n
    zero_add = omega arith

    one_mul : 2 ^ n ≡ 2 ^ 0 * 2 ^ n
    one_mul = omega arith
pow_add (suc m) n =
    ap (λ t. 2 ^ t) suc_add ∙ grind (arith, pow_add m n, pow-suc 2 (m + n), pow-suc 2 m)
  where
    suc_add : suc m + n ≡ suc (m + n)
    suc_add = omega arith

pow-more : (w left : ℕ) → 2 ^ (w * suc left) ≡ 2 ^ w * 2 ^ (w * left)
pow-more w left = ap (λ t. 2 ^ t) more ∙ pow_add w (w * left)
  where
    more : w * suc left ≡ w + w * left
    more = grind arith

-- A size goes below what the chunk holds.
join-more :
    (w left hi d : ℕ)
    → Fits w d
    → bit_or (hi * 2 ^ (w * suc left)) (shl d (w * left)) ≡ (hi * 2 ^ w + d) * 2 ^ (w * left)
join-more w left hi d fit =
    let q = 2 ^ (w * left) in
    let more = pow-more w left in
    let below : d * q < 2 ^ w * q =
      mul-lt-mul_of_pos_right fit (one-le-pow (w * left) 2 (omega arith)) in
    let fits : d * q < 2 ^ (w * suc left) = omega (arith, more, below) in
    bit_or-shl (w * suc left) hi (d * q) fits ∙ ap (λ t. hi * t + d * q) more ∙ grind arith

-- What a chunk with `left` places holds above them stays, and the places are read back.
pub decode-encode :
    (w left hi : ℕ) (ds : List ℕ)
    → All (Fits w) ds
    → length ds ≤ left
    → (encode_loop w left (hi * 2 ^ (w * left)) ds / 2 ^ (w * left) ≡ hi)
      × (decode_loop w (2 ^ w - 1) (encode_loop w left (hi * 2 ^ (w * left)) ds) left (length ds)
          ≡ ds)
unfolding encode_loop decode_loop
decode-encode w left hi [] fits le = (mul-div_left hi (one-le-pow (w * left) 2 (omega arith)), refl)
decode-encode w zero hi (d ∷ ds) fits le = absurd (omega arith)
decode-encode w (suc left) hi (d ∷ ds) (fit, fits) le =
    let p = 2 ^ w in
    let q = 2 ^ (w * left) in
    let (above, rest) = decode-encode w left (hi * p + d) ds fits (omega arith) in
    let joined = join-more w left hi d fit in
    let top = ap (λ t. encode_loop w left t ds / q) joined ∙ above in
    let chunk = encode_loop w left (bit_or (hi * 2 ^ (w * suc left)) (shl d (w * left))) ds in
    (
      ap (λ t. chunk / t) (pow-more w left ∙ grind arith)
          ∙ sym (div-div-eq-div-mul chunk q p)
          ∙ ap (λ t. t / p) top
          ∙ mul-add-div_right (one-le-pow w 2 (omega arith)) hi d
          ∙ omega (arith, div-eq_of_lt fit),
      ap₂ (λ x xs. x ∷ xs)
          (bit_and-mask w (chunk / q)
            ∙ ap (λ t. t % p) top
            ∙ mul-add-mod_self_right hi p d
            ∙ mod-eq_of_lt fit)
          (ap (λ t. decode_loop w (p - 1) (encode_loop w left t ds) left (length ds)) joined
            ∙ rest),
    )
