-- ===== src/Sender/Packetizer/Weights.antt =====
-- The sizes that the packetizer plans: `b` bytes for a packet, and one more for each of the last `r` packets.
use naivertc.Base.{
  ℕ, zero, suc, ◌+◌, ◌-◌, ◌*◌, ◌/◌, ◌%◌, ◌^◌, ◌≤◌, ◌<◌, ◌≡◌, refl, ap, arith, leb, ◌==◌,
  if◌then◌else◌, min, dec_lt, ◌⊎◌, inl, inr,
}
use native.Mathlib.Nat.{
  mul-le-mul_left, mul-add, mul-suc, suc-mul, mul_left_comm, div-mul-le_self, lt-div-mul-add,
}
use naivertc.Sender.Packetizer.{num_of_packets}

-- The planned size of the packet with `k` packets left, and of all that are left.
unfoldable pub size : ℕ → ℕ → ℕ → ℕ
size b r k = if leb k r then b + 1 else b

unfoldable pub weight : ℕ → ℕ → ℕ → ℕ
weight b r zero = 0
weight b r (suc k) = weight b r k + size b r (suc k)

pub size_pos : (b r k : ℕ) → 0 < b → 0 < size b r k
unfolding size
size_pos b r k pos = ground arith

pub size-beyond : (b r n : ℕ) → r < n → size b r (suc n) ≡ b
unfolding size
size-beyond b r n few = ground (arith, few)

pub weight-closed : (b r k : ℕ) → weight b r k ≡ k * b + min k r
unfolding weight size
weight-closed b r zero = omega arith
weight-closed b r (suc k) = ground (arith, weight-closed b r k, suc-mul k b)

pub weight-two : (b r k : ℕ) → weight b r 2 ≤ weight b r (suc (suc k))
unfolding weight
weight-two b r zero = omega arith
weight-two b r (suc k) = omega (arith, weight-two b r k)

-- A quotient rounded up, but at least 2.
rounded :
    (q total m : ℕ)
    → 0 < total
    → 0 < m
    → q * m ≤ total + (m - 1)
    → total + (m - 1) < q * m + m
    → let n = if q == 1 then q + 1 else q in
      (2 ≤ n) × (total ≤ n * m) × ((n ≡ 2) ⊎ (n * m < total + m))
rounded zero total m some_bytes pos low high = absurd (omega arith)
rounded (suc zero) total m some_bytes pos low high = (omega arith, omega arith, inl refl)
rounded (suc (suc q)) total m some_bytes pos low high =
    (ground arith, ground arith, inr (ground arith))

-- What the number of packets is to the total.
pub num_of_packets_lem :
    (total m : ℕ)
    → 0 < total
    → 0 < m
    → total + m ≤ 2 ^ 64
    → let n = num_of_packets total m in (2 ≤ n) × (total ≤ n * m) × ((n ≡ 2) ⊎ (n * m < total + m))
unfolding num_of_packets
num_of_packets_lem total m some_bytes pos small = rw below (
    rounded ((total + (m - 1)) / m) total m some_bytes pos (div-mul-le_self (total + (m - 1)) m)
      (lt-div-mul-add pos))
  where
    below : (total + (m + 2 ^ 64 - 1) % 2 ^ 64) % 2 ^ 64 ≡ total + (m - 1)
    below = omega arith

-- The number of larger packets of two, as a multiple.
times_few :
    (k r : ℕ)
    → (k * min 2 r ≡ 0) × (r ≡ 0) ⊎ (k * min 2 r ≡ k) × (r ≡ 1) ⊎ (k * min 2 r ≡ 2 * k) × (2 ≤ r)
times_few k zero = inl (ground arith, refl)
times_few k (suc zero) = inr (inl (ground arith, refl))
times_few k (suc (suc r)) =
    let e : min 2 (suc (suc r)) ≡ 2 = omega arith in
    inr (inr (omega (arith, ap (λ c. k * c) e), omega arith))

three : (k x : ℕ) → suc (suc (suc k)) * x ≡ k * x + 3 * x
three k x = omega (arith, suc-mul (suc (suc k)) x, suc-mul (suc k) x, suc-mul k x)

-- Where three packets or more are needed: two packets are more than the maximum, three more than twice.
two_more :
    (k b r m : ℕ)
    → suc (suc (suc k)) * m < suc (suc (suc k)) * b + r + m
    → r < suc (suc (suc k))
    → 0 < b
    → m < 2 * b + min 2 r
two_more k b r m many few pos = elim (dec_lt m (2 * b + min 2 r)) [
  | yes lt ↦ lt
  | no ge ↦
      let le : 2 * b + min 2 r ≤ m = omega arith in
      let times = mul-le-mul_left k le in
      let spread = mul-add k (2 * b) (min 2 r) in
      let twice = mul_left_comm k 2 b in
      elim (times_few k r) [
        | inl (e, e') ↦ absurd (omega (arith, three k m, three k b))
        | inr (inl (e, e')) ↦ absurd (omega (arith, three k m, three k b))
        | inr (inr (e, e')) ↦ absurd (omega (arith, three k m, three k b))
      ]
]

three_more :
    (k b r m : ℕ)
    → suc (suc (suc k)) * m < suc (suc (suc k)) * b + r + m
    → r < suc (suc (suc k))
    → 0 < b
    → 2 * m < 3 * b + min 2 r
three_more k b r m many few pos = elim (dec_lt (2 * m) (3 * b + min 2 r)) [
  | yes lt ↦ lt
  | no ge ↦
      let le : 3 * b + min 2 r ≤ 2 * m = omega arith in
      let times = mul-le-mul_left k le in
      let spread = mul-add k (3 * b) (min 2 r) in
      let thrice = mul_left_comm k 3 b in
      let twice = mul_left_comm k 2 m in
      elim (times_few k r) [
        | inl (e, e') ↦ absurd (omega (arith, three k m, three k b))
        | inr (inl (e, e')) ↦ absurd (omega (arith, three k m, three k b))
        | inr (inr (e, e')) ↦ absurd (omega (arith, three k m, three k b))
      ]
]

-- Three packets or more, though the first and the last are reduced, leave two bytes for the last two.
pub enough_for_two :
    (k b r m first last : ℕ)
    → suc (suc (suc k)) * m < suc (suc (suc k)) * b + r + m
    → r < suc (suc (suc k))
    → 0 < b
    → first < m
    → last < m
    → last + (first + 1 - b) + 2 ≤ weight b r 2
enough_for_two k b r m first last many few pos hf hl =
    omega
      (arith, two_more k b r m many few pos, three_more k b r m many few pos, weight-closed b r 2)

-- No planned size is above the maximum, where the packets are enough for the total.
pub size-bounded : (n b r m : ℕ) → 0 < n → n * b + r ≤ n * m → (k : ℕ) → size b r (suc k) ≤ m
unfolding size
size-bounded n b r m pos le k = elim (dec_lt b m) [
  | yes lt ↦ ground (arith, lt)
  | no ge ↦ elim (dec_lt m b) [
    | yes above ↦
        let wide : suc m ≤ b = omega arith in
        let times = mul-le-mul_left n wide in absurd (omega (arith, times, mul-suc n m))
    | no same ↦
        let e : b ≡ m = omega arith in
        let none_larger : r ≡ 0 = omega (arith, ap (λ x. n * x) e) in ground (arith, e, none_larger)
  ]
]
