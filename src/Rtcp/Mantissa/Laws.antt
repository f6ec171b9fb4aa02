-- ===== src/Rtcp/Mantissa/Laws.antt =====
-- With enough fuel the loop ends, at the least exponent for which the mantissa fits.
use native.Mathlib.Nat.{
  pow-suc, one-le-pow, div-mul-le_self, mul-div_cancel, mod-eq_of_lt, mod-lt, div-add-mod',
}
use naivertc.Base.{
  ℕ, zero, suc, ◌+◌, ◌-◌, ◌*◌, ◌/◌, ◌%◌, ◌^◌, ◌≤◌, ◌<◌, ◌≡◌, ◌⊎◌, inl, inr, refl, ap, ◌∙◌, arith,
  Option, some, dec_lt,
}
use naivertc.Base.Bits.{halve_pow}
use naivertc.Rtcp.Mantissa.{normalize}

-- `k` bits are dropped from `v`, no more than needed: none, or so many that a mantissa of `n` bits keeps
-- its top bit.
pub record Drops (n v k : ℕ) : Type 0 where
  pub fits : v / 2 ^ k < 2 ^ n
  pub least : (k ≡ 0) ⊎ (2 ^ n ≤ 2 * (v / 2 ^ k))

Drops-suc : (n v k : ℕ) → 2 ^ suc n ≤ v → Drops (suc n) (v / 2) k → Drops (suc n) v (suc k)
Drops-suc n v k big d = record { fits = rw halves d.fits; least = inr (rw halves (top d.least)) }
  where
    halves : v / 2 ^ suc k ≡ v / 2 / 2 ^ k
    halves = halve_pow v k

    top : (k ≡ 0) ⊎ (2 ^ suc n ≤ 2 * (v / 2 / 2 ^ k)) → 2 ^ suc n ≤ 2 * (v / 2 / 2 ^ k)
    top (inl e) = rw e (omega (arith, pow-suc 2 n))
    top (inr h) = h

stops : (fuel n v e : ℕ) → v < 2 ^ n → normalize (suc fuel) (2 ^ n - 1) v e ≡ some (v, e)
unfolding normalize
stops fuel n v e h = ground arith

goes_on :
    (fuel n v e : ℕ)
    → 2 ^ n ≤ v
    → normalize (suc fuel) (2 ^ n - 1) v e ≡ normalize fuel (2 ^ n - 1) (v / 2) (e + 1)
unfolding normalize
goes_on fuel n v e h = ground (arith, one-le-pow n 2 (omega arith))

abbrev Normalized : ℕ → ℕ → ℕ → ℕ → Type 0
Normalized fuel n v e =
    (k : ℕ) × (normalize (suc fuel) (2 ^ n - 1) v e ≡ some (v / 2 ^ k, e + k))
    × Drops n v k
    × (k ≤ fuel)

small : (fuel n v e : ℕ) → v < 2 ^ n → Normalized fuel n v e
small fuel n v e h =
    (0, stops fuel n v e h ∙ same, record { fits = omega arith; least = inl refl }, omega arith)
  where
    same : ◌≡◌ {A = Option (ℕ × ℕ)} (some (v, e)) (some (v / 2 ^ 0, e + 0))
    same = ap some (ground arith)

-- A number below 2 ^ (n + 1 + fuel) is halved until it has n + 1 bits and no more often, within
-- fuel + 1 rounds.
pub normalize-Drops : (fuel n v e : ℕ) → v < 2 ^ suc n * 2 ^ fuel → Normalized fuel (suc n) v e
normalize-Drops zero n v e h = small zero (suc n) v e (omega arith)
normalize-Drops (suc fuel) n v e h = elim (dec_lt v (2 ^ suc n)) [
  | yes p ↦ small (suc fuel) (suc n) v e p
  | no p ↦
      let (k, eq, drops, le) =
        normalize-Drops fuel n (v / 2) (e + 1) (halved (2 ^ suc n * 2 ^ fuel) refl) in
      (
        suc k,
        goes_on (suc fuel) (suc n) v e (omega arith) ∙ eq ∙ shifted k,
        Drops-suc n v k (omega arith) drops,
        omega arith,
      )
]
  where
    halved : (t : ℕ) → t ≡ 2 ^ suc n * 2 ^ fuel → v / 2 < 2 ^ suc n * 2 ^ fuel
    halved t e = omega (arith, ap (λ (t : ℕ). 2 ^ suc n * t) (pow-suc 2 fuel))

    shifted :
        (k : ℕ)
        → ◌≡◌ {A = Option (ℕ × ℕ)}
            (some (v / 2 / 2 ^ k, e + 1 + k))
            (some (v / 2 ^ suc k, e + suc k))
    shifted k = ap some (ground (arith, halve_pow v k))

-- What is left of `v` in a mantissa of n + 1 bits: never more than `v`, and less by at most one part in 2 ^ n.
abbrev pub Rounded : ℕ → ℕ → ℕ → Type 0
Rounded n v w = (w ≤ v) × ((v - w) * 2 ^ n ≤ v)

rest_small : (p q r n : ℕ) → r < p → n ≤ q → r * n ≤ q * p
rest_small p q r n h k = grind arith

pub Drops-Rounded : (n v k : ℕ) → Drops (suc n) v k → Rounded n v (v / 2 ^ k * 2 ^ k)
Drops-Rounded n v k d = (div-mul-le_self v (2 ^ k), loss d.least)
  where
    split : v / 2 ^ k * 2 ^ k + v % 2 ^ k ≡ v
    split = div-add-mod' v (2 ^ k)

    left : v - v / 2 ^ k * 2 ^ k ≡ v % 2 ^ k
    left = omega (arith, split)

    nothing : v - v / 2 ^ 0 * 2 ^ 0 ≡ 0
    nothing = omega arith

    loss : (k ≡ 0) ⊎ (2 ^ suc n ≤ 2 * (v / 2 ^ k)) → (v - v / 2 ^ k * 2 ^ k) * 2 ^ n ≤ v
    loss (inl e) = rw e (omega (arith, ap (λ (t : ℕ). t * 2 ^ n) nothing))
    loss (inr h) = rw left (
        omega (
          arith,
          split,
          rest_small (2 ^ k) (v / 2 ^ k) (v % 2 ^ k) (2 ^ n)
              (mod-lt v (one-le-pow k 2 (omega arith))) (omega (arith, pow-suc 2 n)),
        ))

-- The value that a reader of the mantissa and the exponent computes, in 64 bits, passes the reader's test.
pub decode-encode :
    (v k : ℕ)
    → v < 2 ^ 64
    → (v / 2 ^ k * 2 ^ k % 2 ^ 64 ≡ v / 2 ^ k * 2 ^ k) × (v / 2 ^ k * 2 ^ k / 2 ^ k ≡ v / 2 ^ k)
decode-encode v k h = (
  mod-eq_of_lt (omega (arith, div-mul-le_self v (2 ^ k))),
  mul-div_cancel (v / 2 ^ k) (one-le-pow k 2 (omega arith)),
)
