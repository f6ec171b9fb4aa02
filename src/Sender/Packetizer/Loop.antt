-- ===== src/Sender/Packetizer/Loop.antt =====
-- The loop of the packetizer, from the packet after the first on.
use naivertc.Base.{
  ℕ, zero, suc, ◌+◌, ◌-◌, ◌%◌, ◌^◌, ◌≤◌, ◌<◌, ◌≡◌, refl, sym, subst, arith, ◌==◌, if◌then◌else◌,
  dec_lt, Bool, false, Option, some, List, [], ◌∷◌, length,
}
use naivertc.Sender.Packetizer.{current_size, split_loop}
use naivertc.Sender.Packetizer.Weights.{size, size_pos, weight, weight-two}

unfoldable pub sum : List ℕ → ℕ
sum [] = 0
sum (x ∷ xs) = x + sum xs

-- Sizes above 0 and up to the maximum, of which the last leaves room for its reduction.
unfoldable pub AreSizes : ℕ → ℕ → List ℕ → Type 0
AreSizes m last [] = Unit
AreSizes m last (x ∷ []) = (0 < x) × (x + last ≤ m)
AreSizes m last (x ∷ y ∷ ys) = (0 < x) × (x ≤ m) × AreSizes m last (y ∷ ys)

-- The loop gives `n` sizes, which add up to what remains.
pub record Splits (m last remaining n : ℕ) (result : Option (List ℕ)) : Type 0 where
  pub sizes : List ℕ
  pub done : result ≡ some sizes
  pub fit : AreSizes m last sizes
  pub total : sum sizes ≡ remaining
  pub count : length sizes ≡ n

module _ (reduction b r m last : ℕ) where
  planned :
      (left : ℕ)
      → (if left == r then size b r (suc left) + 1 else size b r (suc left)) ≡ size b r left
  unfolding size
  planned left = ground arith

  -- One packet of the loop.
  pub split_step :
      (fuel left remaining current : ℕ) (first : Bool) (sizes : List ℕ)
      → suc left < 2 ^ 64
      → 0 < remaining
      → current_size reduction (size b r (suc left)) (suc left) remaining first ≡ current
      → split_loop fuel reduction r (size b r (suc left)) left (remaining - current) false
        ≡ some sizes
      → split_loop (suc fuel) reduction r (size b r (suc (suc left))) (suc left) remaining first
        ≡ some (current ∷ sizes)
  unfolding split_loop
  split_step fuel left remaining current first sizes small some_bytes now later =
      let next : (suc left + 2 ^ 64 - 1) % 2 ^ 64 ≡ left = omega arith in
      ground (arith, planned (suc left), next, now, later)

  pub one_left :
      (fuel remaining : ℕ)
      → 0 < remaining
      → remaining ≤ size b r 1
      → split_loop (suc (suc fuel)) reduction r (size b r 2) 1 remaining false
        ≡ some (remaining ∷ [])
  unfolding current_size split_loop
  one_left fuel remaining some_bytes le =
      split_step (suc fuel) 0 remaining remaining false [] (omega arith) some_bytes
        (ground (arith, le)) (ground (arith, le))

  -- With two packets left, some bytes are kept for the last one.
  two_left :
      (fuel remaining spare : ℕ)
      → remaining + spare ≡ weight b r 2
      → spare + 2 ≤ weight b r 2
      → last ≤ spare
      → last < m
      → 0 < b
      → ((n : ℕ) → size b r (suc n) ≤ m)
      → Splits m last remaining 2
          (split_loop (suc (suc (suc fuel))) reduction r (size b r 3) 2 remaining false)
  unfolding current_size weight AreSizes sum
  two_left fuel remaining spare plan two le room pos bounded =
      elim (dec_lt (size b r 2) remaining) [
        | yes lt ↦
            let rest = remaining - size b r 2 in
            let bound = bounded 0 in
            record {
              sizes = size b r 2 ∷ rest ∷ [];
              done =
                  split_step (suc (suc fuel)) 1 remaining (size b r 2) false (rest ∷ [])
                    (omega arith) (omega arith) (ground (arith, lt))
                    (one_left fuel rest (omega arith) (omega arith));
              fit = (size_pos b r 2 pos, bounded 1, (omega arith, omega arith));
              total = omega arith;
              count = refl;
            }
        | no ge ↦
            let bound = bounded 1 in
            let one : remaining - (remaining - 1) ≡ 1 = omega arith in
            let tail = one_left fuel 1 (omega arith) (size_pos b r 1 pos) in
            record {
              sizes = (remaining - 1) ∷ 1 ∷ [];
              done =
                  split_step (suc (suc fuel)) 1 remaining (remaining - 1) false (1 ∷ [])
                    (omega arith) (omega arith) (ground (arith, ge))
                    (subst
                      (λ x.
                        split_loop (suc (suc fuel)) reduction r (size b r 2) 1 x false
                        ≡ some (1 ∷ []))
                      (sym one) tail);
              fit = (omega arith, omega arith, (omega arith, omega arith));
              total = omega arith;
              count = refl;
            }
      ]

  pub AreSizes-cons :
      (x : ℕ) (xs : List ℕ)
      → 0 < x
      → x ≤ m
      → 0 < length xs
      → AreSizes m last xs
      → AreSizes m last (x ∷ xs)
  unfolding AreSizes
  AreSizes-cons x [] pos le some_size fit = absurd (omega arith)
  AreSizes-cons x (y ∷ ys) pos le some_size fit = (pos, le, fit)

  -- The last packets, of which there are two or more; `spare` is what the plan has more than there are bytes.
  pub last_Splits :
      (k fuel remaining spare : ℕ)
      → suc (suc k) < 2 ^ 64
      → k + 3 ≤ fuel
      → remaining + spare ≡ weight b r (suc (suc k))
      → spare + 2 ≤ weight b r 2
      → last ≤ spare
      → last < m
      → 0 < b
      → ((n : ℕ) → size b r (suc n) ≤ m)
      → Splits m last remaining
          (suc (suc k))
          (split_loop fuel reduction r (size b r (suc (suc (suc k)))) (suc (suc k)) remaining false)
  unfolding weight current_size sum
  last_Splits zero (suc (suc (suc fuel))) remaining spare small enough plan two le room pos
        bounded =
      two_left fuel remaining spare plan two le room pos bounded
  last_Splits (suc k) (suc fuel) remaining spare small enough plan two le room pos bounded =
      let current = size b r (suc (suc (suc k))) in
      let ahead = weight-two b r k in
      let plan' : (remaining - current) + spare ≡ weight b r (suc (suc k)) = omega arith in
      let more : current < remaining = omega arith in
      let later =
        last_Splits k fuel (remaining - current) spare (omega arith) (omega arith) plan' two le room
          pos bounded in
      record {
        sizes = current ∷ later.sizes;
        done =
            split_step fuel (suc (suc k)) remaining current false later.sizes small (omega arith)
              (ground (arith, more)) later.done;
        fit =
            AreSizes-cons current later.sizes (size_pos b r (suc (suc (suc k))) pos)
              (bounded (suc (suc k))) (omega (arith, later.count)) later.fit;
        total = omega (arith, later.total);
        count = omega (arith, later.count);
      }
  last_Splits zero zero remaining spare small enough plan two le room pos bounded =
      absurd (omega arith)
  last_Splits zero (suc zero) remaining spare small enough plan two le room pos bounded =
      absurd (omega arith)
  last_Splits zero (suc (suc zero)) remaining spare small enough plan two le room pos bounded =
      absurd (omega arith)
  last_Splits (suc k) zero remaining spare small enough plan two le room pos bounded =
      absurd (omega arith)
