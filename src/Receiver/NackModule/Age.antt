-- ===== src/Receiver/NackModule/Age.antt =====
-- How far an entry of the list is behind the newest number, and that the comparator orders the entries by it.
use naivertc.Base.{
  ℕ, suc, ◌+◌, ◌-◌, ◌%◌, ◌^◌, ◌≤◌, ◌<◌, ◌≡◌, ◌≢◌, arith, ltb, leb, if◌then◌else◌, List, [], ◌∷◌,
  if-rule, subst,
}
use naivertc.WrapAround.{older_than, ahead_of}
use naivertc.Modulo.{forward_diff}
use naivertc.WrapAround.Order.{ahead_or_at_closed}
use naivertc.Receiver.NackModule.{
  NackInfo, seq_num_of, oldest_kept, max_packet_age, max_nack_retries,
}
use naivertc.Receiver.NackModule.Ordered.{erase_to_lower_bound, erase, put}

-- The distance from `x` forward to `n`.
unfoldable pub behind : ℕ → ℕ → ℕ
behind n x = if leb x n then n - x else n + 2 ^ 16 - x

pub ahead_of-behind :
    (n a b : ℕ)
    → n < 2 ^ 16
    → a < 2 ^ 16
    → b < 2 ^ 16
    → behind n a < behind n b + 2 ^ 15
    → behind n b < behind n a + 2 ^ 15
    → ahead_of 16 b a ≡ ltb (behind n b) (behind n a)
unfolding ahead_of behind
ahead_of-behind n a b hn ha hb near near' = ground (arith, ahead_or_at_closed 15 b a hb ha)

pub older-behind :
    (n a b : ℕ)
    → n < 2 ^ 16
    → a < 2 ^ 16
    → b < 2 ^ 16
    → behind n a < behind n b + 2 ^ 15
    → behind n b < behind n a + 2 ^ 15
    → older_than 16 a b ≡ ltb (behind n b) (behind n a)
unfolding older_than
older-behind n a b hn ha hb near near' = ahead_of-behind n a b hn ha hb near near'

pub behind-oldest :
    (n : ℕ) → n < 2 ^ 16 → (oldest_kept n < 2 ^ 16) × (behind n (oldest_kept n) ≡ max_packet_age)
unfolding behind
behind-oldest n h = ground arith

-- Ages in strictly falling order, below `hi` and from `lo` on; with retries left.
unfoldable pub Aged : ℕ → ℕ → ℕ → List NackInfo → Type 0
Aged n hi lo [] = Unit
Aged n hi lo (e ∷ es) =
    (e.seq_num < 2 ^ 16)
    × (e.retries < max_nack_retries)
    × (lo ≤ behind n e.seq_num)
    × (behind n e.seq_num < hi)
    × Aged n (behind n e.seq_num) lo es

-- The places that an operation leaves are enough, whatever it removes.
pub Aged-weaken :
    (n hi lo hi' lo' : ℕ) (xs : List NackInfo)
    → hi ≤ hi'
    → lo' ≤ lo
    → Aged n hi lo xs
    → Aged n hi' lo' xs
unfolding Aged
Aged-weaken n hi lo hi' lo' [] le le' aged = aged
Aged-weaken n hi lo hi' lo' (x ∷ xs) le le' (h, r, from, below, rest) = (
  h,
  r,
  omega arith,
  omega arith,
  Aged-weaken n (behind n x.seq_num) lo (behind n x.seq_num) lo' xs (omega arith) le' rest,
)

pub Aged-erase_to :
    (n hi lo k : ℕ) (xs : List NackInfo)
    → Aged n hi lo xs
    → Aged n hi lo (erase_to_lower_bound seq_num_of k xs)
unfolding Aged erase_to_lower_bound
Aged-erase_to n hi lo k [] aged = aged
Aged-erase_to n hi lo k (x ∷ xs) (h, r, from, below, rest) =
    if-rule (Aged n hi lo) (older_than 16 x.seq_num k)
      (λ older.
        Aged-weaken n (behind n x.seq_num) lo hi lo (erase_to_lower_bound seq_num_of k xs)
          (omega arith) (omega arith) (Aged-erase_to n (behind n x.seq_num) lo k xs rest))
      (λ not_older. (h, r, from, below, rest))

pub Aged-erase :
    (n hi lo k : ℕ) (xs : List NackInfo) → Aged n hi lo xs → Aged n hi lo (erase seq_num_of k xs)
unfolding Aged erase
Aged-erase n hi lo k [] aged = aged
Aged-erase n hi lo k (x ∷ xs) (h, r, from, below, rest) =
    if-rule (Aged n hi lo) (older_than 16 x.seq_num k)
      (λ older. (h, r, from, below, Aged-erase n (behind n x.seq_num) lo k xs rest))
      (λ not_older.
        if-rule (Aged n hi lo) (older_than 16 k x.seq_num) (λ newer. (h, r, from, below, rest))
          (λ found.
            Aged-weaken n (behind n x.seq_num) lo hi lo xs (omega arith) (omega arith) rest))

-- A newer number joins at the end.
pub Aged-put :
    (n hi : ℕ) (y : NackInfo) (xs : List NackInfo)
    → n < 2 ^ 16
    → y.seq_num < 2 ^ 16
    → y.retries < max_nack_retries
    → hi ≤ 2 ^ 15
    → behind n y.seq_num < hi
    → Aged n hi (suc (behind n y.seq_num)) xs
    → Aged n hi (behind n y.seq_num) (put seq_num_of y xs)
unfolding Aged put
Aged-put n hi y [] hn hy retries le lt aged = (hy, retries, omega arith, lt, tt)
Aged-put n hi y (x ∷ xs) hn hy retries le lt (h, r, from, below, rest) =
    if-rule (Aged n hi (behind n y.seq_num)) (older_than 16 x.seq_num y.seq_num)
      (λ older. (
        h,
        r,
        omega arith,
        below,
        Aged-put n (behind n x.seq_num) y xs hn hy retries (omega arith) (omega arith) rest,
      ))
      (λ not_older. absurd (
        ground (
          arith,
          not_older,
          older-behind n x.seq_num y.seq_num hn h hy (omega arith) (omega arith),
        )))

behind-shift :
    (n n' x : ℕ)
    → n < 2 ^ 16
    → n' < 2 ^ 16
    → x < 2 ^ 16
    → behind n x + behind n' n < 2 ^ 16
    → behind n' x ≡ behind n x + behind n' n
unfolding behind
behind-shift n n' x hn hn' hx lt = ground arith

-- The newest number moves on by `j`.
pub Aged-shift :
    (n n' j hi lo : ℕ) (xs : List NackInfo)
    → n < 2 ^ 16
    → n' < 2 ^ 16
    → behind n' n ≡ j
    → hi + j ≤ 2 ^ 16
    → Aged n hi lo xs
    → Aged n' (hi + j) (lo + j) xs
unfolding Aged
Aged-shift n n' j hi lo [] hn hn' e le aged = tt
Aged-shift n n' j hi lo (x ∷ xs) hn hn' e le (h, r, from, below, rest) =
    let moved = behind-shift n n' x.seq_num hn hn' h (omega arith) in
    let rest' = Aged-shift n n' j (behind n x.seq_num) lo xs hn hn' e (omega arith) rest in
    (h, r, omega arith, omega arith, subst (λ hi. Aged n' hi (lo + j) xs) (omega arith) rest')

-- What is older than the oldest kept goes.
pub Aged-drop_old :
    (n hi lo : ℕ) (xs : List NackInfo)
    → n < 2 ^ 16
    → hi ≤ max_packet_age + 2 ^ 15
    → Aged n hi lo xs
    → Aged n (suc max_packet_age) lo (erase_to_lower_bound seq_num_of (oldest_kept n) xs)
unfolding Aged erase_to_lower_bound
Aged-drop_old n hi lo [] hn le aged = tt
Aged-drop_old n hi lo (x ∷ xs) hn le (h, r, from, below, rest) =
    let (ho, age) = behind-oldest n hn in
    if-rule (Aged n (suc max_packet_age) lo) (older_than 16 x.seq_num (oldest_kept n))
      (λ older. Aged-drop_old n (behind n x.seq_num) lo xs hn (omega arith) rest)
      (λ not_older. (
        h,
        r,
        from,
        ground (
          arith,
          not_older,
          age,
          older-behind n x.seq_num (oldest_kept n) hn h ho (omega arith) (omega arith),
        ),
        rest,
      ))

pub behind-same : (n : ℕ) → behind n n ≡ 0
unfolding behind
behind-same n = ground arith

pub behind-next :
    (n x : ℕ) → n < 2 ^ 16 → x < 2 ^ 16 → x ≢ n → behind n x ≡ suc (behind n ((x + 1) % 2 ^ 16))
unfolding behind
behind-next n x hn hx ne = ground arith

pub forward_diff-behind :
    (n x : ℕ) → n < 2 ^ 16 → x < 2 ^ 16 → (forward_diff 16 x n ≡ behind n x) × (behind n x < 2 ^ 16)
unfolding behind forward_diff
forward_diff-behind n x hn hx = (ground arith, ground arith)

pub behind-zero : (n x : ℕ) → n < 2 ^ 16 → x < 2 ^ 16 → behind n x ≡ 0 → x ≡ n
unfolding behind
behind-zero n x hn hx e = ground (arith, e)

pub behind_injective :
    (n x y : ℕ) → n < 2 ^ 16 → x < 2 ^ 16 → y < 2 ^ 16 → behind n x ≡ behind n y → x ≡ y
unfolding behind
behind_injective n x y hn hx hy e = ground (arith, e)
