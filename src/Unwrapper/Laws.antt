-- ===== src/Unwrapper/Laws.antt =====
-- The unwrapped count stands for the wrapped number, and follows the counter behind it.
use native.Mathlib.Nat.{pow-suc, one-le-pow, mod-lt, mod-eq_of_lt, add-mod_right}
use naivertc.Base.{
  ℕ, suc, ◌+◌, ◌-◌, ◌%◌, ◌^◌, ◌≤◌, ◌<◌, ◌≡◌, refl, sym, ap, ◌∙◌, arith, leb, if◌then◌else◌, true,
  false, none, some, List, [], ◌∷◌, map, dec_lt,
}
use naivertc.Base.Int.{ℤ, pos, ◌+ℤ◌, ◌-ℤ◌, ◌≤ℤ◌}
use naivertc.Modulo.{forward_diff, reverse_diff, forward_diff_mod, reverse_diff_mod}
use naivertc.Modulo.Laws.{forward_diff-eq-mod, reverse_diff-eq-mod, mod_shift, mod_step}
use naivertc.WrapAround.{ahead_or_at}
use naivertc.WrapAround.Order.{ahead_or_at_closed}
use naivertc.Unwrapper.{NumberUnwrapper, cast_to, unwrap_from, unwrap}

pow_pos : (w : ℕ) → 0 < 2 ^ w
pow_pos w = one-le-pow w 2 (omega arith)

-- A counter that moved on by less than half the modulus is seen ahead, at its true distance.
forward_step :
    (w a d : ℕ)
    → d < 2 ^ w
    → let m = 2 ^ suc w in
      (ahead_or_at (suc w) ((a + d) % m) (a % m) ≡ true)
      × (forward_diff (suc w) (a % m) ((a + d) % m) ≡ d)
unfolding forward_diff
forward_step w a d h = (
  ground (
    arith,
    ahead_or_at_closed w ((a + d) % 2 ^ suc w) (a % 2 ^ suc w) (mod-lt (a + d) (pow_pos (suc w)))
        (mod-lt a (pow_pos (suc w))),
    mod_shift (2 ^ suc w) a d (pow_pos (suc w)),
    pow-suc 2 w,
    mod-lt a (pow_pos (suc w)),
  ),
  ground (
    arith,
    mod_shift (2 ^ suc w) a d (pow_pos (suc w)),
    mod_step (2 ^ suc w) ((a + d) % 2 ^ suc w + 2 ^ suc w - a % 2 ^ suc w),
    pow-suc 2 w,
    mod-lt a (pow_pos (suc w)),
  ),
)

backward_step :
    (w a d : ℕ)
    → 0 < d
    → d < 2 ^ w
    → let m = 2 ^ suc w in
      (ahead_or_at (suc w) (a % m) ((a + d) % m) ≡ false)
      × (reverse_diff (suc w) ((a + d) % m) (a % m) ≡ d)
unfolding reverse_diff
backward_step w a d p h = (
  ground (
    arith,
    ahead_or_at_closed w (a % 2 ^ suc w) ((a + d) % 2 ^ suc w) (mod-lt a (pow_pos (suc w)))
        (mod-lt (a + d) (pow_pos (suc w))),
    mod_shift (2 ^ suc w) a d (pow_pos (suc w)),
    pow-suc 2 w,
    mod-lt a (pow_pos (suc w)),
  ),
  ground (
    arith,
    mod_shift (2 ^ suc w) a d (pow_pos (suc w)),
    mod_step (2 ^ suc w) ((a + d) % 2 ^ suc w + 2 ^ suc w - a % 2 ^ suc w),
    pow-suc 2 w,
    mod-lt a (pow_pos (suc w)),
  ),
)

-- The two ways that a count is moved on, where the counter stays at or above 0.
ahead_tracks :
    (w a d : ℕ) → d < 2 ^ w → unwrap_from (suc w) (pos a) ((a + d) % 2 ^ suc w) ≡ pos (a + d)
unfolding unwrap_from ◌+ℤ◌
ahead_tracks w a d h = rw ((forward_step w a d h).0, (forward_step w a d h).1) (ground arith)

behind_tracks :
    (w a d : ℕ) → 0 < d → d < 2 ^ w → unwrap_from (suc w) (pos (a + d)) (a % 2 ^ suc w) ≡ pos a
unfolding unwrap_from ◌-ℤ◌
behind_tracks w a d p h =
    rw ((backward_step w a d p h).0, (backward_step w a d p h).1) (ground arith)

unwrap_from_tracks :
    (w a b : ℕ)
    → a < b + 2 ^ w
    → b < a + 2 ^ w
    → unwrap_from (suc w) (pos a) (b % 2 ^ suc w) ≡ pos b
unwrap_from_tracks w a b near near' = elim (dec_lt b a) [
  | yes p ↦ ground (arith, behind_tracks w b (a - b))
  | no p ↦ ground (arith, ahead_tracks w a (b - a))
]

-- A stream of counters in which each is less than 2 ^ w away from the one before.
abbrev pub Steady : ℕ → ℕ → List ℕ → Type 0
Steady w a [] = Unit {0}
Steady w a (b ∷ bs) = (a < b + 2 ^ w) × (b < a + 2 ^ w) × Steady w b bs

-- The results of calling `Unwrap` on each number of a stream in turn.
pub unwrap_all : ℕ → NumberUnwrapper → List ℕ → List ℤ
unwrap_all w u [] = []
unwrap_all w u (v ∷ vs) = let (n, u') = unwrap w u v true in n ∷ unwrap_all w u' vs

unwrap_all_from :
    (w a : ℕ) (bs : List ℕ)
    → Steady w a bs
    → unwrap_all
        (suc w)
        (record { last_unwrapped_value = some (pos a) })
        (map (λ b. b % 2 ^ suc w) bs)
      ≡ map pos bs
unfolding unwrap_all unwrap
unwrap_all_from w a [] h = refl
unwrap_all_from w a (b ∷ bs) h =
    rw (unwrap_from_tracks w a b h.0 h.1) (ap (◌∷◌ (pos b)) (unwrap_all_from w b bs h.2))

-- A stream of counters, the first below the modulus and each less than half the modulus away from
-- the one before, is recovered exactly from its wrapped numbers by a fresh unwrapper.
pub unwrap_all-wrapped :
    (w a : ℕ) (bs : List ℕ)
    → a < 2 ^ suc w
    → Steady w a bs
    → unwrap_all
        (suc w)
        (record { last_unwrapped_value = none })
        (map (λ b. b % 2 ^ suc w) (a ∷ bs))
      ≡ map pos (a ∷ bs)
unfolding unwrap_all unwrap
unwrap_all-wrapped w a bs h near =
    rw (mod-eq_of_lt h) (ap (◌∷◌ (pos a)) (unwrap_all_from w a bs near))

-- The three places that a non-negative count can move to.
moved : ℕ → ℕ → ℕ → ℕ
moved w a value =
    let forward = forward_diff w (a % 2 ^ w) value in
    let back = reverse_diff w (a % 2 ^ w) value in
    if ahead_or_at w value (a % 2 ^ w)
    then a + forward
    else if leb back a
    then a - back
    else a + (2 ^ w - back)

reverse_diff-lt : (w a b : ℕ) → reverse_diff w a b < 2 ^ w
unfolding reverse_diff
reverse_diff-lt w a b = mod-lt (a + 2 ^ w - b) (pow_pos w)

unwrap_from-eq-moved : (w a value : ℕ) → unwrap_from w (pos a) value ≡ pos (moved w a value)
unfolding unwrap_from moved ◌+ℤ◌ ◌-ℤ◌
unwrap_from-eq-moved w a value = ground (arith, reverse_diff-lt w (a % 2 ^ w) value)

forward_lands : (m a v : ℕ) → 0 < m → v < m → (a + forward_diff_mod m (a % m) v) % m ≡ v
unfolding forward_diff_mod
forward_lands m a v positive h =
    ground (arith, mod_shift m a (forward_diff_mod m (a % m) v) positive, mod-lt a positive)

round_lands : (m a v : ℕ) → 0 < m → v < m → (a + (m - reverse_diff_mod m (a % m) v)) % m ≡ v
unfolding reverse_diff_mod
round_lands m a v positive h = ground (
  arith,
  mod_shift m a (m - reverse_diff_mod m (a % m) v) positive,
  add-mod_right a m,
  mod-lt a positive,
)

back_lands :
    (m a v : ℕ)
    → 0 < m
    → v < m
    → reverse_diff_mod m (a % m) v ≤ a
    → (a - reverse_diff_mod m (a % m) v) % m ≡ v
back_lands m a v positive h le =
    sym (add-mod_right (a - reverse_diff_mod m (a % m) v) m)
    ∙ ap (λ (t : ℕ). t % m) regroup
    ∙ round_lands m a v positive h
  where
    small : reverse_diff_mod m (a % m) v ≤ m
    small = unfold reverse_diff_mod in ground (arith, mod-lt a positive)

    regroup : a - reverse_diff_mod m (a % m) v + m ≡ a + (m - reverse_diff_mod m (a % m) v)
    regroup = omega (arith, small)

moved-mod : (w a value : ℕ) → value < 2 ^ w → moved w a value % 2 ^ w ≡ value
unfolding moved
moved-mod w a value h =
    rw
      (
        forward_diff-eq-mod w (a % 2 ^ w) value (mod-lt a (pow_pos w)) h,
        reverse_diff-eq-mod w (a % 2 ^ w) value (mod-lt a (pow_pos w)) h,
      )
      (ground (
        arith,
        forward_lands (2 ^ w) a value (pow_pos w) h,
        round_lands (2 ^ w) a value (pow_pos w) h,
        back_lands (2 ^ w) a value (pow_pos w) h,
      ))

-- From a non-negative count and for a number of w bits, the next count is not negative and its low
-- bits are the number given.
pub unwrap_from-IsCast :
    (w a value : ℕ)
    → value < 2 ^ w
    → (pos 0 ≤ℤ unwrap_from w (pos a) value) × (cast_to w (unwrap_from w (pos a) value) ≡ value)
unwrap_from-IsCast w a value h =
    rw (unwrap_from-eq-moved w a value) (omega arith, moved-mod w a value h)
