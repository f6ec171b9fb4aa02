-- ===== src/Receiver/NackModule/Ordered.antt =====
-- std::set and std::map of 16-bit numbers under OlderThan (src/rtc/rtp_rtcp/components/wrap_around_utils.hpp), as
-- lists in their order; `key` is the number of an element. A search goes to the lower bound from the front.
use naivertc.Base.{
  ℕ, suc, ◌≤◌, length, arith, if◌then◌else◌, Option, none, some, List, [], ◌∷◌, Bool, false, not,
  ◌&&◌,
}
use naivertc.WrapAround.{older_than}

module _ {ℓ} {A : Type ℓ} (key : A → ℕ) where
  -- erase(begin(), lower_bound(k))
  unfoldable pub erase_to_lower_bound : ℕ → List A → List A
  erase_to_lower_bound k [] = []
  erase_to_lower_bound k (x ∷ xs) =
      if older_than 16 (key x) k then erase_to_lower_bound k xs else x ∷ xs

  -- erase(begin(), upper_bound(k))
  unfoldable pub erase_to_upper_bound : ℕ → List A → List A
  erase_to_upper_bound k [] = []
  erase_to_upper_bound k (x ∷ xs) =
      if older_than 16 k (key x) then x ∷ xs else erase_to_upper_bound k xs

  -- upper_bound(k) != begin()
  unfoldable pub starts_by : ℕ → List A → Bool
  starts_by k [] = false
  starts_by k (x ∷ xs) = not (older_than 16 k (key x))

  -- it = upper_bound(k); if (it != begin()) erase(begin(), --it)
  unfoldable pub erase_before_upper_bound : ℕ → List A → List A
  erase_before_upper_bound k [] = []
  erase_before_upper_bound k (x ∷ xs) =
      if starts_by k (x ∷ xs) && starts_by k xs then erase_before_upper_bound k xs else x ∷ xs

  unfoldable pub find : ℕ → List A → Option A
  find k [] = none
  find k (x ∷ xs) =
      if older_than 16 (key x) k
      then find k xs
      else if older_than 16 k (key x)
      then none
      else some x

  -- erase(find(k))
  unfoldable pub erase : ℕ → List A → List A
  erase k [] = []
  erase k (x ∷ xs) =
      if older_than 16 (key x) k
      then x ∷ erase k xs
      else if older_than 16 k (key x)
      then x ∷ xs
      else xs

  -- An element with an equal key is replaced.
  unfoldable pub put : A → List A → List A
  put y [] = y ∷ []
  put y (x ∷ xs) =
      if older_than 16 (key x) (key y)
      then x ∷ put y xs
      else if older_than 16 (key y) (key x)
      then y ∷ x ∷ xs
      else y ∷ xs

  pub length-erase_to : (k : ℕ) (xs : List A) → length (erase_to_lower_bound k xs) ≤ length xs
  unfolding erase_to_lower_bound
  length-erase_to k [] = omega arith
  length-erase_to k (x ∷ xs) = ground (arith, length-erase_to k xs)

  pub length-erase : (k : ℕ) (xs : List A) → length (erase k xs) ≤ length xs
  unfolding erase
  length-erase k [] = omega arith
  length-erase k (x ∷ xs) = ground (arith, length-erase k xs)

  pub length-put : (y : A) (xs : List A) → length (put y xs) ≤ suc (length xs)
  unfolding put
  length-put y [] = omega arith
  length-put y (x ∷ xs) = ground (arith, length-put y xs)
