-- ===== src/Rtcp/LastChunk/Emitting.antt =====
-- What emitting leaves in a chunk.
use naivertc.Base.{
  ℕ, zero, suc, ◌-◌, ◌≤◌, ◌≡◌, refl, ap, ap₂, subst, sym, ◌∙◌, arith, Bool-cases, true, false, inl,
  inr, List, [], ◌∷◌, ◌++◌, length, length-append, length-drop, take, drop, replicate, ℕ_discrete,
}
use naivertc.Rtcp.Items.{All}
use naivertc.Rtcp.LastChunk.{
  LastChunk, clear, can_add, emit, shift, overwrite, are_same, have_large, first_of,
  max_one_bit_capacity, max_two_bit_capacity, max_vector_capacity,
}
use naivertc.Rtcp.LastChunk.Codec.{Fits}
use naivertc.Rtcp.LastChunk.Filled.{
  IsDelta, IsFilled, emitted, Added, emptied, adds, emits, add-IsFilled,
}

drop-all : (n : ℕ) (xs : List ℕ) → length xs ≤ n → drop n xs ≡ []
drop-all n [] le = drop-nil n
  where
    drop-nil : (n : ℕ) → drop {A = ℕ} n [] ≡ []
    drop-nil zero = refl
    drop-nil (suc n) = refl
drop-all zero (x ∷ xs) le = absurd (omega arith)
drop-all (suc n) (x ∷ xs) le = drop-all n xs (omega arith)

clear-IsFilled :
    (c : LastChunk) → length c.delta_sizes ≡ max_vector_capacity → IsFilled [] (clear c)
unfolding IsFilled clear
clear-IsFilled c places = (places, refl, tt, λ e. refl, λ le. refl, λ e. tt, inl (omega arith))

pub take-prefix : (xs ys : List ℕ) → take (length xs) (xs ++ ys) ≡ xs
take-prefix [] ys = refl
take-prefix (x ∷ xs) ys = ap (λ t. x ∷ t) (take-prefix xs ys)

same-replicate : (f : ℕ) (ds : List ℕ) → are_same f ds ≡ true → ds ≡ replicate (length ds) f
unfolding are_same
same-replicate f [] e = refl
same-replicate f (d ∷ ds) e =
    ap₂ (λ x xs. x ∷ xs) (ground (arith, e)) (same-replicate f ds (ground (arith, e)))

none_large : (ds : List ℕ) → All IsDelta ds → have_large ds ≡ false → All (Fits 1) ds
unfolding have_large
none_large [] all e = tt
none_large (d ∷ ds) (p, all) e = (ground (arith, e, p), none_large ds all (ground (arith, e)))

-- The chunk with the sizes that are left in front of its array.
refilled-IsFilled :
    (left old : List ℕ) (n : ℕ)
    → length old ≡ max_vector_capacity
    → n ≡ length left
    → length left ≤ max_two_bit_capacity
    → All IsDelta left
    → IsFilled left (record {
      delta_sizes = overwrite left old;
      size = n;
      all_same = are_same (first_of (overwrite left old)) left;
      has_large_delta = have_large left;
    })
unfolding IsFilled
refilled-IsFilled left old n places size few deltas = (
  omega (arith, places, length-append left (drop (length left) old), length-drop (length left) old),
  size,
  deltas,
  same-replicate (first_of (overwrite left old)) left,
  λ le. take-prefix left (drop (length left) old),
  none_large left deltas,
  inl few,
)

take-nil : (n : ℕ) → take {A = ℕ} n [] ≡ []
take-nil zero = refl
take-nil (suc n) = refl

drop-take : (k n : ℕ) (xs : List ℕ) → k ≤ n → drop k (take n xs) ≡ take (n - k) (drop k xs)
drop-take zero n xs le = ap (λ t. take t xs) whole
  where
    whole : n ≡ n - 0
    whole = omega arith
drop-take (suc k) zero xs le = absurd (omega arith)
drop-take (suc k) (suc n) [] le = sym (take-nil (suc n - suc k))
drop-take (suc k) (suc n) (x ∷ xs) le =
    drop-take k n xs (omega arith) ∙ ap (λ t. take t (drop k xs)) one_less
  where
    one_less : n - k ≡ suc n - suc k
    one_less = omega arith

All-drop : (k : ℕ) (ds : List ℕ) → All IsDelta ds → All IsDelta (drop k ds)
All-drop zero ds all = all
All-drop (suc k) [] all = tt
All-drop (suc k) (d ∷ ds) (p, all) = All-drop k ds all

emptied-IsFilled :
    (ds : List ℕ) (c : LastChunk) (k : ℕ)
    → length c.delta_sizes ≡ max_vector_capacity
    → length ds ≤ k
    → emitted c ≡ k
    → (emit c).1 ≡ clear c
    → IsFilled (drop (emitted c) ds) (emit c).1
emptied-IsFilled ds c k places le e e' =
    subst (λ xs. IsFilled xs (emit c).1) (sym (ap (λ t. drop t ds) e ∙ drop-all k ds le))
      (subst (IsFilled []) (sym e') (clear-IsFilled c places))

shift-IsFilled :
    (ds : List ℕ) (c : LastChunk)
    → IsFilled ds c
    → length ds ≤ max_one_bit_capacity
    → max_two_bit_capacity ≤ length ds
    → IsFilled (drop max_two_bit_capacity ds) (shift c)
unfolding IsFilled shift
shift-IsFilled ds c (places, size, deltas, same, kept, small, fits) le ge =
    let k = max_two_bit_capacity in
    let left = take (c.size - k) (drop k c.delta_sizes) in
    let e =
      ap (λ n. take (n - k) (drop k c.delta_sizes)) size
      ∙ sym (drop-take k (length ds) c.delta_sizes ge)
      ∙ ap (drop k) (kept le) in
    let count = ap length e ∙ length-drop k ds in
    subst (λ xs. IsFilled xs (shift c)) e
      (refilled-IsFilled left c.delta_sizes (c.size - k) places (omega (arith, size, count))
        (omega (arith, count)) (subst (All IsDelta) (sym e) (All-drop k ds deltas)))

emit-IsFilled :
    (ds : List ℕ) (c : LastChunk) (d : ℕ)
    → IsFilled ds c
    → can_add c d ≡ false
    → IsFilled (drop (emitted c) ds) (emit c).1
unfolding IsFilled emit can_add emitted
emit-IsFilled ds c d (places, size, deltas, same, kept, small, fits) full =
    elim (Bool-cases c.all_same) [
      | inl run ↦
          emptied-IsFilled ds c (length ds) places (omega arith) (ground (arith, run, size))
            (ground (arith, run))
      | inr mixed ↦ elim (ℕ_discrete c.size max_one_bit_capacity) [
        | yes whole ↦
            emptied-IsFilled ds c max_one_bit_capacity places (omega arith)
              (ground (arith, mixed, whole)) (ground (arith, mixed, whole))
        | no part ↦
            let count : emitted c ≡ max_two_bit_capacity = ground (arith, mixed, part) in
            let left : (emit c).1 ≡ shift c = ground (arith, mixed, part) in
            let filled : IsFilled ds c = (places, size, deltas, same, kept, small, fits) in
            subst (λ k. IsFilled (drop k ds) (emit c).1) (sym count)
              (subst (IsFilled (drop max_two_bit_capacity ds)) (sym left) (
                shift-IsFilled ds c filled (ground (arith, fits, mixed))
                  (ground (arith, full, size))))
      ]
    ]

pub added-IsFilled : (ds : List ℕ) (c : LastChunk) → Added ds c → IsFilled ds c
unfolding IsFilled clear
added-IsFilled ds c (emptied start places) = clear-IsFilled start places
added-IsFilled ds c (adds {ds = before} {c = old} d past ok can) =
    add-IsFilled before old d (added-IsFilled before old past) ok can
added-IsFilled ds c (emits {ds = before} {c = old} d past full) =
    emit-IsFilled before old d (added-IsFilled before old past) full
