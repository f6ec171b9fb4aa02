-- ===== src/Rtcp/LastChunk/Filled.antt =====
-- What a chunk holds after sizes were added to it.
use naivertc.Base.{
  ℕ, zero, suc, ◌≤◌, ◌<◌, ◌≡◌, refl, ap, ap₂, subst, sym, ◌∙◌, arith, ltb, ◌==◌, if◌then◌else◌,
  Bool-cases, true, false, not, ◌&&◌, ◌⊎◌, inl, inr, List, [], ◌∷◌, ◌++◌, length, length-append,
  length-set, set, take, drop, replicate, dec_lt,
}
use naivertc.Rtcp.Items.{All}
use naivertc.Rtcp.LastChunk.{
  LastChunk, clear, can_add, add, emit, first_of, max_one_bit_capacity, max_two_bit_capacity,
  max_run_length_capacity, max_vector_capacity, large,
}
use naivertc.Rtcp.LastChunk.Codec.{Fits}

abbrev pub IsDelta : ℕ → Type 0
IsDelta d = d < 3

pub All-snoc : (P : ℕ → Type 0) (ds : List ℕ) (d : ℕ) → All P ds → P d → All P (ds ++ d ∷ [])
All-snoc P [] d all p = (p, tt)
All-snoc P (x ∷ xs) d (px, all) p = (px, All-snoc P xs d all p)

replicate-snoc : (n d : ℕ) → replicate n d ++ d ∷ [] ≡ replicate (suc n) d
replicate-snoc zero d = refl
replicate-snoc (suc n) d = ap (λ xs. d ∷ xs) (replicate-snoc n d)

take-set : (n d : ℕ) (xs : List ℕ) → n < length xs → take (suc n) (set xs n d) ≡ take n xs ++ d ∷ []
take-set n d [] lt = absurd (omega arith)
take-set zero d (x ∷ xs) lt = refl
take-set (suc n) d (x ∷ xs) lt = ap (λ ys. x ∷ ys) (take-set n d xs (omega arith))

first-set : (n d : ℕ) (xs : List ℕ) → 0 < n → first_of (set xs n d) ≡ first_of xs
first-set zero d xs pos = absurd (omega arith)
first-set (suc n) d [] pos = refl
first-set (suc n) d (x ∷ xs) pos = refl

first-set_zero : (d : ℕ) (xs : List ℕ) → 0 < length xs → first_of (set xs 0 d) ≡ d
first-set_zero d [] lt = absurd (omega arith)
first-set_zero d (x ∷ xs) lt = refl

-- The chunk stands for the sizes, and can be encoded.
unfoldable pub IsFilled : List ℕ → LastChunk → Type 0
IsFilled ds c =
    (length c.delta_sizes ≡ max_vector_capacity)
    × (c.size ≡ length ds)
    × All IsDelta ds
    × (c.all_same ≡ true → ds ≡ replicate (length ds) (first_of c.delta_sizes))
    × (length ds ≤ max_vector_capacity → take (length ds) c.delta_sizes ≡ ds)
    × (c.has_large_delta ≡ false → All (Fits 1) ds)
    × ((length ds ≤ max_two_bit_capacity)
        ⊎ ((length ds ≤ max_one_bit_capacity) × (c.has_large_delta ≡ false))
        ⊎ ((length ds ≤ max_run_length_capacity) × (c.all_same ≡ true)))

-- How many sizes the chunk emitted next takes.
unfoldable pub emitted : LastChunk → ℕ
emitted c =
    if c.all_same
    then c.size
    else if c.size == max_one_bit_capacity
    then max_one_bit_capacity
    else max_two_bit_capacity

-- The sizes that were added and not emitted, the last at the end.
pub data Added : List ℕ → LastChunk → Type 0 where
  emptied : (c : LastChunk) → length c.delta_sizes ≡ max_vector_capacity → Added [] (clear c)
  adds :
      {ds : List ℕ} {c : LastChunk} (d : ℕ)
      → Added ds c
      → IsDelta d
      → can_add c d ≡ true
      → Added (ds ++ d ∷ []) (add c d)
  emits :
      {ds : List ℕ} {c : LastChunk} (d : ℕ)
      → Added ds c
      → can_add c d ≡ false
      → Added (drop (emitted c) ds) (emit c).1

first-add :
    (c : LastChunk) (d : ℕ) → 0 < c.size → first_of (add c d).delta_sizes ≡ first_of c.delta_sizes
unfolding add
first-add c d pos = ground (arith, first-set c.size d c.delta_sizes pos)

add-all_same :
    (c : LastChunk) (d : ℕ)
    → (add c d).all_same ≡ true
    → (c.all_same ≡ true) × (d ≡ first_of (add c d).delta_sizes)
unfolding add
add-all_same c d e = (ground (arith, e), ground (arith, e))

add-same :
    (ds : List ℕ) (c : LastChunk) (d : ℕ)
    → length c.delta_sizes ≡ max_vector_capacity
    → c.size ≡ length ds
    → (c.all_same ≡ true → ds ≡ replicate (length ds) (first_of c.delta_sizes))
    → (add c d).all_same ≡ true
    → ds ++ d ∷ [] ≡ replicate (suc (length ds)) (first_of (add c d).delta_sizes)
add-same [] c d places size same e = ap (λ t. t ∷ []) (add-all_same c d e).1
add-same (x ∷ xs) c d places size same e =
    let first = first-add c d (omega (arith, size)) in
    let at_last : d ≡ first_of (add c d).delta_sizes = (add-all_same c d e).1 in
    ap₂ (λ ys y. ys ++ y ∷ [])
      (same (add-all_same c d e).0 ∙ ap (replicate (suc (length xs))) (sym first)) at_last
    ∙ replicate-snoc (suc (length xs)) (first_of (add c d).delta_sizes)

add-kept :
    (ds : List ℕ) (c : LastChunk) (d : ℕ)
    → length c.delta_sizes ≡ max_vector_capacity
    → c.size ≡ length ds
    → (length ds ≤ max_vector_capacity → take (length ds) c.delta_sizes ≡ ds)
    → suc (length ds) ≤ max_vector_capacity
    → take (suc (length ds)) (add c d).delta_sizes ≡ ds ++ d ∷ []
unfolding add
add-kept ds c d places size kept le = ground (
  arith,
  size,
  ap (λ n. take (suc (length ds)) (set c.delta_sizes n d)) size,
  take-set (length ds) d c.delta_sizes (omega arith),
  ap (λ ys. ys ++ d ∷ []) (kept (omega arith)),
)

add-fits :
    (ds : List ℕ) (c : LastChunk) (d : ℕ)
    → c.size ≡ length ds
    → can_add c d ≡ true
    → (suc (length ds) ≤ max_two_bit_capacity)
      ⊎ ((suc (length ds) ≤ max_one_bit_capacity) × ((add c d).has_large_delta ≡ false))
      ⊎ ((suc (length ds) ≤ max_run_length_capacity) × ((add c d).all_same ≡ true))
unfolding add can_add
add-fits ds c d size can = elim (dec_lt c.size max_two_bit_capacity) [
  | yes few ↦ inl (omega (arith, size))
  | no more ↦
      let first = first-add c d (omega arith) in
      elim (Bool-cases
        (ltb c.size max_one_bit_capacity && not c.has_large_delta && not (d == large))) [
          | inl one_bit ↦ inr (inl (ground (arith, one_bit, size), ground (arith, one_bit)))
          | inr run ↦
              inr
                (inr (ground (arith, run, more, can, size), ground (arith, run, more, can, first)))
        ]
]

pub add-IsFilled :
    (ds : List ℕ) (c : LastChunk) (d : ℕ)
    → IsFilled ds c
    → IsDelta d
    → can_add c d ≡ true
    → IsFilled (ds ++ d ∷ []) (add c d)
unfolding IsFilled add can_add
add-IsFilled ds c d (places, size, deltas, same, kept, small, fits) ok can =
    let grown = length-append ds (d ∷ []) in
    let grown' : length (ds ++ d ∷ []) ≡ suc (length ds) = omega (arith, grown) in
    let stored = length-set c.delta_sizes c.size d in
    (
      ground (arith, places, stored),
      omega (arith, size, grown),
      All-snoc IsDelta ds d deltas ok,
      λ e.
          add-same ds c d places size same e
          ∙ ap (λ n. replicate n (first_of (add c d).delta_sizes)) (sym grown'),
      λ le.
          ap (λ n. take n (add c d).delta_sizes) grown'
          ∙ add-kept ds c d places size kept (omega arith),
      λ e. All-snoc (Fits 1) ds d (small (ground (arith, e))) (ground (arith, e, ok)),
      subst
          (λ n.
            (n ≤ max_two_bit_capacity)
            ⊎ ((n ≤ max_one_bit_capacity) × ((add c d).has_large_delta ≡ false))
            ⊎ ((n ≤ max_run_length_capacity) × ((add c d).all_same ≡ true)))
          (sym grown') (add-fits ds c d size can),
    )
