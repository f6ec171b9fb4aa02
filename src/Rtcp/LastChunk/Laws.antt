-- ===== src/Rtcp/LastChunk/Laws.antt =====
-- A chunk's encoding is decoded to the sizes that were added.
use naivertc.Base.{
  ℕ, zero, suc, ◌+◌, ◌*◌, ◌%◌, ◌^◌, ◌≤◌, ◌<◌, ◌≡◌, refl, ap, ap₂, subst, sym, ◌∙◌, arith, min,
  bit_and, bit_or, Bool-cases, false, inl, inr, List, [], ◌∷◌, length, length-take, ℕ_discrete,
  take, drop, replicate, dec_lt,
}
use naivertc.Base.Bits.{shl, shr, bit_or-shl, bit_and-mask, bit_and-bit}
use naivertc.Rtcp.Items.{All}
use naivertc.Rtcp.LastChunk.{
  LastChunk, first_of, overwrite, max_one_bit_capacity, max_two_bit_capacity,
  max_run_length_capacity, max_vector_capacity, encode_loop, decode_loop, encode_one_bit,
  encode_two_bit, encode_run_length, encode_last, emit, can_add, append_to, decode_one_bit,
  decode_two_bit, decode_run_length, decode,
}
use naivertc.Rtcp.LastChunk.Codec.{Fits, decode-encode}
use naivertc.Rtcp.LastChunk.Filled.{IsDelta, IsFilled, Added, emitted}
use naivertc.Rtcp.LastChunk.Emitting.{take-prefix, added-IsFilled}

-- A vector that was read is what the array starts with.
vector-read :
    (w mask chunk capacity : ℕ) (ds old : List ℕ)
    → length ds ≤ capacity
    → decode_loop w mask chunk capacity (length ds) ≡ ds
    → take
        (min capacity (length ds))
        (overwrite (decode_loop w mask chunk capacity (min capacity (length ds))) old)
      ≡ ds
vector-read w mask chunk capacity ds old le back =
    ap (λ m. take m (overwrite (decode_loop w mask chunk capacity m) old)) all_of_it
    ∙ ap (λ written. take (length ds) (overwrite written old)) back
    ∙ take-prefix ds (drop (length ds) old)
  where
    all_of_it : min capacity (length ds) ≡ length ds
    all_of_it = omega arith

one_bit-read :
    (ds : List ℕ) (c : LastChunk)
    → All (Fits 1) ds
    → length ds ≤ max_one_bit_capacity
    → append_to (decode c (encode_loop 1 max_one_bit_capacity 0x8000 ds) (length ds)) [] ≡ ds
unfolding decode append_to decode_one_bit
one_bit-read ds c fits le =
    let chunk = encode_loop 1 max_one_bit_capacity 0x8000 ds in
    let (above, back) = decode-encode 1 max_one_bit_capacity 2 ds fits le in
    ground (
      arith,
      above,
      bit_and-bit 15 chunk,
      bit_and-bit 14 chunk,
      vector-read 1 0x01 chunk max_one_bit_capacity ds c.delta_sizes le back,
    )

two_bit-read :
    (ds : List ℕ) (c : LastChunk)
    → All (Fits 2) ds
    → length ds ≤ max_two_bit_capacity
    → append_to (decode c (encode_loop 2 max_two_bit_capacity 0xc000 ds) (length ds)) [] ≡ ds
unfolding decode append_to decode_two_bit
two_bit-read ds c fits le =
    let chunk = encode_loop 2 max_two_bit_capacity 0xc000 ds in
    let (above, back) = decode-encode 2 max_two_bit_capacity 3 ds fits le in
    ground (
      arith,
      above,
      bit_and-bit 15 chunk,
      bit_and-bit 14 chunk,
      vector-read 2 0x03 chunk max_two_bit_capacity ds c.delta_sizes le back,
    )

first-replicate : (n d : ℕ) (old : List ℕ) → 0 < n → first_of (overwrite (replicate n d) old) ≡ d
first-replicate zero d old pos = absurd (omega arith)
first-replicate (suc n) d old pos = refl

run_length-read :
    (n d : ℕ) (c : LastChunk)
    → 0 < n
    → n ≤ max_run_length_capacity
    → IsDelta d
    → append_to (decode c (bit_or (shl d 13) (n % 2 ^ 16)) n) [] ≡ replicate n d
unfolding decode append_to decode_run_length
run_length-read n d c pos le ok =
    let chunk = bit_or (shl d 13) (n % 2 ^ 16) in
    let value : chunk ≡ d * 2 ^ 13 + n = bit_or-shl 13 d (n % 2 ^ 16) (omega arith) ∙ omega arith in
    let size = min (bit_and chunk 0x1fff) n in
    let d' = bit_and (shr chunk 13) 0x03 in
    let same_size : size ≡ n = omega (arith, value, bit_and-mask 13 chunk) in
    let same_delta : d' ≡ d = omega (arith, value, bit_and-mask 2 (shr chunk 13)) in
    ground (
      arith,
      value,
      bit_and-bit 15 chunk,
      ap₂ replicate same_size (
          first-replicate (min size max_vector_capacity) d' c.delta_sizes (omega arith)
          ∙ same_delta),
    )

All-wider : (ds : List ℕ) → All IsDelta ds → All (Fits 2) ds
All-wider [] all = tt
All-wider (d ∷ ds) (p, all) = (omega arith, All-wider ds all)

All-replicate : (n d : ℕ) → 0 < n → All IsDelta (replicate n d) → IsDelta d
All-replicate zero d pos all = absurd (omega arith)
All-replicate (suc n) d pos (p, all) = p

-- What is read back is what was encoded, whatever the encoding.
read-by :
    (ds : List ℕ) (other : LastChunk) {chunk chunk' : ℕ}
    → chunk ≡ chunk'
    → append_to (decode other chunk' (length ds)) [] ≡ ds
    → append_to (decode other chunk (length ds)) [] ≡ ds
read-by ds other e read = ap (λ t. append_to (decode other t (length ds)) []) e ∙ read

encode_last-read :
    (ds : List ℕ) (c other : LastChunk)
    → IsFilled ds c
    → 0 < length ds
    → append_to (decode other (encode_last c) (length ds)) [] ≡ ds
unfolding IsFilled encode_last encode_run_length encode_two_bit encode_one_bit
encode_last-read ds c other (places, size, deltas, same, kept, small, fits) pos =
    let first = first_of c.delta_sizes in
    let held = ap (λ n. take n c.delta_sizes) size in
    elim (Bool-cases c.all_same) [
      | inl run ↦
          let ok = All-replicate (length ds) first pos (subst (All IsDelta) (same run) deltas) in
          let few : length ds ≤ max_run_length_capacity = ground (arith, fits) in
          read-by ds other {chunk' = bit_or (shl first 13) (length ds % 2 ^ 16)}
            (ground (arith, run, ap (λ n. bit_or (shl first 13) (n % 2 ^ 16)) size))
            (run_length-read (length ds) first other pos few ok ∙ sym (same run))
      | inr mixed ↦
          let few : length ds ≤ max_one_bit_capacity = ground (arith, fits, mixed) in
          elim (dec_lt max_two_bit_capacity (length ds)) [
            | yes many ↦
                let no_large : c.has_large_delta ≡ false = ground (arith, fits, mixed, many) in
                read-by ds other {chunk' = encode_loop 1 max_one_bit_capacity 0x8000 ds}
                  (ground (
                    arith,
                    mixed,
                    many,
                    size,
                    ap (encode_loop 1 max_one_bit_capacity 0x8000) (held ∙ kept few),
                  ))
                  (one_bit-read ds other (small no_large) few)
            | no little ↦
                read-by ds other {chunk' = encode_loop 2 max_two_bit_capacity 0xc000 ds}
                  (ground (
                    arith,
                    mixed,
                    little,
                    size,
                    ap (encode_loop 2 max_two_bit_capacity 0xc000) (held ∙ kept few),
                  ))
                  (two_bit-read ds other (All-wider ds deltas) (omega arith))
          ]
    ]

append_to-read : (ds : List ℕ) (c : LastChunk) → IsFilled ds c → append_to c [] ≡ ds
unfolding IsFilled append_to
append_to-read ds c (places, size, deltas, same, kept, small, fits) = elim (Bool-cases c.all_same) [
  | inl run ↦ ground (arith, run, ap (λ n. replicate n (first_of c.delta_sizes)) size, same run)
  | inr mixed ↦
      let few : length ds ≤ max_one_bit_capacity = ground (arith, fits, mixed) in
      ground (arith, mixed, ap (λ n. take n c.delta_sizes) size, kept few)
]

-- A chunk of transport feedback holds exactly the sizes that were added, each 0, 1 or 2 and one
-- that CanAdd allowed, and not yet emitted; and where there are any, its encoding as the last
-- chunk, decoded in any object up to their number, gives them back.
pub last_chunk-decode-encode :
    (ds : List ℕ) (c other : LastChunk)
    → Added ds c
    → 0 < length ds
    → (append_to c [] ≡ ds) × (append_to (decode other (encode_last c) (length ds)) [] ≡ ds)
last_chunk-decode-encode ds c other added pos =
    let filled = added-IsFilled ds c added in
    (append_to-read ds c filled, encode_last-read ds c other filled pos)

take-all : (xs : List ℕ) → take (length xs) xs ≡ xs
take-all [] = refl
take-all (x ∷ xs) = ap (λ t. x ∷ t) (take-all xs)

take-take : (k n : ℕ) (xs : List ℕ) → k ≤ n → take k (take n xs) ≡ take k xs
take-take zero n xs le = refl
take-take (suc k) zero xs le = absurd (omega arith)
take-take (suc k) (suc n) [] le = refl
take-take (suc k) (suc n) (x ∷ xs) le = ap (λ t. x ∷ t) (take-take k n xs (omega arith))

All-take : (k : ℕ) (ds : List ℕ) → All IsDelta ds → All IsDelta (take k ds)
All-take zero ds all = tt
All-take (suc k) [] all = tt
All-take (suc k) (d ∷ ds) (p, all) = (p, All-take k ds all)

-- The whole content is read back, as from the last chunk.
whole-read :
    (ds : List ℕ) (c other : LastChunk)
    → IsFilled ds c
    → 0 < length ds
    → (emit c).0 ≡ encode_last c
    → emitted c ≡ length ds
    → append_to (decode other (emit c).0 (emitted c)) [] ≡ take (emitted c) ds
whole-read ds c other filled pos e count =
    ap₂ (λ chunk n. append_to (decode other chunk n) []) e count
    ∙ encode_last-read ds c other filled pos
    ∙ sym (ap (λ n. take n ds) count ∙ take-all ds)

part-read :
    (ds : List ℕ) (c other : LastChunk)
    → IsFilled ds c
    → max_two_bit_capacity ≤ length ds
    → length ds ≤ max_one_bit_capacity
    → append_to (decode other (encode_two_bit c max_two_bit_capacity) max_two_bit_capacity) []
      ≡ take max_two_bit_capacity ds
unfolding IsFilled encode_two_bit
part-read ds c other (places, size, deltas, same, kept, small, fits) ge le =
    let k = max_two_bit_capacity in
    let front = take k ds in
    let count : length front ≡ k = omega (arith, length-take k ds) in
    let held : take k c.delta_sizes ≡ front =
      sym (take-take k (length ds) c.delta_sizes ge) ∙ ap (take k) (kept le) in
    ap₂ (λ chunk n. append_to (decode other chunk n) [])
      (ap (encode_loop 2 max_two_bit_capacity 0xc000) held) (sym count)
    ∙ two_bit-read front other (All-wider front (All-take k ds deltas)) (omega (arith, count))

-- When a chunk of transport feedback cannot take some size, the chunk emitted, decoded in any
-- object up to the number of sizes that it takes, gives the first of the sizes that were added,
-- each 0, 1 or 2 and one that CanAdd allowed, and not yet emitted.
pub last_chunk-decode-emit :
    (ds : List ℕ) (c other : LastChunk) (d : ℕ)
    → Added ds c
    → can_add c d ≡ false
    → append_to (decode other (emit c).0 (emitted c)) [] ≡ take (emitted c) ds
unfolding IsFilled emit emitted can_add encode_last
last_chunk-decode-emit ds c other d added full =
    let filled : IsFilled ds c = added-IsFilled ds c added in
    let (places, size, deltas, same, kept, small, fits) = added-IsFilled ds c added in
    let ge : max_two_bit_capacity ≤ length ds = ground (arith, full, size) in
    elim (Bool-cases c.all_same) [
      | inl run ↦
          whole-read ds c other filled (omega arith) (ground (arith, run))
            (ground (arith, run, size))
      | inr mixed ↦ elim (ℕ_discrete c.size max_one_bit_capacity) [
        | yes whole ↦
            whole-read ds c other filled (omega arith) (ground (arith, mixed, whole))
              (ground (arith, mixed, whole, size))
        | no part ↦
            ground
              (arith, mixed, part, part-read ds c other filled ge (ground (arith, fits, mixed)))
      ]
    ]
