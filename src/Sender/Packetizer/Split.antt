-- ===== src/Sender/Packetizer/Split.antt =====
-- SplitAboutEqually: the sizes make up the payload, and every packet is in its limit.
use naivertc.Base.{
  ℕ, zero, suc, ◌+◌, ◌-◌, ◌*◌, ◌/◌, ◌%◌, ◌^◌, ◌≤◌, ◌<◌, ◌≡◌, refl, ap, sym, ◌∙◌, subst, arith, ltb,
  ◌⊎◌, inl, inr, if◌then◌else◌, dec_lt, true, Option, some, List, [], ◌∷◌,
}
use native.Mathlib.Nat.{div-add-mod, mod-lt}
use naivertc.Base.Int.{pos}
use naivertc.Sender.Packetizer.{
  PayloadSizeLimits, to_size, current_size, split_loop, num_of_packets, split_several,
  split_about_equally,
}
use naivertc.Sender.Packetizer.Weights.{
  size, size_pos, size-bounded, size-beyond, weight, weight-closed, weight-two, num_of_packets_lem,
  enough_for_two,
}
use naivertc.Sender.Packetizer.Loop.{
  sum, AreSizes, Splits, split_step, last_Splits, one_left, AreSizes-cons,
}

-- The first size leaves room for the reduction of the first packet.
unfoldable pub FirstFits : ℕ → ℕ → List ℕ → Type 0
FirstFits m first [] = Unit
FirstFits m first (x ∷ xs) = x + first ≤ m

module _ (first last m b r : ℕ) (few_first : first < m) (few_last : last < m) (positive : 0 < b)
    (bounded : (n : ℕ) → size b r (suc n) ≤ m) where
  -- Two packets: the first one leaves some bytes, that fit into the last one.
  first_of_two :
      (remaining : ℕ)
      → 2 ≤ remaining
      → remaining + first + last ≡ weight b r 2
      → let current = current_size first (size b r 2) 2 remaining true in
        (0 < current)
        × (current < remaining)
        × (current + first ≤ m)
        × (remaining - current ≤ size b r 1)
        × (remaining - current + last ≤ m)
  unfolding current_size weight
  first_of_two remaining two plan =
      let top = bounded 1 in
      let one = size_pos b r 1 positive in
      let top' = bounded 0 in
      elim (dec_lt (first + 1) (size b r 2)) [
        | yes wide ↦ ground (arith, wide)
        | no narrow ↦ ground (arith, narrow)
      ]

  two_packets :
      (fuel remaining : ℕ)
      → 2 ≤ remaining
      → remaining + first + last ≡ weight b r 2
      → (s : Splits m last remaining 2
          (split_loop (suc (suc (suc fuel))) first r (size b r 3) 2 remaining true))
        × FirstFits m first s.sizes
  unfolding FirstFits AreSizes sum
  two_packets fuel remaining two plan =
      let current = current_size first (size b r 2) 2 remaining true in
      let (some_bytes, less, fits, below, room) = first_of_two remaining two plan in
      let rest = remaining - current in
      (
        record {
          sizes = current ∷ rest ∷ [];
          done =
              split_step first b r m last (suc (suc fuel)) 1 remaining current true (rest ∷ [])
                (omega arith) (omega arith) refl
                (one_left first b r m last fuel rest (omega arith) below);
          fit = (some_bytes, omega arith, (omega arith, room));
          total = omega arith;
          count = refl;
        },
        fits,
      )

  -- The first of three packets or more, before it is held against what remains.
  reduced_lem :
      b ≤ m
      → let current = if ltb (first + 1) b then b - first else 1 in
        (0 < current) × (current + first ≤ m) × (current + first ≡ b + (first + 1 - b))
  reduced_lem top = elim (dec_lt (first + 1) b) [
    | yes wide ↦ ground (arith, wide)
    | no narrow ↦ ground (arith, narrow)
  ]

  not_held :
      (bytes left remaining : ℕ)
      → 3 ≤ left
      → let current = if ltb (first + 1) bytes then bytes - first else 1 in
        current < remaining → current_size first bytes left remaining true ≡ current
  unfolding current_size
  not_held bytes left remaining three less = ground (arith, less, three)

  -- Three packets or more.
  more_packets :
      (k fuel remaining : ℕ)
      → suc (suc (suc k)) < 2 ^ 64
      → k + 3 ≤ fuel
      → r < suc (suc (suc k))
      → remaining + first + last ≡ weight b r (suc (suc (suc k)))
      → last + (first + 1 - b) + 2 ≤ weight b r 2
      → (s : Splits m last remaining (suc (suc (suc k))) (
          split_loop
            (suc fuel)
            first
            r
            (size b r (suc (suc (suc (suc k)))))
            (suc (suc (suc k)))
            remaining
            true))
        × FirstFits m first s.sizes
  unfolding FirstFits sum weight size
  more_packets k fuel remaining small enough few plan two =
      let current = if ltb (first + 1) b then b - first else 1 in
      let spare = last + (first + 1 - b) in
      let n = suc (suc (suc k)) in
      let planned : size b r n ≡ b = ground (arith, few) in
      let top : b ≤ m = omega (arith, bounded (suc (suc k)), planned) in
      let ahead = weight-two b r k in
      let (some_bytes, fits, cut) = reduced_lem top in
      let less : current < remaining = omega arith in
      let plan' : (remaining - current) + spare ≡ weight b r (suc (suc k)) = omega arith in
      let later =
        last_Splits first b r m last k fuel (remaining - current) spare (omega arith) enough plan'
          two (omega arith) few_last positive bounded in
      let now : current_size first (size b r n) n remaining true ≡ current =
        ap (λ x. current_size first x n remaining true) planned
        ∙ not_held b n remaining (omega arith) less in
      (
        record {
          sizes = current ∷ later.sizes;
          done =
              split_step first b r m last fuel (suc (suc k)) remaining current true later.sizes
                small (omega arith) now later.done;
          fit =
              AreSizes-cons first b r m last current later.sizes some_bytes (omega arith)
                (omega (arith, later.count)) later.fit;
          total = omega (arith, later.total);
          count = omega (arith, later.count);
        },
        fits,
      )

-- A payload in more than one packet: the sizes make it up, and no packet is above its limit.
unfoldable pub IsSplit : ℕ → ℕ → ℕ → ℕ → ℕ → Option (List ℕ) → Type 0
IsSplit payload m first last n result =
    (s : Splits m last payload n result) × FirstFits m first s.sizes

some_bytes_each :
    (n payload rest b r : ℕ) → n ≤ payload → n * b + r ≡ payload + rest → r < n → 0 < b
some_bytes_each n payload rest b r enough plan few = elim (dec_lt 0 b) [
  | yes positive ↦ positive
  | no zero_bytes ↦ let e : b ≡ 0 = omega arith in absurd (omega (arith, ap (λ x. n * x) e))
]

-- The loop starts with the plan for one packet more, and with fuel for every byte.
restated :
    (n payload m first last b r : ℕ)
    → r < n
    → IsSplit payload m first last n
        (split_loop (suc (suc (suc payload))) first r (size b r (suc n)) n payload true)
    → IsSplit payload m first last n (split_loop (payload + 3) first r b n payload true)
restated n payload m first last b r few split =
    let bytes : size b r (suc n) ≡ b = size-beyond b r n few in
    let fuel : suc (suc (suc payload)) ≡ payload + 3 = omega arith in
    subst (λ f. IsSplit payload m first last n (split_loop f first r b n payload true)) fuel
      (subst
        (λ x.
          IsSplit payload m first last n
            (split_loop (suc (suc (suc payload))) first r x n payload true))
        bytes split)

split_loop-IsSplit :
    (n payload m first last b r : ℕ)
    → 2 ≤ n
    → n < 2 ^ 64
    → n ≤ payload
    → first < m
    → last < m
    → n * b + r ≡ payload + first + last
    → r < n
    → payload + first + last ≤ n * m
    → (n ≡ 2) ⊎ (n * m < payload + first + last + m)
    → IsSplit payload m first last n (split_loop (payload + 3) first r b n payload true)
unfolding IsSplit
split_loop-IsSplit zero payload m first last b r two small enough hf hl plan few wide needed =
    absurd (omega arith)
split_loop-IsSplit (suc zero) payload m first last b r two small enough hf hl plan few wide needed =
    absurd (omega arith)
split_loop-IsSplit (suc (suc zero)) payload m first last b r two small enough hf hl plan few wide
      needed =
    let positive = some_bytes_each 2 payload (first + last) b r enough (omega arith) few in
    restated 2 payload m first last b r few (
      two_packets first last m b r hf hl positive (size-bounded 2 b r m (omega arith) (omega arith))
        payload payload enough (omega (arith, weight-closed b r 2)))
split_loop-IsSplit (suc (suc (suc k))) payload m first last b r two small enough hf hl plan few wide
      needed =
    let n = suc (suc (suc k)) in
    let positive = some_bytes_each n payload (first + last) b r enough (omega arith) few in
    let needed' : n * m < n * b + r + m = elim needed [
      | inl e ↦ absurd (omega arith)
      | inr lt ↦ omega arith
    ] in
    restated n payload m first last b r few (
      more_packets first last m b r hf hl positive
        (size-bounded n b r m (omega arith) (omega arith)) k (suc (suc payload)) payload small
        (omega arith) few (omega (arith, weight-closed b r n))
        (enough_for_two k b r m first last needed' few positive hf hl))

split_several-IsSplit :
    (payload m first last : ℕ)
    → 0 < payload
    → payload + first + last + m ≤ 2 ^ 64
    → first < m
    → last < m
    → num_of_packets (payload + first + last) m ≤ payload
    → IsSplit payload m first last
        (num_of_packets (payload + first + last) m)
        (split_several payload m first last)
unfolding split_several
split_several-IsSplit payload m first last some_bytes small hf hl enough =
    let total = payload + first + last in
    let n = num_of_packets total m in
    let (two, wide, needed) = num_of_packets_lem total m (omega arith) (omega arith) small in
    let whole : (payload + first + last) % 2 ^ 64 ≡ total = omega (arith, hf) in
    let split =
      split_loop-IsSplit n payload m first last (total / n) (total % n) two (omega arith) enough hf
        hl (div-add-mod total n) (mod-lt total (omega arith)) wide needed in
    let same : split_several payload m first last
        ≡ split_loop (payload + 3) first (total % n) (total / n) n payload true =
      rw whole (ground (arith, enough, two, hf)) in
    subst (IsSplit payload m first last n) (sym same) split

too_many :
    (payload m first last : ℕ)
    → 0 < m
    → payload + first + last < 2 ^ 64
    → payload < num_of_packets (payload + first + last) m
    → split_several payload m first last ≡ some []
unfolding split_several
too_many payload m first last some_room small few = rw whole (ground (arith, few, some_room))
  where
    whole : (payload + first + last) % 2 ^ 64 ≡ payload + first + last
    whole = omega arith

abbrev pub limits_of : ℕ → ℕ → ℕ → ℕ → PayloadSizeLimits
limits_of m first last single = record {
  max_payload_size = m;
  first_packet_reduction_size = pos first;
  last_packet_reduction_size = pos last;
  single_packet_reduction_size = pos single;
}

-- For a payload of at least one byte, reductions that are not negative, those of the first and the
-- last packet less than the maximum, and sizes whose sums stay within 64 bits (the payload with
-- the reduction of a single packet below 2 ^ 64; the payload, the reductions of the first and the
-- last packet and the maximum at most 2 ^ 64 together), SplitAboutEqually ends: with the payload
-- alone where that fits into a single packet; else with no sizes where the payload has less bytes
-- than the packets needed; else with as many sizes as packets needed, each above 0 and at most the
-- maximum, the first and the last leaving room for their reductions, that add up to the payload.
pub split_about_equally-IsSplit :
    (payload m first last single : ℕ)
    → 0 < payload
    → single + payload < 2 ^ 64
    → payload + first + last + m ≤ 2 ^ 64
    → first < m
    → last < m
    → let n = num_of_packets (payload + first + last) m in
      let result = split_about_equally payload (limits_of m first last single) in
      (single + payload ≤ m) × (result ≡ some (payload ∷ []))
      ⊎ (m < single + payload) × (payload < n) × (result ≡ some [])
      ⊎ (m < single + payload) × (n ≤ payload) × IsSplit payload m first last n result
unfolding split_about_equally to_size
split_about_equally-IsSplit payload m first last single some_bytes small small_sum hf hl =
    let n = num_of_packets (payload + first + last) m in
    let result = split_about_equally payload (limits_of m first last single) in
    elim (dec_lt m (single + payload)) [
      | no fits ↦ inl (omega arith, ground (arith, fits))
      | yes large ↦
          let split : result ≡ split_several payload m first last = ground (arith, large) in
          elim (dec_lt payload n) [
            | yes few ↦ inr (
                inl (
                  large,
                  few,
                  split ∙ too_many payload m first last (omega arith) (omega arith) few,
                ))
            | no enough ↦ inr (
                inr (
                  large,
                  omega arith,
                  subst (IsSplit payload m first last n) (sym split) (
                      split_several-IsSplit payload m first last some_bytes small_sum hf hl
                        (omega arith)),
                ))
          ]
    ]
