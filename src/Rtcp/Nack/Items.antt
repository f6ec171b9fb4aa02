-- ===== src/Rtcp/Nack/Items.antt =====
-- The items stand for the ids they were packed from.
use native.Mathlib.Nat.{pow-suc, pow-le-pow_right}
use mathlib.Core.List.{append_assoc}
use naivertc.Base.{
  ℕ, zero, suc, ◌+◌, ◌-◌, ◌%◌, ◌^◌, ◌≤◌, ◌<◌, ◌≡◌, refl, sym, ap, ap₂, subst, ◌∙◌, arith, bit_or,
  some, List, [], ◌∷◌, ◌++◌, length, map, dec_lt,
}
use naivertc.Base.Bits.{shl}
use naivertc.Rtcp.Nack.Bits.{set_bit, unpack_bits-zero, unpack_bits-top}
use naivertc.Rtcp.Nack.{FciItem, Nack, fill, group, set_packet_ids, unpack_bits, unpack_items}

-- Sequence numbers on the wire.
abbrev pub wrap : ℕ → ℕ
wrap n = n % 2 ^ 16

-- The counters climb strictly, from above `lo` to below `hi`.
abbrev pub Climbs : ℕ → ℕ → List ℕ → Type 0
Climbs lo hi [] = Unit {0}
Climbs lo hi (n ∷ ns) = (lo < n) × (n < hi) × Climbs n hi ns

wrapped_shift :
    (f n : ℕ)
    → f < n
    → n < f + 2 ^ 16
    → (n % 2 ^ 16 + 2 ^ 16 + 2 ^ 16 - f % 2 ^ 16 - 1) % 2 ^ 16 ≡ n - f - 1
wrapped_shift f n h k = omega arith

pub pow_mono : (a b : ℕ) → a ≤ b → 2 ^ a ≤ 2 ^ b
pow_mono a b h = pow-le-pow_right (omega arith) h

-- What `fill` leaves: the ids `ms`, still climbing; and the mask stands for the ids taken.
record IsFilled (f lo hi mask : ℕ) (ns : List ℕ) (result : ℕ × List ℕ) : Type 0 where
  ms : List ℕ
  last : ℕ
  rest : result.1 ≡ map wrap ms
  above : lo ≤ last
  climbs : Climbs last hi ms
  shorter : length ms ≤ length ns
  ids :
      unpack_bits 16 result.0 ((f + 1) % 2 ^ 16) ++ map wrap ms
      ≡ unpack_bits 16 mask ((f + 1) % 2 ^ 16) ++ map wrap ns

fill_takes :
    (first mask id shift : ℕ) (ids : List ℕ)
    → (id + 2 ^ 16 + 2 ^ 16 - first - 1) % 2 ^ 16 ≡ shift
    → shift < 16
    → fill first mask (id ∷ ids) ≡ fill first (bit_or mask (shl 1 shift)) ids
unfolding fill
fill_takes first mask id shift ids e h = rw e (ground arith)

fill_stops :
    (first mask id shift : ℕ) (ids : List ℕ)
    → (id + 2 ^ 16 + 2 ^ 16 - first - 1) % 2 ^ 16 ≡ shift
    → ¬ (shift < 16)
    → fill first mask (id ∷ ids) ≡ (mask, id ∷ ids)
unfolding fill
fill_stops first mask id shift ids e h = rw e (ground arith)

below_bit : (f lo mask n : ℕ) → f ≤ lo → lo < n → mask < 2 ^ (lo - f) → mask < 2 ^ (n - f - 1)
below_bit f lo mask n le lt small = omega (arith, pow_mono (lo - f) (n - f - 1) (omega arith))

higher :
    (f lo mask n : ℕ) → f ≤ lo → lo < n → mask < 2 ^ (lo - f) → mask + 2 ^ (n - f - 1) < 2 ^ (n - f)
higher f lo mask n le lt small =
    omega
      (arith, below_bit f lo mask n le lt small, pow-suc 2 (n - f - 1), ap (λ (t : ℕ). 2 ^ t) next)
  where
    next : suc (n - f - 1) ≡ n - f
    next = omega arith

taken :
    (f lo hi mask n : ℕ) (ns : List ℕ)
    → f ≤ lo
    → hi ≤ f + 2 ^ 16
    → mask < 2 ^ (lo - f)
    → Climbs lo hi (n ∷ ns)
    → n - f - 1 < 16
    → IsFilled f n hi
        (mask + 2 ^ (n - f - 1))
        ns
        (fill (f % 2 ^ 16) (mask + 2 ^ (n - f - 1)) (map wrap ns))
    → IsFilled f lo hi mask (n ∷ ns) (fill (f % 2 ^ 16) mask (map wrap (n ∷ ns)))
taken f lo hi mask n ns le room small climbs near inner =
    subst (IsFilled f lo hi mask (n ∷ ns)) (sym goes) (record {
      ms = inner.ms;
      last = inner.last;
      rest = inner.rest;
      above = omega (arith, inner.above, climbs.0);
      climbs = inner.climbs;
      shorter = omega (arith, inner.shorter);
      ids = inner.ids ∙ moved;
    })
  where
    small' : mask < 2 ^ (n - f - 1)
    small' = below_bit f lo mask n le climbs.0 small

    goes :
        fill (f % 2 ^ 16) mask (map wrap (n ∷ ns))
        ≡ fill (f % 2 ^ 16) (mask + 2 ^ (n - f - 1)) (map wrap ns)
    goes =
        fill_takes (f % 2 ^ 16) mask (wrap n) (n - f - 1) (map wrap ns)
          (wrapped_shift f n (omega (arith, climbs.0)) (omega (arith, climbs.1))) near
        ∙ ap (λ (t : ℕ). fill (f % 2 ^ 16) t (map wrap ns)) (set_bit mask (n - f - 1) small')

    back : f + 1 + (n - f - 1) ≡ n
    back = omega (arith, climbs.0)

    moved :
        unpack_bits 16 (mask + 2 ^ (n - f - 1)) ((f + 1) % 2 ^ 16) ++ map wrap ns
        ≡ unpack_bits 16 mask ((f + 1) % 2 ^ 16) ++ wrap n ∷ map wrap ns
    moved =
        rw
          (
            unpack_bits-top (n - f - 1) 16 mask (f + 1) small' near,
            back,
            append_assoc (unpack_bits 16 mask ((f + 1) % 2 ^ 16)) (wrap n ∷ []) (map wrap ns),
          )
          refl

fill-IsFilled :
    (f lo hi mask : ℕ) (ns : List ℕ)
    → f ≤ lo
    → hi ≤ f + 2 ^ 16
    → mask < 2 ^ (lo - f)
    → Climbs lo hi ns
    → IsFilled f lo hi mask ns (fill (f % 2 ^ 16) mask (map wrap ns))
unfolding fill
fill-IsFilled f lo hi mask [] le room small climbs = record {
  ms = [];
  last = lo;
  rest = refl;
  above = omega arith;
  climbs = tt;
  shorter = omega arith;
  ids = refl;
}
fill-IsFilled f lo hi mask (n ∷ ns) le room small climbs = elim (dec_lt (n - f - 1) 16) [
  | yes near ↦ taken f lo hi mask n ns le room small climbs near (
      fill-IsFilled f n hi (mask + 2 ^ (n - f - 1)) ns (omega arith) room
        (higher f lo mask n (omega arith) (omega arith) small) climbs.2)
  | no far ↦
      subst (IsFilled f lo hi mask (n ∷ ns))
        (sym (
          fill_stops (f % 2 ^ 16) mask (wrap n) (n - f - 1) (map wrap ns)
            (wrapped_shift f n (omega arith) (omega arith)) (omega arith)))
        (record {
          ms = n ∷ ns;
          last = lo;
          rest = refl;
          above = omega arith;
          climbs = climbs;
          shorter = omega arith;
          ids = refl;
        })
]

group-suc :
    (fuel id : ℕ) (ids : List ℕ) (items : List FciItem)
    → group fuel (fill id 0 ids).1 ≡ some items
    → group (suc fuel) (id ∷ ids)
      ≡ some (record { first_pid = id; bitmask = (fill id 0 ids).0 } ∷ items)
unfolding group
group-suc fuel id ids items e = rw e refl

-- The items that `PackFciItems` makes of climbing counters, and what they unpack to.
abbrev pub Grouped : ℕ → List ℕ → Type 0
Grouped fuel ids =
    (items : List FciItem) × (group fuel ids ≡ some items)
    × (unpack_items items ≡ ids)
    × (length items ≤ length ids)

abbrev pub GroupedRest : ℕ → ℕ → ℕ → Type 0
GroupedRest fuel hi lo =
    (ms : List ℕ)
    → length ms ≤ fuel
    → hi ≤ lo + 2 ^ 16
    → Climbs lo hi ms
    → Grouped fuel (map wrap ms)

pub length-map-wrap : (ms : List ℕ) → length (map wrap ms) ≡ length ms
length-map-wrap [] = refl
length-map-wrap (m ∷ ms) = ap suc (length-map-wrap ms)

first_ids :
    (n mask : ℕ) (items : List FciItem) (ms ns : List ℕ)
    → unpack_items items ≡ map wrap ms
    → unpack_bits 16 mask ((n + 1) % 2 ^ 16) ++ map wrap ms
      ≡ unpack_bits 16 0 ((n + 1) % 2 ^ 16) ++ map wrap ns
    → unpack_items (record { first_pid = wrap n; bitmask = mask } ∷ items) ≡ map wrap (n ∷ ns)
unfolding unpack_items
first_ids n mask items ms ns back ids = ap (◌∷◌ (wrap n)) (
    ap₂ (λ (t : ℕ) (r : List ℕ). unpack_bits 16 mask t ++ r) next back
    ∙ ids
    ∙ ap (λ (r : List ℕ). r ++ map wrap ns) (unpack_bits-zero 16 ((n + 1) % 2 ^ 16)))
  where
    next : (n % 2 ^ 16 + 1) % 2 ^ 16 ≡ (n + 1) % 2 ^ 16
    next = omega arith

pub group_first :
    (fuel n hi : ℕ) (ns : List ℕ)
    → length ns ≤ fuel
    → hi ≤ n + 2 ^ 16
    → Climbs n hi ns
    → ((last : ℕ) → n ≤ last → GroupedRest fuel hi last)
    → Grouped (suc fuel) (map wrap (n ∷ ns))
group_first fuel n hi ns enough room climbs later =
    let f =
      fill-IsFilled n n hi 0 ns (omega arith) room (pow_mono 0 (n - n) (omega arith)) climbs in
    let (items, eq, back, few) =
      later f.last f.above f.ms (omega (arith, f.shorter)) (omega (arith, f.above)) f.climbs in
    let filled = fill (wrap n) 0 (map wrap ns) in
    (
      record { first_pid = wrap n; bitmask = filled.0 } ∷ items,
      group-suc fuel (wrap n) (map wrap ns) items (ap (group fuel) f.rest ∙ eq),
      first_ids n filled.0 items f.ms ns back f.ids,
      omega (arith, few, f.shorter, length-map-wrap f.ms, length-map-wrap ns),
    )

pub group_rest : (fuel hi lo : ℕ) → GroupedRest fuel hi lo
unfolding group unpack_items
group_rest zero hi lo [] enough room climbs = ([], refl, refl, omega arith)
group_rest (suc fuel) hi lo [] enough room climbs = ([], refl, refl, omega arith)
group_rest zero hi lo (m ∷ ms) enough room climbs = absurd (omega arith)
group_rest (suc fuel) hi lo (m ∷ ms) enough room climbs =
    group_first fuel m hi ms (omega arith) (omega (arith, climbs.0)) climbs.2
      (λ last above. group_rest fuel hi last)

pub set_packet_ids-some :
    (old : Nack) (id : ℕ) (ids : List ℕ) (items : List FciItem)
    → group (length (id ∷ ids)) (id ∷ ids) ≡ some items
    → set_packet_ids old (id ∷ ids) ≡ some (record old { fci_items = items; packet_ids = id ∷ ids })
unfolding set_packet_ids
set_packet_ids-some old id ids items e = rw e (ground arith)

-- One or more sequence numbers, of counters that climb strictly within 2 ^ 16, set in a NACK make
-- items that unpack to the same numbers in the same order, and no more items than numbers.
pub unpack-set_packet_ids :
    (old : Nack) (n : ℕ) (ns : List ℕ)
    → Climbs n (n + 2 ^ 16) ns
    → (items : List FciItem) × (set_packet_ids old (map wrap (n ∷ ns))
        ≡ some (record old { fci_items = items; packet_ids = map wrap (n ∷ ns) }))
      × (unpack_items items ≡ map wrap (n ∷ ns))
      × (length items ≤ suc (length ns))
unpack-set_packet_ids old n ns climbs =
    let (items, eq, back, few) =
      group_first (length (map wrap ns)) n (n + 2 ^ 16) ns (omega (arith, length-map-wrap ns))
        (omega arith) climbs (λ last above. group_rest (length (map wrap ns)) (n + 2 ^ 16) last) in
    (
      items,
      set_packet_ids-some old (wrap n) (map wrap ns) items eq,
      back,
      omega (arith, few, length-map-wrap ns),
    )
