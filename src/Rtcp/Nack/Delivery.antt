-- ===== src/Rtcp/Nack/Delivery.antt =====
-- From the ids that a receiver misses to the ids that the sender reads: the items made of ids in range are
-- in range, so what is fragmented and sent is all of it.
use native.Mathlib.Nat.{pow-suc}
use naivertc.Base.{
  ℕ, zero, suc, ◌+◌, ◌-◌, ◌/◌, ◌%◌, ◌^◌, ◌≤◌, ◌<◌, ◌≡◌, refl, sym, ap, subst, ◌∙◌, arith, bit_or,
  leb, ◌==◌, if◌then◌else◌, Bool, true, false, Option, none, some, leb→le, leb→le, List, [], ◌∷◌,
  length, map,
}
use naivertc.Base.Bits.{shl, bit_or-digits}
use naivertc.Bytes.{ok}
use naivertc.Rtcp.Packet.{packed, build}
use naivertc.Rtcp.Feedback.{IsFeedback}
use naivertc.Rtcp.Items.{All}
use naivertc.Rtcp.Nack.{FciItem, Nack, fill, group, set_packet_ids, unpack_items, pack_into}
use naivertc.Rtcp.Nack.Items.{wrap, Climbs, pow_mono, unpack-set_packet_ids}
use naivertc.Rtcp.Nack.Fragments.{IsItem, carried}
use naivertc.Rtcp.Nack.Fragments.Loop.{build-carried}

bit_or_below : (k a b : ℕ) → a < 2 ^ k → b < 2 ^ k → bit_or a b < 2 ^ k
bit_or_below zero zero zero ha hb = omega arith
bit_or_below zero zero (suc b) ha hb = absurd (omega arith)
bit_or_below zero (suc a) b ha hb = absurd (omega arith)
bit_or_below (suc k) a b ha hb = omega (
  arith,
  pow-suc 2 k,
  bit_or-digits a b,
  bit_or_below k (a / 2) (b / 2) (omega (arith, pow-suc 2 k)) (omega (arith, pow-suc 2 k)),
)

abbrev IsId : ℕ → Type 0
IsId id = id < 2 ^ 16

abbrev FillInRange : ℕ × List ℕ → Type 0
FillInRange filled = (filled.0 < 2 ^ 16) × All IsId filled.1

-- The choice of `fill`, with what it computes when it goes on.
fill_choice :
    (mask shift : ℕ) (ids : List ℕ) (more : ℕ × List ℕ) (b : Bool)
    → leb shift 15 ≡ b
    → mask < 2 ^ 16
    → All IsId ids
    → (bit_or mask (shl 1 shift) < 2 ^ 16 → FillInRange more)
    → FillInRange (if b then more else (mask, ids))
fill_choice mask shift ids more true e small range go = go (
    bit_or_below 16 mask (shl 1 shift) small
      (omega (arith, leb→le shift 15 e, pow_mono shift 15 (leb→le shift 15 e))))
fill_choice mask shift ids more false e small range go = (small, range)

fill_in_range :
    (first mask : ℕ) (ids : List ℕ)
    → mask < 2 ^ 16
    → All IsId ids
    → FillInRange (fill first mask ids)
unfolding fill
fill_in_range first mask [] small range = (small, tt)
fill_in_range first mask (id ∷ ids) small range =
    fill_choice mask shift (id ∷ ids) (fill first (bit_or mask (shl 1 shift)) ids) (leb shift 15)
      refl small range (λ below. fill_in_range first (bit_or mask (shl 1 shift)) ids below range.1)
  where
    shift : ℕ
    shift = (id + 2 ^ 16 + 2 ^ 16 - first - 1) % 2 ^ 16

abbrev AllGrouped : Option (List FciItem) → Type 0
AllGrouped none = Unit {0}
AllGrouped (some items) = All IsItem items

group_step :
    (item : FciItem) (rest : Option (List FciItem))
    → IsItem item
    → AllGrouped rest
    → AllGrouped (elim rest [ none ↦ none | some items ↦ some (item ∷ items) ])
group_step item none h range = tt
group_step item (some items) h range = (h, range)

group_in_range : (fuel : ℕ) (ids : List ℕ) → All IsId ids → AllGrouped (group fuel ids)
unfolding group
group_in_range zero [] range = tt
group_in_range zero (id ∷ ids) range = tt
group_in_range (suc fuel) [] range = tt
group_in_range (suc fuel) (id ∷ ids) range =
    group_step (record { first_pid = id; bitmask = (fill id 0 ids).0 })
      (group fuel (fill id 0 ids).1) (range.0, filled.0)
      (group_in_range fuel (fill id 0 ids).1 filled.1)
  where
    filled : ((fill id 0 ids).0 < 2 ^ 16) × All IsId (fill id 0 ids).1
    filled = fill_in_range id 0 ids (omega arith) range.1

wrapped_range : (ns : List ℕ) → All IsId (map wrap ns)
wrapped_range [] = tt
wrapped_range (n ∷ ns) = (omega arith, wrapped_range ns)

items_of : Option Nack → List FciItem
items_of none = []
items_of (some n) = n.fci_items

made_in_range :
    (base made : Nack) (o : Option (List FciItem))
    → AllGrouped o
    → elim o [ none ↦ none | some items ↦ some (record base { fci_items = items }) ] ≡ some made
    → All IsItem made.fci_items
unfolding items_of
made_in_range base made none range e = absurd cc
made_in_range base made (some items) range e = subst (All IsItem) (ap items_of e) range

set_in_range :
    (old made : Nack) (id : ℕ) (ids : List ℕ)
    → All IsId (id ∷ ids)
    → set_packet_ids old (id ∷ ids) ≡ some made
    → All IsItem made.fci_items
unfolding set_packet_ids
set_in_range old made id ids range e =
    made_in_range (record old { packet_ids = id ∷ ids }) made (group (length (id ∷ ids)) (id ∷ ids))
      (group_in_range (length (id ∷ ids)) (id ∷ ids) range) (sym by_items ∙ e)
  where
    some_id : (length (id ∷ ids) == 0) ≡ false
    some_id = ground arith

    by_items : set_packet_ids old (id ∷ ids) ≡ elim (group (length (id ∷ ids)) (id ∷ ids)) [
      | none ↦ none
      | some items ↦ some (record old { fci_items = items; packet_ids = id ∷ ids })
    ]
    by_items = rw some_id refl

some_items :
    (items : List FciItem) (id : ℕ) (ids : List ℕ)
    → unpack_items items ≡ id ∷ ids
    → 0 < length items
unfolding unpack_items
some_items [] id ids e = absurd cc
some_items (item ∷ items) id ids e = omega arith

-- For one or more sequence numbers, of counters that climb strictly within 2 ^ 16, set in a NACK
-- with SSRCs in range and built with a callback for packets of 16 to 1500 bytes: the loops end, no
-- assertion fails, no packet is longer than the maximum, and a receiver that parses the packets in
-- turn reads the same numbers in the same order.
pub set_packet_ids-build-carried :
    (from old : Nack) (n : ℕ) (ns : List ℕ) (max_size : ℕ)
    → Climbs n (n + 2 ^ 16) ns
    → IsFeedback from.feedback
    → 16 ≤ max_size
    → max_size ≤ 1500
    → (made : Nack) × (sent : List (List ℕ)) × (set_packet_ids from (map wrap (n ∷ ns)) ≡ some made)
      × (build (pack_into made) true max_size ≡ packed (record { sent = sent; bytes = [] }))
      × All (λ (p : List ℕ). length p ≤ max_size) sent
      × (carried old sent ≡ ok (map wrap (n ∷ ns)))
set_packet_ids-build-carried from old n ns max_size climbs feedback least most =
    let (items, made, ids, few) = unpack-set_packet_ids from n ns climbs in
    let n' = record from { fci_items = items; packet_ids = map wrap (n ∷ ns) } in
    let (sent, built, short, carries) =
      build-carried n' old max_size least most feedback
        (some_items items (wrap n) (map wrap ns) ids)
        (set_in_range from n' (wrap n) (map wrap ns) (wrapped_range (n ∷ ns)) made) in
    (n', sent, made, built, short, carries ∙ ap ok ids)
