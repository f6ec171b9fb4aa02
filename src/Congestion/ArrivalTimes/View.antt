-- ===== src/Congestion/ArrivalTimes/View.antt =====
-- The packet with an id, in a queue that starts at an id, under each change of the queue.
use naivertc.Base.{
  ℕ, ◌+◌, ◌-◌, ◌<◌, ◌≡◌, refl, ap, ◌∙◌, sym, arith, if◌then◌else◌, true, false, Option, none, some,
  List, [], ◌∷◌, ◌++◌, length, get_elem?, set, drop, replicate, dec_lt, ◌⊎◌, length-replicate,
}
use naivertc.Base.Int.{
  ℤ, pos, negsuc, ◌+ℤ◌, ◌-ℤ◌, ltb_ℤ, eqb_ℤ, pos_part, neg_part, +ℤ_parts, -ℤ_parts, eq_of_parts,
}
use naivertc.Congestion.ArrivalTimes.{
  PacketArrivalTimeMap, skip_placeholders, is_placeholder, is_received, at_offset, at, has_received,
  packet_id_placeholder,
}
use naivertc.Congestion.ArrivalTimes.Entry.{
  entry, packet_of, entry-beyond, entry-append, entry-placeholders, entry-drop, entry-set,
  entry-push, entry-skipped,
}

entry_at : List ℤ → ℤ → Option ℤ
entry_at times (pos n) = entry times n
entry_at times (negsuc k) = none

-- The packet with the id `j` where the queue starts at `b`.
pub packet : List ℤ → ℤ → ℤ → Option ℤ
packet times b j = entry_at times (j -ℤ b)

-- An id is at a place of the queue or before the queue.
data Place (b j : ℤ) : Type 0 where
  within : (n : ℕ) → pos_part j + neg_part b ≡ pos_part b + neg_part j + n → Place b j
  before : pos_part j + neg_part b < pos_part b + neg_part j → Place b j

locate : (b j : ℤ) → Place b j
locate b j = go (j -ℤ b) refl
  where
    go : (z : ℤ) → j -ℤ b ≡ z → Place b j
    go (pos n) e = within n (omega (arith, -ℤ_parts j b, ap pos_part e, ap neg_part e))
    go (negsuc k) e = before (omega (arith, -ℤ_parts j b, ap pos_part e, ap neg_part e))

packet-within :
    (times : List ℤ) (b j : ℤ) (n : ℕ)
    → pos_part j + neg_part b ≡ pos_part b + neg_part j + n
    → packet times b j ≡ entry times n
unfolding packet entry_at
packet-within times b j n e =
    ap (entry_at times) (eq_of_parts (j -ℤ b) (pos n) (omega (arith, -ℤ_parts j b)))

packet-before :
    (times : List ℤ) (b j : ℤ)
    → pos_part j + neg_part b < pos_part b + neg_part j
    → packet times b j ≡ none
unfolding packet entry_at
packet-before times b j lt = go (j -ℤ b) refl
  where
    go : (z : ℤ) → j -ℤ b ≡ z → entry_at times z ≡ none
    go (pos n) e = absurd (omega (arith, -ℤ_parts j b, ap pos_part e, ap neg_part e))
    go (negsuc k) e = refl

-- No packet before the queue or behind it.
pub packet-outside :
    (times : List ℤ) (b j : ℤ)
    → (ltb_ℤ j b ≡ true) ⊎ (ltb_ℤ j (b +ℤ pos (length times)) ≡ false)
    → packet times b j ≡ none
packet-outside times b j out = elim (locate b j) [
  | within n eq ↦
      packet-within times b j n eq
      ∙ entry-beyond times n (ground (arith, out, +ℤ_parts b (pos (length times))))
  | before lt ↦ packet-before times b j lt
]

pub packet-nil : (b j : ℤ) → packet [] b j ≡ none
packet-nil b j = elim (locate b j) [
  | within n eq ↦ packet-within [] b j n eq ∙ entry-beyond [] n (omega arith)
  | before lt ↦ packet-before [] b j lt
]

pub packet-set :
    (times : List ℤ) (b j : ℤ) (i : ℕ) (t : ℤ)
    → is_placeholder t ≡ false
    → i < length times
    → packet (set times i t) b j ≡ (if eqb_ℤ j (b +ℤ pos i) then some t else packet times b j)
packet-set times b j i t h le = elim (locate b j) [
  | within n eq ↦
      packet-within (set times i t) b j n eq
      ∙ ground
          (arith, entry-set times i t n h le, packet-within times b j n eq, eq, +ℤ_parts b (pos i))
  | before lt ↦
      packet-before (set times i t) b j lt
      ∙ ground (arith, packet-before times b j lt, lt, +ℤ_parts b (pos i))
]

-- Places without a packet in front.
pub packet-prepend :
    (times : List ℤ) (b b' j : ℤ) (k : ℕ)
    → b ≡ b' +ℤ pos k
    → packet (replicate k packet_id_placeholder ++ times) b' j ≡ packet times b j
packet-prepend times b b' j k shift =
    let grown = replicate k packet_id_placeholder ++ times in
    let sum = +ℤ_parts b' (pos k) in
    let shifted = ap pos_part shift in
    let shifted' = ap neg_part shift in
    elim (locate b' j) [
      | within n eq ↦ elim (dec_lt n k) [
        | yes lt ↦
            packet-within grown b' j n eq
            ∙ ground (
              arith,
              entry-append (replicate k packet_id_placeholder) times n,
              length-replicate k packet_id_placeholder,
              entry-placeholders k n,
            )
            ∙ sym (packet-before times b j (omega (arith, sum, shifted, shifted')))
        | no ge ↦
            packet-within grown b' j n eq
            ∙ ground (
              arith,
              entry-append (replicate k packet_id_placeholder) times n,
              length-replicate k packet_id_placeholder,
            )
            ∙ sym (packet-within times b j (n - k) (omega (arith, sum, shifted, shifted')))
      ]
      | before lt ↦
          packet-before grown b' j lt
          ∙ sym (packet-before times b j (omega (arith, sum, shifted, shifted')))
    ]

pub packet-drop :
    (times : List ℤ) (b j : ℤ) (r : ℕ)
    → packet (drop r times) (b +ℤ pos r) j
      ≡ (if ltb_ℤ j (b +ℤ pos r) then none else packet times b j)
packet-drop times b j r = elim (locate (b +ℤ pos r) j) [
  | within n eq ↦
      packet-within (drop r times) (b +ℤ pos r) j n eq
      ∙ entry-drop r times n
      ∙ ground (arith, packet-within times b j (r + n) (omega (arith, +ℤ_parts b (pos r))), eq)
  | before lt ↦ packet-before (drop r times) (b +ℤ pos r) j lt ∙ ground (arith, lt)
]

-- A gap and a packet behind.
pub packet-push :
    (times : List ℤ) (b j : ℤ) (gap : ℕ) (t : ℤ)
    → is_placeholder t ≡ false
    → packet (times ++ (replicate gap packet_id_placeholder ++ t ∷ [])) b j
      ≡ (if eqb_ℤ j (b +ℤ pos (length times + gap)) then some t else packet times b j)
packet-push times b j gap t h =
    let grown = times ++ (replicate gap packet_id_placeholder ++ t ∷ []) in
    let sum = +ℤ_parts b (pos (length times + gap)) in
    elim (locate b j) [
      | within n eq ↦
          packet-within grown b j n eq
          ∙ entry-push times gap t n h
          ∙ ground (arith, sum, packet-within times b j n eq)
      | before lt ↦ packet-before grown b j lt ∙ ground (arith, lt, packet-before times b j lt, sum)
    ]

-- What HasReceived and `at` answer.
pub arrival-packet :
    (m : PacketArrivalTimeMap) (j : ℤ)
    → (if has_received m j then at m j else none) ≡ packet m.arrival_times m.begin_packet_id j
unfolding has_received at at_offset is_received packet entry_at entry
arrival-packet m j = go (j -ℤ m.begin_packet_id) m.arrival_times
  where
    time_of : (o : Option ℤ) → (if is_received o then o else none) ≡ packet_of o
    time_of none = refl
    time_of (some t) = ground arith

    go :
        (z : ℤ) (times : List ℤ)
        → (if is_received (at_offset times z) then at_offset times z else none) ≡ entry_at times z
    go (pos n) times = time_of (get_elem? times n)
    go (negsuc k) times = refl

pub packet-skipped :
    (times : List ℤ) (b j : ℤ) (r : ℕ)
    → ltb_ℤ j (b +ℤ pos r) ≡ false
    → ltb_ℤ j (b +ℤ pos (skip_placeholders r (drop r times))) ≡ true
    → packet times b j ≡ none
packet-skipped times b j r le lt =
    let sum = +ℤ_parts b (pos r) in
    let sum' = +ℤ_parts b (pos (skip_placeholders r (drop r times))) in
    elim (locate b j) [
      | within n eq ↦
          packet-within times b j n eq
          ∙ sym (ap (entry times) (ground (arith, le, sum)))
          ∙ sym (entry-drop r times (n - r))
          ∙ entry-skipped r (drop r times) (n - r) (ground (arith, lt, le, sum, sum'))
      | before out ↦ packet-before times b j out
    ]
