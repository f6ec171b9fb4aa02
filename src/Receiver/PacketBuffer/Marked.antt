-- ===== src/Receiver/PacketBuffer/Marked.antt =====
-- A packet is marked as continuous, or put as a new one: the slots still hang together.
use naivertc.Base.{
  ℕ, ◌%◌, ◌^◌, ◌<◌, ◌≡◌, ◌≢◌, refl, sym, ap, ◌∙◌, arith, true, false, ◌⊎◌, inl, inr, some, length,
  set, length-set, ℕ_discrete,
}
use naivertc.Receiver.PacketBuffer.Packets.{
  Packet, Slots, slot, next_num, prev_num, prev_index, is_first, is_last, is_h264,
}
use naivertc.Receiver.PacketBuffer.Held.{slot-in, slot-set_self, slot-set_ne, slot-set_cases}
use naivertc.Receiver.PacketBuffer.Linked.{IsPlaced, IsLinked, IsOpen, HasNoH264}

-- Packets that differ in their marks only.
abbrev pub IsSame : Packet → Packet → Type 0
IsSame p q =
    (p.seq_num ≡ q.seq_num)
    × (p.video_payload ≡ q.video_payload)
    × (p.video_header ≡ q.video_header)

-- What is in the slots is in the others, but for marks.
unfoldable pub IsWithin : Slots → Slots → Type 0
IsWithin slots slots' =
    (length slots ≡ length slots')
    × ((i : ℕ) (p : Packet)
        → slot slots i ≡ some p
        → (q : Packet) × (slot slots' i ≡ some q) × IsSame p q)

pub IsWithin-refl : (slots : Slots) → IsWithin slots slots
unfolding IsWithin
IsWithin-refl slots = (refl, λ i p held. (p, held, (refl, refl, refl)))

pub IsWithin-trans : (xs ys zs : Slots) → IsWithin xs ys → IsWithin ys zs → IsWithin xs zs
unfolding IsWithin
IsWithin-trans xs ys zs (size, sub) (size', sub') = (
  size ∙ size',
  λ i p held.
      let (q, q_in, (a, b, c)) = sub i p held in
      let (r, r_in, (a', b', c')) = sub' i q q_in in (r, r_in, (a ∙ a', b ∙ b', c ∙ c')),
)

-- The previous packet is there, where the packet is not the first.
abbrev pub HasPrevious : Slots → Packet → ℕ → Type 0
HasPrevious slots p i =
    is_first p ≡ false
    → (q : Packet) × (slot slots (prev_index slots i) ≡ some q)
      × (q.seq_num ≡ prev_num p.seq_num)
      × (q.continuous ≡ true)

module _ (slots : Slots) (i : ℕ) (p : Packet) (held : slot slots i ≡ some p)
    (placed : IsPlaced slots) where
  abbrev marked_packet : Packet
  marked_packet = record p { continuous = true }

  abbrev marked : Slots
  marked = set slots i (some marked_packet)

  same_size : length marked ≡ length slots
  same_size = length-set slots i (some marked_packet)

  in_marked :
      (k : ℕ) (q : Packet)
      → slot marked k ≡ some q
      → ((k ≡ i) × (some marked_packet ≡ some q)) ⊎ ((k ≢ i) × (slot slots k ≡ some q))
  in_marked k q h = slot-set_cases slots i k (some marked_packet) q (slot-in slots i p held) h

  pub marked-IsPlaced : IsPlaced marked
  unfolding IsPlaced
  marked-IsPlaced k q h = elim (in_marked k q h) [
    | inl (same, e) ↦ ground (arith, same_size, same, e, placed i p held)
    | inr (differ, q_in) ↦ ground (arith, same_size, placed k q q_in)
  ]

  pub marked-HasNoH264 : HasNoH264 slots → HasNoH264 marked
  unfolding HasNoH264 is_h264
  marked-HasNoH264 plain k q h = elim (in_marked k q h) [
    | inl (same, e) ↦ ground (arith, e, plain i p held)
    | inr (differ, q_in) ↦ plain k q q_in
  ]

  pub marked-IsOpen : is_last p ≡ false → IsOpen slots → IsOpen marked
  unfolding IsOpen
  marked-IsOpen not_last opened k q h cont = elim (in_marked k q h) [
    | inl (same, e) ↦ ground (arith, e, not_last)
    | inr (differ, q_in) ↦ opened k q q_in cont
  ]

  pub marked-opened :
      (s : ℕ)
      → p.seq_num ≡ s
      → IsOpen slots
      → (k : ℕ) (q : Packet) → slot marked k ≡ some q
      → q.continuous ≡ true
      → (is_last q ≡ false) ⊎ (q.seq_num ≡ s)
  unfolding IsOpen
  marked-opened s num opened k q h cont = elim (in_marked k q h) [
    | inl (same, e) ↦ inr (ground (arith, e, num))
    | inr (differ, q_in) ↦ inl (opened k q q_in cont)
  ]

  pub marked-IsWithin : IsWithin marked slots
  unfolding IsWithin
  marked-IsWithin = (
    same_size,
    λ k q h. elim (in_marked k q h) [
      | inl (same, e) ↦ (
        p,
        ap (slot slots) same ∙ held,
        (ground (arith, e), ground (arith, e), ground (arith, e)),
      )
      | inr (differ, q_in) ↦ (q, q_in, (refl, refl, refl))
    ],
  )

  -- What is continuous in a slot is so after the mark.
  still :
      (k x : ℕ) (q : Packet)
      → slot slots (prev_index slots k) ≡ some q
      → q.seq_num ≡ x
      → q.continuous ≡ true
      → (r : Packet) × (slot marked (prev_index marked k) ≡ some r)
        × (r.seq_num ≡ x)
        × (r.continuous ≡ true)
  still k x q q_in e cont =
      let j = prev_index slots k in
      let moved : prev_index marked k ≡ j = ground (arith, same_size) in
      elim (ℕ_discrete i j) [
        | yes same ↦
            let both : some p ≡ some q = sym held ∙ ap (slot slots) same ∙ q_in in
            (
              marked_packet,
              ap (slot marked) (moved ∙ sym same)
                  ∙ slot-set_self slots i (some marked_packet) (slot-in slots i p held),
              ground (arith, both, e),
              refl,
            )
        | no differ ↦ (
          q,
          ap (slot marked) moved ∙ slot-set_ne slots i j (some marked_packet) differ ∙ q_in,
          e,
          cont,
        )
      ]

  pub marked-IsLinked : IsLinked slots → HasPrevious slots p i → IsLinked marked
  unfolding IsLinked
  marked-IsLinked linked before k q h cont not_first = elim (in_marked k q h) [
    | inl (same, e) ↦
        let not_first' : is_first p ≡ false = ground (arith, e, not_first) in
        let (r, r_in, num, r_cont) = before not_first' in
        let (r', r'_in, num', r'_cont) = still i (prev_num p.seq_num) r r_in num r_cont in
        (
          r',
          ap (λ j. slot marked (prev_index marked j)) same ∙ r'_in,
          ground (arith, num', e),
          r'_cont,
        )
    | inr (differ, q_in) ↦
        let (r, r_in, num, r_cont) = linked k q q_in cont not_first in
        still k (prev_num q.seq_num) r r_in num r_cont
  ]

  -- After the end of a frame, which was not marked before, no packet is linked.
  pub marked-closed :
      (s : ℕ)
      → s < 2 ^ 16
      → i ≡ s % length slots
      → p.seq_num ≡ s
      → is_last p ≡ true
      → IsLinked slots
      → IsOpen slots
      → (k : ℕ) (q : Packet) → slot marked k ≡ some q
      → q.continuous ≡ true
      → is_first q ≡ false
      → q.seq_num ≢ next_num s
  unfolding IsLinked IsOpen IsPlaced
  marked-closed s hs here num is_end linked opened k q h cont not_first next =
      elim (in_marked k q h) [
        | inl (same, e) ↦
            let num' : q.seq_num ≡ s = ground (arith, e, num) in omega (arith, num', next)
        | inr (differ, q_in) ↦
            let (r, r_in, r_num, r_cont) = linked k q q_in cont not_first in
            let before : r.seq_num ≡ s = omega (arith, r_num, next) in
            let at : prev_index slots k ≡ i =
              sym (placed (prev_index slots k) r r_in).0
              ∙ ap (λ x. x % length slots) before
              ∙ sym here in
            let both : some p ≡ some r = sym held ∙ ap (slot slots) (sym at) ∙ r_in in
            let not_end = opened (prev_index slots k) r r_in r_cont in
            absurd (ground (arith, both, not_end, is_end))
      ]
