-- ===== src/Receiver/PacketBuffer/Thinner.antt =====
-- Slots with less packets than others: packets are taken out, or changed but for their number.
use naivertc.Base.{
  ℕ, zero, suc, ◌%◌, ◌≡◌, ◌<◌, ◌∙◌, ap, refl, subst, arith, inl, inr, none, some, Option-cases,
  length, set, length-set,
}
use naivertc.Receiver.PacketBuffer.Packets.{Packet, Frame, Slots, slot, next_num}
use naivertc.Receiver.PacketBuffer.Assembly.{take_packets, take_packet}
use naivertc.Receiver.PacketBuffer.Held.{slot-in, slot-set_cases}

-- The packets of the slots are in the same places of the others.
unfoldable pub IsThinner : Slots → Slots → Type 0
IsThinner slots slots' =
    (length slots ≡ length slots')
    × ((i : ℕ) (p : Packet)
        → slot slots i ≡ some p
        → (q : Packet) × (slot slots' i ≡ some q) × (p.seq_num ≡ q.seq_num))

pub IsThinner-refl : (slots : Slots) → IsThinner slots slots
unfolding IsThinner
IsThinner-refl slots = (refl, λ i p held. (p, held, refl))

pub IsThinner-trans : (xs ys zs : Slots) → IsThinner xs ys → IsThinner ys zs → IsThinner xs zs
unfolding IsThinner
IsThinner-trans xs ys zs (size, sub) (size', sub') = (
  size ∙ size',
  λ i p held.
      let (q, q_in, e) = sub i p held in let (r, r_in, e') = sub' i q q_in in (r, r_in, e ∙ e'),
)

-- A slot is cleared.
pub IsThinner-clear :
    (slots : Slots) (i : ℕ) → i < length slots → IsThinner (set slots i none) slots
unfolding IsThinner
IsThinner-clear slots i lt = (
  length-set slots i none,
  λ k p held. elim (slot-set_cases slots i k none p lt held) [
    | inl (same, e) ↦ absurd (ground (arith, e))
    | inr (differ, held') ↦ (p, held', refl)
  ],
)

-- A packet is changed, but for its number.
pub IsThinner-change :
    (slots : Slots) (i : ℕ) (p p' : Packet)
    → slot slots i ≡ some p
    → p'.seq_num ≡ p.seq_num
    → IsThinner (set slots i (some p')) slots
unfolding IsThinner
IsThinner-change slots i p p' held num = (
  length-set slots i (some p'),
  λ k q h. elim (slot-set_cases slots i k (some p') q (slot-in slots i p held) h) [
    | inl (same, e) ↦ (p, ap (slot slots) same ∙ held, ground (arith, e, num))
    | inr (differ, held') ↦ (q, held', refl)
  ],
)

pub take_packets-IsThinner :
    (start s count i : ℕ) (slots : Slots) (f : Frame) (out : Slots × Frame)
    → take_packets start s count i slots f ≡ some out
    → IsThinner out.0 slots
unfolding take_packets
take_packets-IsThinner start s zero i slots f out e =
    let same : slots ≡ out.0 = ground (arith, e) in
    subst (λ x. IsThinner x slots) same (IsThinner-refl slots)
take_packets-IsThinner start s (suc count) i slots f out e =
    let place = i % length slots in
    let cleared = set slots place none in
    elim (Option-cases (slot slots place)) [
      | inl empty ↦ absurd (ground (arith, empty, e))
      | inr (p, held) ↦
          let rest : take_packets start s count (next_num i) cleared (take_packet start s i p f)
              ≡ some out =
            ground (arith, held, e) in
          IsThinner-trans out.0 cleared slots
            (take_packets-IsThinner start s count (next_num i) cleared (take_packet start s i p f)
              out rest)
            (IsThinner-clear slots place (slot-in slots place p held))
    ]
