-- ===== src/Receiver/PacketBuffer/Insertion.antt =====
-- InsertPacket, InsertPadding and Clear keep the slots in order, and what they give.
use naivertc.Base.{
  ℕ, zero, suc, ◌%◌, ◌^◌, ◌<◌, ◌≡◌, ◌≢◌, refl, sym, ap, ◌∙◌, subst, arith, false, ◌⊎◌, inl, inr,
  none, some, length, set, length-set, replicate, length-replicate,
}
use native.Mathlib.Nat.{mod-lt}
use naivertc.Receiver.PacketBuffer.Packets.{Packet, Slots, slot, prev_index, is_h264}
use naivertc.Receiver.PacketBuffer.Held.{IsSize, slot-set_ne, slot-set_cases}
use naivertc.Receiver.PacketBuffer.Linked.{IsPlaced, IsLinked, IsOpen, HasNoH264}
use naivertc.Receiver.PacketBuffer.Taken.{none-some_clash}
use naivertc.Receiver.PacketBuffer.Whole.{IsSound}

-- Empty slots are in order.
pub empty-slot : (n i : ℕ) → slot (replicate n none) i ≡ none
unfolding slot
empty-slot zero i = refl
empty-slot (suc n) zero = refl
empty-slot (suc n) (suc i) = empty-slot n i

pub empty-IsSound : (n : ℕ) → IsSize n → IsSound (replicate n none)
unfolding IsPlaced IsLinked IsOpen HasNoH264
empty-IsSound n sized = record {
  sized = subst IsSize (sym (length-replicate n none)) sized;
  placed = λ i p held. none-some_clash (empty-slot n i) held;
  linked = λ i p held cont not_first. none-some_clash (empty-slot n i) held;
  opened = λ i p held cont. none-some_clash (empty-slot n i) held;
  plain = λ i p held. none-some_clash (empty-slot n i) held;
}

module _ (slots : Slots) (p : Packet) (sound : IsSound slots) (hs : p.seq_num < 2 ^ 16)
    (free : slot slots (p.seq_num % length slots) ≡ none) where
  abbrev put_p : Packet
  put_p = record p { continuous = false }

  abbrev place : ℕ
  place = p.seq_num % length slots

  -- The slots with the new packet.
  abbrev pub with_packet : Slots
  with_packet = set slots place (some put_p)

  in_put :
      (k : ℕ) (q : Packet)
      → slot with_packet k ≡ some q
      → ((k ≡ place) × (some put_p ≡ some q)) ⊎ ((k ≢ place) × (slot slots k ≡ some q))
  unfolding IsSize
  in_put k q h = slot-set_cases slots place k (some put_p) q (mod-lt p.seq_num sound.sized.0) h

  put_size : length with_packet ≡ length slots
  put_size = length-set slots place (some put_p)

  put-IsLinked : IsLinked with_packet
  unfolding IsLinked
  put-IsLinked k q h cont not_first = elim (in_put k q h) [
    | inl (same, e) ↦ absurd (ground (arith, e, cont))
    | inr (differ, q_in) ↦
        let (r, r_in, num, r_cont) = sound.linked k q q_in cont not_first in
        let j = prev_index slots k in
        let moved : prev_index with_packet k ≡ j = ground (arith, put_size) in
        let apart : place ≢ j = λ e. none-some_clash free (ap (slot slots) e ∙ r_in) in
        (
          r,
          ap (slot with_packet) moved ∙ slot-set_ne slots place j (some put_p) apart ∙ r_in,
          num,
          r_cont,
        )
  ]

  pub put-IsSound : is_h264 p ≡ false → IsSound with_packet
  unfolding IsPlaced IsOpen HasNoH264 is_h264
  put-IsSound plain = record {
    sized = subst IsSize (sym put_size) sound.sized;
    placed = λ k q h. elim (in_put k q h) [
      | inl (same, e) ↦ ground (arith, put_size, same, e, hs)
      | inr (differ, q_in) ↦ ground (arith, put_size, sound.placed k q q_in)
    ];
    linked = put-IsLinked;
    opened = λ k q h cont. elim (in_put k q h) [
      | inl (same, e) ↦ absurd (ground (arith, e, cont))
      | inr (differ, q_in) ↦ sound.opened k q q_in cont
    ];
    plain = λ k q h. elim (in_put k q h) [
      | inl (same, e) ↦ ground (arith, e, plain)
      | inr (differ, q_in) ↦ sound.plain k q q_in
    ];
  }
