-- ===== src/Receiver/PacketBuffer/Emptied.antt =====
-- A whole frame is taken out of the slots: what is left hangs together.
use naivertc.Base.{
  ℕ, suc, ◌+◌, ◌-◌, ◌%◌, ◌^◌, ◌<◌, ◌≡◌, ◌≢◌, refl, sym, ap, ◌∙◌, arith, true, false, ◌⊎◌, inl, inr,
  none, some, List, length, dec_lt,
}
use naivertc.Receiver.PacketBuffer.Packets.{
  Packet, Frame, Slots, slot, next_num, prev_index, is_first, is_last,
}
use naivertc.Receiver.PacketBuffer.Linked.{IsPlaced, IsLinked, IsOpen, HasNoH264}
use naivertc.Receiver.PacketBuffer.Taken.{Taken, none-some_clash}
use naivertc.Receiver.PacketBuffer.Marked.{IsWithin}

module _ (slots : Slots) (start s count : ℕ) (bytes : List ℕ) (f : Frame) (out : Slots × Frame)
    (taken : Taken slots start s count start bytes f out) where
  pub emptied-IsPlaced : IsPlaced slots → IsPlaced out.0
  unfolding IsPlaced
  emptied-IsPlaced placed i p held = ground (arith, taken.size, placed i p (taken.kept i p held))

  pub emptied-HasNoH264 : HasNoH264 slots → HasNoH264 out.0
  unfolding HasNoH264
  emptied-HasNoH264 plain i p held = plain i p (taken.kept i p held)

  pub emptied-IsWithin : IsWithin out.0 slots
  unfolding IsWithin
  emptied-IsWithin = (taken.size, λ i p held. (p, taken.kept i p held, (refl, refl, refl)))

  -- A number of the frame is no longer in the slots.
  absent :
      (i j : ℕ) (p : Packet)
      → IsPlaced slots
      → slot slots i ≡ some p
      → j < count
      → p.seq_num ≡ (start + j) % 2 ^ 16
      → slot out.0 i ≡ none
  unfolding IsPlaced
  absent i j p placed held lt e =
      ap (slot out.0) (sym (placed i p held).0 ∙ ap (λ x. x % length slots) e) ∙ taken.gone j lt

  pub emptied-IsLinked :
      IsPlaced slots
      → IsLinked slots
      → (start + count) % 2 ^ 16 ≡ next_num s
      → ((i : ℕ) (p : Packet)
          → slot slots i ≡ some p
          → p.continuous ≡ true
          → is_first p ≡ false
          → p.seq_num ≢ next_num s)
      → IsLinked out.0
  unfolding IsLinked IsPlaced
  emptied-IsLinked placed linked up_to closed i p held cont not_first =
      let p_in = taken.kept i p held in
      let below = (placed i p p_in).1 in
      let (q, q_in, num, q_cont) = linked i p p_in cont not_first in
      let moved : prev_index out.0 i ≡ prev_index slots i = ground (arith, taken.size) in
      elim (taken.left (prev_index slots i) q q_in) [
        | inl stays ↦ (q, ap (slot out.0) moved ∙ stays, num, q_cont)
        | inr (j, lt, e) ↦ elim (dec_lt (suc j) count) [
          | yes within ↦
              none-some_clash (absent i (suc j) p placed p_in within (omega (arith, num, e, below)))
                held
          | no beyond ↦
              let at_end : suc j ≡ count = omega arith in
              let next : p.seq_num ≡ (start + suc j) % 2 ^ 16 = omega (arith, num, e, below) in
              absurd (
                closed i p p_in cont not_first
                  (next ∙ ap (λ c. (start + c) % 2 ^ 16) at_end ∙ up_to))
        ]
      ]

  pub emptied-IsOpen :
      IsPlaced slots
      → 0 < count
      → s < 2 ^ 16
      → (start + count) % 2 ^ 16 ≡ next_num s
      → ((i : ℕ) (p : Packet)
          → slot slots i ≡ some p
          → p.continuous ≡ true
          → (is_last p ≡ false) ⊎ (p.seq_num ≡ s))
      → IsOpen out.0
  unfolding IsOpen
  emptied-IsOpen placed some_packet hs up_to opened i p held cont =
      let p_in = taken.kept i p held in
      elim (opened i p p_in cont) [
        | inl not_end ↦ not_end
        | inr e ↦
            none-some_clash (absent i (count - 1) p placed p_in (omega arith) (omega (arith, e)))
              held
      ]
