-- ===== src/Receiver/PacketBuffer/Filled.antt =====
-- Every packet is in the slot of its number, and the buffer is at most as large as it can be: what all operations keep.
use naivertc.Base.{
  ℕ, zero, suc, ◌%◌, ◌^◌, ◌≤◌, ◌<◌, ◌≡◌, refl, sym, ◌∙◌, subst, arith, if-rule, true, not, ◌&&◌,
  inl, inr, min, Option, none, some, [], ◌∷◌, length, set, length-set, replicate, length-replicate,
}
use native.Mathlib.Nat.{mod-lt}
use naivertc.Modulo.{forward_diff}
use naivertc.Receiver.NackModule.Ordered.{erase_before_upper_bound}
use naivertc.Receiver.PacketBuffer.Missing.{HasNewest}
use naivertc.WrapAround.{ahead_of}
use naivertc.Receiver.PacketBuffer.Packets.{Packet, Slots, slot, next_num}
use naivertc.Receiver.PacketBuffer.State.{
  PacketBuffer, clear, clear_to, clear_slots, clear_stored, itself, new_packet_buffer,
}
use naivertc.Receiver.PacketBuffer.Expansion.{place_all}
use naivertc.Receiver.PacketBuffer.Held.{slot-in, slot-set_cases}
use naivertc.Receiver.PacketBuffer.Linked.{IsPlaced}
use naivertc.Receiver.PacketBuffer.Taken.{none-some_clash}
use naivertc.Receiver.PacketBuffer.Thinner.{
  IsThinner, IsThinner-refl, IsThinner-trans, IsThinner-clear,
}
use naivertc.Receiver.PacketBuffer.Insertion.{empty-slot}

pub thinner-IsPlaced :
    (slots slots' : Slots) → IsThinner slots slots' → IsPlaced slots' → IsPlaced slots
unfolding IsThinner IsPlaced
thinner-IsPlaced slots slots' (size, sub) placed i p held =
    let (q, q_in, e) = sub i p held in ground (arith, size, e, placed i q q_in)

-- A packet is put into its slot.
pub put-IsPlaced :
    (slots : Slots) (p : Packet)
    → 0 < length slots
    → p.seq_num < 2 ^ 16
    → IsPlaced slots
    → IsPlaced (set slots (p.seq_num % length slots) (some p))
unfolding IsPlaced
put-IsPlaced slots p positive small placed k q h =
    let i = p.seq_num % length slots in
    let size = length-set slots i (some p) in
    elim (slot-set_cases slots i k (some p) q (mod-lt p.seq_num positive) h) [
      | inl (same, e) ↦ ground (arith, size, same, e, small)
      | inr (differ, held) ↦ ground (arith, size, placed k q held)
    ]

clear_stored-IsThinner :
    (slots : Slots) (i s : ℕ) (o : Option Packet)
    → slot slots i ≡ o
    → IsThinner (clear_stored slots i s o) slots
unfolding clear_stored
clear_stored-IsThinner slots i s none held = IsThinner-refl slots
clear_stored-IsThinner slots i s (some stored) held =
    if-rule (λ x. IsThinner x slots) (ahead_of 16 s stored.seq_num)
      (λ older. IsThinner-clear slots i (slot-in slots i stored held))
      (λ newer. IsThinner-refl slots)

clear_slots-IsThinner :
    (iterations first s : ℕ) (slots : Slots)
    → IsThinner (clear_slots iterations first s slots) slots
unfolding clear_slots
clear_slots-IsThinner zero first s slots = IsThinner-refl slots
clear_slots-IsThinner (suc iterations) first s slots =
    let i = first % length slots in
    let cleared = clear_stored slots i s (slot slots i) in
    IsThinner-trans (clear_slots iterations (next_num first) s cleared) cleared slots
      (clear_slots-IsThinner iterations (next_num first) s cleared)
      (clear_stored-IsThinner slots i s (slot slots i) refl)

pub empty-IsPlaced : (n : ℕ) → IsPlaced (replicate n none)
unfolding IsPlaced
empty-IsPlaced n i p held = none-some_clash (empty-slot n i) held

pub place_all-IsPlaced :
    (packets slots : Slots)
    → 0 < length slots
    → ((i : ℕ) (p : Packet) → slot packets i ≡ some p → p.seq_num < 2 ^ 16)
    → IsPlaced slots
    → IsPlaced (place_all packets slots) × (length (place_all packets slots) ≡ length slots)
unfolding place_all slot
place_all-IsPlaced [] slots positive small placed = (placed, refl)
place_all-IsPlaced (none ∷ packets) slots positive small placed =
    place_all-IsPlaced packets slots positive (λ i p held. small (suc i) p held) placed
place_all-IsPlaced (some p ∷ packets) slots positive small placed =
    let i = p.seq_num % length slots in
    let size = length-set slots i (some p) in
    let (placed', size') =
      place_all-IsPlaced packets (set slots i (some p)) (omega arith)
        (λ i p held. small (suc i) p held)
        (put-IsPlaced slots p positive (small 0 p refl) placed) in
    (placed', size' ∙ size)

pub record IsFilled (b : PacketBuffer) : Type 0 where
  pub some_slot : 0 < length b.packet_buffer
  pub bounded : length b.packet_buffer ≤ b.max_packet_buffer_size
  pub limit : b.max_packet_buffer_size < 2 ^ 63
  pub placed : IsPlaced b.packet_buffer
  pub newest : HasNewest b.newest_inserted_seq_num

pub created-IsFilled :
    (n max_size : ℕ)
    → 0 < n
    → n ≤ max_size
    → max_size < 2 ^ 63
    → IsFilled (new_packet_buffer n max_size)
unfolding HasNewest
created-IsFilled n max_size positive le limit =
    let empty : Option Packet = none in
    let size = length-replicate n empty in
    record {
      some_slot = omega arith;
      bounded = omega arith;
      limit = limit;
      placed = empty-IsPlaced n;
      newest = λ k e. absurd (ground (arith, e));
    }

pub clear-IsFilled : (b : PacketBuffer) → IsFilled b → IsFilled (clear b)
unfolding clear HasNewest
clear-IsFilled b filled =
    let n = length b.packet_buffer in
    let empty : Option Packet = none in
    let size = length-replicate n empty in
    record {
      some_slot = omega (arith, filled.some_slot);
      bounded = omega (arith, filled.bounded);
      limit = filled.limit;
      placed = empty-IsPlaced n;
      newest = λ k e. absurd (ground (arith, e));
    }

-- The slots get thinner, and the newest number stays.
pub thinner-IsFilled :
    (b b' : PacketBuffer)
    → IsThinner b'.packet_buffer b.packet_buffer
    → b'.max_packet_buffer_size ≡ b.max_packet_buffer_size
    → b'.newest_inserted_seq_num ≡ b.newest_inserted_seq_num
    → IsFilled b
    → IsFilled b'
unfolding IsThinner
thinner-IsFilled b b' thin same_max same_newest filled = record {
  some_slot = omega (arith, thin.0, filled.some_slot);
  bounded = omega (arith, thin.0, same_max, filled.bounded);
  limit = omega (arith, same_max, filled.limit);
  placed = thinner-IsPlaced b'.packet_buffer b.packet_buffer thin filled.placed;
  newest = subst HasNewest (sym same_newest) filled.newest;
}

pub clear_to-IsFilled : (b : PacketBuffer) (s : ℕ) → IsFilled b → IsFilled (clear_to b s)
unfolding clear_to
clear_to-IsFilled b s filled =
    let s' = next_num s in
    let iterations = min (forward_diff 16 b.first_seq_num s') (length b.packet_buffer) in
    let slots = clear_slots iterations b.first_seq_num s' b.packet_buffer in
    if-rule IsFilled (b.is_cleared_to_first_seq_num && ahead_of 16 b.first_seq_num s)
      (λ past. filled)
      (λ not_past.
        if-rule IsFilled (not b.first_packet_received) (λ fresh. filled)
          (λ started.
            thinner-IsFilled b
              (record b {
                packet_buffer = slots;
                first_seq_num = s';
                is_cleared_to_first_seq_num = true;
                missing_packets = erase_before_upper_bound itself s' b.missing_packets;
              })
              (clear_slots-IsThinner iterations b.first_seq_num s' b.packet_buffer) refl refl
              filled))
