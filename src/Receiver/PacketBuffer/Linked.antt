-- ===== src/Receiver/PacketBuffer/Linked.antt =====
-- How the packets of the slots hang together, and that the pass backwards over packets that are not of H264 ends at the
-- first packet of their frame.
use naivertc.Base.{
  ℕ, zero, suc, ◌+◌, ◌-◌, ◌%◌, ◌^◌, ◌≤◌, ◌<◌, ◌≡◌, refl, sym, ap, ◌∙◌, subst, arith, Bool, true,
  false, Bool-cases, inl, inr, some, List, ◌++◌, length, length-append,
}
use native.Mathlib.Nat.{add-mod_right}
use naivertc.Receiver.PacketBuffer.Packets.{
  Packet, Slots, slot, next_num, prev_num, prev_index, is_first, is_last, is_h264,
}
use naivertc.Receiver.PacketBuffer.Assembly.{KeyframeScan, Walked, whole, checked, walk}
use naivertc.Receiver.PacketBuffer.Held.{IsSize, wrapped-mod, prev_index-mod}
use naivertc.Receiver.PacketBuffer.Taken.{Run}

-- Every packet is in the slot of its number.
unfoldable pub IsPlaced : Slots → Type 0
IsPlaced slots =
    (i : ℕ) (p : Packet)
    → slot slots i ≡ some p
    → (p.seq_num % length slots ≡ i) × (p.seq_num < 2 ^ 16)

-- A packet that is continuous is the first of its frame, or comes after one that is continuous.
unfoldable pub IsLinked : Slots → Type 0
IsLinked slots =
    (i : ℕ) (p : Packet)
    → slot slots i ≡ some p
    → p.continuous ≡ true
    → is_first p ≡ false
    → (q : Packet) × (slot slots (prev_index slots i) ≡ some q)
      × (q.seq_num ≡ prev_num p.seq_num)
      × (q.continuous ≡ true)

-- The end of a frame is not waiting in a slot as a continuous packet.
unfoldable pub IsOpen : Slots → Type 0
IsOpen slots =
    (i : ℕ) (p : Packet) → slot slots i ≡ some p → p.continuous ≡ true → is_last p ≡ false

unfoldable pub HasNoH264 : Slots → Type 0
HasNoH264 slots = (i : ℕ) (p : Packet) → slot slots i ≡ some p → is_h264 p ≡ false

-- The frame that ends with number `s`, where the pass backwards ends.
pub record Walk (slots : Slots) (s : ℕ) (walked : Walked) : Type 0 where
  pub start : ℕ
  pub size : ℕ
  pub scan : KeyframeScan
  pub ended : walked ≡ whole start size scan
  pub start_in : start < 2 ^ 16
  pub count : ℕ
  pub some_packet : 0 < count
  pub in_buffer : count ≤ length slots
  pub up_to : (start + count) % 2 ^ 16 ≡ next_num s
  pub bytes : List ℕ
  pub run : Run slots count start bytes
  pub measured : length bytes ≡ size
  pub first : Packet
  pub first_in : slot slots (start % length slots) ≡ some first
  pub begins : is_first first ≡ true

-- One turn around the buffer leads to the same slot.
around : (n x : ℕ) → IsSize n → prev_num x % n ≡ (x + (n - 1)) % 2 ^ 16 % n
unfolding IsSize
around n x sized =
    let y = prev_num x in
    let e : (y + n) % 2 ^ 16 ≡ (x + (n - 1)) % 2 ^ 16 = omega arith in
    sym (add-mod_right y n) ∙ sym (wrapped-mod n (y + n) sized) ∙ ap (λ z. z % n) e

module _ (slots : Slots) (sps_pps_idr : Bool) (timestamp s : ℕ) (last : Packet)
    (sized : IsSize (length slots)) (linked : IsLinked slots)
    (last_in : slot slots (s % length slots) ≡ some last) (last_num : last.seq_num ≡ s) where
  -- After all slots, a packet before would be the last one.
  not_around :
      (x : ℕ) (p : Packet)
      → x < 2 ^ 16
      → (x + (length slots - 1)) % 2 ^ 16 ≡ s
      → slot slots (x % length slots) ≡ some p
      → p.seq_num ≡ x
      → p.continuous ≡ true
      → is_first p ≡ true
  unfolding IsLinked IsSize
  not_around x p hx e held num cont = elim (Bool-cases (is_first p)) [
    | inl yes_first ↦ yes_first
    | inr not_first ↦
        let n = length slots in
        let (q, q_in, q_num, q_cont) = linked (x % n) p held cont not_first in
        let same : prev_index slots (x % n) ≡ s % n =
          prev_index-mod slots x sized hx ∙ around n x sized ∙ ap (λ z. z % n) e in
        let both : some q ≡ some last = sym q_in ∙ ap (slot slots) same ∙ last_in in
        let num' : prev_num x ≡ s =
          ap prev_num (sym num) ∙ sym q_num ∙ ground (arith, both) ∙ last_num in
        absurd (omega arith)
  ]

  -- At the first packet.
  ends_at :
      (k x size : ℕ) (scan : KeyframeScan) (p : Packet) (bytes : List ℕ)
      → k < length slots
      → x < 2 ^ 16
      → (x + k) % 2 ^ 16 ≡ s
      → slot slots (x % length slots) ≡ some p
      → p.seq_num ≡ x
      → is_first p ≡ true
      → Run slots k (next_num x) bytes
      → length bytes ≡ size
      → Walk slots s (whole x (size + length p.video_payload) scan)
  unfolding Run
  ends_at k x size scan p bytes room hx e held num is_1st run measured = record {
    start = x;
    size = size + length p.video_payload;
    scan = scan;
    ended = refl;
    start_in = hx;
    count = suc k;
    some_packet = omega arith;
    in_buffer = omega arith;
    up_to = omega arith;
    bytes = p.video_payload ++ bytes;
    run = (p, held, num, bytes, run, refl);
    measured = omega (arith, length-append p.video_payload bytes);
    first = p;
    first_in = held;
    begins = is_1st;
  }

  pub walk-Walk :
      (left k x size : ℕ) (scan : KeyframeScan) (p : Packet) (bytes : List ℕ)
      → suc (k + left) ≡ length slots
      → x < 2 ^ 16
      → (x + k) % 2 ^ 16 ≡ s
      → slot slots (x % length slots) ≡ some p
      → p.seq_num ≡ x
      → p.continuous ≡ true
      → Run slots k (next_num x) bytes
      → length bytes ≡ size
      → Walk slots s (walk slots sps_pps_idr false timestamp left (x % length slots) x size scan p)
  unfolding walk checked Run IsLinked IsSize
  walk-Walk zero k x size scan p bytes room hx e held num cont run measured =
      let is_1st =
        not_around x p hx (subst (λ m. (x + m) % 2 ^ 16 ≡ s) (omega arith) e) held num cont in
      subst (Walk slots s) (ground (arith, is_1st))
        (ends_at k x size scan p bytes (omega arith) hx e held num is_1st run measured)
  walk-Walk (suc left) k x size scan p bytes room hx e held num cont run measured =
      elim (Bool-cases (is_first p)) [
        | inl is_1st ↦
            subst (Walk slots s) (ground (arith, is_1st))
              (ends_at k x size scan p bytes (omega arith) hx e held num is_1st run measured)
        | inr not_1st ↦
            let n = length slots in
            let y = prev_num x in
            let (q, q_in, q_num, q_cont) = linked (x % n) p held cont not_1st in
            let i' = prev_index-mod slots x sized hx in
            let back : next_num y ≡ x = omega arith in
            let q_in' : slot slots (y % n) ≡ some q = ap (slot slots) (sym i') ∙ q_in in
            let size' = size + length p.video_payload in
            let run' : Run slots (suc k) (next_num y) (p.video_payload ++ bytes) =
              subst (λ z. Run slots (suc k) z (p.video_payload ++ bytes)) (sym back)
                (p, held, num, bytes, run, refl) in
            let ih : Walk slots s
                (walk slots sps_pps_idr false timestamp left (y % n) y size' scan q) =
              walk-Walk left (suc k) y size' scan q (p.video_payload ++ bytes) (omega arith)
                (omega arith) (omega arith) q_in' (q_num ∙ ap prev_num num) q_cont run'
                (omega (arith, length-append p.video_payload bytes)) in
            subst (Walk slots s)
              (ground (
                arith,
                not_1st,
                q_in,
                ap (λ i. walk slots sps_pps_idr false timestamp left i y size' scan q) i',
              ))
              ih
      ]
