-- ===== src/Receiver/PacketBuffer/Whole.antt =====
-- The frames that the packet buffer gives are whole, where no packet is of H264.
use naivertc.Base.{
  ℕ, zero, suc, ◌+◌, ◌-◌, ◌%◌, ◌^◌, ◌≤◌, ◌<◌, ◌≡◌, ◌≢◌, refl, sym, ap, ◌∙◌, subst, arith, true,
  false, ◌⊎◌, inr, some, List, [], ◌∷◌, ◌++◌, length,
}
use naivertc.Rtcp.Items.{All}
use naivertc.Receiver.PacketBuffer.Packets.{
  Packet, Frame, Slots, slot, new_frame, next_num, is_first, is_last,
}
use naivertc.Receiver.PacketBuffer.Assembly.{Walked}
use naivertc.Receiver.PacketBuffer.State.{PacketBuffer, itself}
use naivertc.Receiver.NackModule.Ordered.{erase_to_upper_bound}
use naivertc.Receiver.PacketBuffer.Rounds.{
  Step, bad, stopped, going, take_frame, give_frame, finish_frame,
}
use naivertc.Receiver.PacketBuffer.Held.{IsSize}
use naivertc.Receiver.PacketBuffer.Linked.{IsPlaced, IsLinked, IsOpen, HasNoH264, Walk}
use naivertc.Receiver.PacketBuffer.Taken.{Run, IsTaken, take_packets-IsTaken}
use naivertc.Receiver.PacketBuffer.Marked.{IsWithin}
use naivertc.Receiver.PacketBuffer.Emptied.{
  emptied-IsPlaced, emptied-IsLinked, emptied-IsOpen, emptied-HasNoH264, emptied-IsWithin,
}

-- The slots are in order, and no packet is of H264.
pub record IsSound (slots : Slots) : Type 0 where
  pub sized : IsSize (length slots)
  pub placed : IsPlaced slots
  pub linked : IsLinked slots
  pub opened : IsOpen slots
  pub plain : HasNoH264 slots

-- The frame is the packets of the slots from one that begins a frame to one that ends a frame.
pub record IsWhole (slots : Slots) (f : Frame) : Type 0 where
  pub count : (0 < f.num_packets) × (f.num_packets ≤ length slots)
  pub up_to : (f.seq_num_start + f.num_packets) % 2 ^ 16 ≡ next_num f.seq_num_end
  pub run : Run slots f.num_packets f.seq_num_start f.bitstream
  pub first :
      (p : Packet) × (slot slots (f.seq_num_start % length slots) ≡ some p) × (is_first p ≡ true)
  pub last :
      (p : Packet) × (slot slots (f.seq_num_end % length slots) ≡ some p)
      × (p.seq_num ≡ f.seq_num_end)
      × (is_last p ≡ true)

Run-IsWithin :
    (slots slots' : Slots) (count x : ℕ) (bytes : List ℕ)
    → IsWithin slots slots'
    → Run slots count x bytes
    → Run slots' count x bytes
unfolding Run IsWithin
Run-IsWithin slots slots' zero x bytes within run = run
Run-IsWithin slots slots' (suc count) x bytes within (p, held, e, rest, run, joined) =
    let (q, q_in, (num, payload, header)) = within.1 (x % length slots) p held in
    (
      q,
      ap (λ n. slot slots' (x % n)) (sym within.0) ∙ q_in,
      sym num ∙ e,
      rest,
      Run-IsWithin slots slots' count (next_num x) rest within run,
      joined ∙ ap (λ b. b ++ rest) payload,
    )

pub IsWhole-IsWithin :
    (slots slots' : Slots) (f : Frame) → IsWithin slots slots' → IsWhole slots f → IsWhole slots' f
unfolding IsWithin
IsWhole-IsWithin slots slots' f within w =
    let n = length slots in
    let there : (x : ℕ) (q : Packet)
        → slot slots' (x % n) ≡ some q
        → slot slots' (x % length slots') ≡ some q =
      λ x q q_in. ap (λ m. slot slots' (x % m)) (sym within.0) ∙ q_in in
    let (p, p_in, begins) = w.first in
    let (q, q_in, (num, payload, header)) = within.1 (f.seq_num_start % n) p p_in in
    let (p', p'_in, p'_num, finishes) = w.last in
    let (q', q'_in, (num', payload', header')) = within.1 (f.seq_num_end % n) p' p'_in in
    record {
      count = (w.count.0, omega (arith, w.count.1, within.0));
      up_to = w.up_to;
      run = Run-IsWithin slots slots' f.num_packets f.seq_num_start f.bitstream within w.run;
      first = (
        q,
        there f.seq_num_start q q_in,
        ap (λ h. h.is_first_packet_in_frame) (sym header) ∙ begins,
      );
      last = (
        q',
        there f.seq_num_end q' q'_in,
        sym num' ∙ p'_num,
        ap (λ h. h.is_last_packet_in_frame) (sym header') ∙ finishes,
      );
    }

-- What a round leaves and gives.
unfoldable pub IsRound : Slots → Step → Type 0
IsRound slots bad = 0 ≡ suc zero
IsRound slots (stopped b) = IsSound b.packet_buffer × IsWithin b.packet_buffer slots
IsRound slots (going b frames) =
    IsSound b.packet_buffer × IsWithin b.packet_buffer slots × All (IsWhole slots) frames

-- The slots while the end of a frame, number `s`, is marked.
pub record IsEnding (slots : Slots) (s : ℕ) (last : Packet) : Type 0 where
  pub sized : IsSize (length slots)
  pub placed : IsPlaced slots
  pub linked : IsLinked slots
  pub plain : HasNoH264 slots
  pub opened :
      (k : ℕ) (q : Packet)
      → slot slots k ≡ some q
      → q.continuous ≡ true
      → (is_last q ≡ false) ⊎ (q.seq_num ≡ s)
  pub closed :
      (k : ℕ) (q : Packet)
      → slot slots k ≡ some q
      → q.continuous ≡ true
      → is_first q ≡ false
      → q.seq_num ≢ next_num s
  pub last_in : slot slots (s % length slots) ≡ some last
  pub last_num : last.seq_num ≡ s
  pub finishes : is_last last ≡ true

walked-IsWhole :
    (slots : Slots) (s : ℕ) (last : Packet) (walked : Walked) (f : Frame)
    → IsEnding slots s last
    → (w : Walk slots s walked) → f.num_packets ≡ w.count
    → f.seq_num_start ≡ w.start
    → f.seq_num_end ≡ s
    → f.bitstream ≡ w.bytes
    → IsWhole slots f
walked-IsWhole slots s last walked f ending w num starts ends bits =
    let n = length slots in
    record {
      count = (omega (arith, num, w.some_packet), omega (arith, num, w.in_buffer));
      up_to = omega (arith, num, starts, ends, w.up_to);
      run =
          subst (λ c. Run slots c f.seq_num_start f.bitstream) (sym num)
            (subst (λ x. Run slots w.count x f.bitstream) (sym starts)
              (subst (Run slots w.count w.start) (sym bits) w.run));
      first = (w.first, ap (λ x. slot slots (x % n)) starts ∙ w.first_in, w.begins);
      last = (
        last,
        ap (λ x. slot slots (x % n)) ends ∙ ending.last_in,
        ending.last_num ∙ sym ends,
        ending.finishes,
      );
    }

-- A round gives one frame, which ends with number `s`.
unfoldable pub Gives : ℕ → Step → Type 0
Gives s step = (b : PacketBuffer) × (f : Frame) × (step ≡ going b (f ∷ [])) × (f.seq_num_end ≡ s)

-- The frame that the pass backwards has found is taken out.
pub take_frame-IsRound :
    (b : PacketBuffer) (s : ℕ) (last : Packet) (walked : Walked)
    → s < 2 ^ 16
    → IsEnding b.packet_buffer s last
    → Walk b.packet_buffer s walked
    → IsRound b.packet_buffer (finish_frame b false s walked)
      × Gives s (finish_frame b false s walked)
unfolding Gives IsRound finish_frame take_frame give_frame IsSize IsTaken
take_frame-IsRound b s last walked hs ending w =
    let slots = b.packet_buffer in
    let f0 = new_frame w.count in
    let counted : (next_num s + 2 ^ 16 - w.start) % 2 ^ 16 ≡ w.count =
      omega (arith, w.in_buffer, w.up_to, w.start_in, ending.sized.1) in
    let (out, done, taken) =
      take_packets-IsTaken slots w.start s w.count w.start w.bytes f0 w.start_in
        (omega (arith, w.in_buffer, ending.sized.1)) w.run in
    let b' : PacketBuffer = record b {
      packet_buffer = out.0;
      missing_packets = erase_to_upper_bound itself s b.missing_packets;
    } in
    let starts = taken.starts (inr (refl, w.some_packet)) in
    let ends =
      taken.ends
        (inr (w.count - 1, omega (arith, w.some_packet), omega (arith, w.some_packet, w.up_to))) in
    let result : IsRound slots (going b' (out.1 ∷ [])) = (
      record {
        sized = subst IsSize (sym taken.size) ending.sized;
        placed = emptied-IsPlaced slots w.start s w.count w.bytes f0 out taken ending.placed;
        linked =
            emptied-IsLinked slots w.start s w.count w.bytes f0 out taken ending.placed
              ending.linked w.up_to ending.closed;
        opened =
            emptied-IsOpen slots w.start s w.count w.bytes f0 out taken ending.placed w.some_packet
              hs w.up_to ending.opened;
        plain = emptied-HasNoH264 slots w.start s w.count w.bytes f0 out taken ending.plain;
      },
      emptied-IsWithin slots w.start s w.count w.bytes f0 out taken,
      (
        walked-IsWhole slots s last walked out.1 ending w taken.num_packets starts ends
            taken.bitstream,
        tt,
      ),
    ) in
    let step : finish_frame b false s walked ≡ going b' (out.1 ∷ []) =
      ground (arith, w.ended, counted, done, ap length taken.bitstream, w.measured) in
    (subst (IsRound slots) (sym step) result, (b', out.1, step, ends))
