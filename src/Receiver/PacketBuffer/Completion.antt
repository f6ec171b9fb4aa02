-- ===== src/Receiver/PacketBuffer/Completion.antt =====
-- A packet that ends a frame, and comes after the frame's other packets, gives the frame at once.
use naivertc.Base.{
  ℕ, suc, if-rule, ◌-◌, ◌%◌, ◌<◌, ◌≡◌, sym, ap, ◌∙◌, subst, arith, Bool, true, false, not, ◌&&◌,
  inl, inr, Option, none, some, Option-cases, List, ◌∷◌, length, length-set,
}
use mathlib.Core.Option
use native.Mathlib.Nat.{mod-lt}
use naivertc.WrapAround.{ahead_of}
use naivertc.Rtcp.Items.{All}
use naivertc.Receiver.PacketBuffer.{put_packet, insert_at, insert_packet, assembled}
use naivertc.Receiver.PacketBuffer.Packets.{Packet, Frame, Slots, slot, next_num, is_last}
use naivertc.Receiver.PacketBuffer.Assembly.{is_continuous}
use naivertc.Receiver.PacketBuffer.State.{PacketBuffer, InsertResult}
use naivertc.Receiver.PacketBuffer.Rounds.{assemble_step, assemble_loop, try_to_assemble_frames}
use naivertc.Receiver.PacketBuffer.Held.{IsSize, slot-set_self}
use naivertc.Receiver.PacketBuffer.Missing.{IsUpdated, update_missing-IsUpdated}
use naivertc.Receiver.PacketBuffer.Whole.{IsSound, IsWhole, Gives}
use naivertc.Receiver.PacketBuffer.Delivery.{
  IsDelivery, try_to_assemble-IsDelivery, assemble_step-Gives,
}
use naivertc.Receiver.PacketBuffer.Insertion.{put-IsSound}
use naivertc.Receiver.PacketBuffer.Receiving.{
  IsInOrder, IsPlain, slots_with, Reachable, reachable-IsInOrder,
}

-- The first of the frames ends with number `s`.
unfoldable pub EndsWith : ℕ → List Frame → Type 0
EndsWith s frames = (f : Frame) × (more : List Frame) × (frames ≡ f ∷ more) × (f.seq_num_end ≡ s)

loop-EndsWith :
    (left : ℕ) (b : PacketBuffer) (s : ℕ) (out : PacketBuffer × List Frame)
    → Gives s (assemble_step b s)
    → assemble_loop (suc left) b s ≡ some out
    → EndsWith s out.1
unfolding Gives EndsWith assemble_loop
loop-EndsWith left b s out (b', f, step, ends) e =
    let rest = assemble_loop left b' (next_num s) in
    elim (Option-cases rest) [
      | inl failed ↦ absurd (ground (arith, step, failed, e))
      | inr (later, done) ↦ (f, later.1, ground (arith, step, done, e), ends)
    ]

try-EndsWith :
    (b : PacketBuffer) (s : ℕ) (out : PacketBuffer × List Frame)
    → 0 < length b.packet_buffer
    → Gives s (assemble_step b s)
    → try_to_assemble_frames b s ≡ some out
    → EndsWith s out.1
unfolding try_to_assemble_frames
try-EndsWith b s out some_slot gives e =
    let size : length b.packet_buffer ≡ suc (length b.packet_buffer - 1) = omega arith in
    loop-EndsWith (length b.packet_buffer - 1) b s out gives
      (ap (λ n. assemble_loop n b s) (sym size) ∙ e)

-- A result whose first frame ends with number `s`, with frames whole in some slots.
unfoldable pub IsCompleted : Slots → ℕ → Option (PacketBuffer × InsertResult) → Type 0
IsCompleted slots s result =
    (out : PacketBuffer × InsertResult) × (result ≡ some out)
    × EndsWith s out.1.assembled_frames
    × All (IsWhole slots) out.1.assembled_frames

put_packet-IsCompleted :
    (b : PacketBuffer) (p : Packet)
    → IsInOrder b
    → IsPlain p
    → slot b.packet_buffer (p.seq_num % length b.packet_buffer) ≡ none
    → is_continuous (slots_with b.packet_buffer p) p.seq_num ≡ true
    → is_last p ≡ true
    → IsCompleted (slots_with b.packet_buffer p) p.seq_num (put_packet b p)
unfolding IsCompleted IsInOrder IsPlain IsUpdated IsDelivery put_packet assembled Option.bind IsSize
put_packet-IsCompleted b p (sound, small) (hs, plain) free is_cont finishes =
    let s = p.seq_num in
    let slots = slots_with b.packet_buffer p in
    let p' : Packet = record p { continuous = false } in
    let i = s % length b.packet_buffer in
    let stored : PacketBuffer = record b { packet_buffer = slots } in
    let sound_put = put-IsSound b.packet_buffer p sound hs free plain in
    let held : slot slots (s % length slots) ≡ some p' =
      ap (λ n. slot slots (s % n)) (length-set b.packet_buffer i (some p'))
      ∙ slot-set_self b.packet_buffer i (some p') (mod-lt s sound.sized.0) in
    let (b', done, same, size, small') = update_missing-IsUpdated stored s hs small in
    let sound' : IsSound b'.packet_buffer = subst IsSound (sym same) sound_put in
    let (out, done', sound'', within, whole) = try_to_assemble-IsDelivery b' s hs sound' in
    let gives =
      assemble_step-Gives b' s p' hs sound' (ap (λ x. is_continuous x s) same ∙ is_cont)
        (ap (λ x. slot x (s % length x)) same ∙ held) finishes in
    (
      assembled out,
      rw (done, done'),
      try-EndsWith b' s out sound'.sized.0 gives done',
      subst (λ x. All (IsWhole x) out.1) same whole,
    )

-- The packet is not older than what the buffer was cleared up to.
unfoldable pub IsCurrent : PacketBuffer → Packet → Type 0
IsCurrent b p =
    b.first_packet_received
      && ahead_of 16 b.first_seq_num p.seq_num
      && b.is_cleared_to_first_seq_num
    ≡ false

insert_at-IsCompleted :
    (b : PacketBuffer) (p : Packet)
    → slot b.packet_buffer (p.seq_num % length b.packet_buffer) ≡ none
    → IsCompleted (slots_with b.packet_buffer p) p.seq_num (put_packet b p)
    → IsCompleted (slots_with b.packet_buffer p) p.seq_num (insert_at b p)
unfolding insert_at
insert_at-IsCompleted b p free completed =
    let same : insert_at b p ≡ put_packet b p = ground (arith, free) in
    subst (IsCompleted (slots_with b.packet_buffer p) p.seq_num) (sym same) completed

-- In every state that a packet buffer reaches, its size a divisor of 2 ^ 16 and less, by packets
-- of 16-bit numbers that are not of H264 and find their slot free, or their duplicate in it, or
-- the buffer as large as it can be, by padding and by clearing, a further packet of that kind with
-- a free slot, which ends a frame, is not older than what the buffer was cleared up to, and begins
-- the frame or comes after a continuous packet of its timestamp, is inserted with a result: all
-- its frames are whole, and the first of them ends with that packet.
pub insert_packet-IsCompleted :
    {b : PacketBuffer} (p : Packet)
    → Reachable b
    → IsPlain p
    → IsCurrent b p
    → slot b.packet_buffer (p.seq_num % length b.packet_buffer) ≡ none
    → is_continuous (slots_with b.packet_buffer p) p.seq_num ≡ true
    → is_last p ≡ true
    → IsCompleted (slots_with b.packet_buffer p) p.seq_num (insert_packet b p)
unfolding IsCurrent IsInOrder insert_packet
insert_packet-IsCompleted {b} p r plain current free is_cont finishes =
    let completed = IsCompleted (slots_with b.packet_buffer p) p.seq_num in
    let order = reachable-IsInOrder r in
    let at : (first : ℕ) (received : Bool)
        → completed
            (insert_at (record b { first_seq_num = first; first_packet_received = received }) p) =
      λ first received.
        let b' : PacketBuffer = record b {
          first_seq_num = first;
          first_packet_received = received;
        } in
        insert_at-IsCompleted b' p free
          (put_packet-IsCompleted b' p order plain free is_cont finishes) in
    if-rule completed (not b.first_packet_received) (λ fresh. at p.seq_num true)
      (λ started.
        if-rule completed (ahead_of 16 b.first_seq_num p.seq_num)
          (λ older.
            if-rule completed b.is_cleared_to_first_seq_num
              (λ past. absurd (ground (arith, current, started, older, past)))
              (λ not_past. at p.seq_num b.first_packet_received))
          (λ newer.
            insert_at-IsCompleted b p free
              (put_packet-IsCompleted b p order plain free is_cont finishes)))
