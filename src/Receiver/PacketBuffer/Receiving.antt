-- ===== src/Receiver/PacketBuffer/Receiving.antt =====
-- The packet buffer receives packets that are not of H264: every call gives a result, with whole frames.
use naivertc.Base.{
  ℕ, ◌%◌, ◌^◌, ◌<◌, ◌≡◌, ◌≢◌, refl, sym, ◌∙◌, subst, arith, if-rule, true, false, not, ◌⊎◌, inl,
  inr, Option, none, some, length, set,
}
use mathlib.Core.Option
use naivertc.WrapAround.{ahead_of}
use naivertc.Rtcp.Items.{All}
use naivertc.Receiver.PacketBuffer.{
  put_packet, insert_at, insert_packet, insert_padding, put_expanded, assembled,
}
use naivertc.Receiver.PacketBuffer.Packets.{Packet, Slots, slot, next_num, is_h264}
use naivertc.Receiver.PacketBuffer.State.{
  PacketBuffer, InsertResult, no_result, new_packet_buffer, clear, update_missing_packets,
  max_missing_packet_count,
}
use naivertc.Receiver.PacketBuffer.Expansion.{expand_if_necessary}
use naivertc.Receiver.PacketBuffer.Rounds.{try_to_assemble_frames}
use naivertc.Receiver.PacketBuffer.Held.{IsSize}
use naivertc.Receiver.PacketBuffer.Missing.{HasNewest, IsUpdated, update_missing-IsUpdated}
use naivertc.Receiver.PacketBuffer.Kept.{try_to_assemble-Follows}
use naivertc.Receiver.PacketBuffer.Whole.{IsSound, IsWhole}
use naivertc.Receiver.PacketBuffer.Delivery.{IsDelivery, try_to_assemble-IsDelivery}
use naivertc.Receiver.PacketBuffer.Insertion.{empty-IsSound, put-IsSound}

-- The slots are in order, and the newest number is of 16 bits.
unfoldable pub IsInOrder : PacketBuffer → Type 0
IsInOrder b = IsSound b.packet_buffer × HasNewest b.newest_inserted_seq_num

-- A packet with a number of 16 bits, not of H264.
unfoldable pub IsPlain : Packet → Type 0
IsPlain p = (p.seq_num < 2 ^ 16) × (is_h264 p ≡ false)

-- The slot of the packet is free, or has the same packet, or has another one and the buffer is as large as can be.
unfoldable pub IsFitting : PacketBuffer → Packet → Type 0
IsFitting b p =
    let held = slot b.packet_buffer (p.seq_num % length b.packet_buffer) in
    (held ≡ none)
    ⊎ (q : Packet) × (held ≡ some q)
      × ((q.seq_num ≡ p.seq_num)
          ⊎ (q.seq_num ≢ p.seq_num) × (length b.packet_buffer ≡ b.max_packet_buffer_size))

-- The slots with a packet in its slot.
abbrev pub slots_with : Slots → Packet → Slots
slots_with slots p = set slots (p.seq_num % length slots) (some (record p { continuous = false }))

-- A result, with a buffer in order and frames that are whole in some slots.
unfoldable pub IsReceived : Slots → Option (PacketBuffer × InsertResult) → Type 0
IsReceived slots result =
    (out : PacketBuffer × InsertResult) × (result ≡ some out)
    × IsInOrder out.0
    × All (IsWhole slots) out.1.assembled_frames

-- After the missing numbers are updated, frames are assembled.
assemble-IsReceived :
    (b : PacketBuffer) (s t : ℕ)
    → s < 2 ^ 16
    → t < 2 ^ 16
    → IsInOrder b
    → IsReceived b.packet_buffer (
        Option.map assembled (
          Option.bind
            (update_missing_packets b s max_missing_packet_count)
            (λ b'. try_to_assemble_frames b' t)))
unfolding IsReceived IsInOrder IsUpdated IsDelivery assembled Option.bind
assemble-IsReceived b s t hs ht (sound, small) =
    let (b', done, same, size, small') = update_missing-IsUpdated b s hs small in
    let sound' : IsSound b'.packet_buffer = subst IsSound (sym same) sound in
    let (out, done', sound'', within, whole) = try_to_assemble-IsDelivery b' t ht sound' in
    let kept = (try_to_assemble-Follows b' t out done').newest in
    (
      assembled out,
      rw (done, done'),
      (sound'', subst HasNewest (sym kept) small'),
      subst (λ slots. All (IsWhole slots) out.1) same whole,
    )

put_packet-IsReceived :
    (b : PacketBuffer) (p : Packet)
    → IsInOrder b
    → IsPlain p
    → slot b.packet_buffer (p.seq_num % length b.packet_buffer) ≡ none
    → IsReceived (slots_with b.packet_buffer p) (put_packet b p)
unfolding IsInOrder IsPlain put_packet
put_packet-IsReceived b p (sound, small) (hs, plain) free =
    assemble-IsReceived (record b { packet_buffer = slots_with b.packet_buffer p }) p.seq_num
      p.seq_num hs hs (put-IsSound b.packet_buffer p sound hs free plain, small)

clear-IsInOrder : (b : PacketBuffer) → IsInOrder b → IsInOrder (clear b)
unfolding IsInOrder clear HasNewest
clear-IsInOrder b (sound, small) =
    (empty-IsSound (length b.packet_buffer) sound.sized, λ n e. absurd (ground (arith, e)))

insert_at-IsReceived :
    (b : PacketBuffer) (p : Packet)
    → IsInOrder b
    → IsPlain p
    → IsFitting b p
    → IsReceived (slots_with b.packet_buffer p) (insert_at b p)
unfolding IsFitting IsReceived insert_at expand_if_necessary put_expanded Option.bind
insert_at-IsReceived b p order plain fits = elim fits [
  | inl free ↦
      let same : insert_at b p ≡ put_packet b p = ground (arith, free) in
      subst (IsReceived (slots_with b.packet_buffer p)) (sym same)
        (put_packet-IsReceived b p order plain free)
  | inr (q, held, inl duplicate) ↦ ((b, no_result), ground (arith, held, duplicate), order, tt)
  | inr (q, held, inr (differ, full)) ↦ (
    (clear b, record no_result { keyframe_requested = true }),
    ground (arith, held, differ, full),
    clear-IsInOrder b order,
    tt,
  )
]

insert_packet-IsReceived :
    (b : PacketBuffer) (p : Packet)
    → IsInOrder b
    → IsPlain p
    → IsFitting b p
    → IsReceived (slots_with b.packet_buffer p) (insert_packet b p)
unfolding insert_packet IsReceived IsInOrder IsFitting
insert_packet-IsReceived b p order plain fits =
    let received = IsReceived (slots_with b.packet_buffer p) in
    let at : (b' : PacketBuffer)
        → IsInOrder b'
        → IsFitting b' p
        → IsReceived (slots_with b'.packet_buffer p) (insert_at b' p) =
      λ b' order' fits'. insert_at-IsReceived b' p order' plain fits' in
    if-rule received (not b.first_packet_received)
      (λ fresh.
        at (record b { first_seq_num = p.seq_num; first_packet_received = true }) order fits)
      (λ started.
        if-rule received (ahead_of 16 b.first_seq_num p.seq_num)
          (λ older.
            if-rule received b.is_cleared_to_first_seq_num
              (λ cleared. ((b, no_result), refl, order, tt))
              (λ not_cleared. at (record b { first_seq_num = p.seq_num }) order fits))
          (λ newer. at b order fits))

-- The buffers that packets, padding and clearing lead to.
pub data Reachable : PacketBuffer → Type 0 where
  created : (n max_size : ℕ) → IsSize n → Reachable (new_packet_buffer n max_size)
  inserted :
      {b : PacketBuffer} (p : Packet) {out : PacketBuffer × InsertResult}
      → Reachable b
      → IsPlain p
      → IsFitting b p
      → insert_packet b p ≡ some out
      → Reachable out.0
  padded :
      {b : PacketBuffer} (s : ℕ) {out : PacketBuffer × InsertResult}
      → Reachable b
      → s < 2 ^ 16
      → insert_padding b s ≡ some out
      → Reachable out.0
  cleared : {b : PacketBuffer} → Reachable b → Reachable (clear b)

received-IsInOrder :
    (slots : Slots) (result : Option (PacketBuffer × InsertResult))
    (out : PacketBuffer × InsertResult)
    → IsReceived slots result
    → result ≡ some out
    → IsInOrder out.0
unfolding IsReceived
received-IsInOrder slots result out (out', done, order, whole) e =
    let both : some out' ≡ some out = sym done ∙ e in
    let same : out' ≡ out = ground (arith, both) in
    subst (λ (o : PacketBuffer × InsertResult). IsInOrder o.0) same order

padding-IsReceived :
    (b : PacketBuffer) (s : ℕ)
    → IsInOrder b
    → s < 2 ^ 16
    → IsReceived b.packet_buffer (insert_padding b s)
unfolding insert_padding
padding-IsReceived b s order hs = assemble-IsReceived b s (next_num s) hs (omega arith) order

pub reachable-IsInOrder : {b : PacketBuffer} → Reachable b → IsInOrder b
unfolding IsInOrder HasNewest
reachable-IsInOrder (created n max_size sized) =
    (empty-IsSound n sized, λ k e. absurd (ground (arith, e)))
reachable-IsInOrder (inserted {b = b} p {out = out} r plain fits e) =
    received-IsInOrder (slots_with b.packet_buffer p) (insert_packet b p) out
      (insert_packet-IsReceived b p (reachable-IsInOrder r) plain fits) e
reachable-IsInOrder (padded {b = b} s {out = out} r hs e) =
    received-IsInOrder b.packet_buffer (insert_padding b s) out
      (padding-IsReceived b s (reachable-IsInOrder r) hs) e
reachable-IsInOrder (cleared {b = b} r) = clear-IsInOrder b (reachable-IsInOrder r)

-- In every state that a packet buffer reaches, its size a divisor of 2 ^ 16 and less, by packets
-- of 16-bit numbers that are not of H264 and find their slot free, or their duplicate in it, or
-- the buffer as large as it can be, by padding and by clearing, another such packet is inserted
-- with a result, through no null pointer, no failed assertion and no loop without an end; and each
-- frame given is a run of consecutive packets, with all their bytes in order, from one that begins
-- a frame to one that ends a frame.
pub insert_packet-IsWhole :
    {b : PacketBuffer} (p : Packet)
    → Reachable b
    → IsPlain p
    → IsFitting b p
    → (out : PacketBuffer × InsertResult) × (insert_packet b p ≡ some out)
      × Reachable out.0
      × All (IsWhole (slots_with b.packet_buffer p)) out.1.assembled_frames
unfolding IsReceived
insert_packet-IsWhole {b} p r plain fits =
    let (out, done, order, whole) =
      insert_packet-IsReceived b p (reachable-IsInOrder r) plain fits in
    (out, done, inserted p r plain fits done, whole)
