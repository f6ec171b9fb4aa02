-- ===== src/Receiver/PacketBuffer/Reaching.antt =====
-- The packet buffer takes in any packets, of H264 too: what the operations keep, on every sequence of them.
use naivertc.Base.{
  ℕ, ◌%◌, ◌^◌, ◌≤◌, ◌<◌, ◌≡◌, refl, sym, ap, subst, arith, if-rule, Bool, true, false, not, inl,
  inr, Option, none, some, Option-cases, List, length, set, length-set, ℕ_discrete,
}
use mathlib.Core.Option
use naivertc.WrapAround.{ahead_of}
use naivertc.Receiver.PacketBuffer.{
  put_packet, insert_at, insert_packet, insert_padding, put_expanded, assembled,
}
use naivertc.Receiver.PacketBuffer.Packets.{Packet, Frame, slot, next_num}
use naivertc.Receiver.PacketBuffer.State.{
  PacketBuffer, InsertResult, no_result, new_packet_buffer, clear, clear_to, update_missing_packets,
  max_missing_packet_count,
}
use naivertc.Receiver.PacketBuffer.Rounds.{try_to_assemble_frames}
use naivertc.Receiver.PacketBuffer.Missing.{HasNewest, IsUpdated, update_missing-IsUpdated}
use naivertc.Receiver.PacketBuffer.Kept.{Follows, try_to_assemble-Follows}
use naivertc.Receiver.PacketBuffer.Growing.{expand_if_necessary-IsFilled}
use naivertc.Receiver.PacketBuffer.Linked.{IsPlaced}
use naivertc.Receiver.PacketBuffer.Filled.{
  IsFilled, created-IsFilled, clear-IsFilled, clear_to-IsFilled, thinner-IsFilled, put-IsPlaced,
}

-- The buffer in a result, if there is one.
IsFilledIn : Option (PacketBuffer × InsertResult) → Type 0
IsFilledIn none = Unit
IsFilledIn (some (b, result)) = IsFilled b

updated-IsFilled :
    (b b' : PacketBuffer)
    → b'.packet_buffer ≡ b.packet_buffer
    → b'.max_packet_buffer_size ≡ b.max_packet_buffer_size
    → HasNewest b'.newest_inserted_seq_num
    → IsFilled b
    → IsFilled b'
updated-IsFilled b b' same same_max newest filled = record {
  some_slot = omega (arith, ap length same, filled.some_slot);
  bounded = omega (arith, ap length same, same_max, filled.bounded);
  limit = omega (arith, same_max, filled.limit);
  placed = subst IsPlaced (sym same) filled.placed;
  newest = newest;
}

assembled-IsFilledIn :
    (b : PacketBuffer) (o : Option (PacketBuffer × List Frame))
    → ((out : PacketBuffer × List Frame) → o ≡ some out → Follows b out.0)
    → IsFilled b
    → IsFilledIn (Option.map assembled o)
unfolding IsFilledIn assembled
assembled-IsFilledIn b none follows filled = tt
assembled-IsFilledIn b (some (c, frames)) follows filled =
    let f = follows (c, frames) refl in thinner-IsFilled b c f.thinner f.max_size f.newest filled

-- After the missing numbers are updated, frames are assembled.
assemble-IsFilledIn :
    (b : PacketBuffer) (s t : ℕ)
    → s < 2 ^ 16
    → IsFilled b
    → IsFilledIn (
        Option.map assembled (
          Option.bind
            (update_missing_packets b s max_missing_packet_count)
            (λ b'. try_to_assemble_frames b' t)))
unfolding IsFilledIn IsUpdated assembled Option.bind
assemble-IsFilledIn b s t hs filled =
    let (b', done, same, size, small) = update_missing-IsUpdated b s hs filled.newest in
    let tried = try_to_assemble_frames b' t in
    let filled' : IsFilled b' = updated-IsFilled b b' same size small filled in
    let result : Option (PacketBuffer × InsertResult) = Option.map assembled tried in
    let same : Option.map assembled (
          Option.bind (update_missing_packets b s max_missing_packet_count)
            (λ b'. try_to_assemble_frames b' t))
        ≡ result =
      rw done in
    subst IsFilledIn (sym same)
      (assembled-IsFilledIn b' tried (λ out e. try_to_assemble-Follows b' t out e) filled')

put_packet-IsFilledIn :
    (b : PacketBuffer) (p : Packet) → p.seq_num < 2 ^ 16 → IsFilled b → IsFilledIn (put_packet b p)
unfolding put_packet
put_packet-IsFilledIn b p hs filled =
    let p' : Packet = record p { continuous = false } in
    let slots = set b.packet_buffer (p.seq_num % length b.packet_buffer) (some p') in
    let size = length-set b.packet_buffer (p.seq_num % length b.packet_buffer) (some p') in
    assemble-IsFilledIn (record b { packet_buffer = slots }) p.seq_num p.seq_num hs
      (record {
        some_slot = omega (arith, size, filled.some_slot);
        bounded = omega (arith, size, filled.bounded);
        limit = filled.limit;
        placed = put-IsPlaced b.packet_buffer p' filled.some_slot hs filled.placed;
        newest = filled.newest;
      })

put_expanded-IsFilledIn :
    (p : Packet) (out : PacketBuffer × Bool)
    → p.seq_num < 2 ^ 16
    → IsFilled out.0
    → IsFilledIn (put_expanded p out)
unfolding put_expanded IsFilledIn
put_expanded-IsFilledIn p (b, true) hs filled = put_packet-IsFilledIn b p hs filled
put_expanded-IsFilledIn p (b, false) hs filled = clear-IsFilled b filled

-- In a slot that is free, or has some packet.
insert_at-IsFilledIn :
    (b : PacketBuffer) (p : Packet) → p.seq_num < 2 ^ 16 → IsFilled b → IsFilledIn (insert_at b p)
unfolding insert_at IsFilledIn Option.bind
insert_at-IsFilledIn b p hs filled =
    elim (Option-cases (slot b.packet_buffer (p.seq_num % length b.packet_buffer))) [
      | inl free ↦
          let same : insert_at b p ≡ put_packet b p = ground (arith, free) in
          subst IsFilledIn (sym same) (put_packet-IsFilledIn b p hs filled)
      | inr (stored, held) ↦
          let (out, done, filled') = expand_if_necessary-IsFilled b p.seq_num filled in
          elim (ℕ_discrete stored.seq_num p.seq_num) [
            | yes duplicate ↦
                let same : insert_at b p ≡ some (b, no_result) = ground (arith, held, duplicate) in
                subst IsFilledIn (sym same) filled
            | no other ↦
                let same : insert_at b p ≡ put_expanded p out = ground (arith, held, other, done) in
                subst IsFilledIn (sym same) (put_expanded-IsFilledIn p out hs filled')
          ]
    ]

insert_packet-IsFilledIn :
    (b : PacketBuffer) (p : Packet)
    → p.seq_num < 2 ^ 16
    → IsFilled b
    → IsFilledIn (insert_packet b p)
unfolding insert_packet IsFilledIn
insert_packet-IsFilledIn b p hs filled =
    let shape : ℕ → Bool → PacketBuffer =
      λ first received. record b { first_seq_num = first; first_packet_received = received } in
    let at : (first : ℕ) (received : Bool) → IsFilledIn (insert_at (shape first received) p) =
      λ first received.
        insert_at-IsFilledIn (shape first received) p hs
          (updated-IsFilled b (shape first received) refl refl filled.newest filled) in
    if-rule IsFilledIn (not b.first_packet_received) (λ fresh. at p.seq_num true)
      (λ started.
        if-rule IsFilledIn (ahead_of 16 b.first_seq_num p.seq_num)
          (λ older.
            if-rule IsFilledIn b.is_cleared_to_first_seq_num (λ past. filled)
              (λ not_past. at p.seq_num b.first_packet_received))
          (λ newer. insert_at-IsFilledIn b p hs filled))

-- The buffers that any packets, padding and clearing lead to.
pub data Reached : PacketBuffer → Type 0 where
  created :
      (n max_size : ℕ)
      → 0 < n
      → n ≤ max_size
      → max_size < 2 ^ 63
      → Reached (new_packet_buffer n max_size)
  inserted :
      {b : PacketBuffer} (p : Packet) {out : PacketBuffer × InsertResult}
      → Reached b
      → p.seq_num < 2 ^ 16
      → insert_packet b p ≡ some out
      → Reached out.0
  padded :
      {b : PacketBuffer} (s : ℕ) {out : PacketBuffer × InsertResult}
      → Reached b
      → s < 2 ^ 16
      → insert_padding b s ≡ some out
      → Reached out.0
  cleared : {b : PacketBuffer} → Reached b → Reached (clear b)
  cleared_to : {b : PacketBuffer} (s : ℕ) → Reached b → Reached (clear_to b s)

filled-result :
    (result : Option (PacketBuffer × InsertResult)) (out : PacketBuffer × InsertResult)
    → IsFilledIn result
    → result ≡ some out
    → IsFilled out.0
unfolding IsFilledIn
filled-result result out filled e = subst IsFilledIn e filled

-- In every state that a packet buffer reaches from its creation, with a size of at least 1 and at
-- most a maximum below 2 ^ 63, by packets of any codec and padding with 16-bit numbers that are
-- taken in with a result, by clearing and by clearing up to a number, it has at least one slot and
-- at most the maximum, every packet has a number of 16 bits and is in the slot of its number, and
-- the newest number is of 16 bits.
pub packet_buffer-IsFilled : {b : PacketBuffer} → Reached b → IsFilled b
unfolding insert_padding
packet_buffer-IsFilled (created n max_size positive le limit) =
    created-IsFilled n max_size positive le limit
packet_buffer-IsFilled (inserted {b = b} p {out = out} r hs e) =
    filled-result (insert_packet b p) out
      (insert_packet-IsFilledIn b p hs (packet_buffer-IsFilled r)) e
packet_buffer-IsFilled (padded {b = b} s {out = out} r hs e) =
    filled-result (insert_padding b s) out
      (assemble-IsFilledIn b s (next_num s) hs (packet_buffer-IsFilled r)) e
packet_buffer-IsFilled (cleared {b = b} r) = clear-IsFilled b (packet_buffer-IsFilled r)
packet_buffer-IsFilled (cleared_to {b = b} s r) = clear_to-IsFilled b s (packet_buffer-IsFilled r)
