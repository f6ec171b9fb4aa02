-- ===== src/Receiver/PacketBuffer/Missing.antt =====
-- UpdateMissingPackets ends, and leaves the slots as they are.
use naivertc.Base.{
  ℕ, zero, suc, ◌+◌, ◌-◌, ◌%◌, ◌^◌, ◌≤◌, ◌<◌, ◌≡◌, ◌≢◌, refl, ap, ◌∙◌, arith, if◌then◌else◌, Bool,
  true, false, Bool-cases, inl, inr, Option, none, some, List, ℕ_discrete,
}
use naivertc.WrapAround.{ahead_of}
use naivertc.Receiver.NackModule.Age.{behind, behind-next, behind-zero, forward_diff-behind}
use naivertc.Receiver.NackModule.Ordered.{put, erase, erase_to_lower_bound}
use naivertc.Receiver.PacketBuffer.Packets.{next_num}
use naivertc.Receiver.PacketBuffer.State.{
  PacketBuffer, itself, insert_missing, newest_or, update_missing_packets, max_missing_packet_count,
}

-- A number is not ahead of itself.
ahead_of-same : (x : ℕ) → ahead_of 16 x x ≡ false
unfolding ahead_of
ahead_of-same x = ground arith

insert_missing-ends :
    (fuel s newest : ℕ) (missing : List ℕ)
    → s < 2 ^ 16
    → newest < 2 ^ 16
    → newest ≢ s
    → behind s newest ≤ fuel
    → (out : ℕ × List ℕ) × (insert_missing fuel s newest missing ≡ some out) × (out.0 < 2 ^ 16)
unfolding insert_missing
insert_missing-ends zero s newest missing hs hn ne le =
    absurd (ne (behind-zero s newest hs hn (omega arith)))
insert_missing-ends (suc fuel) s newest missing hs hn ne le =
    let n = next_num newest in
    let nearer = behind-next s newest hs hn ne in
    elim (ℕ_discrete n s) [
      | yes there ↦
          let stop : ahead_of 16 s n ≡ false = ap (ahead_of 16 s) there ∙ ahead_of-same s in
          ((n, missing), ground (arith, stop), omega arith)
      | no away ↦ elim (Bool-cases (ahead_of 16 s n)) [
        | inl go ↦
            let (out, done, small) =
              insert_missing-ends fuel s n (put itself n missing) hs (omega arith) away
                (omega (arith, nearer)) in
            (out, ground (arith, go, done), small)
        | inr stop ↦ ((n, missing), ground (arith, stop), omega arith)
      ]
    ]

-- The newest number is one of 16 bits.
unfoldable pub HasNewest : Option ℕ → Type 0
HasNewest newest = (n : ℕ) → newest ≡ some n → n < 2 ^ 16

newest_or-small : (s : ℕ) (o : Option ℕ) → s < 2 ^ 16 → HasNewest o → newest_or s o < 2 ^ 16
unfolding newest_or HasNewest
newest_or-small s none hs small = hs
newest_or-small s (some n) hs small = small n refl

HasNewest-some : (m : ℕ) → m < 2 ^ 16 → HasNewest (some m)
unfolding HasNewest
HasNewest-some m small n e = ground (arith, e, small)

-- Where the loop starts.
from-apart :
    (b : Bool) (s newest : ℕ)
    → s < 2 ^ 16
    → newest < 2 ^ 16
    → newest ≢ s
    → let from = if b then (s + 2 ^ 64 - max_missing_packet_count) % 2 ^ 64 % 2 ^ 16 else newest in
      (from ≢ s) × (from < 2 ^ 16)
from-apart true s newest hs small apart = ((λ e. omega (arith, e)), omega arith)
from-apart false s newest hs small apart = (apart, small)

-- It gives a result, with the slots and the other fields the code relies on unchanged.
unfoldable pub IsUpdated : PacketBuffer → Option PacketBuffer → Type 0
IsUpdated b result =
    (b' : PacketBuffer) × (result ≡ some b')
    × (b'.packet_buffer ≡ b.packet_buffer)
    × (b'.max_packet_buffer_size ≡ b.max_packet_buffer_size)
    × HasNewest b'.newest_inserted_seq_num

pub update_missing-IsUpdated :
    (b : PacketBuffer) (s : ℕ)
    → s < 2 ^ 16
    → HasNewest b.newest_inserted_seq_num
    → IsUpdated b (update_missing_packets b s max_missing_packet_count)
unfolding IsUpdated update_missing_packets HasNewest
update_missing-IsUpdated b s hs small =
    let newest = newest_or s b.newest_inserted_seq_num in
    let below = newest_or-small s b.newest_inserted_seq_num hs small in
    let old = (s + 2 ^ 64 - max_missing_packet_count) % 2 ^ 64 % 2 ^ 16 in
    let from = if ahead_of 16 old newest then old else newest in
    let kept = erase_to_lower_bound itself old b.missing_packets in
    elim (Bool-cases (ahead_of 16 s newest)) [
      | inl ahead ↦
          let apart : newest ≢ s =
            λ e. absurd (ground (arith, ahead, ahead_of-same s, ap (ahead_of 16 s) e)) in
          let (ne, small_from) = from-apart (ahead_of 16 old newest) s newest hs below apart in
          let (out, done, small') =
            insert_missing-ends (2 ^ 16) s from kept hs small_from ne
              (omega (arith, (forward_diff-behind s from hs small_from).1)) in
          (
            record b { newest_inserted_seq_num = some out.0; missing_packets = out.1 },
            ground (arith, ahead, done),
            refl,
            refl,
            HasNewest-some out.0 small',
          )
      | inr not_ahead ↦ (
        record b {
          newest_inserted_seq_num = some newest;
          missing_packets = erase itself s b.missing_packets;
        },
        ground (arith, not_ahead),
        refl,
        refl,
        HasNewest-some newest below,
      )
    ]
