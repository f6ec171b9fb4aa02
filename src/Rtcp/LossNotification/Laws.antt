-- ===== src/Rtcp/LossNotification/Laws.antt =====
-- A loss notification that was set is read back.
use naivertc.Base.{
  ℕ, ◌+◌, ◌-◌, ◌*◌, ◌/◌, ◌%◌, ◌^◌, ◌≤◌, ◌<◌, ◌≡◌, ◌≢◌, refl, ap, arith, ◌∙◌, bit_or, bit_and, ◌==◌,
  Bool, true, false, not, List, ◌++◌, length,
}
use naivertc.Base.Bits.{shl, bit_or-shl, bit_and-mask}
use naivertc.Bytes.{ok, fault, read16, read32, write16, write32}
use naivertc.Bytes.Laws.{join16, read16-ok, read32-ok}
use naivertc.Rtcp.Packet.{build_whole, plain_header}
use naivertc.Rtcp.Packet.Laws.{build_whole-write}
use naivertc.Rtcp.Header.{CommonHeader, receive}
use naivertc.Rtcp.Header.Laws.{receive-plain_header}
use naivertc.Rtcp.Feedback.{IsFeedback, pack_common_feedback}
use naivertc.Rtcp.Feedback.Laws.{parse-pack_common_feedback, parse_common_feedback-ne-fault}
use naivertc.Rtcp.LossNotification.{
  LossNotification, unique_identifier, delta, size_of, flag_bit, pack_into, parse,
}

-- What `set` accepts, with the SSRCs in range.
pub record IsLossNotification (n : LossNotification) : Type 0 where
  pub feedback : IsFeedback n.feedback
  pub decoded : n.last_decoded < 2 ^ 16
  pub received : n.last_received < 2 ^ 16
  pub near : delta n.last_received n.last_decoded < 2 ^ 15

body : LossNotification → List ℕ
body n =
    pack_common_feedback n.feedback
    ++ (write32 unique_identifier
        ++ (write16 n.last_decoded
            ++ write16 (
                bit_or (shl (delta n.last_received n.last_decoded) 1 % 2 ^ 16)
                  (flag_bit n.decodability_flag))))

bytes :
    (n : LossNotification) → build_whole (pack_into n) size_of ≡ plain_header 15 206 16 ++ body n
unfolding pack_into body
bytes n = build_whole-write (pack_into n) size_of _ (λ b. refl)

-- The flag rides on the distance.
joined : ℕ → Bool → ℕ
joined d flag = bit_or (shl d 1 % 2 ^ 16) (flag_bit flag)

joined-eq : (d : ℕ) (flag : Bool) → d < 2 ^ 15 → joined d flag ≡ d * 2 + flag_bit flag
unfolding joined
joined-eq d flag h =
    ap (λ (t : ℕ). bit_or t (flag_bit flag)) whole ∙ bit_or-shl 1 d (flag_bit flag) (small flag)
  where
    whole : d * 2 ^ 1 % 2 ^ 16 ≡ d * 2 ^ 1
    whole = omega arith

    small : (flag : Bool) → flag_bit flag < 2 ^ 1
    small true = omega arith
    small false = omega arith

joined-apart :
    (d : ℕ) (flag : Bool)
    → d < 2 ^ 15
    → (joined d flag < 2 ^ 16)
      × (joined d flag / 2 ≡ d)
      × (not (bit_and (joined d flag) 1 == 0) ≡ flag)
joined-apart d true h =
    rw (joined-eq d true h, bit_and-mask 1 (d * 2 + 1)) (omega arith, omega arith, ground arith)
joined-apart d false h =
    rw (joined-eq d false h, bit_and-mask 1 (d * 2 + 0)) (omega arith, omega arith, ground arith)

-- A loss notification whose last received number is less than 2 ^ 15 ahead of the last decoded
-- one, fields in range, built in a buffer of its own, is parsed back from there.
pub loss_notification-parse-build :
    (n : LossNotification)
    → IsLossNotification n
    → receive parse (build_whole (pack_into n) size_of) ≡ ok n
unfolding parse body pack_common_feedback read32 read16 joined
loss_notification-parse-build n h = rw (bytes n) (
    receive-plain_header parse 15 206 16 (body n) (omega arith) (omega arith) (omega arith) refl
      refl
    ∙ rw
        (
          parse-pack_common_feedback n.feedback _ h.feedback,
          join16 n.last_decoded h.decoded,
          join16 (joined (delta n.last_received n.last_decoded) n.decodability_flag) apart.0,
          apart.1,
          apart.2,
          back,
        )
        refl)
  where
    apart :
        let j = joined (delta n.last_received n.last_decoded) n.decodability_flag in
        (j < 2 ^ 16)
        × (j / 2 ≡ delta n.last_received n.last_decoded)
        × (not (bit_and j 1 == 0) ≡ n.decodability_flag)
    apart = joined-apart (delta n.last_received n.last_decoded) n.decodability_flag h.near

    back :
        (n.last_decoded + (n.last_received + 2 ^ 16 - n.last_decoded) % 2 ^ 16) % 2 ^ 16
        ≡ n.last_received
    back = omega (arith, h.decoded, h.received)

-- The parser reads nothing outside a payload that is as long as the header says.
pub loss_notification-ne-fault :
    (h : CommonHeader) → h.payload_size ≤ length h.payload → parse h ≢ fault
unfolding parse
loss_notification-ne-fault h le = ground (
  arith,
  read32-ok h.payload 8,
  read16-ok h.payload 12,
  read16-ok h.payload 14,
  parse_common_feedback-ne-fault h.payload,
)
