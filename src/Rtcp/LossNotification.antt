-- ===== src/Rtcp/LossNotification.antt =====
-- src/rtc/rtp_rtcp/rtcp/packets/loss_notification.hpp and loss_notification.cpp: the last decoded and the
-- last received sequence number, the second on the wire as its distance from the first in 15 bits.
pub mod Laws
use naivertc.Base.{
  ℕ, ◌+◌, ◌-◌, ◌*◌, ◌/◌, ◌%◌, ◌^◌, bit_or, bit_and, ltb, leb, ◌==◌, if◌then◌else◌, Bool, true,
  false, not, List, ◌++◌,
}
use naivertc.Base.Bits.{shl, shr}
use naivertc.Bytes.{
  Outcome, ok, rejected, fault, ◌>>=◌, ◌>>◌, require, read16, read32, write16, write32,
}
use naivertc.Rtcp.Packet.{Buffer, Packed, packed, make_room, with_header, write}
use naivertc.Rtcp.Packet
use naivertc.Rtcp.Header.{CommonHeader}
use naivertc.Rtcp.Feedback.{
  Feedback, common_feedback_size, parse_common_feedback, pack_common_feedback,
}

pub record LossNotification : Type 0 where
  pub feedback : Feedback
  pub last_decoded : ℕ
  pub last_received : ℕ
  pub decodability_flag : Bool

abbrev pub unique_identifier : ℕ
unique_identifier = 0x4C4E5446

abbrev pub loss_notification_payload_size : ℕ
loss_notification_payload_size = 8

-- The difference of two sequence numbers, a `uint16_t`.
abbrev pub delta : ℕ → ℕ → ℕ
delta last_received last_decoded = (last_received + 2 ^ 16 - last_decoded) % 2 ^ 16

-- False, with the object as it was, where the distance needs more than 15 bits.
pub set : LossNotification → ℕ → ℕ → Bool → Bool × LossNotification
set n last_decoded last_received decodability_flag =
    if ltb 0x7fff (delta last_received last_decoded) then (false, n) else (
      true,
      record n {
        last_decoded = last_decoded;
        last_received = last_received;
        decodability_flag = decodability_flag;
      },
    )

abbrev pub size_of : ℕ
size_of = 4 + common_feedback_size + loss_notification_payload_size

abbrev flag_bit : Bool → ℕ
flag_bit true = 1
flag_bit false = 0

pub pack_into : LossNotification → Bool → ℕ → Buffer → Packed
pack_into n has_callback max_size b =
    Packet.◌>>=◌ (make_room 2 has_callback max_size size_of b) λ b.
      with_header 15 206 (size_of - 4) λ header. packed (
        write b (
          header
          ++ (pack_common_feedback n.feedback
              ++ (write32 unique_identifier
                  ++ (write16 n.last_decoded
                      ++ write16 (
                          bit_or (shl (delta n.last_received n.last_decoded) 1 % 2 ^ 16)
                            (flag_bit n.decodability_flag)))))))

-- The type and the format are the caller's to check.
pub parse : CommonHeader → Outcome LossNotification
parse h = do
  require (leb (common_feedback_size + loss_notification_payload_size) h.payload_size)
  id ← read32 h.payload 8
  require (id == unique_identifier)
  feedback ← parse_common_feedback h.payload
  last_decoded ← read16 h.payload 12
  last_received_delta_and_decodability ← read16 h.payload 14
  ok (record {
    feedback = feedback;
    last_decoded = last_decoded;
    last_received = (last_decoded + shr last_received_delta_and_decodability 1) % 2 ^ 16;
    decodability_flag = not (bit_and last_received_delta_and_decodability 1 == 0);
  })
