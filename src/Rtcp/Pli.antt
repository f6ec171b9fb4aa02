-- ===== src/Rtcp/Pli.antt =====
-- src/rtc/rtp_rtcp/rtcp/packets/pli.cpp: picture loss indication.
pub mod Laws
use naivertc.Base.{ℕ, ◌+◌, ◌-◌, leb, ◌==◌, Bool, ◌++◌}
use naivertc.Bytes.{Outcome, ok, rejected, fault, ◌>>=◌, ◌>>◌, require}
use naivertc.Rtcp.Packet.{Buffer, Packed, packed, make_room, with_header, write}
use naivertc.Rtcp.Packet
use naivertc.Rtcp.Header.{CommonHeader}
use naivertc.Rtcp.Feedback.{
  Feedback, common_feedback_size, parse_common_feedback, pack_common_feedback,
}

pub parse : CommonHeader → Outcome Feedback
parse h = do
  require (h.packet_type == 206)
  require (h.count_or_fmt == 1)
  require (leb common_feedback_size h.payload_size)
  parse_common_feedback h.payload

abbrev pub size_of : ℕ
size_of = 4 + common_feedback_size

pub pack_into : Feedback → Bool → ℕ → Buffer → Packed
pack_into f has_callback max_size b =
    Packet.◌>>=◌ (make_room 2 has_callback max_size size_of b) λ b.
      with_header 1 206 (size_of - 4) λ header. packed (write b (header ++ pack_common_feedback f))
