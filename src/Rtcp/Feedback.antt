-- ===== src/Rtcp/Feedback.antt =====
-- src/rtc/rtp_rtcp/rtcp/packets/psfb.cpp and rtpfb.cpp: the two SSRCs that open the payload of a feedback
-- message.
pub mod Laws
use naivertc.Base.{
  ℕ, ◌<◌, ◌^◌, leb, if◌then◌else◌, Option, none, some, List, [], ◌∷◌, ◌++◌, ◌≡◌, refl,
}
use naivertc.Bytes.{Outcome, ok, fault, ◌>>=◌, read32, write32}

pub record Feedback : Type 0 where
  pub sender_ssrc : ℕ
  pub media_ssrc : ℕ

abbrev pub common_feedback_size : ℕ
common_feedback_size = 8

-- The payload-specific kind.
unfoldable pub parse_common_feedback : List ℕ → Outcome Feedback
parse_common_feedback payload = do
  sender ← read32 payload 0
  media ← read32 payload 4
  ok (record { sender_ssrc = sender; media_ssrc = media })

unfoldable pub pack_common_feedback : Feedback → List ℕ
pack_common_feedback f = write32 f.sender_ssrc ++ write32 f.media_ssrc

-- The transport kind checks the size given. The fields stay as they were where it is too small.
unfoldable pub rtpfb_parse : Feedback → List ℕ → ℕ → Outcome Feedback
unfolding parse_common_feedback
rtpfb_parse old payload size =
    if leb common_feedback_size size then parse_common_feedback payload else ok old

unfoldable pub rtpfb_pack : Feedback → ℕ → List ℕ
unfolding pack_common_feedback
rtpfb_pack f size = if leb common_feedback_size size then pack_common_feedback f else []

abbrev pub IsFeedback : Feedback → Type 0
IsFeedback f = (f.sender_ssrc < 2 ^ 32) × (f.media_ssrc < 2 ^ 32)
