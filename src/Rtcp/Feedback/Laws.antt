-- ===== src/Rtcp/Feedback/Laws.antt =====
-- The SSRCs of a feedback message are read back.
use naivertc.Base.{ℕ, ◌≤◌, ◌≡◌, ◌≢◌, refl, arith, List, ◌++◌, length}
use naivertc.Bytes.{ok, fault, read32}
use naivertc.Bytes.Laws.{join32, read32-ok}
use naivertc.Rtcp.Feedback.{Feedback, IsFeedback, parse_common_feedback, pack_common_feedback}

pub parse-pack_common_feedback :
    (f : Feedback) (rest : List ℕ)
    → IsFeedback f
    → parse_common_feedback (pack_common_feedback f ++ rest) ≡ ok f
unfolding parse_common_feedback pack_common_feedback read32
parse-pack_common_feedback f rest h = rw (join32 f.sender_ssrc h.0, join32 f.media_ssrc h.1) refl

pub length-pack_common_feedback : (f : Feedback) → length (pack_common_feedback f) ≡ 8
unfolding pack_common_feedback
length-pack_common_feedback f = refl

pub parse_common_feedback-ne-fault : (p : List ℕ) → 8 ≤ length p → parse_common_feedback p ≢ fault
unfolding parse_common_feedback
parse_common_feedback-ne-fault p h = ground (arith, read32-ok p 0, read32-ok p 4)
