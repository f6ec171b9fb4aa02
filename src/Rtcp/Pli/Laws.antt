-- ===== src/Rtcp/Pli/Laws.antt =====
-- A packed picture loss indication is read back.
use naivertc.Base.{◌≡◌, refl, arith, ◌∙◌, ◌++◌, [], ◌≤◌, ◌≢◌, length}
use naivertc.Bytes.{ok, fault}
use naivertc.Rtcp.Packet.{build_whole, plain_header}
use naivertc.Rtcp.Packet.Laws.{build_whole-write}
use naivertc.Rtcp.Header.{CommonHeader, receive}
use naivertc.Rtcp.Header.Laws.{receive-plain_header}
use naivertc.Rtcp.Feedback.{Feedback, IsFeedback, pack_common_feedback}
use naivertc.Rtcp.Feedback.Laws.{parse-pack_common_feedback, parse_common_feedback-ne-fault}
use naivertc.Rtcp.Pli.{parse, pack_into, size_of}

bytes :
    (f : Feedback)
    → build_whole (pack_into f) size_of ≡ plain_header 1 206 8 ++ pack_common_feedback f
unfolding pack_into
bytes f = build_whole-write (pack_into f) size_of _ (λ b. refl)

-- A PLI with SSRCs of 32 bits, built in a buffer of its own, is parsed back from there.
pub pli-parse-build :
    (f : Feedback) → IsFeedback f → receive parse (build_whole (pack_into f) size_of) ≡ ok f
unfolding parse pack_common_feedback
pli-parse-build f h = rw (bytes f) (
    receive-plain_header parse 1 206 8 (pack_common_feedback f) (omega arith) (omega arith)
      (omega arith) refl refl
    ∙ parse-pack_common_feedback f [] h)

-- The parser reads nothing outside a payload that is as long as the header says.
pub pli-ne-fault : (h : CommonHeader) → h.payload_size ≤ length h.payload → parse h ≢ fault
unfolding parse
pli-ne-fault h le = ground (arith, parse_common_feedback-ne-fault h.payload)
