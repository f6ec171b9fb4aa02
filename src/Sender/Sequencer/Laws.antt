-- ===== src/Sender/Sequencer/Laws.antt =====
-- The numbers that a run of packets gets, and where padding stops it.
use mathlib.Core.Option
use naivertc.Base.{ℕ, if◌then◌else◌, Bool, true, false, not, ◌&&◌, Option, some, List, [], ◌∷◌, map}
use naivertc.Base.Int.{ℤ}
use naivertc.Sender.Sequencer.{RtpPacketSequencer, RtpPacketToSend, sequence}
use naivertc.Sender.Sequencer.Step.{on_media, on_rtx, next_of, on_media_padding, allowed_after}

-- The packets in turn, with the sequencer at the end.
pub sequence_all :
    RtpPacketSequencer
    → ℤ
    → List RtpPacketToSend
    → Option (RtpPacketSequencer × List RtpPacketToSend)
sequence_all s now_ms [] = some (s, [])
sequence_all s now_ms (p ∷ ps) =
    Option.bind (sequence s now_ms p)
      (λ done. Option.map (λ rest. (rest.0, done.1 ∷ rest.1)) (sequence_all done.0 now_ms ps))

-- The numbers that two counters give in turn.
unfoldable pub numbering : ℕ → Option ℕ → ℕ → ℕ → List RtpPacketToSend → List ℕ
numbering media_ssrc rtx_ssrc media_next rtx_next [] = []
numbering media_ssrc rtx_ssrc media_next rtx_next (p ∷ ps) =
    if on_media media_ssrc p
    then media_next ∷ numbering media_ssrc rtx_ssrc (next_of media_next) rtx_next ps
    else if on_rtx media_ssrc rtx_ssrc p
    then rtx_next ∷ numbering media_ssrc rtx_ssrc media_next (next_of rtx_next) ps
    else p.sequence_number ∷ numbering media_ssrc rtx_ssrc media_next rtx_next ps

-- Whether each padding packet on the media SSRC comes where it may.
unfoldable pub pads_in_place : Bool → ℕ → Bool → List RtpPacketToSend → Bool
pads_in_place require_marker media_ssrc allowed [] = true
pads_in_place require_marker media_ssrc allowed (p ∷ ps) =
    let next = allowed_after require_marker media_ssrc allowed p in
    let rest = pads_in_place require_marker media_ssrc next ps in
    if on_media_padding media_ssrc p && not allowed then false else rest
