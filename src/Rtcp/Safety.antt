-- ===== src/Rtcp/Safety.antt =====
-- No parser of a packet reads outside the bytes that it was given, whatever they are.
use naivertc.Base.{ℕ, ◌≢◌, List}
use naivertc.Bytes.{fault}
use naivertc.Rtcp.Header.{receive}
use naivertc.Rtcp.Header.Laws.{receive-ne-fault}
use naivertc.Rtcp.Pli
use naivertc.Rtcp.Pli.Laws.{pli-ne-fault}
use naivertc.Rtcp.Fir
use naivertc.Rtcp.Fir.Laws.{fir-ne-fault}
use naivertc.Rtcp.Remb
use naivertc.Rtcp.Remb.Laws.{remb-ne-fault}
use naivertc.Rtcp.Nack
use naivertc.Rtcp.Nack.Fragments.{nack-ne-fault}
use naivertc.Rtcp.LossNotification
use naivertc.Rtcp.LossNotification.Laws.{loss_notification-ne-fault}
use naivertc.Rtcp.Report.{parse_sender_report, parse_receiver_report}
use naivertc.Rtcp.Report.Laws.{sender_report-ne-fault, receiver_report-ne-fault}
use naivertc.Rtcp.Tmmb.{Tmmb, parse_tmmbr, parse_tmmbn}
use naivertc.Rtcp.Tmmb.Laws.{tmmb-ne-fault}

-- For every sequence of bytes, the header's parser followed by the parser of a NACK, a sender or
-- receiver report, a REMB, a FIR, a PLI, a loss notification, a TMMBR or a TMMBN reads nothing
-- outside the sequence.
pub parsers-ne-fault :
    (buffer : List ℕ) (old : Nack.Nack) (old' : Tmmb)
    → (receive (Nack.parse old) buffer ≢ fault)
      × (receive parse_sender_report buffer ≢ fault)
      × (receive parse_receiver_report buffer ≢ fault)
      × (receive Remb.parse buffer ≢ fault)
      × (receive Fir.parse buffer ≢ fault)
      × (receive Pli.parse buffer ≢ fault)
      × (receive LossNotification.parse buffer ≢ fault)
      × (receive (parse_tmmbr old') buffer ≢ fault)
      × (receive (parse_tmmbn old') buffer ≢ fault)
parsers-ne-fault buffer old old' = (
  receive-ne-fault (Nack.parse old) (nack-ne-fault old) buffer,
  receive-ne-fault parse_sender_report sender_report-ne-fault buffer,
  receive-ne-fault parse_receiver_report receiver_report-ne-fault buffer,
  receive-ne-fault Remb.parse remb-ne-fault buffer,
  receive-ne-fault Fir.parse fir-ne-fault buffer,
  receive-ne-fault Pli.parse pli-ne-fault buffer,
  receive-ne-fault LossNotification.parse loss_notification-ne-fault buffer,
  receive-ne-fault (parse_tmmbr old') (λ h le. (tmmb-ne-fault old' h le).0) buffer,
  receive-ne-fault (parse_tmmbn old') (λ h le. (tmmb-ne-fault old' h le).1) buffer,
)
