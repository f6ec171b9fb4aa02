-- ===== src/Rtcp/Report/Laws.antt =====
-- Sender and receiver reports are read back, block by block, and their parsers stay inside.
use naivertc.Base.{
  ℕ, ◌+◌, ◌-◌, ◌*◌, ◌^◌, ◌≤◌, ◌<◌, ◌≡◌, ◌≢◌, refl, arith, ◌∙◌, List, [], ◌∷◌, ◌++◌, length, drop,
  length-drop, leb, true, false,
}
use naivertc.Bytes.{ok, fault, read32, write32}
use naivertc.Bytes.Laws.{join32, read32-ok}
use naivertc.Rtcp.Packet.{Buffer, build_whole, plain_header, write_with_room}
use naivertc.Rtcp.Packet.Laws.{build_whole-write}
use naivertc.Rtcp.Header.{CommonHeader, receive}
use naivertc.Rtcp.Header.Laws.{receive-plain_header}
use naivertc.Rtcp.Items.{read_items, write_items, All}
use naivertc.Rtcp.Items.Laws.{length-write_items, read-write_items_end, read_items-ne-fault}
use naivertc.Rtcp.ReportBlock.{ReportBlock}
use naivertc.Rtcp.ReportBlock.Laws.{
  IsReportBlock, write_block, width, pack_into-fits, parse-write_block, parse-ok,
}
use naivertc.Rtcp.Report.{
  ReceiverReport, SenderReport, read_block, pack_blocks, pack_next, parse_receiver_report,
  parse_sender_report, receiver_report_size, sender_report_size, pack_receiver_report,
  pack_sender_report, ntp_set, ntp_seconds, ntp_fractions,
}

pub record IsReceiverReport (r : ReceiverReport) : Type 0 where
  pub ssrc : r.sender_ssrc < 2 ^ 32
  pub few : length r.report_blocks < 32
  pub blocks : All IsReportBlock r.report_blocks

pub record IsSenderReport (r : SenderReport) : Type 0 where
  pub common : IsReceiverReport r.report
  pub ntp_range : r.ntp < 2 ^ 64
  pub timestamp : r.rtp_timestamp < 2 ^ 32
  pub packets : r.sender_packet_count < 2 ^ 32
  pub octets : r.sender_octet_count < 2 ^ 32

pack_blocks-fits :
    (blocks : List ReportBlock) (left : ℕ)
    → length blocks * 24 ≤ left
    → pack_blocks blocks left ≡ (true, write_items write_block blocks)
unfolding pack_blocks pack_next write_items
pack_blocks-fits [] left h = refl
pack_blocks-fits (block ∷ blocks) left h =
    rw (pack_into-fits block left (omega arith), pack_blocks-fits blocks (left - 24) (omega arith))
      refl

length-blocks :
    (blocks : List ReportBlock) → length (write_items write_block blocks) ≡ 24 * length blocks
length-blocks blocks = length-write_items write_block 24 width blocks

read_back :
    (r : ReportBlock) (rest : List ℕ) → IsReportBlock r → read_block (write_block r ++ rest) ≡ ok r
unfolding read_block
read_back r rest h = parse-write_block r rest h

read-blocks :
    (blocks : List ReportBlock)
    → All IsReportBlock blocks
    → read_items read_block 24 (length blocks) (write_items write_block blocks) ≡ ok blocks
read-blocks blocks h =
    read-write_items_end IsReportBlock read_block write_block 24 width read_back blocks h

receiver_body : ReceiverReport → List ℕ
receiver_body r = write32 r.sender_ssrc ++ write_items write_block r.report_blocks

receiver_bytes :
    (r : ReceiverReport)
    → length r.report_blocks < 32
    → build_whole (pack_receiver_report r) (receiver_report_size r)
      ≡ plain_header (length r.report_blocks) 201 (4 + length r.report_blocks * 24)
        ++ receiver_body r
unfolding pack_receiver_report receiver_body
receiver_bytes r few = build_whole-write (pack_receiver_report r) (receiver_report_size r) _ shape
  where
    payload : 4 + length r.report_blocks * 24 ≡ receiver_report_size r - 4
    payload = omega arith

    fits : leb (receiver_report_size r - 4) 0xffff ≡ true
    fits = ground (arith, few)

    count : leb (length r.report_blocks) 0x1f ≡ true
    count = ground (arith, few)

    shape :
        (b : Buffer)
        → pack_receiver_report r false (receiver_report_size r) b
          ≡ write_with_room false (receiver_report_size r) (receiver_report_size r) b (
              plain_header (length r.report_blocks) 201 (4 + length r.report_blocks * 24)
              ++ receiver_body r)
    shape b =
        rw
          (
            pack_blocks-fits r.report_blocks (length r.report_blocks * 24) (omega arith),
            payload,
            fits,
            count,
          )
          refl

-- A receiver report in range with at most 31 blocks, built in a buffer of its own, is parsed back
-- from there.
pub receiver_report-parse-build :
    (r : ReceiverReport)
    → IsReceiverReport r
    → receive parse_receiver_report (build_whole (pack_receiver_report r) (receiver_report_size r))
      ≡ ok r
unfolding parse_receiver_report receiver_body read32
receiver_report-parse-build r h = rw (receiver_bytes r h.few) (
    receive-plain_header parse_receiver_report (length r.report_blocks) 201
      (4 + length r.report_blocks * 24) (receiver_body r) h.few (omega arith) (omega (arith, h.few))
      (omega arith) (omega (arith, length-blocks r.report_blocks))
    ∙ rw (large, join32 r.sender_ssrc h.ssrc, read-blocks r.report_blocks h.blocks) refl)
  where
    large : leb (4 + length r.report_blocks * 24) (4 + length r.report_blocks * 24) ≡ true
    large = ground arith

sender_body : SenderReport → List ℕ
sender_body r =
    write32 r.sender_ssrc
    ++ (write32 (ntp_seconds r.ntp)
        ++ (write32 (ntp_fractions r.ntp)
            ++ (write32 r.rtp_timestamp
                ++ (write32 r.sender_packet_count
                    ++ (write32 r.sender_octet_count ++ write_items write_block r.report_blocks)))))

sender_bytes :
    (r : SenderReport)
    → length r.report_blocks < 32
    → build_whole (pack_sender_report r) (sender_report_size r)
      ≡ plain_header (length r.report_blocks) 200 (24 + length r.report_blocks * 24)
        ++ sender_body r
unfolding pack_sender_report sender_body
sender_bytes r few = build_whole-write (pack_sender_report r) (sender_report_size r) _ shape
  where
    payload : 24 + length r.report_blocks * 24 ≡ sender_report_size r - 4
    payload = omega arith

    fits : leb (sender_report_size r - 4) 0xffff ≡ true
    fits = ground (arith, few)

    count : leb (length r.report_blocks) 0x1f ≡ true
    count = ground (arith, few)

    shape :
        (b : Buffer)
        → pack_sender_report r false (sender_report_size r) b
          ≡ write_with_room false (sender_report_size r) (sender_report_size r) b (
              plain_header (length r.report_blocks) 200 (24 + length r.report_blocks * 24)
              ++ sender_body r)
    shape b =
        rw
          (
            pack_blocks-fits r.report_blocks (length r.report_blocks * 24) (omega arith),
            payload,
            fits,
            count,
          )
          refl

-- A sender report in range with at most 31 blocks, built in a buffer of its own, is parsed back
-- from there.
pub sender_report-parse-build :
    (r : SenderReport)
    → IsSenderReport r
    → receive parse_sender_report (build_whole (pack_sender_report r) (sender_report_size r)) ≡ ok r
unfolding parse_sender_report sender_body read32
sender_report-parse-build r h = rw (sender_bytes r h.common.few) (
    receive-plain_header parse_sender_report (length r.report_blocks) 200
      (24 + length r.report_blocks * 24) (sender_body r) h.common.few (omega arith)
      (omega (arith, h.common.few)) (omega arith) (omega (arith, length-blocks r.report_blocks))
    ∙ rw
        (
          large,
          join32 r.sender_ssrc h.common.ssrc,
          join32 (ntp_seconds r.ntp) (omega arith),
          join32 (ntp_fractions r.ntp) (omega arith),
          join32 r.rtp_timestamp h.timestamp,
          join32 r.sender_packet_count h.packets,
          join32 r.sender_octet_count h.octets,
          read-blocks r.report_blocks h.common.blocks,
          halves,
        )
        refl)
  where
    large : leb (24 + length r.report_blocks * 24) (24 + length r.report_blocks * 24) ≡ true
    large = ground arith

    halves : ntp_set (ntp_seconds r.ntp) (ntp_fractions r.ntp) ≡ r.ntp
    halves = omega (arith, h.ntp_range)

read_block-ne-fault : (p : List ℕ) → 24 ≤ length p → read_block p ≢ fault
unfolding read_block
read_block-ne-fault p h = ground (arith, parse-ok p h)

-- The parser of a receiver report reads nothing outside a payload that is as long as the header says.
pub receiver_report-ne-fault :
    (h : CommonHeader) → h.payload_size ≤ length h.payload → parse_receiver_report h ≢ fault
unfolding parse_receiver_report
receiver_report-ne-fault h le = ground (
  arith,
  read32-ok h.payload 0,
  read_items-ne-fault read_block 24 read_block-ne-fault h.count_or_fmt (drop 4 h.payload),
  length-drop {0} 4 h.payload,
)

-- The parser of a sender report reads nothing outside a payload that is as long as the header says.
pub sender_report-ne-fault :
    (h : CommonHeader) → h.payload_size ≤ length h.payload → parse_sender_report h ≢ fault
unfolding parse_sender_report
sender_report-ne-fault h le = ground (
  arith,
  read32-ok h.payload 0,
  read32-ok h.payload 4,
  read32-ok h.payload 8,
  read32-ok h.payload 12,
  read32-ok h.payload 16,
  read32-ok h.payload 20,
  read_items-ne-fault read_block 24 read_block-ne-fault h.count_or_fmt (drop 24 h.payload),
  length-drop {0} 24 h.payload,
)
