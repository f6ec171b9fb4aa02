-- ===== src/Rtcp/Report.antt =====
-- src/rtc/rtp_rtcp/rtcp/packets/sender_report.hpp and receiver_report.hpp with their .cpp files, and
-- src/rtc/base/time/ntp_time.hpp for the NTP time of a sender report.
pub mod Laws
use naivertc.Base.{
  ℕ, zero, suc, ◌+◌, ◌-◌, ◌*◌, ◌/◌, ◌%◌, ◌^◌, ltb, leb, ◌==◌, if◌then◌else◌, Bool, true, false,
  Option, none, some, List, [], ◌∷◌, ◌++◌, length, drop,
}
use naivertc.Base.Bits.{shr}
use naivertc.Bytes.{Outcome, ok, rejected, fault, ◌>>=◌, ◌>>◌, require, read32, write32}
use naivertc.Rtcp.Packet.{Buffer, Packed, packed, failed, looping, make_room, with_header, write}
use naivertc.Rtcp.Packet
use naivertc.Rtcp.Header.{CommonHeader}
use naivertc.Rtcp.Items.{read_items}
use naivertc.Rtcp.ReportBlock.{ReportBlock, fixed_report_block_size}
use naivertc.Rtcp.ReportBlock

abbrev pub max_number_of_report_blocks : ℕ
max_number_of_report_blocks = 0x1f

abbrev pub sender_report_base_size : ℕ
sender_report_base_size = 24

abbrev pub receiver_report_base_size : ℕ
receiver_report_base_size = 4

-- `NtpTime`: one number of 64 bits.
abbrev pub ntp_set : ℕ → ℕ → ℕ
ntp_set seconds fractions = seconds * 2 ^ 32 + fractions

abbrev pub ntp_seconds : ℕ → ℕ
ntp_seconds value = value / 2 ^ 32 % 2 ^ 32

abbrev pub ntp_fractions : ℕ → ℕ
ntp_fractions value = value % 2 ^ 32

pub record ReceiverReport : Type 0 where
  pub sender_ssrc : ℕ
  pub report_blocks : List ReportBlock

pub record SenderReport : Type 0 where
  pub report : ReceiverReport
  pub open report use *
  pub ntp : ℕ
  pub rtp_timestamp : ℕ
  pub sender_packet_count : ℕ
  pub sender_octet_count : ℕ

-- The setters of the blocks, the same in both classes.
pub add_report_block : List ReportBlock → ReportBlock → Bool × List ReportBlock
add_report_block blocks block =
    if leb max_number_of_report_blocks (length blocks)
    then (false, blocks)
    else (true, blocks ++ block ∷ [])

pub set_report_blocks : List ReportBlock → List ReportBlock → Bool × List ReportBlock
set_report_blocks old blocks =
    if ltb max_number_of_report_blocks (length blocks) then (false, old) else (true, blocks)

read_block : List ℕ → Outcome ReportBlock
read_block p = ReportBlock.parse p fixed_report_block_size

-- One round: the bytes of the block, if it had room, and what the rest of the loop comes to.
pack_next : Option (List ℕ) → Bool × List ℕ → Bool × List ℕ
pack_next none later = (false, [])
pack_next (some bytes) (done, later) = (done, bytes ++ later)

-- The loop that packs the blocks into the room left: whether all had room, and the bytes written.
pack_blocks : List ReportBlock → ℕ → Bool × List ℕ
unfolding pack_next
pack_blocks [] left = (true, [])
pack_blocks (block ∷ blocks) left =
    pack_next (ReportBlock.pack_into block left)
      (pack_blocks blocks (left - fixed_report_block_size))

pub parse_receiver_report : CommonHeader → Outcome ReceiverReport
unfolding read_block
parse_receiver_report h = do
  require (h.packet_type == 201)
  require
      (leb (receiver_report_base_size + h.count_or_fmt * fixed_report_block_size) h.payload_size)
  sender_ssrc ← read32 h.payload 0
  report_blocks ←
      read_items read_block fixed_report_block_size h.count_or_fmt
        (drop receiver_report_base_size h.payload)
  ok (record { sender_ssrc = sender_ssrc; report_blocks = report_blocks })

pub parse_sender_report : CommonHeader → Outcome SenderReport
unfolding read_block
parse_sender_report h = do
  require (h.packet_type == 200)
  require (leb (sender_report_base_size + h.count_or_fmt * fixed_report_block_size) h.payload_size)
  sender_ssrc ← read32 h.payload 0
  secs ← read32 h.payload 4
  frac ← read32 h.payload 8
  rtp_timestamp ← read32 h.payload 12
  sender_packet_count ← read32 h.payload 16
  sender_octet_count ← read32 h.payload 20
  report_blocks ←
      read_items read_block fixed_report_block_size h.count_or_fmt
        (drop sender_report_base_size h.payload)
  ok (record {
    report = record { sender_ssrc = sender_ssrc; report_blocks = report_blocks };
    ntp = ntp_set secs frac;
    rtp_timestamp = rtp_timestamp;
    sender_packet_count = sender_packet_count;
    sender_octet_count = sender_octet_count;
  })

abbrev pub receiver_report_size : ReceiverReport → ℕ
receiver_report_size r =
    4 + receiver_report_base_size + length r.report_blocks * fixed_report_block_size

abbrev pub sender_report_size : SenderReport → ℕ
sender_report_size r =
    4 + sender_report_base_size + length r.report_blocks * fixed_report_block_size

-- A block without room is passed over here, and fails a sender report.
pub pack_receiver_report : ReceiverReport → Bool → ℕ → Buffer → Packed
unfolding pack_blocks
pack_receiver_report r has_callback max_size b =
    Packet.◌>>=◌ (make_room 2 has_callback max_size (receiver_report_size r) b) λ b.
      with_header (length r.report_blocks) 201 (receiver_report_size r - 4) λ header. packed (
        write b (
          header
          ++ (write32 r.sender_ssrc
              ++ (pack_blocks r.report_blocks
                  (length r.report_blocks * fixed_report_block_size)).1)))

pub pack_sender_report : SenderReport → Bool → ℕ → Buffer → Packed
unfolding pack_blocks
pack_sender_report r has_callback max_size b =
    Packet.◌>>=◌ (make_room 2 has_callback max_size (sender_report_size r) b) λ b.
      with_header (length r.report_blocks) 200 (sender_report_size r - 4) λ header.
        let (done, blocks) =
          pack_blocks r.report_blocks (length r.report_blocks * fixed_report_block_size) in
        let b' = write b (
          header
          ++ (write32 r.sender_ssrc
              ++ (write32 (ntp_seconds r.ntp)
                  ++ (write32 (ntp_fractions r.ntp)
                      ++ (write32 r.rtp_timestamp
                          ++ (write32 r.sender_packet_count
                              ++ (write32 r.sender_octet_count ++ blocks))))))) in
        if done then packed b' else failed b'
