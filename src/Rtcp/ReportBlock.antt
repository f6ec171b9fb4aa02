-- ===== src/Rtcp/ReportBlock.antt =====
-- src/rtc/rtp_rtcp/rtcp/packets/report_block.hpp and report_block.cpp: reception statistics on one source.
pub mod Laws
use naivertc.Base.{
  ℕ, ◌+◌, ◌-◌, ◌*◌, ◌/◌, ◌%◌, ◌^◌, ltb, leb, if◌then◌else◌, Bool, true, false, not, ◌||◌, Option,
  none, some, List, [], ◌∷◌, ◌++◌,
}
use naivertc.Base.Int.{ℤ, pos, negsuc, ltb_ℤ}
use naivertc.Base.Bits.{shr}
use naivertc.Bytes.{
  Outcome, ok, rejected, fault, ◌>>=◌, ◌>>◌, require, byte_at, read32, write8, write32,
}
use naivertc.Bytes.Signed.{read_signed, write_signed}

pub record ReportBlock : Type 0 where
  pub source_ssrc : ℕ
  pub fraction_lost : ℕ
  pub cumulative_packet_lost : ℤ
  pub extended_highest_seq_num : ℕ
  pub jitter : ℕ
  pub last_sr_ntp_timestamp : ℕ
  pub delay_since_last_sr : ℕ

abbrev pub fixed_report_block_size : ℕ
fixed_report_block_size = 24

-- The bytes that it writes, or nothing where the room is too small.
unfoldable pub pack_into : ReportBlock → ℕ → Option (List ℕ)
pack_into r size =
    if ltb size fixed_report_block_size
    then none
    else some (
        write32 r.source_ssrc
        ++ (write8 r.fraction_lost
            ++ (write_signed 3 r.cumulative_packet_lost
                ++ (write32 r.extended_highest_seq_num
                    ++ (write32 r.jitter
                        ++ (write32 r.last_sr_ntp_timestamp ++ write32 r.delay_since_last_sr))))))

unfoldable pub parse : List ℕ → ℕ → Outcome ReportBlock
parse buffer size = do
  require (leb fixed_report_block_size size)
  source_ssrc ← read32 buffer 0
  fraction_lost ← byte_at buffer 4
  cumulative_packet_lost ← read_signed 3 buffer 5
  extended_highest_seq_num ← read32 buffer 8
  jitter ← read32 buffer 12
  last_sr_ntp_timestamp ← read32 buffer 16
  delay_since_last_sr ← read32 buffer 20
  ok (record {
    source_ssrc = source_ssrc;
    fraction_lost = fraction_lost;
    cumulative_packet_lost = cumulative_packet_lost;
    extended_highest_seq_num = extended_highest_seq_num;
    jitter = jitter;
    last_sr_ntp_timestamp = last_sr_ntp_timestamp;
    delay_since_last_sr = delay_since_last_sr;
  })

-- Values that 24 bits cannot hold are refused.
pub set_cumulative_packet_lost : ReportBlock → ℤ → Bool × ReportBlock
set_cumulative_packet_lost r cumulative_lost =
    if not (ltb_ℤ cumulative_lost (pos (2 ^ 23))) || ltb_ℤ cumulative_lost (negsuc (2 ^ 23 - 1))
    then (false, r)
    else (true, record r { cumulative_packet_lost = cumulative_lost })

pub sequence_num_cycles : ReportBlock → ℕ
sequence_num_cycles r = shr r.extended_highest_seq_num 16 % 2 ^ 16

pub highest_seq_num : ReportBlock → ℕ
highest_seq_num r = r.extended_highest_seq_num % 2 ^ 16
