-- ===== src/Rtcp/ReportBlock/Laws.antt =====
-- A report block is read back, from any place that has room for it.
use native.Mathlib.Nat.{mod-eq_of_lt}
use naivertc.Base.{
  ◌↔◌, ℕ, ◌+◌, ◌*◌, ◌^◌, ◌≤◌, ◌<◌, ◌≡◌, refl, arith, ltb, true, false, bit_or, some, List, ◌∷◌,
  ◌++◌, length,
}
use naivertc.Base.Int.{ℤ, pos, negsuc}
use naivertc.Base.Bits.{shl}
use naivertc.Bytes.{ok, read32, write8, write32, read_big_endian, read_loop, write_big_endian}
use naivertc.Bytes.Laws.{join32, read32-ok, byte_at-ok}
use naivertc.Bytes.Signed.{read_signed, write_signed, sign_extend, reinterpret_as_signed}
use naivertc.Bytes.Signed.Laws.{InSigned24, read-write_signed}
use naivertc.Rtcp.ReportBlock.{
  ReportBlock, fixed_report_block_size, pack_into, parse, set_cumulative_packet_lost,
}

-- Fields in the ranges of their types, and a loss in 24 bits.
pub record IsReportBlock (r : ReportBlock) : Type 0 where
  pub ssrc : r.source_ssrc < 2 ^ 32
  pub fraction : r.fraction_lost < 256
  pub lost : InSigned24 r.cumulative_packet_lost
  pub highest : r.extended_highest_seq_num < 2 ^ 32
  pub jitter_range : r.jitter < 2 ^ 32
  pub last : r.last_sr_ntp_timestamp < 2 ^ 32
  pub delay : r.delay_since_last_sr < 2 ^ 32

pub write_block : ReportBlock → List ℕ
write_block r =
    write32 r.source_ssrc
    ++ (write8 r.fraction_lost
        ++ (write_signed 3 r.cumulative_packet_lost
            ++ (write32 r.extended_highest_seq_num
                ++ (write32 r.jitter
                    ++ (write32 r.last_sr_ntp_timestamp ++ write32 r.delay_since_last_sr)))))

pub width : (r : ReportBlock) → length (write_block r) ≡ 24
unfolding write_block write_signed write_big_endian
width r = refl

pub pack_into-fits :
    (r : ReportBlock) (size : ℕ) → 24 ≤ size → pack_into r size ≡ some (write_block r)
unfolding pack_into write_block
pack_into-fits r size h = rw (room) refl
  where
    room : ltb size 24 ≡ false
    room = ground arith

signed_at :
    (z : ℤ) (a b c d e : ℕ) (rest : List ℕ)
    → InSigned24 z
    → read_signed 3 (a ∷ b ∷ c ∷ d ∷ e ∷ (write_signed 3 z ++ rest)) 5 ≡ ok z
unfolding read_signed write_signed write_big_endian read_big_endian read_loop
signed_at z a b c d e rest h = read-write_signed z rest h

pub parse-write_block :
    (r : ReportBlock) (rest : List ℕ)
    → IsReportBlock r
    → parse (write_block r ++ rest) fixed_report_block_size ≡ ok r
unfolding parse write_block read32 write_signed write_big_endian
parse-write_block r rest h =
    rw
      (
        signed_at r.cumulative_packet_lost _ _ _ _ _ _ h.lost,
        join32 r.source_ssrc h.ssrc,
        join32 r.extended_highest_seq_num h.highest,
        join32 r.jitter h.jitter_range,
        join32 r.last_sr_ntp_timestamp h.last,
        join32 r.delay_since_last_sr h.delay,
        mod-eq_of_lt h.fraction,
      )
      refl

read_signed-ok : (p : List ℕ) (i : ℕ) → i + 3 ≤ length p → (z : ℤ) × (read_signed 3 p i ≡ ok z)
unfolding read_signed read_big_endian read_loop
read_signed-ok p i h =
    let (a, ea) = byte_at-ok p i (omega arith) in
    let (b, eb) = byte_at-ok p (i + 1) (omega arith) in
    let (c, ec) = byte_at-ok p (i + 1 + 1) (omega arith) in
    (
      reinterpret_as_signed (
          sign_extend 3
            (bit_or (bit_or (bit_or 0 (shl a (2 * 8))) (shl b (1 * 8))) (shl c (0 * 8)))),
      rw (ea, eb, ec) refl,
    )

pub parse-ok : (p : List ℕ) → 24 ≤ length p → (r : ReportBlock) × (parse p 24 ≡ ok r)
unfolding parse
parse-ok p h =
    let (a, ea) = read32-ok p 0 (omega arith) in
    let (b, eb) = byte_at-ok p 4 (omega arith) in
    let (c, ec) = read_signed-ok p 5 (omega arith) in
    let (d, ed) = read32-ok p 8 (omega arith) in
    let (e, ee) = read32-ok p 12 (omega arith) in
    let (f, ef) = read32-ok p 16 (omega arith) in
    let (g, eg) = read32-ok p 20 (omega arith) in
    (
      record {
        source_ssrc = a;
        fraction_lost = b;
        cumulative_packet_lost = c;
        extended_highest_seq_num = d;
        jitter = e;
        last_sr_ntp_timestamp = f;
        delay_since_last_sr = g;
      },
      rw (ea, eb, ec, ed, ee, ef, eg) refl,
    )

-- The setter of the cumulative loss accepts exactly the numbers that 24 bits with a sign hold.
pub set_cumulative_packet_lost-accepts :
    (r : ReportBlock) (z : ℤ) → ((set_cumulative_packet_lost r z).0 ≡ true) ↔ InSigned24 z
unfolding set_cumulative_packet_lost
set_cumulative_packet_lost-accepts r (pos n) = ground arith
set_cumulative_packet_lost-accepts r (negsuc n) = ground arith
