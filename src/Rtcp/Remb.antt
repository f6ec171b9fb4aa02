-- ===== src/Rtcp/Remb.antt =====
-- src/rtc/rtp_rtcp/rtcp/packets/remb.hpp and remb.cpp: receiver estimated maximum bitrate. The bitrate is
-- an int64_t, which is packed as a uint64_t.
pub mod Laws
use naivertc.Base.{
  ℕ, ◌+◌, ◌-◌, ◌*◌, ◌/◌, ◌%◌, ◌^◌, bit_or, bit_and, ltb, leb, ◌==◌, if◌then◌else◌, Bool, true,
  false, Option, none, some, List, [], ◌∷◌, ◌++◌, length, drop,
}
use naivertc.Base.Bits.{shl, shr}
use naivertc.Base.Int.{ℤ, to_uint64, to_int64}
use naivertc.Bytes.{
  Outcome, ok, rejected, fault, ◌>>=◌, ◌>>◌, require, byte_at, read16, read32, write8, write16,
  write32,
}
use naivertc.Rtcp.Packet.{Buffer, Packed, packed, failed, looping, make_room, with_header, write}
use naivertc.Rtcp.Packet
use naivertc.Rtcp.Header.{CommonHeader}
use naivertc.Rtcp.Feedback.{
  Feedback, common_feedback_size, parse_common_feedback, pack_common_feedback,
}
use naivertc.Rtcp.Items.{read_items, write_items}
use naivertc.Rtcp.Mantissa.{normalize}

pub record Remb : Type 0 where
  pub feedback : Feedback
  pub open feedback use *
  pub bitrate_bps : ℤ
  pub ssrcs : List ℕ

abbrev pub max_mantissa : ℕ
max_mantissa = 0x3ffff

abbrev pub unique_identifier : ℕ
unique_identifier = 0x52454d42

-- False, with the object as it was, where the SSRCs are too many.
pub set_ssrcs : Remb → List ℕ → Bool × Remb
set_ssrcs r ssrcs =
    if ltb 0xff (length ssrcs) then (false, r) else (true, record r { ssrcs = ssrcs })

pub size_of : Remb → ℕ
size_of r = 4 + common_feedback_size + (2 + length r.ssrcs) * 4

-- What follows the SSRCs of the feedback: the identifier, the number of SSRCs, the bitrate, the SSRCs.
fields : Remb → ℕ × ℕ → List ℕ
fields r (mantissa, exponent) =
    write32 unique_identifier
    ++ (write8 (length r.ssrcs)
        ++ (write8 (bit_or (shl exponent 2) (shr mantissa 16))
            ++ (write16 (bit_and mantissa 0xffff) ++ write_items write32 r.ssrcs)))

-- The end of `PackInto`, from the bitrate that the loop came to.
finish : Remb → List ℕ → Option (ℕ × ℕ) → Buffer → Packed
unfolding fields
finish r header none b = looping
finish r header (some bitrate) b =
    packed (write b (header ++ (pack_common_feedback r.feedback ++ fields r bitrate)))

pub pack_into : Remb → Bool → ℕ → Buffer → Packed
unfolding size_of finish
pack_into r has_callback max_size b =
    Packet.◌>>=◌ (make_room 2 has_callback max_size (size_of r) b) λ b.
      if r.media_ssrc == 0
      then with_header 15 206 (size_of r - 4)
          (λ header. finish r header (normalize 64 max_mantissa (to_uint64 r.bitrate_bps) 0) b)
      else failed b

read_ssrc : List ℕ → Outcome ℕ
read_ssrc p = read32 p 0

pub parse : CommonHeader → Outcome Remb
unfolding read_ssrc
parse h = do
  require (h.packet_type == 206)
  require (h.count_or_fmt == 15)
  require (leb 16 h.payload_size)
  id ← read32 h.payload 8
  require (unique_identifier == id)
  number_of_ssrcs ← byte_at h.payload 12
  require (h.payload_size == common_feedback_size + (2 + number_of_ssrcs) * 4)
  feedback ← parse_common_feedback h.payload
  first ← byte_at h.payload 13
  let br_exponent = shr first 2
  low ← read16 h.payload 14
  let br_mantissa = bit_or (shl (bit_and first 0x03) 16) low
  let bitrate_bps = to_int64 (shl br_mantissa br_exponent % 2 ^ 64)
  require (shr (to_uint64 bitrate_bps) br_exponent == br_mantissa)
  ssrcs ← read_items read_ssrc 4 number_of_ssrcs (drop 16 h.payload)
  ok (record { feedback = feedback; bitrate_bps = bitrate_bps; ssrcs = ssrcs })
