-- ===== src/Rtcp/Fir.antt =====
-- src/rtc/rtp_rtcp/rtcp/packets/fir.hpp and fir.cpp: full intra request.
pub mod Laws
use naivertc.Base.{
  ℕ, ◌+◌, ◌-◌, ◌*◌, ◌/◌, ◌%◌, ◌^◌, ◌<◌, leb, ◌==◌, if◌then◌else◌, Bool, List, [], ◌∷◌, ◌++◌, length,
  drop,
}
use naivertc.Bytes.{
  Outcome, ok, rejected, fault, ◌>>=◌, ◌>>◌, require, byte_at, read32, write8, write32,
  write_big_endian,
}
use naivertc.Rtcp.Packet.{Buffer, Packed, packed, failed, make_room, with_header, write}
use naivertc.Rtcp.Packet
use naivertc.Rtcp.Header.{CommonHeader}
use naivertc.Rtcp.Feedback.{
  Feedback, common_feedback_size, parse_common_feedback, pack_common_feedback,
}
use naivertc.Rtcp.Items.{read_items, write_items}

pub record Request : Type 0 where
  pub ssrc : ℕ
  pub seq_nr : ℕ

pub record Fir : Type 0 where
  pub feedback : Feedback
  pub open feedback use *
  pub requests : List Request

pub add_request_to : Fir → ℕ → ℕ → Fir
add_request_to f ssrc seq_num = record f {
  requests = f.requests ++ record { ssrc = ssrc; seq_nr = seq_num } ∷ [];
}

read_request : List ℕ → Outcome Request
read_request p = do
  ssrc ← read32 p 0
  seq_nr ← byte_at p 4
  ok (record { ssrc = ssrc; seq_nr = seq_nr })

write_request : Request → List ℕ
write_request r = write32 r.ssrc ++ (write8 r.seq_nr ++ write_big_endian 3 0)

pub parse : CommonHeader → Outcome Fir
parse h = do
  require (h.packet_type == 206)
  require (h.count_or_fmt == 4)
  require (leb (common_feedback_size + 8) h.payload_size)
  require ((h.payload_size - common_feedback_size) % 8 == 0)
  feedback ← parse_common_feedback h.payload
  requests ←
      read_items read_request 8 ((h.payload_size - common_feedback_size) / 8)
        (drop common_feedback_size h.payload)
  ok (record { feedback = feedback; requests = requests })

pub size_of : Fir → ℕ
size_of f = 4 + common_feedback_size + 8 * length f.requests

pub pack_into : Fir → Bool → ℕ → Buffer → Packed
unfolding size_of
pack_into f has_callback max_size b =
    if length f.requests == 0
    then failed b
    else (Packet.◌>>=◌ (make_room 2 has_callback max_size (size_of f) b) λ b.
        if f.media_ssrc == 0
        then with_header 4 206 (size_of f - 4) (λ header. packed (
            write b (
              header ++ (pack_common_feedback f.feedback ++ write_items write_request f.requests))))
        else failed b)
