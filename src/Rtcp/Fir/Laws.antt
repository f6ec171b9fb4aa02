-- ===== src/Rtcp/Fir/Laws.antt =====
-- A packed full intra request is read back, is as long as it promised, and the parser stays inside.
use naivertc.Base.{
  ℕ, ◌+◌, ◌-◌, ◌*◌, ◌/◌, ◌%◌, ◌^◌, ◌≤◌, ◌<◌, ◌≡◌, ◌≢◌, refl, arith, ◌∙◌, List, ◌++◌, length, drop,
  length-append, length-drop, ◌==◌, leb, true, false,
}
use naivertc.Bytes.{ok, fault, read32, write_big_endian}
use naivertc.Bytes.Laws.{join32, read32-ok, byte_at-ok}
use naivertc.Rtcp.Packet.{Buffer, build_whole, plain_header, write_with_room}
use naivertc.Rtcp.Packet.Laws.{build_whole-write}
use naivertc.Rtcp.Header.{CommonHeader, receive}
use naivertc.Rtcp.Header.Laws.{receive-plain_header}
use naivertc.Rtcp.Feedback.{IsFeedback, pack_common_feedback}
use naivertc.Rtcp.Feedback.Laws.{
  parse-pack_common_feedback, parse_common_feedback-ne-fault, length-pack_common_feedback,
}
use naivertc.Rtcp.Items.{write_items, All}
use naivertc.Rtcp.Items.Laws.{length-write_items, read-write_items_end, read_items-ne-fault}
use naivertc.Rtcp.Fir.{Request, Fir, read_request, write_request, parse, pack_into, size_of}

abbrev pub IsRequest : Request → Type 0
IsRequest r = (r.ssrc < 2 ^ 32) × (r.seq_nr < 256)

-- What `PackInto` demands, with the ranges of the fields, and a size that the header can hold.
pub record IsFir (f : Fir) : Type 0 where
  pub feedback : IsFeedback f.feedback
  pub media : f.media_ssrc ≡ 0
  pub some_request : 0 < length f.requests
  pub few : length f.requests ≤ 8190
  pub requests : All IsRequest f.requests

width : (r : Request) → length (write_request r) ≡ 8
unfolding write_request write_big_endian
width r = refl

read_back :
    (r : Request) (rest : List ℕ) → IsRequest r → read_request (write_request r ++ rest) ≡ ok r
unfolding read_request write_request write_big_endian read32
read_back r rest h = rw (join32 r.ssrc h.0) (ground arith)

body : Fir → List ℕ
body f = pack_common_feedback f.feedback ++ write_items write_request f.requests

length-body : (f : Fir) → length (body f) ≡ 8 + 8 * length f.requests
unfolding body
length-body f = omega (
  arith,
  length-append (pack_common_feedback f.feedback) (write_items write_request f.requests),
  length-pack_common_feedback f.feedback,
  length-write_items write_request 8 width f.requests,
)

bytes :
    (f : Fir)
    → IsFir f
    → build_whole (pack_into f) (size_of f)
      ≡ plain_header 4 206 (8 + 8 * length f.requests) ++ body f
unfolding pack_into body
bytes f h = build_whole-write (pack_into f) (size_of f) _ shape
  where
    not_empty : (length f.requests == 0) ≡ false
    not_empty = ground (arith, h.some_request)

    unused : (f.media_ssrc == 0) ≡ true
    unused = ground (arith, h.media)

    payload : 8 + 8 * length f.requests ≡ size_of f - 4
    payload = omega arith

    fits : leb (size_of f - 4) 0xffff ≡ true
    fits = ground (arith, h.few)

    shape :
        (b : Buffer)
        → pack_into f false (size_of f) b
          ≡ write_with_room false
              (size_of f)
              (size_of f)
              b
              (plain_header 4 206 (8 + 8 * length f.requests) ++ body f)
    shape b = rw (not_empty, unused, payload, fits) refl

-- A FIR in range with 1 to 8190 requests and no media SSRC, built in a buffer of its own, is
-- parsed back from there.
pub fir-parse-build :
    (f : Fir) → IsFir f → receive parse (build_whole (pack_into f) (size_of f)) ≡ ok f
unfolding parse body pack_common_feedback
fir-parse-build f h = rw (bytes f h) (
    receive-plain_header parse 4 206 (8 + 8 * length f.requests) (body f) (omega arith)
      (omega arith) (omega (arith, h.few)) (omega arith) (length-body f)
    ∙ rw
        (
          large,
          whole,
          count,
          parse-pack_common_feedback f.feedback (write_items write_request f.requests) h.feedback,
          read-write_items_end IsRequest read_request write_request 8 width read_back f.requests
              h.requests,
        )
        refl)
  where
    large : leb (8 + 8) (8 + 8 * length f.requests) ≡ true
    large = ground (arith, h.some_request)

    whole : ((8 + 8 * length f.requests - 8) % 8 == 0) ≡ true
    whole = ground arith

    count : (8 + 8 * length f.requests - 8) / 8 ≡ length f.requests
    count = omega arith

read_request-ne-fault : (p : List ℕ) → 8 ≤ length p → read_request p ≢ fault
unfolding read_request
read_request-ne-fault p h = ground (arith, read32-ok p 0, byte_at-ok p 4)

-- The parser reads nothing outside a payload that is as long as the header says.
pub fir-ne-fault : (h : CommonHeader) → h.payload_size ≤ length h.payload → parse h ≢ fault
unfolding parse
fir-ne-fault h le = ground (
  arith,
  parse_common_feedback-ne-fault h.payload,
  read_items-ne-fault read_request 8 read_request-ne-fault ((h.payload_size - 8) / 8)
      (drop 8 h.payload),
  length-drop {0} 8 h.payload,
)
