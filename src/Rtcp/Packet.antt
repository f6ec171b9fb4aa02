-- ===== src/Rtcp/Packet.antt =====
-- src/rtc/rtp_rtcp/rtcp/rtcp_packet.hpp and rtcp_packet.cpp: what every RTCP packet shares.
-- `buffer[0 .. *index)` is the list `bytes`: each packet writes from `*index` on, with no gap, and moves
-- `*index` past what it wrote. `sent` lists what went to the callback, oldest first.
pub mod Laws
use naivertc.Base.{
  ℕ, zero, suc, ◌+◌, ◌-◌, ◌*◌, ◌/◌, ◌%◌, bit_or, bit_and, leb, ◌==◌, if◌then◌else◌, Bool, true,
  false, List, [], ◌∷◌, ◌++◌, length,
}
use naivertc.Base.Bits.{shl, shr}
use naivertc.Bytes.{u8}

pub record Buffer : Type 0 where
  pub sent : List (List ℕ)
  pub bytes : List ℕ

-- `PackInto` returns true or false, and in both cases leaves a buffer; `looping` is a loop that has not
-- ended within its fuel, `asserted` an assertion that failed.
pub data Packed : Type 0 where
  packed : Buffer → Packed
  failed : Buffer → Packed
  looping : Packed
  asserted : Packed

infixl 5 ◌>>=◌
abbrev pub ◌>>=◌ : Packed → (Buffer → Packed) → Packed
packed b >>= f = f b
failed b >>= f = failed b
looping >>= f = looping
asserted >>= f = asserted

abbrev pub rtcp_common_header_size : ℕ
rtcp_common_header_size = 4

abbrev pub write : Buffer → List ℕ → Buffer
write b bs = record b { bytes = b.bytes ++ bs }

-- `has_callback` says whether the caller gave a callback.
unfoldable pub on_buffer_full : Bool → Buffer → Bool × Buffer
on_buffer_full has_callback b =
    if length b.bytes == 0
    then (false, b)
    else if has_callback
    then (true, record { sent = b.sent ++ b.bytes ∷ []; bytes = [] })
    else (false, b)

-- `while (*index + size > max_size) if (!OnBufferFull(…)) return false;`, which opens `PackInto` of most
-- packets.
unfoldable pub make_room : ℕ → Bool → ℕ → ℕ → Buffer → Packed
unfolding on_buffer_full
make_room zero has_callback max_size size b = looping
make_room (suc fuel) has_callback max_size size b =
    let (done, b') = on_buffer_full has_callback b in
    let again = make_room fuel has_callback max_size size b' in
    if leb (length b.bytes + size) max_size then packed b else if done then again else failed b'

-- The shape of most `PackInto`s: make room, then write.
abbrev pub write_with_room : Bool → ℕ → ℕ → Buffer → List ℕ → Packed
write_with_room has_callback max_size size b bs =
    make_room 2 has_callback max_size size b >>= λ b. packed (write b bs)

-- The four bytes of the common header, for what the assertions of `with_header` let through.
unfoldable pub common_header : ℕ → ℕ → ℕ → Bool → List ℕ
common_header count_or_format packet_type payload_size padding =
    let padding_bit = if padding then 32 else 0 in
    let words = payload_size / 4 in
    bit_or (bit_or 128 padding_bit) (u8 count_or_format)
    ∷ u8 packet_type
    ∷ u8 (bit_and (shr words 8) 0xff)
    ∷ u8 (bit_and words 0xff)
    ∷ []

-- The overload without padding.
unfoldable pub plain_header : ℕ → ℕ → ℕ → List ℕ
unfolding common_header
plain_header count_or_format packet_type payload_size =
    common_header count_or_format packet_type payload_size false

-- `PackCommonHeader` with its assertions; `pack` is what PackInto does from there on, with the header's bytes.
abbrev pub with_header : ℕ → ℕ → ℕ → (List ℕ → Packed) → Packed
with_header count_or_format packet_type payload_size pack =
    if leb payload_size 0xffff
    then (if leb count_or_format 0x1f
        then pack (plain_header count_or_format packet_type payload_size)
        else asserted)
    else asserted

-- `kIpPacketSize`, the size of the buffer of `Build`.
abbrev pub ip_packet_size : ℕ
ip_packet_size = 1500

-- `Build(max_size, callback)`: `pack` is the packet's `PackInto`.
unfoldable pub build : (Bool → ℕ → Buffer → Packed) → Bool → ℕ → Packed
unfolding on_buffer_full
build pack has_callback max_size =
    let result = pack has_callback max_size (record { sent = []; bytes = [] }) >>= λ b.
    let (done, b') = on_buffer_full has_callback b in if done then packed b' else failed b' in
    if leb max_size ip_packet_size then result else asserted

abbrev pub bytes_of : Packed → List ℕ
bytes_of (packed b) = b.bytes
bytes_of (failed b) = []
bytes_of looping = []
bytes_of asserted = []

-- `Build()`: one packet in a buffer of its own size, or nothing.
unfoldable pub build_whole : (Bool → ℕ → Buffer → Packed) → ℕ → List ℕ
build_whole pack packet_size = bytes_of (pack false packet_size (record { sent = []; bytes = [] }))
