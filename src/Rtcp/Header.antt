-- ===== src/Rtcp/Header.antt =====
-- src/rtc/rtp_rtcp/rtcp/packets/common_header.hpp and common_header.cpp. `payload` is the memory that
-- the payload pointer points to, up to the end of the buffer given to `Parse`.
pub mod Laws
use naivertc.Base.{
  ℕ, ◌+◌, ◌-◌, ◌*◌, ◌/◌, bit_and, ltb, leb, ◌==◌, if◌then◌else◌, Bool, true, false, not, List,
  length, drop,
}
use naivertc.Base.Bits.{shr}
use naivertc.Bytes.{Outcome, ok, rejected, fault, ◌>>=◌, ◌>>◌, require, byte_at, read16}

pub record CommonHeader : Type 0 where
  pub packet_type : ℕ
  pub count_or_fmt : ℕ
  pub padding_size : ℕ
  pub payload_size : ℕ
  pub payload : List ℕ

abbrev pub packet_size : CommonHeader → ℕ
packet_size h = 4 + h.payload_size + h.padding_size

-- What follows the packet in a compound packet.
abbrev pub next_packet : CommonHeader → List ℕ
next_packet h = drop (h.payload_size + h.padding_size) h.payload

-- The checks of the padding: its size is the last byte of the payload.
parse_padding : Bool → ℕ → List ℕ → Outcome ℕ
parse_padding false payload_size payload = ok 0
parse_padding true payload_size payload = do
  require (not (payload_size == 0))
  padding_size ← byte_at payload (payload_size - 1)
  require (not (padding_size == 0))
  require (leb padding_size payload_size)
  ok padding_size

-- `size` is the number of bytes that the caller says the buffer has.
unfoldable pub parse : List ℕ → ℕ → Outcome CommonHeader
unfolding parse_padding read16
parse buffer size = do
  require (leb 4 size)
  first ← byte_at buffer 0
  require (shr first 6 == 2)
  type ← byte_at buffer 1
  words ← read16 buffer 2
  let payload_size = words * 4
  require (leb (4 + payload_size) size)
  padding_size ← parse_padding (not (bit_and first 0x20 == 0)) payload_size (drop 4 buffer)
  ok (record {
    packet_type = type;
    count_or_fmt = bit_and first 0x1f;
    padding_size = padding_size;
    payload_size = payload_size - padding_size;
    payload = drop 4 buffer;
  })

-- A buffer that holds one packet, parsed by `f` behind its header.
abbrev pub receive {ℓ} : {A : Type ℓ} → (CommonHeader → Outcome A) → List ℕ → Outcome A
receive f buffer = parse buffer (length buffer) >>= f
