-- ===== src/Rtcp/Tmmb.antt =====
-- src/rtc/rtp_rtcp/rtcp/packets/tmmb_item, tmmbr and tmmbn (.hpp and .cpp): the request of a maximum bitrate
-- and its notification, two messages with the same items.
pub mod Items
pub mod Laws
use naivertc.Base.{
  ℕ, zero, suc, ◌+◌, ◌-◌, ◌*◌, ◌/◌, ◌%◌, ◌^◌, bit_or, bit_and, ltb, leb, ◌==◌, if◌then◌else◌, Bool,
  true, false, Option, none, some, List, [], ◌∷◌, ◌++◌, length, drop,
}
use naivertc.Base.Bits.{shl, shr}
use naivertc.Bytes.{Outcome, ok, rejected, fault, ◌>>=◌, ◌>>◌, require, read32, write32}
use naivertc.Rtcp.Packet.{Buffer, Packed, packed, failed, looping, make_room, with_header, write}
use naivertc.Rtcp.Packet
use naivertc.Rtcp.Header.{CommonHeader}
use naivertc.Rtcp.Feedback.{Feedback, common_feedback_size, rtpfb_parse, rtpfb_pack}
use naivertc.Rtcp.Items.{read_items}
use naivertc.Rtcp.Mantissa.{normalize}

pub record TmmbItem : Type 0 where
  pub ssrc : ℕ
  pub bitrate_bps : ℕ
  pub packet_overhead : ℕ

-- `Tmmbr` and `Tmmbn`.
pub record Tmmb : Type 0 where
  pub feedback : Feedback
  pub open feedback use *
  pub items : List TmmbItem

abbrev pub fixed_tmmb_item_size : ℕ
fixed_tmmb_item_size = 8

-- `AddTmmbr` and `AddTmmbn`.
abbrev pub add_tmmb : Tmmb → TmmbItem → Tmmb
add_tmmb t item = record t { items = t.items ++ item ∷ [] }

pub parse_item : List ℕ → Outcome TmmbItem
parse_item p = do
  ssrc ← read32 p 0
  compact ← read32 p 4
  let exponent = shr compact 26
  let mantissa = bit_and (shr compact 9) 0x1ffff
  let overhead = bit_and compact 0x1ff
  let bitrate_bps = shl mantissa exponent % 2 ^ 64
  require (shr bitrate_bps exponent == mantissa)
  ok (record { ssrc = ssrc; bitrate_bps = bitrate_bps; packet_overhead = overhead })

-- The mantissa, the exponent and the overhead in 32 bits.
compact_of : ℕ → ℕ → ℕ → ℕ
compact_of mantissa exponent overhead =
    bit_or (bit_or (shl exponent 26 % 2 ^ 32) (shl mantissa 9)) overhead % 2 ^ 32

item_bytes : TmmbItem → Option (ℕ × ℕ) → Option (List ℕ)
unfolding compact_of
item_bytes item none = none
item_bytes item (some (mantissa, exponent)) =
    some (write32 item.ssrc ++ write32 (compact_of mantissa exponent item.packet_overhead))

-- Without room it writes nothing, which the callers do not ask for. `none` is a loop out of fuel.
pub pack_item : TmmbItem → ℕ → Option (List ℕ)
unfolding item_bytes
pack_item item size =
    if ltb size fixed_tmmb_item_size
    then some []
    else item_bytes item (normalize 64 0x1ffff item.bitrate_bps 0)

join : Option (List ℕ) → Option (List ℕ) → Option (List ℕ)
join none later = none
join (some bytes) none = none
join (some bytes) (some later) = some (bytes ++ later)

-- The loop over the items, in the room left.
pub pack_items : List TmmbItem → ℕ → Option (List ℕ)
unfolding join pack_item
pack_items [] left = some []
pack_items (item ∷ items) left =
    join (pack_item item left) (pack_items items (left - fixed_tmmb_item_size))

-- The two `Parse`s differ in the message type, and in the least size, here without the items.
parse_message : ℕ → ℕ → Tmmb → CommonHeader → Outcome Tmmb
unfolding parse_item
parse_message fmt least old h = do
  require (h.packet_type == 205)
  require (h.count_or_fmt == fmt)
  require (leb (common_feedback_size + least) h.payload_size)
  let items_size_bytes = h.payload_size - common_feedback_size
  require (items_size_bytes % fixed_tmmb_item_size == 0)
  feedback ← rtpfb_parse old.feedback h.payload h.payload_size
  items ←
      read_items parse_item fixed_tmmb_item_size (items_size_bytes / fixed_tmmb_item_size)
        (drop common_feedback_size h.payload)
  ok (record { feedback = feedback; items = items })

pub parse_tmmbr : Tmmb → CommonHeader → Outcome Tmmb
unfolding parse_message
parse_tmmbr old h = parse_message 3 fixed_tmmb_item_size old h

pub parse_tmmbn : Tmmb → CommonHeader → Outcome Tmmb
unfolding parse_message
parse_tmmbn old h = parse_message 4 0 old h

pub size_of : Tmmb → ℕ
size_of t = 4 + common_feedback_size + fixed_tmmb_item_size * length t.items

finish : Tmmb → Buffer → Option (List ℕ) → Packed
finish t b none = looping
finish t b (some items) = packed (write b items)

-- The header is written before the media SSRC is looked at.
pack_message : ℕ → Tmmb → Bool → ℕ → Buffer → Packed
unfolding size_of finish pack_items
pack_message fmt t has_callback max_size b =
    Packet.◌>>=◌ (make_room 2 has_callback max_size (size_of t) b) λ b.
      with_header fmt 205 (size_of t - 4) λ header.
        if t.media_ssrc == 0
        then finish t (write b (header ++ rtpfb_pack t.feedback (size_of t - 4)))
            (pack_items t.items (size_of t - 4 - common_feedback_size))
        else failed (write b header)

pub pack_tmmbr : Tmmb → Bool → ℕ → Buffer → Packed
unfolding pack_message
pack_tmmbr t has_callback max_size b =
    if length t.items == 0 then failed b else pack_message 3 t has_callback max_size b

pub pack_tmmbn : Tmmb → Bool → ℕ → Buffer → Packed
unfolding pack_message
pack_tmmbn t has_callback max_size b = pack_message 4 t has_callback max_size b
