-- ===== src/Rtcp/Nack.antt =====
-- src/rtc/rtp_rtcp/rtcp/packets/nack.hpp and nack.cpp: negative acknowledgements, packed into items of a
-- packet id and a bitmask of the 16 ids behind it, and fragmented over packets.
pub mod Bits
pub mod Items
pub mod Fragments
pub mod Delivery
use naivertc.Base.{
  ℕ, zero, suc, ◌+◌, ◌-◌, ◌*◌, ◌/◌, ◌%◌, ◌^◌, min, bit_or, ltb, leb, ◌==◌, if◌then◌else◌, Bool,
  true, false, Option, none, some, List, [], ◌∷◌, ◌++◌, length, take, drop,
}
use naivertc.Base.Bits.{shl}
use naivertc.Bytes.{Outcome, ok, rejected, fault, ◌>>=◌, ◌>>◌, require, read16, write16}
use naivertc.Rtcp.Packet.{
  Buffer, Packed, packed, failed, looping, with_header, write, on_buffer_full,
}
use naivertc.Rtcp.Header.{CommonHeader, packet_size}
use naivertc.Rtcp.Feedback.{Feedback, common_feedback_size, rtpfb_parse, rtpfb_pack}
use naivertc.Rtcp.Items.{read_items, write_items}

pub record FciItem : Type 0 where
  pub first_pid : ℕ
  pub bitmask : ℕ

pub record Nack : Type 0 where
  pub feedback : Feedback
  pub open feedback use *
  pub fci_items : List FciItem
  pub packet_ids : List ℕ

-- The inner loop of `PackFciItems`: the bitmask, and the ids from `it` on.
pub fill : ℕ → ℕ → List ℕ → ℕ × List ℕ
fill first bitmask [] = (bitmask, [])
fill first bitmask (id ∷ ids) =
    let shift = (id + 2 ^ 16 + 2 ^ 16 - first - 1) % 2 ^ 16 in
    let more = fill first (bit_or bitmask (shl 1 shift)) ids in
    if leb shift 15 then more else (bitmask, id ∷ ids)

-- The outer loop, which takes one id at least in each round; `none` is out of fuel.
pub group : ℕ → List ℕ → Option (List FciItem)
unfolding fill
group zero [] = some []
group zero (id ∷ ids) = none
group (suc fuel) [] = some []
group (suc fuel) (id ∷ ids) =
    let (bitmask, rest) = fill id 0 ids in
    elim (group fuel rest) [
      | none ↦ none
      | some items ↦ some (record { first_pid = id; bitmask = bitmask } ∷ items)
    ]

-- Without ids the items stay as they were. `none` is out of fuel.
pub pack_fci_items : Nack → Option Nack
unfolding group
pack_fci_items n =
    if length n.packet_ids == 0 then some n else elim (group (length n.packet_ids) n.packet_ids) [
      | none ↦ none
      | some items ↦ some (record n { fci_items = items })
    ]

pub set_packet_ids : Nack → List ℕ → Option Nack
unfolding pack_fci_items
set_packet_ids n ids = pack_fci_items (record n { packet_ids = ids })

-- `for (bitmask = item.bitmask; bitmask != 0; bitmask >>= 1, ++pid)`: a 16-bit mask takes 16 rounds.
pub unpack_bits : ℕ → ℕ → ℕ → List ℕ
unpack_bits zero bitmask pid = []
unpack_bits (suc fuel) bitmask pid =
    let rest = unpack_bits fuel (bitmask / 2) ((pid + 1) % 2 ^ 16) in
    if bitmask == 0 then [] else if bitmask % 2 == 1 then pid ∷ rest else rest

pub unpack_items : List FciItem → List ℕ
unfolding unpack_bits
unpack_items [] = []
unpack_items (item ∷ items) =
    item.first_pid
    ∷ (unpack_bits 16 item.bitmask ((item.first_pid + 1) % 2 ^ 16) ++ unpack_items items)

pub unpack_fci_items : Nack → Nack
unfolding unpack_items
unpack_fci_items n =
    if length n.fci_items == 0 then n else record n { packet_ids = unpack_items n.fci_items }

pub size_of : Nack → ℕ
size_of n = 4 + common_feedback_size + length n.fci_items * 4

read_item : List ℕ → Outcome FciItem
read_item p = do
  first_pid ← read16 p 0
  bitmask ← read16 p 2
  ok (record { first_pid = first_pid; bitmask = bitmask })

write_item : FciItem → List ℕ
write_item item = write16 item.first_pid ++ write16 item.bitmask

-- `old` is the object that is parsed into.
pub parse : Nack → CommonHeader → Outcome Nack
unfolding read_item unpack_fci_items
parse old h = do
  require (h.packet_type == 205)
  require (h.count_or_fmt == 1)
  require (leb (common_feedback_size + 4) h.payload_size)
  let fci_item_count = (h.payload_size - common_feedback_size) / 4
  feedback ← rtpfb_parse old.feedback h.payload (packet_size h)
  items ← read_items read_item 4 fci_item_count (drop common_feedback_size h.payload)
  ok (
      unpack_fci_items
        (record { feedback = feedback; fci_items = items; packet_ids = old.packet_ids }))

-- One packet, behind its header, with the first `count` of the items left.
pub fragment : Nack → ℕ → List FciItem → List ℕ → List ℕ
unfolding size_of write_item
fragment n count left header =
    header ++ (rtpfb_pack n.feedback (size_of n - 4) ++ write_items write_item (take count left))

-- The loop of `PackInto` over the items left; `index` and `max_size` are sizes of 64 bits.
pub pack_loop : ℕ → Nack → Bool → ℕ → List FciItem → Buffer → Packed
unfolding fragment
pack_loop zero n has_callback max_size left b = looping
pack_loop (suc fuel) n has_callback max_size left b =
    let bytes_left = (max_size + 2 ^ 64 - length b.bytes) % 2 ^ 64 in
    let (done, flushed) = on_buffer_full has_callback b in
    let count = min ((bytes_left - 12) / 4) (length left) in
    let again = pack_loop fuel n has_callback max_size left flushed in
    let further = with_header 1 205 (common_feedback_size + count * 4) (λ header.
      pack_loop fuel n has_callback max_size (drop count left)
        (write b (fragment n count left header))) in
    if length left == 0
    then packed b
    else if ltb bytes_left 16
    then if done then again else failed flushed
    else further

-- Each packet takes an item at least and is flushed once at most.
pub pack_into : Nack → Bool → ℕ → Buffer → Packed
unfolding pack_loop
pack_into n has_callback max_size b =
    if length n.fci_items == 0
    then failed b
    else pack_loop (2 + 2 * length n.fci_items) n has_callback max_size n.fci_items b
