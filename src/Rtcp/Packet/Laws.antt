-- ===== src/Rtcp/Packet/Laws.antt =====
-- The loop that makes room ends, and what it leaves.
use naivertc.Base.{
  ℕ, suc, ◌+◌, ◌/◌, ◌%◌, ◌^◌, ◌≤◌, ◌<◌, ◌≡◌, ap, ◌∙◌, arith, leb, ◌==◌, if◌then◌else◌, Bool, false,
  List, [], ◌∷◌, ◌++◌, length,
}
use naivertc.Base.Bits.{bit_and-mask, bit_or-shl}
use naivertc.Rtcp.Packet.{
  Buffer, Packed, packed, failed, ◌>>=◌, build_whole, bytes_of, write_with_room, make_room, write,
  plain_header,
}

-- The loop, with fuel 2 or more, comes to this: room as it is; else a flush, which must make enough room.
pub room : Bool → ℕ → ℕ → Buffer → Packed
room has_callback max_size size b =
    if leb (length b.bytes + size) max_size
    then packed b
    else if length b.bytes == 0
    then failed b
    else if has_callback
    then (if leb size max_size
        then packed (record { sent = b.sent ++ b.bytes ∷ []; bytes = [] })
        else failed (record { sent = b.sent ++ b.bytes ∷ []; bytes = [] }))
    else failed b

-- With two rounds or more, the loop that makes room ends as one case distinction: nothing to do,
-- or one flush that must make enough room, or failure.
pub make_room-eq-room :
    (fuel : ℕ) (has_callback : Bool) (max_size size : ℕ) (b : Buffer)
    → make_room (suc (suc fuel)) has_callback max_size size b ≡ room has_callback max_size size b
unfolding make_room room
make_room-eq-room fuel has_callback max_size size b = ground arith

-- The common header of a format below 32, a type that is a byte, and a payload of less than 2 ^ 16 words.
pub plain_header_closed :
    (fmt type size : ℕ)
    → fmt < 32
    → type < 256
    → size / 4 < 2 ^ 16
    → plain_header fmt type size ≡ (128 + fmt) ∷ type ∷ (size / 4 / 256) ∷ (size / 4 % 256) ∷ []
unfolding plain_header
plain_header_closed fmt type size hf ht hs =
    rw
      (
        bit_or-shl 5 4 (fmt % 256) (omega arith),
        bit_and-mask 8 (size / 4 / 256),
        bit_and-mask 8 (size / 4),
      )
      (ground arith)

pub make_room_fits :
    (has_callback : Bool) (max_size size : ℕ) (b : Buffer)
    → length b.bytes + size ≤ max_size
    → make_room 2 has_callback max_size size b ≡ packed b
make_room_fits has_callback max_size size b h =
    make_room-eq-room 0 has_callback max_size size b ∙ fits
  where
    fits : room has_callback max_size size b ≡ packed b
    fits = unfold room in ground arith

-- A packet that makes room for its size and writes `bs` is built as `bs`.
pub build_whole-write :
    (pack : Bool → ℕ → Buffer → Packed) (size : ℕ) (bs : List ℕ)
    → ((b : Buffer) → pack false size b ≡ write_with_room false size size b bs)
    → build_whole pack size ≡ bs
unfolding build_whole
build_whole-write pack size bs shape = ap bytes_of (
    shape empty
    ∙ ap (λ m. m >>= λ b. packed (write b bs)) (make_room_fits false size size empty (omega arith)))
  where
    empty : Buffer
    empty = record { sent = []; bytes = [] }
