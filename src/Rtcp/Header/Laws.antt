-- ===== src/Rtcp/Header/Laws.antt =====
-- The parser of the common header: it reads back what was packed, reads nothing outside the buffer, and
-- what it accepts lies within the buffer.
use naivertc.Base.{
  ℕ, ◌+◌, ◌-◌, ◌/◌, ◌%◌, ◌^◌, ◌≤◌, ◌<◌, ◌≡◌, ◌≢◌, refl, ap, arith, Bool, true, false, bit_and, List,
  ◌++◌, length, drop, length-drop,
}
use naivertc.Base.Bits.{bit_and-mask, bit_or-shl, bit_and-bit}
use naivertc.Bytes.{Outcome, ok, rejected, fault, ◌>>=◌, read16}
use naivertc.Bytes.Laws.{byte_at-ok, read16-ok}
use naivertc.Rtcp.Packet.{plain_header}
use naivertc.Rtcp.Packet.Laws.{plain_header_closed}
use naivertc.Rtcp.Header.{CommonHeader, parse, parse_padding, receive, packet_size}

-- The padding bit of the first byte, and the count beside it.
no_padding : (c : ℕ) → c < 32 → bit_and (128 + c) 0x20 ≡ 0
no_padding c h = omega (arith, bit_and-bit 5 (128 + c))

count_bits : (c : ℕ) → c < 32 → bit_and (128 + c) 0x1f ≡ c
count_bits c h = omega (arith, bit_and-mask 5 (128 + c))

-- A packed header, with whatever follows it, is read back.
pub parse-plain_header :
    (fmt type size n : ℕ) (rest : List ℕ)
    → fmt < 32
    → type < 256
    → size / 4 < 2 ^ 16
    → size % 4 ≡ 0
    → 4 + size ≤ n
    → parse (plain_header fmt type size ++ rest) n
      ≡ ok (record {
        packet_type = type;
        count_or_fmt = fmt;
        padding_size = 0;
        payload_size = size;
        payload = rest;
      })
unfolding parse read16
parse-plain_header fmt type size n rest hf ht hs hm hn =
    rw (plain_header_closed fmt type size hf ht hs) (
      ground (
        arith,
        no_padding fmt hf,
        count_bits fmt hf,
        bit_or-shl 8 (size / 4 / 256) (size / 4 % 256) (omega arith),
      ))

-- What is accepted: the packet with its header and padding lies in the buffer, is whole words, and the
-- padding stands in the payload.
pub record IsWithin (buffer : List ℕ) (size : ℕ) (h : CommonHeader) : Type 0 where
  pub fits : packet_size h ≤ size
  pub words : packet_size h % 4 ≡ 0
  pub behind : h.payload ≡ drop 4 buffer

parse_padding-le :
    (has : Bool) (size padding : ℕ) (p : List ℕ)
    → parse_padding has size p ≡ ok padding
    → padding ≤ size
unfolding parse_padding
parse_padding-le false size padding p e = ground arith
parse_padding-le true size padding p e = ground arith

-- Whatever the header's parser accepts, with its header and padding, lies in the buffer, is whole
-- words, and has its payload right behind the header.
pub header-IsWithin :
    (buffer : List ℕ) (size : ℕ) (h : CommonHeader)
    → parse buffer size ≡ ok h
    → IsWithin buffer size h
unfolding parse
header-IsWithin buffer size h e = grind (arith, parse_padding-le)

parse_padding-ok :
    (has : Bool) (size : ℕ) (p : List ℕ) → size ≤ length p → parse_padding has size p ≢ fault
unfolding parse_padding
parse_padding-ok false size p h = cc
parse_padding-ok true size p h = ground (arith, byte_at-ok p (size - 1))

-- A parser that is told no more bytes than there are does not read outside them.
pub header-ne-fault :
    (buffer : List ℕ) (size : ℕ) → size ≤ length buffer → parse buffer size ≢ fault
unfolding parse
header-ne-fault buffer size le = grind (
  arith,
  byte_at-ok buffer 0,
  byte_at-ok buffer 1,
  read16-ok buffer 2,
  parse_padding-ok,
  length-drop {0} 4 buffer,
)

pub receive-plain_header {ℓ} :
    {A : Type ℓ} (f : CommonHeader → Outcome A) (fmt type size : ℕ) (body : List ℕ)
    → fmt < 32
    → type < 256
    → size / 4 < 2 ^ 16
    → size % 4 ≡ 0
    → length body ≡ size
    → receive f (plain_header fmt type size ++ body)
      ≡ f (record {
        packet_type = type;
        count_or_fmt = fmt;
        padding_size = 0;
        payload_size = size;
        payload = body;
      })
receive-plain_header f fmt type size body hf ht hs hm hb =
    ap (λ m. m >>= f)
      (parse-plain_header fmt type size (length (plain_header fmt type size ++ body)) body hf ht hs
        hm enough)
  where
    enough : 4 + size ≤ length (plain_header fmt type size ++ body)
    enough = unfold plain_header in omega arith

-- A parser that stays in the payload stays in the buffer.
pub receive-ne-fault {ℓ} :
    {A : Type ℓ} (f : CommonHeader → Outcome A)
    → ((h : CommonHeader) → h.payload_size ≤ length h.payload → f h ≢ fault)
    → (buffer : List ℕ) → receive f buffer ≢ fault
receive-ne-fault f safe buffer = by_header (parse buffer (length buffer)) refl
  where
    by_header : (o : Outcome CommonHeader) → parse buffer (length buffer) ≡ o → (o >>= f) ≢ fault
    by_header (ok h) e =
        let within = header-IsWithin buffer (length buffer) h e in
        safe h (omega (arith, within.fits, ap length within.behind, length-drop {0} 4 buffer))
    by_header rejected e = cc
    by_header fault e = absurd (header-ne-fault buffer (length buffer) (omega arith) e)
