-- ===== src/Rtcp/Remb/Laws.antt =====
-- A packed REMB is read back, with its bitrate rounded to a mantissa of 18 bits.
use native.Mathlib.Nat.{mod-eq_of_lt, zero-add, div-mul-le_self}
use naivertc.Base.{
  ℕ, ◌+◌, ◌-◌, ◌*◌, ◌/◌, ◌%◌, ◌^◌, ◌≤◌, ◌<◌, ◌≡◌, ◌≢◌, refl, ap, arith, ◌∙◌, List, ◌++◌, length,
  length-drop, ◌==◌, leb, true, false, some, bit_or, bit_and,
}
use naivertc.Base.Bits.{shl, shr, bit_or-shl, bit_and-mask}
use naivertc.Base.Int.{ℤ, pos, pos_part, ◌≤ℤ◌, to_uint64, to_int64}
use naivertc.Bytes.{ok, fault, read32, read16, write32}
use naivertc.Bytes.Laws.{join32, join16, read32-ok, byte_at-ok, read16-ok}
use naivertc.Rtcp.Packet.{Buffer, build_whole, plain_header, write_with_room}
use naivertc.Rtcp.Packet.Laws.{build_whole-write}
use naivertc.Rtcp.Header.{CommonHeader, receive}
use naivertc.Rtcp.Header.Laws.{receive-plain_header}
use naivertc.Rtcp.Feedback.{IsFeedback, pack_common_feedback}
use naivertc.Rtcp.Feedback.Laws.{parse-pack_common_feedback, parse_common_feedback-ne-fault}
use naivertc.Rtcp.Items.{All}
use naivertc.Rtcp.Items.Laws.{length-write_items, read-write_items_end, read_items-ne-fault}
use naivertc.Rtcp.Mantissa.{normalize}
use naivertc.Rtcp.Mantissa.Laws.{normalize-Drops, Drops-Rounded, Rounded, decode-encode}
use naivertc.Rtcp.Remb.{Remb, read_ssrc, fields, parse, pack_into, size_of}

abbrev pub IsSsrc : ℕ → Type 0
IsSsrc s = s < 2 ^ 32

-- What `PackInto` demands, with the ranges of the fields.
pub record IsRemb (r : Remb) : Type 0 where
  pub feedback : IsFeedback r.feedback
  pub media : r.media_ssrc ≡ 0
  pub not_negative : pos 0 ≤ℤ r.bitrate_bps
  pub bitrate : pos_part r.bitrate_bps < 2 ^ 63
  pub few : length r.ssrcs < 256
  pub ssrcs : All IsSsrc r.ssrcs

read_back : (s : ℕ) (rest : List ℕ) → IsSsrc s → read_ssrc (write32 s ++ rest) ≡ ok s
unfolding read_ssrc read32
read_back s rest h = rw (join32 s h) refl

body : Remb → ℕ × ℕ → List ℕ
body r bitrate = pack_common_feedback r.feedback ++ fields r bitrate

length-body : (r : Remb) (bitrate : ℕ × ℕ) → length (body r bitrate) ≡ 16 + 4 * length r.ssrcs
unfolding body pack_common_feedback fields
length-body r (m, e) = omega (arith, length-write_items write32 4 (λ s. refl) r.ssrcs)

bytes :
    (r : Remb) (m e : ℕ)
    → r.media_ssrc ≡ 0
    → length r.ssrcs < 256
    → normalize 64 0x3ffff (to_uint64 r.bitrate_bps) 0 ≡ some (m, e)
    → build_whole (pack_into r) (size_of r)
      ≡ plain_header 15 206 (16 + 4 * length r.ssrcs) ++ body r (m, e)
unfolding pack_into body
bytes r m e media few normal = build_whole-write (pack_into r) (size_of r) _ shape
  where
    unused : (r.media_ssrc == 0) ≡ true
    unused = ground (arith, media)

    payload : 16 + 4 * length r.ssrcs ≡ size_of r - 4
    payload = omega arith

    fits : leb (size_of r - 4) 0xffff ≡ true
    fits = ground (arith, few)

    shape :
        (b : Buffer)
        → pack_into r false (size_of r) b
          ≡ write_with_room false
              (size_of r)
              (size_of r)
              b
              (plain_header 15 206 (16 + 4 * length r.ssrcs) ++ body r (m, e))
    shape b = rw (unused, payload, fits, normal) refl

-- The three bytes of the bitrate, as a reader takes them apart.
bitrate_bytes :
    (m e : ℕ)
    → m < 2 ^ 18
    → e < 2 ^ 6
    → let first = bit_or (shl e 2) (shr m 16) % 256 in
      (first / 2 ^ 2 ≡ e)
      × (bit_or
            (shl (bit_and first 0x03) 16)
            (bit_or (shl (bit_and m 0xffff / 2 ^ 8 % 256) 8) (bit_and m 0xffff % 256))
          ≡ m)
bitrate_bytes m e hm he =
    rw
      (
        bit_or-shl 2 e (m / 2 ^ 16) (omega arith),
        bit_and-mask 16 m,
        join16 (m % 2 ^ 16) (omega arith),
        bit_and-mask 2 ((e * 2 ^ 2 + m / 2 ^ 16) % 256),
        bit_or-shl 16 ((e * 2 ^ 2 + m / 2 ^ 16) % 256 % 2 ^ 2) (m % 2 ^ 16) (omega arith),
      )
      (omega arith, omega arith)

to_uint64-to_int64 : (n : ℕ) → to_uint64 (to_int64 (n % 2 ^ 64)) ≡ n % 2 ^ 64
to_uint64-to_int64 n = ground arith

parse-body :
    (r : Remb) (m e : ℕ)
    → IsRemb r
    → m < 2 ^ 18
    → e < 2 ^ 6
    → m * 2 ^ e % 2 ^ 64 / 2 ^ e ≡ m
    → parse (record {
      packet_type = 206;
      count_or_fmt = 15;
      padding_size = 0;
      payload_size = 16 + 4 * length r.ssrcs;
      payload = body r (m, e);
    })
      ≡ ok (record r { bitrate_bps = to_int64 (m * 2 ^ e % 2 ^ 64) })
unfolding parse body fields pack_common_feedback read32 read16
parse-body r m e h hm he test =
    rw
      (
        parse-pack_common_feedback r.feedback (fields r (m, e)) h.feedback,
        (bitrate_bytes m e hm he).0,
        (bitrate_bytes m e hm he).1,
        mod-eq_of_lt h.few,
        large,
        exact,
        tested,
        read-write_items_end IsSsrc read_ssrc write32 4 (λ s. refl) read_back r.ssrcs h.ssrcs,
      )
      refl
  where
    large : leb 16 (16 + 4 * length r.ssrcs) ≡ true
    large = ground arith

    exact : (16 + 4 * length r.ssrcs == 8 + (2 + length r.ssrcs) * 4) ≡ true
    exact = ground arith

    tested : (to_uint64 (to_int64 (m * 2 ^ e % 2 ^ 64)) / 2 ^ e == m) ≡ true
    tested = rw (to_uint64-to_int64 (m * 2 ^ e)) (ground (arith, test))

-- A bitrate that is not negative is the number that is packed.
packed_bitrate : (b : ℤ) → pos 0 ≤ℤ b → pos_part b < 2 ^ 63 → to_uint64 b ≡ pos_part b
packed_bitrate b le lt = ground arith

-- A REMB in range without a media SSRC and with a bitrate of 64 signed bits that is not negative,
-- built in a buffer of its own, is parsed back from there, with a bitrate that is not negative and
-- loses at most one part in 2 ^ 17.
pub remb-parse-build :
    (r : Remb)
    → IsRemb r
    → (w : ℕ) × (receive parse (build_whole (pack_into r) (size_of r))
        ≡ ok (record r { bitrate_bps = pos w }))
      × Rounded 17 (pos_part r.bitrate_bps) w
remb-parse-build r h =
    let n = pos_part r.bitrate_bps in
    let (k, normal, drops, le) = normalize-Drops 63 17 n 0 (omega (arith, h.bitrate)) in
    let (cut, back) = decode-encode n k (omega (arith, h.bitrate)) in
    (
      n / 2 ^ k * 2 ^ k,
      whole k normal cut back le drops.fits (div-mul-le_self n (2 ^ k)),
      Drops-Rounded 17 n k drops,
    )
  where
    n : ℕ
    n = pos_part r.bitrate_bps

    signed : (t : ℕ) → t ≤ n → to_int64 t ≡ pos t
    signed t le = ground (arith, h.bitrate)

    whole :
        (k : ℕ)
        → normalize 64 0x3ffff n 0 ≡ some (n / 2 ^ k, 0 + k)
        → n / 2 ^ k * 2 ^ k % 2 ^ 64 ≡ n / 2 ^ k * 2 ^ k
        → n / 2 ^ k * 2 ^ k / 2 ^ k ≡ n / 2 ^ k
        → k ≤ 63
        → n / 2 ^ k < 2 ^ 18
        → n / 2 ^ k * 2 ^ k ≤ n
        → receive parse (build_whole (pack_into r) (size_of r))
          ≡ ok (record r { bitrate_bps = pos (n / 2 ^ k * 2 ^ k) })
    whole k normal cut back le fits below =
        rw
          (
            bytes r (n / 2 ^ k) (0 + k) h.media h.few (
                ap (λ t. normalize 64 0x3ffff t 0)
                  (packed_bitrate r.bitrate_bps h.not_negative h.bitrate)
                ∙ normal),
            zero-add k,
          )
          (receive-plain_header parse 15 206 (16 + 4 * length r.ssrcs) (body r (n / 2 ^ k, k))
              (omega arith) (omega arith) (omega (arith, h.few)) (omega arith)
              (length-body r (n / 2 ^ k, k))
            ∙ parse-body r (n / 2 ^ k) k h fits (omega arith) (ap (λ (t : ℕ). t / 2 ^ k) cut ∙ back)
            ∙ ap (λ (t : ℕ). ok (record r { bitrate_bps = to_int64 t })) cut
            ∙ ap (λ (t : ℤ). ok (record r { bitrate_bps = t })) (signed (n / 2 ^ k * 2 ^ k) below))

read_ssrc-ne-fault : (p : List ℕ) → 4 ≤ length p → read_ssrc p ≢ fault
unfolding read_ssrc
read_ssrc-ne-fault p h = ground (arith, read32-ok p 0)

-- The parser reads nothing outside a payload that is as long as the header says.
pub remb-ne-fault : (h : CommonHeader) → h.payload_size ≤ length h.payload → parse h ≢ fault
unfolding parse
remb-ne-fault h le = grind (
  arith,
  read32-ok h.payload 8,
  byte_at-ok h.payload 12,
  byte_at-ok h.payload 13,
  read16-ok h.payload 14,
  parse_common_feedback-ne-fault h.payload,
  read_items-ne-fault read_ssrc 4 read_ssrc-ne-fault,
  length-drop {0} 16 h.payload,
)
