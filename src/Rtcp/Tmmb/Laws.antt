-- ===== src/Rtcp/Tmmb/Laws.antt =====
-- Requests and notifications of a bitrate are read back, and their parsers stay inside.
use mathlib.Core.List.{append_assoc}
use naivertc.Base.{
  ℕ, ◌+◌, ◌-◌, ◌*◌, ◌/◌, ◌%◌, ◌≤◌, ◌<◌, ◌≡◌, ◌≢◌, refl, ap, arith, ◌∙◌, leb, ◌==◌, true, false,
  some, List, ◌++◌, length, drop, length-append, length-drop,
}
use naivertc.Bytes.{ok, fault}
use naivertc.Bytes.Laws.{read32-ok}
use naivertc.Rtcp.Packet.{
  Buffer, Packed, packed, failed, looping, asserted, build_whole, plain_header, write_with_room,
  write, make_room,
}
use naivertc.Rtcp.Packet
use naivertc.Rtcp.Packet.Laws.{build_whole-write}
use naivertc.Rtcp.Header.{CommonHeader, receive}
use naivertc.Rtcp.Header.Laws.{receive-plain_header}
use naivertc.Rtcp.Feedback.{IsFeedback, rtpfb_parse, rtpfb_pack, pack_common_feedback}
use naivertc.Rtcp.Feedback.Laws.{
  parse-pack_common_feedback, parse_common_feedback-ne-fault, length-pack_common_feedback,
}
use naivertc.Rtcp.Items.{All}
use naivertc.Rtcp.Items.Laws.{read_items-ne-fault}
use naivertc.Rtcp.Tmmb.{
  TmmbItem, Tmmb, parse_item, pack_items, parse_message, parse_tmmbr, parse_tmmbn, size_of, finish,
  pack_message, pack_tmmbr, pack_tmmbn,
}
use naivertc.Rtcp.Tmmb.Items.{IsTmmbItem, Close, AreKept, items-AreKept}

-- What `PackInto` demands, with the ranges of the fields, and a size that the header can hold.
pub record IsTmmb (t : Tmmb) : Type 0 where
  pub feedback : IsFeedback t.feedback
  pub media : t.media_ssrc ≡ 0
  pub few : length t.items ≤ 8190
  pub items : All IsTmmbItem t.items

body : Tmmb → List ℕ → List ℕ
body t bytes = pack_common_feedback t.feedback ++ bytes

write_twice :
    (m : Packed) (xs ys zs : List ℕ)
    → (Packet.◌>>=◌ m λ b. packed (write (write b (xs ++ ys)) zs))
      ≡ (Packet.◌>>=◌ m λ b. packed (write b (xs ++ (ys ++ zs))))
write_twice (packed b) xs ys zs =
    ap (λ (bs : List ℕ). packed (record b { bytes = bs }))
      (append_assoc b.bytes (xs ++ ys) zs
        ∙ ap (λ (bs : List ℕ). b.bytes ++ bs) (append_assoc xs ys zs))
write_twice (failed b) xs ys zs = refl
write_twice looping xs ys zs = refl
write_twice asserted xs ys zs = refl

packed_bytes :
    (fmt : ℕ) (t : Tmmb)
    → t.media_ssrc ≡ 0
    → length t.items ≤ 8190
    → fmt < 32
    → (k : AreKept t.items)
    → build_whole (pack_message fmt t) (size_of t)
      ≡ plain_header fmt 205 (8 + 8 * length t.items) ++ body t k.bytes
unfolding pack_message size_of finish body rtpfb_pack
packed_bytes fmt t media few small k = build_whole-write (pack_message fmt t) (size_of t) _ shape
  where
    unused : (t.media_ssrc == 0) ≡ true
    unused = ground (arith, media)

    payload : 4 + 8 + 8 * length t.items - 4 ≡ 8 + 8 * length t.items
    payload = omega arith

    large : leb 8 (8 + 8 * length t.items) ≡ true
    large = ground arith

    fits : leb (8 + 8 * length t.items) 0xffff ≡ true
    fits = ground (arith, few)

    format : leb fmt 0x1f ≡ true
    format = ground (arith, small)

    enough : pack_items t.items (8 + 8 * length t.items - 8) ≡ some k.bytes
    enough = k.packs (8 + 8 * length t.items - 8) (omega arith)

    shape :
        (b : Buffer)
        → pack_message fmt t false (size_of t) b
          ≡ write_with_room false
              (size_of t)
              (size_of t)
              b
              (plain_header fmt 205 (8 + 8 * length t.items) ++ body t k.bytes)
    shape b =
        rw (unused, payload, large, fits, format, enough)
          (write_twice (make_room 2 false (size_of t) (size_of t) b)
            (plain_header fmt 205 (8 + 8 * length t.items)) (pack_common_feedback t.feedback)
            k.bytes)

parse_body :
    (fmt least : ℕ) (t old : Tmmb) (h : IsTmmb t) (k : AreKept t.items)
    → least ≤ 8 * length t.items
    → parse_message fmt least old (record {
      packet_type = 205;
      count_or_fmt = fmt;
      padding_size = 0;
      payload_size = 8 + 8 * length t.items;
      payload = body t k.bytes;
    })
      ≡ ok (record t { items = k.kept })
unfolding parse_message rtpfb_parse body pack_common_feedback
parse_body fmt least t old h k enough =
    rw
      (
        same_format,
        large,
        whole,
        with_feedback,
        parse-pack_common_feedback t.feedback k.bytes h.feedback,
        count,
        k.back,
      )
      refl
  where
    same_format : (fmt == fmt) ≡ true
    same_format = ground arith

    large : leb (8 + least) (8 + 8 * length t.items) ≡ true
    large = ground arith

    whole : ((8 + 8 * length t.items - 8) % 8 == 0) ≡ true
    whole = ground arith

    with_feedback : leb 8 (8 + 8 * length t.items) ≡ true
    with_feedback = ground arith

    count : (8 + 8 * length t.items - 8) / 8 ≡ length t.items
    count = omega arith

received :
    (fmt least : ℕ) (t old : Tmmb) (h : IsTmmb t) (k : AreKept t.items)
    → fmt < 32
    → least ≤ 8 * length t.items
    → receive (parse_message fmt least old) (build_whole (pack_message fmt t) (size_of t))
      ≡ ok (record t { items = k.kept })
received fmt least t old h k small enough = rw (packed_bytes fmt t h.media h.few small k) (
    receive-plain_header (parse_message fmt least old) fmt 205 (8 + 8 * length t.items)
      (body t k.bytes) small (omega arith) (omega (arith, h.few)) (omega arith) size
    ∙ parse_body fmt least t old h k enough)
  where
    size : length (body t k.bytes) ≡ 8 + 8 * length t.items
    size =
        unfold body in
        omega (
          arith,
          length-append (pack_common_feedback t.feedback) k.bytes,
          length-pack_common_feedback t.feedback,
          k.width,
        )

-- A TMMBR in range with 1 to 8190 items and no media SSRC, built in a buffer of its own, is parsed
-- back from there into any object; each bitrate loses at most one part in 2 ^ 16.
pub tmmbr-parse-build :
    (t old : Tmmb)
    → IsTmmb t
    → 0 < length t.items
    → (kept : List TmmbItem) × (receive (parse_tmmbr old) (build_whole (pack_tmmbr t) (size_of t))
        ≡ ok (record t { items = kept }))
      × Close t.items kept
unfolding parse_tmmbr pack_tmmbr build_whole
tmmbr-parse-build t old h any =
    let k = items-AreKept t.items h.items in
    (k.kept, rw not_empty (received 3 8 t old h k (omega arith) (omega arith)), k.close)
  where
    not_empty : (length t.items == 0) ≡ false
    not_empty = ground arith

-- A TMMBN in range with at most 8190 items and no media SSRC, built in a buffer of its own, is
-- parsed back from there into any object; each bitrate loses at most one part in 2 ^ 16.
pub tmmbn-parse-build :
    (t old : Tmmb)
    → IsTmmb t
    → (kept : List TmmbItem) × (receive (parse_tmmbn old) (build_whole (pack_tmmbn t) (size_of t))
        ≡ ok (record t { items = kept }))
      × Close t.items kept
unfolding parse_tmmbn pack_tmmbn
tmmbn-parse-build t old h =
    let k = items-AreKept t.items h.items in
    (k.kept, received 4 0 t old h k (omega arith) (omega arith), k.close)

parse_item-ne-fault : (p : List ℕ) → 8 ≤ length p → parse_item p ≢ fault
unfolding parse_item
parse_item-ne-fault p h = ground (arith, read32-ok p 0, read32-ok p 4)

-- Both parsers read nothing outside a payload that is as long as the header says.
pub tmmb-ne-fault :
    (old : Tmmb) (h : CommonHeader)
    → h.payload_size ≤ length h.payload
    → (parse_tmmbr old h ≢ fault) × (parse_tmmbn old h ≢ fault)
unfolding parse_tmmbr parse_tmmbn
tmmb-ne-fault old h le = (message 3 8, message 4 0)
  where
    message : (fmt least : ℕ) → parse_message fmt least old h ≢ fault
    message fmt least =
        unfold parse_message in
        unfold rtpfb_parse in
        ground (
          arith,
          parse_common_feedback-ne-fault h.payload,
          read_items-ne-fault parse_item 8 parse_item-ne-fault ((h.payload_size - 8) / 8)
              (drop 8 h.payload),
          length-drop {0} 8 h.payload,
        )
