-- ===== src/Rtcp/Tmmb/Items.antt =====
-- An item is read back with its bitrate rounded down to 17 bits, and so is a list of items.
use native.Mathlib.Nat.{mod-eq_of_lt, zero-add}
use naivertc.Base.{
  ℕ, zero, suc, ◌+◌, ◌-◌, ◌*◌, ◌/◌, ◌%◌, ◌^◌, ◌≤◌, ◌<◌, ◌≡◌, refl, ap, arith, ◌∙◌, ltb, ◌==◌, true,
  false, some, List, [], ◌∷◌, ◌++◌, length, drop, length-append,
}
use naivertc.Base.Bits.{bit_or-shl, bit_and-mask}
use naivertc.Bytes.{ok, read32, write32}
use naivertc.Bytes.Laws.{join32}
use naivertc.Rtcp.Items.{read_items, All}
use naivertc.Rtcp.Mantissa.{normalize}
use naivertc.Rtcp.Mantissa.Laws.{normalize-Drops, Drops-Rounded, Rounded, decode-encode}
use naivertc.Rtcp.Tmmb.{TmmbItem, parse_item, compact_of, item_bytes, pack_item, pack_items, join}

pub record IsTmmbItem (item : TmmbItem) : Type 0 where
  pub ssrc_range : item.ssrc < 2 ^ 32
  pub bitrate : item.bitrate_bps < 2 ^ 64
  pub overhead : item.packet_overhead < 2 ^ 9

-- The three fields, apart again.
compact-apart :
    (m e o : ℕ)
    → m < 2 ^ 17
    → e < 2 ^ 6
    → o < 2 ^ 9
    → (compact_of m e o ≡ e * 2 ^ 26 + m * 2 ^ 9 + o)
unfolding compact_of
compact-apart m e o hm he ho =
    rw
      (
        mod-eq_of_lt high,
        bit_or-shl 26 e (m * 2 ^ 9) (omega arith),
        split,
        bit_or-shl 9 (e * 2 ^ 17 + m) o ho,
      )
      (omega arith)
  where
    high : e * 2 ^ 26 < 2 ^ 32
    high = omega arith

    split : e * 2 ^ 26 + m * 2 ^ 9 ≡ (e * 2 ^ 17 + m) * 2 ^ 9
    split = omega arith

-- What one item is read back as, and the bytes in between.
record IsKept (item : TmmbItem) : Type 0 where
  bitrate : ℕ
  bytes : List ℕ
  packs : (size : ℕ) → 8 ≤ size → pack_item item size ≡ some bytes
  width : length bytes ≡ 8
  back : (rest : List ℕ) → parse_item (bytes ++ rest) ≡ ok (record item { bitrate_bps = bitrate })
  close : Rounded 16 item.bitrate_bps bitrate

parse_bytes :
    (item : TmmbItem) (m e : ℕ) (rest : List ℕ)
    → IsTmmbItem item
    → m < 2 ^ 17
    → e < 2 ^ 6
    → m * 2 ^ e % 2 ^ 64 / 2 ^ e ≡ m
    → parse_item (write32 item.ssrc ++ (write32 (compact_of m e item.packet_overhead) ++ rest))
      ≡ ok (record item { bitrate_bps = m * 2 ^ e % 2 ^ 64 })
unfolding parse_item read32
parse_bytes item m e rest h hm he test =
    rw
      (
        join32 item.ssrc h.ssrc_range,
        join32 c small,
        bit_and-mask 17 (c / 2 ^ 9),
        bit_and-mask 9 c,
        exponent,
        mantissa,
        overhead,
        tested,
      )
      refl
  where
    c : ℕ
    c = compact_of m e item.packet_overhead

    small : c < 2 ^ 32
    small = omega (arith, compact-apart m e item.packet_overhead hm he h.overhead)

    exponent : c / 2 ^ 26 ≡ e
    exponent = omega (arith, compact-apart m e item.packet_overhead hm he h.overhead)

    mantissa : c / 2 ^ 9 % 2 ^ 17 ≡ m
    mantissa = omega (arith, compact-apart m e item.packet_overhead hm he h.overhead)

    overhead : c % 2 ^ 9 ≡ item.packet_overhead
    overhead = omega (arith, compact-apart m e item.packet_overhead hm he h.overhead)

    tested : (m * 2 ^ e % 2 ^ 64 / 2 ^ e == m) ≡ true
    tested = ground (arith, test)

pack_item-some :
    (item : TmmbItem) (m e size : ℕ)
    → normalize 64 0x1ffff item.bitrate_bps 0 ≡ some (m, e)
    → 8 ≤ size
    → pack_item item size
      ≡ some (write32 item.ssrc ++ write32 (compact_of m e item.packet_overhead))
unfolding pack_item item_bytes
pack_item-some item m e size normal le = rw (room, normal) refl
  where
    room : ltb size 8 ≡ false
    room = ground arith

item-IsKept : (item : TmmbItem) → IsTmmbItem item → IsKept item
item-IsKept item h =
    let (k, normal, drops, le) =
      normalize-Drops 63 16 item.bitrate_bps 0 (omega (arith, h.bitrate)) in
    let (cut, back) = decode-encode item.bitrate_bps k h.bitrate in
    kept k normal le drops.fits cut back (Drops-Rounded 16 item.bitrate_bps k drops)
  where
    kept :
        (k : ℕ)
        → normalize 64 0x1ffff item.bitrate_bps 0 ≡ some (item.bitrate_bps / 2 ^ k, 0 + k)
        → k ≤ 63
        → item.bitrate_bps / 2 ^ k < 2 ^ 17
        → item.bitrate_bps / 2 ^ k * 2 ^ k % 2 ^ 64 ≡ item.bitrate_bps / 2 ^ k * 2 ^ k
        → item.bitrate_bps / 2 ^ k * 2 ^ k / 2 ^ k ≡ item.bitrate_bps / 2 ^ k
        → Rounded 16 item.bitrate_bps (item.bitrate_bps / 2 ^ k * 2 ^ k)
        → IsKept item
    kept k normal le fits cut back close = record {
      bitrate = item.bitrate_bps / 2 ^ k * 2 ^ k;
      bytes =
          write32 item.ssrc
          ++ write32 (compact_of (item.bitrate_bps / 2 ^ k) (0 + k) item.packet_overhead);
      packs = λ size. pack_item-some item (item.bitrate_bps / 2 ^ k) (0 + k) size normal;
      width = refl;
      back = λ rest. rw (zero-add k) (
          parse_bytes item (item.bitrate_bps / 2 ^ k) k rest h fits (omega (arith, le))
            (ap (λ (t : ℕ). t / 2 ^ k) cut ∙ back)
          ∙ ap (λ (t : ℕ). ok (record item { bitrate_bps = t })) cut);
      close = close;
    }

-- The same items, with bitrates that lose at most one part in 2 ^ 16.
abbrev pub Close : List TmmbItem → List TmmbItem → Type 0
Close [] [] = Unit {0}
Close [] (j ∷ js) = ⊥
Close (i ∷ is) [] = ⊥
Close (i ∷ is) (j ∷ js) =
    (i.ssrc ≡ j.ssrc)
    × (i.packet_overhead ≡ j.packet_overhead)
    × Rounded 16 i.bitrate_bps j.bitrate_bps
    × Close is js

pub record AreKept (items : List TmmbItem) : Type 0 where
  pub kept : List TmmbItem
  pub bytes : List ℕ
  pub packs : (size : ℕ) → 8 * length items ≤ size → pack_items items size ≡ some bytes
  pub width : length bytes ≡ 8 * length items
  pub back : read_items parse_item 8 (length items) bytes ≡ ok kept
  pub close : Close items kept

drop-width : (n : ℕ) (xs ys : List ℕ) → length xs ≡ n → drop n (xs ++ ys) ≡ ys
drop-width zero [] ys h = refl
drop-width zero (x ∷ xs) ys h = absurd (omega arith)
drop-width (suc n) [] ys h = absurd (omega arith)
drop-width (suc n) (x ∷ xs) ys h = drop-width n xs ys (omega arith)

both :
    (item : TmmbItem) (items : List TmmbItem) → IsKept item → AreKept items → AreKept (item ∷ items)
unfolding pack_items join read_items
both item items first later = record {
  kept = record item { bitrate_bps = first.bitrate } ∷ later.kept;
  bytes = first.bytes ++ later.bytes;
  packs = λ size le. rw (first.packs size (omega arith), later.packs (size - 8) (omega arith)) refl;
  width = omega (arith, length-append first.bytes later.bytes, first.width, later.width);
  back =
      rw (first.back later.bytes, drop-width 8 first.bytes later.bytes first.width, later.back)
        refl;
  close = (refl, refl, first.close, later.close);
}

pub items-AreKept : (items : List TmmbItem) → All IsTmmbItem items → AreKept items
unfolding pack_items read_items
items-AreKept [] h = record {
  kept = [];
  bytes = [];
  packs = λ size le. refl;
  width = omega arith;
  back = refl;
  close = tt;
}
items-AreKept (item ∷ items) h = both item items (item-IsKept item h.0) (items-AreKept items h.1)
