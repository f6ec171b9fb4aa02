-- ===== src/Rtcp/Nack/Fragments.antt =====
-- A fragment of a NACK is read back; and the ids that a sequence of packets carries.
pub mod Loop
use native.Mathlib.Nat.{mod-eq_of_lt}
use mathlib.Core.List.{append_assoc, append-nil}
use naivertc.Base.{
  ℕ, zero, suc, ◌+◌, ◌-◌, ◌*◌, ◌/◌, ◌%◌, ◌^◌, ◌≤◌, ◌<◌, ◌≡◌, ◌≢◌, ◌⊎◌, inl, inr, refl, sym, ap, ap₂,
  subst, ◌∙◌, arith, min, dec_lt, leb, ltb, ◌==◌, if◌then◌else◌, Bool, true, false, List, [], ◌∷◌,
  ◌++◌, length, take, drop, length-append, length-take, length-drop, take-append-drop,
}
use naivertc.Bytes.{Outcome, ok, rejected, fault, ◌>>=◌, read16}
use naivertc.Bytes.Laws.{ok_injective, join16, read16-ok}
use naivertc.Rtcp.Packet.{
  Buffer, Packed, packed, failed, looping, ◌>>=◌ as ◌>>='◌, plain_header, common_header,
  on_buffer_full, build, write,
}
use naivertc.Rtcp.Header.{CommonHeader, receive, packet_size}
use naivertc.Rtcp.Header.Laws.{receive-plain_header}
use naivertc.Rtcp.Feedback.{Feedback, IsFeedback, rtpfb_parse, rtpfb_pack, pack_common_feedback}
use naivertc.Rtcp.Feedback.Laws.{
  parse-pack_common_feedback, length-pack_common_feedback, parse_common_feedback-ne-fault,
}
use naivertc.Rtcp.Items.{read_items, write_items, All}
use naivertc.Rtcp.Items.Laws.{length-write_items, read-write_items_end, read_items-ne-fault}
use naivertc.Rtcp.Nack.{
  FciItem, Nack, read_item, write_item, parse, fragment, pack_loop, pack_into, size_of,
  unpack_items, unpack_bits, unpack_fci_items,
}

abbrev pub IsItem : FciItem → Type 0
IsItem item = (item.first_pid < 2 ^ 16) × (item.bitmask < 2 ^ 16)

read_back :
    (item : FciItem) (rest : List ℕ) → IsItem item → read_item (write_item item ++ rest) ≡ ok item
unfolding read_item write_item read16
read_back item rest h = rw (join16 item.first_pid h.0, join16 item.bitmask h.1) refl

width : (item : FciItem) → length (write_item item) ≡ 4
unfolding write_item
width item = refl

pub All-take : (count : ℕ) (items : List FciItem) → All IsItem items → All IsItem (take count items)
All-take zero items h = tt
All-take (suc count) [] h = tt
All-take (suc count) (x ∷ items) h = (h.0, All-take count items h.1)

pub All-drop : (count : ℕ) (items : List FciItem) → All IsItem items → All IsItem (drop count items)
All-drop zero items h = h
All-drop (suc count) [] h = tt
All-drop (suc count) (x ∷ items) h = All-drop count items h.1

-- A packet behind the header without padding.
abbrev pub headed_fragment : Nack → ℕ → List FciItem → List ℕ
headed_fragment n count left = fragment n count left (plain_header 1 205 (8 + count * 4))

-- One packet carries the items that it was given.
module _ (n old : Nack) (feedback : IsFeedback n.feedback) (count : ℕ) (left : List FciItem)
    (some_item : 0 < count) (there : count ≤ length left) (few : count < 2 ^ 15)
    (range : All IsItem left) where
  pub length-taken : length (take count left) ≡ count
  length-taken = omega (arith, length-take {0} count left)

  body : List ℕ
  body = pack_common_feedback n.feedback ++ write_items write_item (take count left)

  length-body : length body ≡ 8 + count * 4
  unfolding body
  length-body = omega (
    arith,
    length-append (pack_common_feedback n.feedback) (write_items write_item (take count left)),
    length-pack_common_feedback n.feedback,
    length-write_items write_item 4 width (take count left),
    length-taken,
  )

  with_feedback : leb 8 (size_of n - 4) ≡ true
  unfolding size_of
  with_feedback = ground arith

  fragment-eq : headed_fragment n count left ≡ plain_header 1 205 (8 + count * 4) ++ body
  unfolding fragment rtpfb_pack body
  fragment-eq = rw with_feedback refl

  pub length-fragment : length (headed_fragment n count left) ≡ 12 + count * 4
  unfolding plain_header common_header
  length-fragment = rw (fragment-eq, length-body) (omega arith)

  pub parse-fragment :
      receive (parse old) (headed_fragment n count left)
      ≡ ok (
          unpack_fci_items (record {
            feedback = n.feedback;
            fci_items = take count left;
            packet_ids = old.packet_ids;
          }))
  unfolding body rtpfb_parse parse pack_common_feedback
  parse-fragment = rw fragment-eq (
      receive-plain_header (parse old) 1 205 (8 + count * 4) body (omega arith) (omega arith)
        (omega (arith, few)) (omega arith) length-body
      ∙ rw
          (
            large,
            enough,
            counted,
            parse-pack_common_feedback n.feedback (write_items write_item (take count left))
                feedback,
            read-write_items_end IsItem read_item write_item 4 width read_back (take count left)
                (All-take count left range),
          )
          refl)
    where
      large : leb (8 + 4) (8 + count * 4) ≡ true
      large = ground (arith, some_item)

      enough : leb 8 (4 + (8 + count * 4) + 0) ≡ true
      enough = ground arith

      counted : (8 + count * 4 - 8) / 4 ≡ length (take count left)
      counted = omega (arith, length-taken)

read_item-ne-fault : (p : List ℕ) → 4 ≤ length p → read_item p ≢ fault
unfolding read_item
read_item-ne-fault p h = ground (arith, read16-ok p 0, read16-ok p 2)

-- The parser reads nothing outside a payload that is as long as the header says.
pub nack-ne-fault :
    (old : Nack) (h : CommonHeader) → h.payload_size ≤ length h.payload → parse old h ≢ fault
unfolding parse rtpfb_parse
nack-ne-fault old h le = ground (
  arith,
  parse_common_feedback-ne-fault h.payload,
  read_items-ne-fault read_item 4 read_item-ne-fault ((h.payload_size - 8) / 4) (drop 8 h.payload),
  length-drop {0} 8 h.payload,
)

join_ids : Outcome Nack → Outcome (List ℕ) → Outcome (List ℕ)
join_ids parsed later = parsed >>= λ n. later >>= λ ids. ok (n.packet_ids ++ ids)

-- The ids that a sequence of packets carries, each packet parsed into `old`.
pub carried : Nack → List (List ℕ) → Outcome (List ℕ)
unfolding join_ids
carried old [] = ok []
carried old (p ∷ ps) = join_ids (receive (parse old) p) (carried old ps)

join_ids-append :
    (first : Outcome Nack) (later later' : Outcome (List ℕ)) (ids more : List ℕ)
    → join_ids first later ≡ ok ids
    → ((there : List ℕ) → later ≡ ok there → later' ≡ ok (there ++ more))
    → join_ids first later' ≡ ok (ids ++ more)
unfolding join_ids
join_ids-append (ok n) (ok there) later' ids more e next =
    rw (next there refl, sym (ok_injective e), append_assoc n.packet_ids there more) refl
join_ids-append (ok n) rejected later' ids more e next = absurd cc
join_ids-append (ok n) fault later' ids more e next = absurd cc
join_ids-append rejected later later' ids more e next = absurd cc
join_ids-append fault later later' ids more e next = absurd cc

join_ids-first :
    (first : Outcome Nack) (ids : List ℕ) (n : Nack)
    → first ≡ ok n
    → n.packet_ids ≡ ids
    → join_ids first (ok []) ≡ ok ids
unfolding join_ids
join_ids-first first ids n e i = rw (e, i, append-nil ids) refl

pub carried-append :
    (old : Nack) (ps : List (List ℕ)) (p ids more : List ℕ) (parsed : Nack)
    → carried old ps ≡ ok ids
    → receive (parse old) p ≡ ok parsed
    → parsed.packet_ids ≡ more
    → carried old (ps ++ p ∷ []) ≡ ok (ids ++ more)
unfolding carried
carried-append old [] p ids more parsed e r c =
    join_ids-first (receive (parse old) p) more parsed r c
    ∙ ap (λ t. ok (t ++ more)) (ok_injective e)
carried-append old (q ∷ ps) p ids more parsed e r c =
    join_ids-append (receive (parse old) q) (carried old ps) (carried old (ps ++ p ∷ [])) ids more e
      (λ there e'. carried-append old ps p there more parsed e' r c)
