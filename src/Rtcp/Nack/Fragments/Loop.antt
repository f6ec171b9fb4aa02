-- ===== src/Rtcp/Nack/Fragments/Loop.antt =====
-- A NACK that does not fit one packet is sent in several: the loop ends, every packet keeps to the maximum
-- size, and together they carry all the items.
use mathlib.Core.List.{append_assoc, append-nil}
use naivertc.Base.{
  ℕ, zero, suc, ◌+◌, ◌-◌, ◌*◌, ◌/◌, ◌%◌, ◌^◌, ◌≤◌, ◌<◌, ◌≡◌, ◌⊎◌, inl, inr, refl, sym, ap, subst,
  ◌∙◌, arith, min, dec_lt, leb, ltb, ◌==◌, if◌then◌else◌, true, false, List, [], ◌∷◌, ◌++◌, length,
  take, drop, length-drop, take-append-drop,
}
use naivertc.Bytes.{ok}
use naivertc.Rtcp.Packet.{
  Buffer, Packed, packed, failed, looping, asserted, ◌>>=◌ as ◌>>='◌, on_buffer_full, build,
}
use naivertc.Rtcp.Feedback.{Feedback, IsFeedback}
use naivertc.Rtcp.Items.{All}
use naivertc.Rtcp.Nack.{
  FciItem, Nack, pack_loop, pack_into, unpack_items, unpack_bits, unpack_fci_items,
}
use naivertc.Rtcp.Nack.Fragments.{
  IsItem, All-drop, headed_fragment, length-taken, length-fragment, parse-fragment, carried,
  carried-append,
}

module _ (n : Nack) (max_size : ℕ) (least : 16 ≤ max_size) (most : max_size ≤ 1500) where
  share : List FciItem → ℕ
  share left = min ((max_size - 12) / 4) (length left)

  end_step : (fuel : ℕ) (b : Buffer) → pack_loop (suc fuel) n true max_size [] b ≡ packed b
  unfolding pack_loop
  end_step fuel b = refl

  write_step :
      (fuel : ℕ) (left : List FciItem) (sent : List (List ℕ))
      → 0 < length left
      → pack_loop (suc fuel) n true max_size left (record { sent = sent; bytes = [] })
        ≡ pack_loop fuel n true max_size
            (drop (share left) left)
            (record { sent = sent; bytes = headed_fragment n (share left) left })
  unfolding pack_loop share on_buffer_full
  write_step fuel left sent some = rw (empty, room, spare, fits) refl
    where
      empty : (length left == 0) ≡ false
      empty = ground arith

      room : (max_size + 2 ^ 64 - 0) % 2 ^ 64 ≡ max_size
      room = omega (arith, most)

      spare : ltb max_size 16 ≡ false
      spare = ground (arith, least)

      fits : leb (8 + min ((max_size - 12) / 4) (length left) * 4) 0xffff ≡ true
      fits = ground (arith, most)

  flush_step :
      (fuel : ℕ) (left : List FciItem) (sent : List (List ℕ)) (bytes : List ℕ)
      → 0 < length left
      → 0 < length bytes
      → length bytes ≤ max_size
      → max_size < length bytes + 16
      → pack_loop (suc fuel) n true max_size left (record { sent = sent; bytes = bytes })
        ≡ pack_loop fuel n true max_size left (record { sent = sent ++ bytes ∷ []; bytes = [] })
  unfolding pack_loop on_buffer_full
  flush_step fuel left sent bytes some full le lt = rw (empty, room, spare, filled) refl
    where
      empty : (length left == 0) ≡ false
      empty = ground arith

      filled : (length bytes == 0) ≡ false
      filled = ground arith

      room : (max_size + 2 ^ 64 - length bytes) % 2 ^ 64 ≡ max_size - length bytes
      room = omega (arith, most)

      spare : ltb (max_size - length bytes) 16 ≡ true
      spare = ground (arith, least)

AllShort : ℕ → List (List ℕ) → Type 0
AllShort max_size = All (λ (p : List ℕ). length p ≤ max_size)

All-snoc :
    (max_size : ℕ) (ps : List (List ℕ)) (p : List ℕ)
    → All (λ (q : List ℕ). length q ≤ max_size) ps
    → length p ≤ max_size
    → All (λ (q : List ℕ). length q ≤ max_size) (ps ++ p ∷ [])
All-snoc max_size [] p h le = (le, tt)
All-snoc max_size (q ∷ ps) p h le = (h.0, All-snoc max_size ps p h.1 le)

unpack_items-append :
    (xs ys : List FciItem) → unpack_items (xs ++ ys) ≡ unpack_items xs ++ unpack_items ys
unfolding unpack_items
unpack_items-append [] ys = refl
unpack_items-append (x ∷ xs) ys =
    ap (◌∷◌ x.first_pid)
      (ap (λ t. bits ++ t) (unpack_items-append xs ys) ∙ sym (append_assoc bits _ _))
  where
    bits : List ℕ
    bits = unpack_bits 16 x.bitmask ((x.first_pid + 1) % 2 ^ 16)

unpacked_ids :
    (f : Feedback) (items : List FciItem) (ids : List ℕ)
    → 0 < length items
    → (unpack_fci_items (record { feedback = f; fci_items = items; packet_ids = ids })).packet_ids
      ≡ unpack_items items
unfolding unpack_fci_items
unpacked_ids f items ids some = ground arith

flush_rest : Packed → Packed
flush_rest (packed b) =
    let (done, b') = on_buffer_full true b in if done then packed b' else failed b'
flush_rest (failed b) = failed b
flush_rest looping = looping
flush_rest asserted = asserted

flush_rest-packed :
    (sent : List (List ℕ)) (bytes : List ℕ)
    → 0 < length bytes
    → flush_rest (packed (record { sent = sent; bytes = bytes }))
      ≡ packed (record { sent = sent ++ bytes ∷ []; bytes = [] })
unfolding flush_rest on_buffer_full
flush_rest-packed sent bytes some = ground arith

-- Ends with packets that are short enough and carry the ids.
record IsSent (old : Nack) (max_size : ℕ) (ids : List ℕ) (result : Packed) : Type 0 where
  sent : List (List ℕ)
  all_sent : result ≡ packed (record { sent = sent; bytes = [] })
  short : All (λ (p : List ℕ). length p ≤ max_size) sent
  carries : carried old sent ≡ ok ids

module _ (n old : Nack) (max_size : ℕ) (least : 16 ≤ max_size) (most : max_size ≤ 1500)
    (feedback : IsFeedback n.feedback) where
  abbrev taken : List FciItem → List FciItem
  taken left = take (share n max_size least most left) left

  share_facts :
      (left : List FciItem)
      → 0 < length left
      → let c = share n max_size least most left in
        (0 < c)
        × (c ≤ length left)
        × (c < 2 ^ 15)
        × (12 + c * 4 ≤ max_size)
        × ((c ≡ length left) ⊎ (max_size < 12 + c * 4 + 16))
  unfolding share
  share_facts left some = elim (dec_lt (length left) ((max_size - 12) / 4)) [
    | yes less ↦ (
      omega (arith, least),
      omega arith,
      omega (arith, most),
      omega (arith, least),
      inl (omega arith),
    )
    | no more ↦ (
      omega (arith, least),
      omega arith,
      omega (arith, most),
      omega (arith, least),
      inr (omega (arith, least)),
    )
  ]

  abbrev looped : ℕ → List FciItem → List (List ℕ) → List ℕ → Packed
  looped fuel left sent bytes =
      flush_rest (pack_loop fuel n true max_size left (record { sent = sent; bytes = bytes }))

  after_fragment :
      (fuel : ℕ) (rest : List FciItem) (sent : List (List ℕ)) (bytes : List ℕ) (ids : List ℕ)
      → 0 < length bytes
      → length bytes ≤ max_size
      → (0 < length rest → max_size < length bytes + 16)
      → All (λ (p : List ℕ). length p ≤ max_size) sent
      → carried old (sent ++ bytes ∷ []) ≡ ok ids
      → (0 < length rest
          → IsSent old max_size
              (ids ++ unpack_items rest)
              (looped fuel rest (sent ++ bytes ∷ []) []))
      → IsSent old max_size (ids ++ unpack_items rest) (looped (suc fuel) rest sent bytes)
  unfolding unpack_items
  after_fragment fuel [] sent bytes ids some le full short carries next = record {
    sent = sent ++ bytes ∷ [];
    all_sent =
        ap flush_rest (end_step n max_size least most fuel (record { sent = sent; bytes = bytes }))
        ∙ flush_rest-packed sent bytes some;
    short = All-snoc max_size sent bytes short le;
    carries = carries ∙ ap ok (sym (append-nil ids));
  }
  after_fragment fuel (x ∷ xs) sent bytes ids some le full short carries next =
      subst (IsSent old max_size (ids ++ unpack_items (x ∷ xs)))
        (ap flush_rest (
          sym (
            flush_step n max_size least most fuel (x ∷ xs) sent bytes (omega arith) some le
              (full (omega arith)))))
        (next (omega arith))

  rest_empty :
      (left : List FciItem)
      → 0 < length left
      → 0 < length (drop (share n max_size least most left) left)
      → max_size < 12 + share n max_size least most left * 4 + 16
  rest_empty left some more = elim (share_facts left some).4 [
    | inl all ↦ absurd (omega (arith, length-drop {0} (share n max_size least most left) left))
    | inr full ↦ full
  ]

  from_empty :
      (fuel : ℕ) (left : List FciItem) (sent : List (List ℕ)) (ids : List ℕ)
      → 2 * length left ≤ fuel
      → 0 < length left
      → All IsItem left
      → All (λ (p : List ℕ). length p ≤ max_size) sent
      → carried old sent ≡ ok ids
      → IsSent old max_size (ids ++ unpack_items left) (looped fuel left sent [])
  from_empty zero left sent ids enough some range short carries = absurd (omega arith)
  from_empty (suc zero) left sent ids enough some range short carries = absurd (omega arith)
  from_empty (suc (suc fuel)) left sent ids enough some range short carries =
      subst (IsSent old max_size (ids ++ unpack_items left))
        (ap flush_rest (sym (write_step n max_size least most (suc fuel) left sent some)))
        (subst (λ (t : List ℕ). IsSent old max_size t (looped (suc fuel) rest sent bytes)) whole
          (after_fragment fuel rest sent bytes (ids ++ unpack_items (taken left))
            (omega (arith, length_bytes)) (omega (arith, length_bytes, facts.3))
            (λ more. omega (arith, length_bytes, rest_empty left some more)) short now
            (λ more.
              from_empty fuel rest (sent ++ bytes ∷ []) (ids ++ unpack_items (taken left))
                (omega (arith, length-drop {0} c left, facts.0)) more (All-drop c left range)
                (All-snoc max_size sent bytes short (omega (arith, length_bytes, facts.3))) now)))
    where
      c : ℕ
      c = share n max_size least most left

      facts :
          (0 < c)
          × (c ≤ length left)
          × (c < 2 ^ 15)
          × (12 + c * 4 ≤ max_size)
          × ((c ≡ length left) ⊎ (max_size < 12 + c * 4 + 16))
      facts = share_facts left some

      rest : List FciItem
      rest = drop c left

      bytes : List ℕ
      bytes = headed_fragment n c left

      length_bytes : length bytes ≡ 12 + c * 4
      length_bytes = length-fragment n old feedback c left facts.0 facts.1 facts.2 range

      first_ids :
          (unpack_fci_items (record {
            feedback = n.feedback;
            fci_items = taken left;
            packet_ids = old.packet_ids;
          })).packet_ids
          ≡ unpack_items (taken left)
      first_ids =
          unpacked_ids n.feedback (taken left) old.packet_ids (
            omega
              (arith, length-taken n old feedback c left facts.0 facts.1 facts.2 range, facts.0))

      now : carried old (sent ++ bytes ∷ []) ≡ ok (ids ++ unpack_items (taken left))
      now =
          carried-append old sent bytes ids (unpack_items (taken left)) _ carries
            (parse-fragment n old feedback c left facts.0 facts.1 facts.2 range) first_ids

      whole : (ids ++ unpack_items (taken left)) ++ unpack_items rest ≡ ids ++ unpack_items left
      whole =
          append_assoc ids _ _
          ∙ ap (λ t. ids ++ t)
              (sym (unpack_items-append (taken left) rest)
                ∙ ap unpack_items (take-append-drop c left))

build_of :
    (m : Packed)
    → (m >>=' λ b. let (done, b') = on_buffer_full true b in if done then packed b' else failed b')
      ≡ flush_rest m
unfolding flush_rest
build_of (packed b) = refl
build_of (failed b) = refl
build_of looping = refl
build_of asserted = refl

build-eq-flush_rest :
    (n : Nack) (max_size : ℕ)
    → max_size ≤ 1500
    → 0 < length n.fci_items
    → build (pack_into n) true max_size
      ≡ flush_rest (
          pack_loop
            (2 + 2 * length n.fci_items)
            n
            true
            max_size
            n.fci_items
            (record { sent = []; bytes = [] }))
unfolding build pack_into flush_rest
build-eq-flush_rest n max_size most some =
    rw (some_items, small)
      (build_of (
        pack_loop (2 + 2 * length n.fci_items) n true max_size n.fci_items
          (record { sent = []; bytes = [] })))
  where
    some_items : (length n.fci_items == 0) ≡ false
    some_items = ground arith

    small : leb max_size 1500 ≡ true
    small = ground (arith, most)

-- A NACK with at least one item, items and SSRCs in range, built with a callback for packets of 16
-- to 1500 bytes: the loop ends, no assertion fails, no packet is longer than the maximum, and
-- parsed in turn the packets carry the ids of all items in order.
pub build-carried :
    (n old : Nack) (max_size : ℕ)
    → 16 ≤ max_size
    → max_size ≤ 1500
    → IsFeedback n.feedback
    → 0 < length n.fci_items
    → All IsItem n.fci_items
    → (sent : List (List ℕ)) × (build (pack_into n) true max_size
        ≡ packed (record { sent = sent; bytes = [] }))
      × All (λ (p : List ℕ). length p ≤ max_size) sent
      × (carried old sent ≡ ok (unpack_items n.fci_items))
unfolding carried
build-carried n old max_size least most feedback some range =
    (r.sent, build-eq-flush_rest n max_size most some ∙ r.all_sent, r.short, r.carries)
  where
    r : IsSent old max_size (unpack_items n.fci_items) (
        flush_rest (
          pack_loop
            (2 + 2 * length n.fci_items)
            n
            true
            max_size
            n.fci_items
            (record { sent = []; bytes = [] })))
    r =
        from_empty n old max_size least most feedback (2 + 2 * length n.fci_items) n.fci_items [] []
          (omega arith) some range tt refl
