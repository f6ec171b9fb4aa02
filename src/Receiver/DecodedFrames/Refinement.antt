-- ===== src/Receiver/DecodedFrames/Refinement.antt =====
-- The history of decoded frames as the list of the frames inserted.
use native.Mathlib.Nat.{mod-eq_of_lt, mod-lt}
use naivertc.Base.{
  ap₂, ◌≤◌, ◌^◌, ℕ, ◌+◌, ◌%◌, ◌<◌, ◌≡◌, refl, ap, sym, ◌∙◌, subst, arith, ltb, Bool, true, false,
  ◌&&◌, List, [], ◌∷◌, length, length-set, length-replicate, set, contains, dec_lt, Option, none,
  some,
}
use naivertc.Base.Int.{ℤ, pos, -ℤ_parts, to_uint64}
use naivertc.Receiver.DecodedFrames.{
  DecodedFramesHistory, new_history, frame_id_to_index, clear_expired, insert_frame, was_decoded,
  was_decoded_since, clear,
}
use naivertc.Receiver.DecodedFrames.Flags.{length-fill_false, flag-replicate, flag-clear}
use naivertc.Receiver.DecodedFrames.Jump.{
  TracksFlags, jumped, length-jumped, insert-TracksFlags, first-TracksFlags,
}

-- Newer than the newest of the frames, which is the first.
abbrev pub IsNext : ℕ → List ℕ → Type 0
IsNext id [] = Unit
IsNext id (newest ∷ ids) = newest < id

-- The histories that frames of rising numbers of 63 bits give, with those frames, where an int holds each
-- place of the window.
pub data History : List ℕ → DecodedFramesHistory → Type 0 where
  started :
      (window_size : ℕ)
      → 0 < window_size
      → window_size ≤ 2 ^ 31
      → History [] (new_history window_size)
  inserted :
      {ids : List ℕ} {h : DecodedFramesHistory} (id timestamp : ℕ)
      → History ids h
      → IsNext id ids
      → id < 2 ^ 63
      → History (id ∷ ids) (insert_frame h (pos id) timestamp)
  cleared : {ids : List ℕ} {h : DecodedFramesHistory} → History ids h → History [] (clear h)

abbrev newest_of : List ℕ → Option ℤ
newest_of [] = none
newest_of (newest ∷ ids) = some (pos newest)

HasWindow : DecodedFramesHistory → Type 0
HasWindow h = (0 < h.window_size) × (h.window_size ≤ 2 ^ 31) × (length h.buffer ≡ h.window_size)

Tracks : List ℕ → DecodedFramesHistory → Type 0
Tracks ids h =
    HasWindow h × (h.last_decoded_frame_id ≡ newest_of ids) × TracksFlags ids h.window_size h.buffer

-- In such a window the index is the remainder.
index-mod :
    (h : DecodedFramesHistory) (id : ℕ)
    → HasWindow h
    → id < 2 ^ 63
    → frame_id_to_index h (pos id) ≡ pos (id % h.window_size)
unfolding frame_id_to_index HasWindow
index-mod h id (pw, wide, size) small =
    rw (size, mod-eq_of_lt fits) (let below = mod-lt id pw in ground (arith, below, wide))
  where
    fits : id < 2 ^ 64
    fits = omega (arith, small)

place-mod :
    (h : DecodedFramesHistory) (id : ℕ)
    → HasWindow h
    → id < 2 ^ 63
    → to_uint64 (frame_id_to_index h (pos id)) ≡ id % h.window_size
unfolding HasWindow
place-mod h id (pw, wide, size) small =
    rw (index-mod h id (pw, wide, size) small)
      (let below = mod-lt id pw in omega (arith, below, wide))

clear_expired-jumped :
    (h : DecodedFramesHistory) (last id : ℕ)
    → HasWindow h
    → last < id
    → id < 2 ^ 63
    → clear_expired h (pos id) (some (pos last)) ≡ jumped h.window_size last id h.buffer
unfolding clear_expired HasWindow
clear_expired-jumped h last id (pw, wide, size) lt small =
    let w : HasWindow h = (pw, wide, size) in
    rw
      (
        place-mod h id w small,
        place-mod h last w (omega arith),
        index-mod h id w small,
        index-mod h last w (omega arith),
        size,
      )
      (ground (arith, -ℤ_parts (pos id) (pos last)))

insert-Tracks :
    (ids : List ℕ) (h : DecodedFramesHistory) (id timestamp : ℕ)
    → IsNext id ids
    → id < 2 ^ 63
    → Tracks ids h
    → Tracks (id ∷ ids) (insert_frame h (pos id) timestamp)
unfolding Tracks HasWindow insert_frame
insert-Tracks [] h id timestamp next small ((pw, wide, size), none_yet, clean) =
    let w = h.window_size in
    let flags =
      ap₂ (λ bs n. set bs n true)
        (ap (clear_expired h (pos id)) none_yet ∙ unfold clear_expired in refl)
        (place-mod h id (pw, wide, size) small) in
    (
      (pw, wide, ap length flags ∙ length-set h.buffer (id % w) true ∙ size),
      refl,
      subst (TracksFlags (id ∷ []) w) (sym flags) (first-TracksFlags w h.buffer id pw size clean),
    )
insert-Tracks (last ∷ ids) h id timestamp next small ((pw, wide, size), newest, tracks) =
    let w = h.window_size in
    let flags =
      ap₂ (λ bs n. set bs n true)
        (ap (clear_expired h (pos id)) newest
          ∙ clear_expired-jumped h last id (pw, wide, size) next small)
        (place-mod h id (pw, wide, size) small) in
    (
      (
        pw,
        wide,
        ap length flags
            ∙ length-set (jumped w last id h.buffer) (id % w) true
            ∙ length-jumped w last id h.buffer
            ∙ size,
      ),
      refl,
      subst (TracksFlags (id ∷ last ∷ ids) w) (sym flags)
          (insert-TracksFlags w h.buffer last id ids pw size tracks next),
    )

History-Tracks : (ids : List ℕ) (h : DecodedFramesHistory) → History ids h → Tracks ids h
unfolding Tracks HasWindow new_history clear
History-Tracks ids h (started w pw wide) =
    ((pw, wide, length-replicate w false), refl, flag-replicate w)
History-Tracks ids h (cleared {ids = before} {h = old} past) =
    let ((pw, wide, size), last, tracks) = History-Tracks before old past in
    (
      (pw, wide, length-fill_false 0 0 (length old.buffer) old.buffer ∙ size),
      refl,
      flag-clear old.buffer,
    )
History-Tracks ids h (inserted {ids = before} {h = old} id timestamp past next small) =
    insert-Tracks before old id timestamp next small (History-Tracks before old past)

-- Whether a frame was inserted and is still in the window behind the newest.
unfoldable pub is_known : List ℕ → ℕ → ℕ → Bool
is_known [] w j = false
is_known (newest ∷ ids) w j = contains (newest ∷ ids) j && ltb newest (j + w)

was_decoded-Tracks :
    (ids : List ℕ) (h : DecodedFramesHistory) (j : ℕ)
    → j < 2 ^ 63
    → Tracks ids h
    → was_decoded h (pos j) ≡ is_known ids h.window_size j
unfolding Tracks HasWindow was_decoded was_decoded_since is_known
was_decoded-Tracks [] h j small (window, last, clean) = ap (was_decoded_since h (pos j)) last
was_decoded-Tracks (newest ∷ ids) h j small ((pw, wide, size), last, (beyond, tracks)) =
    let w = h.window_size in
    let place = place-mod h j (pw, wide, size) small in
    ap (was_decoded_since h (pos j)) last ∙ elim (dec_lt newest (j + w)) [
      | yes near ↦ elim (dec_lt newest j) [
        | yes newer ↦ ground (arith, newer, -ℤ_parts (pos newest) (pos w), beyond j newer)
        | no older ↦ rw place (
            ground (arith, near, older, -ℤ_parts (pos newest) (pos w), tracks j (omega arith) near))
      ]
      | no far ↦ ground (arith, far, -ℤ_parts (pos newest) (pos w))
    ]

-- For a history of a window of 1 to 2 ^ 31 frames, after frames of rising numbers from 0 and below
-- 2 ^ 63 were inserted since its start or the last clearing, WasDecoded of such a number says
-- whether that frame was inserted and is less than the window behind the newest one.
pub was_decoded-refines :
    (ids : List ℕ) (h : DecodedFramesHistory) (j : ℕ)
    → j < 2 ^ 63
    → History ids h
    → was_decoded h (pos j) ≡ is_known ids h.window_size j
was_decoded-refines ids h j small past =
    was_decoded-Tracks ids h j small (History-Tracks ids h past)
