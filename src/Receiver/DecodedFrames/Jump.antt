-- ===== src/Receiver/DecodedFrames/Jump.antt =====
-- What a new frame does to the flags.
use naivertc.Base.{
  ℕ, ◌+◌, ◌-◌, ◌%◌, ◌≤◌, ◌<◌, ◌≡◌, ◌≢◌, ap, arith, ltb, leb, if◌then◌else◌, Bool, true, false, ◌&&◌,
  ◌||◌, List, [], ◌∷◌, length, set, get_or, contains, dec_lt,
}
use naivertc.Receiver.DecodedFrames.{fill_false}
use naivertc.Receiver.DecodedFrames.Flags.{length-fill_false, flag-fill_false, flag-set, mod-ahead}

-- The flags say which frames of the window were inserted, and no frame is newer than the newest.
abbrev pub TracksFlags : List ℕ → ℕ → List Bool → Type 0
TracksFlags [] w flags = (n : ℕ) → get_or flags n false ≡ false
TracksFlags (newest ∷ ids) w flags =
    ((j : ℕ) → newest < j → contains (newest ∷ ids) j ≡ false)
    × ((j : ℕ)
        → j ≤ newest
        → newest < j + w
        → get_or flags (j % w) false ≡ contains (newest ∷ ids) j)

-- The flags with the places cleared from behind `last` to before `next`.
abbrev pub advanced : ℕ → ℕ → ℕ → List Bool → List Bool
advanced w last next flags =
    if ltb last next
    then fill_false 0 (last + 1) next flags
    else fill_false 0 0 next (fill_false 0 (last + 1) w flags)

pub flag-advanced :
    (w last next : ℕ) (flags : List Bool) (n : ℕ)
    → n < w
    → get_or (advanced w last next flags) n false ≡ (
        if (if ltb last next then ltb last n && ltb n next else ltb last n || ltb n next)
        then false
        else get_or flags n false)
flag-advanced w last next flags n lt = ground (
  arith,
  flag-fill_false 0 (last + 1) next flags n,
  flag-fill_false 0 0 next (fill_false 0 (last + 1) w flags) n,
  flag-fill_false 0 (last + 1) w flags n,
)

-- A place of the window up to the old newest frame stays.
pub advanced-old :
    (w : ℕ) (flags : List Bool) (j last id : ℕ)
    → j ≤ last
    → last < id
    → id < j + w
    → get_or (advanced w (last % w) (id % w) flags) (j % w) false ≡ get_or flags (j % w) false
advanced-old w flags j last id le lt near =
    let (rj, at_last) = mod-ahead w j (last - j) (omega arith) in
    let (rj', at_id) = mod-ahead w j (id - j) (omega arith) in
    let last_at : j + (last - j) ≡ last = omega arith in
    let id_at : j + (id - j) ≡ id = omega arith in
    ground (
      arith,
      flag-advanced w (last % w) (id % w) flags (j % w) rj,
      ap (λ t. t % w) last_at,
      ap (λ t. t % w) id_at,
    )

-- A place between the two frames is cleared.
pub advanced-new :
    (w : ℕ) (flags : List Bool) (j last id : ℕ)
    → last < j
    → j < id
    → id < last + w
    → get_or (advanced w (last % w) (id % w) flags) (j % w) false ≡ false
advanced-new w flags j last id lt below near =
    let (rl, at_j) = mod-ahead w last (j - last) (omega arith) in
    let (rl', at_id) = mod-ahead w last (id - last) (omega arith) in
    let j_at : last + (j - last) ≡ j = omega arith in
    let id_at : last + (id - last) ≡ id = omega arith in
    let rj = (mod-ahead w j 0 (omega arith)).0 in
    ground (
      arith,
      flag-advanced w (last % w) (id % w) flags (j % w) rj,
      ap (λ t. t % w) j_at,
      ap (λ t. t % w) id_at,
    )

-- The flags after the jump from `last` to `id`.
abbrev pub jumped : ℕ → ℕ → ℕ → List Bool → List Bool
jumped w last id flags =
    if leb (last + w) id then fill_false 0 0 w flags else advanced w (last % w) (id % w) flags

pub jumped-flag :
    (w : ℕ) (flags : List Bool) (last id j : ℕ) (ids : List ℕ)
    → TracksFlags (last ∷ ids) w flags
    → last < id
    → j < id
    → id < j + w
    → get_or (jumped w last id flags) (j % w) false ≡ contains (last ∷ ids) j
jumped-flag w flags last id j ids (beyond, tracks) lt below near =
    let (rj, at_j) = mod-ahead w j 0 (omega arith) in
    elim (dec_lt id (last + w)) [
      | yes short ↦ elim (dec_lt last j) [
        | yes new ↦
            ground
              (arith, short, beyond j new, advanced-new w flags j last id new below (omega arith))
        | no old ↦ ground (
          arith,
          short,
          tracks j (omega arith) (omega arith),
          advanced-old w flags j last id (omega arith) lt near,
        )
      ]
      | no long ↦
          ground (arith, long, beyond j (omega arith), flag-fill_false 0 0 w flags (j % w), rj)
    ]

pub length-jumped :
    (w last id : ℕ) (flags : List Bool) → length (jumped w last id flags) ≡ length flags
length-jumped w last id flags = ground (
  arith,
  length-fill_false 0 0 w flags,
  length-fill_false 0 (last % w + 1) (id % w) flags,
  length-fill_false 0 0 (id % w) (fill_false 0 (last % w + 1) w flags),
  length-fill_false 0 (last % w + 1) w flags,
)

pub place-differs : (w j id : ℕ) → j < id → id < j + w → j % w ≢ id % w
place-differs w j id lt near same =
    let (rj, at_id) = mod-ahead w j (id - j) (omega arith) in
    let id_at : j + (id - j) ≡ id = omega arith in ground (arith, ap (λ t. t % w) id_at)

-- What inserting a frame does to the flags.
pub insert-TracksFlags :
    (w : ℕ) (flags : List Bool) (last id : ℕ) (ids : List ℕ)
    → 0 < w
    → length flags ≡ w
    → TracksFlags (last ∷ ids) w flags
    → last < id
    → TracksFlags (id ∷ last ∷ ids) w (set (jumped w last id flags) (id % w) true)
insert-TracksFlags w flags last id ids pw size (beyond, tracks) lt = (
  λ j later. ground (arith, beyond j (omega arith)),
  λ j le near. elim (dec_lt j id) [
    | yes below ↦ ground (
      arith,
      below,
      jumped-flag w flags last id j ids (beyond, tracks) lt below near,
      flag-set (jumped w last id flags) (id % w) (j % w) (in_range id),
      place-differs w j id below near,
    )
    | no at_id ↦
        let same : j ≡ id = omega arith in
        ground (
          arith,
          same,
          flag-set (jumped w last id flags) (id % w) (j % w) (in_range id),
          ap (λ t. t % w) same,
        )
  ],
)
  where
    in_range : (n : ℕ) → n % w < length (jumped w last id flags)
    in_range n = omega (arith, length-jumped w last id flags, (mod-ahead w n 0 pw).0)

pub first-TracksFlags :
    (w : ℕ) (flags : List Bool) (id : ℕ)
    → 0 < w
    → length flags ≡ w
    → ((n : ℕ) → get_or flags n false ≡ false)
    → TracksFlags (id ∷ []) w (set flags (id % w) true)
first-TracksFlags w flags id pw size clean = (
  λ j later. ground (arith, later),
  λ j le near. elim (dec_lt j id) [
    | yes below ↦ ground (
      arith,
      below,
      clean (j % w),
      place-differs w j id below near,
      flag-set flags (id % w) (j % w) (omega (arith, (mod-ahead w id 0 pw).0)),
    )
    | no at_id ↦
        let same : j ≡ id = omega arith in
        ground (
          arith,
          same,
          flag-set flags (id % w) (j % w) (omega (arith, (mod-ahead w id 0 pw).0)),
          ap (λ t. t % w) same,
        )
  ],
)
