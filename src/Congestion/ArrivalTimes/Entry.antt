-- ===== src/Congestion/ArrivalTimes/Entry.antt =====
-- The packet at a place of the queue, under each change of the queue.
use naivertc.Base.{
  ℕ, zero, suc, ◌+◌, ◌-◌, ◌≤◌, ◌<◌, ◌≡◌, refl, ap, ◌∙◌, sym, arith, ltb, ◌==◌, if◌then◌else◌, false,
  Option, none, some, List, [], ◌∷◌, ◌++◌, length, get_elem?, set, drop, replicate,
  length-replicate,
}
use naivertc.Base.Int.{ℤ}
use naivertc.Congestion.ArrivalTimes.{skip_placeholders, is_placeholder, packet_id_placeholder}

abbrev pub packet_of : Option ℤ → Option ℤ
packet_of none = none
packet_of (some time) = if is_placeholder time then none else some time

-- The packet at a place, if there is one.
unfoldable pub entry : List ℤ → ℕ → Option ℤ
entry times n = packet_of (get_elem? times n)

pub entry-beyond : (times : List ℤ) (n : ℕ) → length times ≤ n → entry times n ≡ none
unfolding entry
entry-beyond [] n h = refl
entry-beyond (t ∷ times) zero h = absurd (omega arith)
entry-beyond (t ∷ times) (suc n) h = entry-beyond times n (omega arith)

pub entry-append :
    (xs ys : List ℤ) (n : ℕ)
    → entry (xs ++ ys) n ≡ (if ltb n (length xs) then entry xs n else entry ys (n - length xs))
unfolding entry
entry-append [] ys n = ground arith
entry-append (x ∷ xs) ys zero = ground arith
entry-append (x ∷ xs) ys (suc n) = ground (arith, entry-append xs ys n)

pub entry-placeholders : (k n : ℕ) → entry (replicate k packet_id_placeholder) n ≡ none
unfolding entry
entry-placeholders zero n = refl
entry-placeholders (suc k) zero = refl
entry-placeholders (suc k) (suc n) = entry-placeholders k n

pub entry-drop : (r : ℕ) (xs : List ℤ) (n : ℕ) → entry (drop r xs) n ≡ entry xs (r + n)
unfolding entry
entry-drop zero xs n = ap (entry xs) zero_add
  where
    zero_add : n ≡ 0 + n
    zero_add = omega arith
entry-drop (suc r) [] n = refl
entry-drop (suc r) (x ∷ xs) n = entry-drop r xs n ∙ sym (ap (entry (x ∷ xs)) (suc_add r n))
  where
    suc_add : (r n : ℕ) → suc r + n ≡ suc (r + n)
    suc_add r n = omega arith

pub entry-set :
    (xs : List ℤ) (i : ℕ) (t : ℤ) (n : ℕ)
    → is_placeholder t ≡ false
    → i < length xs
    → entry (set xs i t) n ≡ (if n == i then some t else entry xs n)
unfolding entry
entry-set [] i t n h le = absurd (omega arith)
entry-set (x ∷ xs) zero t zero h le = ground (arith, h)
entry-set (x ∷ xs) zero t (suc n) h le = ground arith
entry-set (x ∷ xs) (suc i) t zero h le = ground arith
entry-set (x ∷ xs) (suc i) t (suc n) h le = ground (arith, entry-set xs i t n h)

entry-single :
    (t : ℤ) (n : ℕ)
    → is_placeholder t ≡ false
    → entry (t ∷ []) n ≡ (if n == 0 then some t else none)
unfolding entry
entry-single t zero h = ground (arith, h)
entry-single t (suc n) h = ground arith

-- A gap and a packet behind.
pub entry-push :
    (times : List ℤ) (gap : ℕ) (t : ℤ) (n : ℕ)
    → is_placeholder t ≡ false
    → entry (times ++ (replicate gap packet_id_placeholder ++ t ∷ [])) n
      ≡ (if n == length times + gap then some t else entry times n)
entry-push times gap t n h =
    let placeholders = replicate gap packet_id_placeholder in
    let m = n - length times in
    let behind = entry-beyond times n in
    ground (
      arith,
      entry-append times (placeholders ++ t ∷ []) n,
      entry-append placeholders (t ∷ []) m,
      entry-placeholders gap m,
      entry-single t (m - length placeholders) h,
      length-replicate gap packet_id_placeholder,
      behind,
    )

-- The places that the trimming skips have no packet.
pub entry-skipped :
    (r : ℕ) (times : List ℤ) (n : ℕ) → r + n < skip_placeholders r times → entry times n ≡ none
unfolding entry skip_placeholders
entry-skipped r [] n lt = refl
entry-skipped r (t ∷ times) zero lt = ground (arith, lt)
entry-skipped r (t ∷ times) (suc n) lt = entry-skipped (suc r) times n (ground (arith, lt))
