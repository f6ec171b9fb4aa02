-- ===== src/Receiver/DecodedFrames/Flags.antt =====
-- The flags of the cyclic buffer, and the places of frames in it.
use native.Mathlib.Nat.{mod-eq_of_lt, mod-add-mod, mod-eq-sub-mod, mod-lt}
use naivertc.Base.{
  ℕ, zero, suc, ◌+◌, ◌-◌, ◌%◌, ◌≤◌, ◌<◌, ◌≡◌, refl, ap, sym, ◌∙◌, arith, ltb, leb, ◌==◌,
  if◌then◌else◌, Bool, true, false, ◌&&◌, List, [], ◌∷◌, length, set, get_or, replicate, dec_lt,
}
use naivertc.Receiver.DecodedFrames.{fill_false}

pub length-fill_false :
    (i first last : ℕ) (xs : List Bool) → length (fill_false i first last xs) ≡ length xs
unfolding fill_false
length-fill_false i first last [] = refl
length-fill_false i first last (x ∷ xs) = ap suc (length-fill_false (suc i) first last xs)

pub flag-fill_false :
    (i first last : ℕ) (xs : List Bool) (n : ℕ)
    → get_or (fill_false i first last xs) n false
      ≡ (if leb first (i + n) && ltb (i + n) last then false else get_or xs n false)
unfolding fill_false
flag-fill_false i first last [] n = ground arith
flag-fill_false i first last (x ∷ xs) zero = ground arith
flag-fill_false i first last (x ∷ xs) (suc n) =
    ground (arith, flag-fill_false (suc i) first last xs n)

pub flag-set :
    (xs : List Bool) (i n : ℕ)
    → i < length xs
    → get_or (set xs i true) n false ≡ (if n == i then true else get_or xs n false)
flag-set [] i n lt = absurd (omega arith)
flag-set (x ∷ xs) zero zero lt = ground arith
flag-set (x ∷ xs) zero (suc n) lt = ground arith
flag-set (x ∷ xs) (suc i) zero lt = ground arith
flag-set (x ∷ xs) (suc i) (suc n) lt = ground (arith, flag-set xs i n (omega arith))

-- Going ahead by less than the size of the buffer wraps at most once.
pub mod-ahead :
    (w a d : ℕ)
    → d < w
    → (a % w < w) × ((a + d) % w ≡ (if ltb (a % w + d) w then a % w + d else a % w + d - w))
mod-ahead w a d lt =
    let small : a % w < w = mod-lt a (omega arith) in
    (
      small,
      elim (dec_lt (a % w + d) w) [
        | yes below ↦ sym (mod-add-mod a w d) ∙ mod-eq_of_lt below ∙ ground (arith, below)
        | no above ↦
            sym (mod-add-mod a w d)
            ∙ mod-eq-sub-mod (omega arith)
            ∙ mod-eq_of_lt (omega arith)
            ∙ ground (arith, above)
      ],
    )

pub flag-replicate : (k n : ℕ) → get_or (replicate k false) n false ≡ false
flag-replicate zero n = refl
flag-replicate (suc k) zero = refl
flag-replicate (suc k) (suc n) = flag-replicate k n

pub flag-beyond : (xs : List Bool) (n : ℕ) → length xs ≤ n → get_or xs n false ≡ false
flag-beyond [] n le = refl
flag-beyond (x ∷ xs) zero le = absurd (omega arith)
flag-beyond (x ∷ xs) (suc n) le = flag-beyond xs n (omega arith)

pub flag-clear : (xs : List Bool) (n : ℕ) → get_or (fill_false 0 0 (length xs) xs) n false ≡ false
flag-clear xs n = elim (dec_lt n (length xs)) [
  | yes inside ↦ ground (arith, inside, flag-fill_false 0 0 (length xs) xs n)
  | no out ↦
      ground (arith, out, flag-fill_false 0 0 (length xs) xs n, flag-beyond xs n (omega arith))
]
