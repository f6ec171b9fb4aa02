-- ===== src/Rtcp/Items/Laws.antt =====
-- Items are read back in order, whatever follows them, and take the room that their number says.
use mathlib.Core.List.{append_assoc, append-nil}
use naivertc.Base.{
  ℕ, zero, suc, ◌*◌, ◌≤◌, ◌≡◌, ◌≢◌, refl, sym, ap, ◌∙◌, arith, List, [], ◌∷◌, ◌++◌, length, drop,
  length-append, length-drop,
}
use naivertc.Bytes.{Outcome, ok, fault}
use naivertc.Rtcp.Items.{read_items, write_items, All}

module _ {ℓ} {A : Type ℓ} (write : A → List ℕ) (size : ℕ)
    (width : (a : A) → length (write a) ≡ size) where
  pub length-write_items : (xs : List A) → length (write_items write xs) ≡ size * length xs
  unfolding write_items
  length-write_items [] = omega arith
  length-write_items (x ∷ xs) =
      omega (arith, length-append (write x) (write_items write xs), length-write_items xs, width x)

drop-append : (n : ℕ) (xs ys : List ℕ) → length xs ≡ n → drop n (xs ++ ys) ≡ ys
drop-append zero [] ys h = refl
drop-append zero (x ∷ xs) ys h = absurd (omega arith)
drop-append (suc n) [] ys h = absurd (omega arith)
drop-append (suc n) (x ∷ xs) ys h = drop-append n xs ys (omega arith)

module _ {ℓ κ} {A : Type ℓ} (P : A → Type κ) (read : List ℕ → Outcome A) (write : A → List ℕ)
    (size : ℕ) (width : (a : A) → length (write a) ≡ size)
    (read_back : (a : A) (rest : List ℕ) → P a → read (write a ++ rest) ≡ ok a) where
  pub read-write_items :
      (xs : List A) (rest : List ℕ)
      → All P xs
      → read_items read size (length xs) (write_items write xs ++ rest) ≡ ok xs
  unfolding read_items write_items
  read-write_items [] rest h = refl
  read-write_items (x ∷ xs) rest h =
      rw
        (
          append_assoc (write x) (write_items write xs) rest,
          read_back x (write_items write xs ++ rest) h.0,
          drop-append size (write x) (write_items write xs ++ rest) (width x),
          read-write_items xs rest h.1,
        )
        refl

  -- The same with nothing behind the items.
  pub read-write_items_end :
      (xs : List A) → All P xs → read_items read size (length xs) (write_items write xs) ≡ ok xs
  read-write_items_end xs h =
      ap (read_items read size (length xs)) (sym (append-nil (write_items write xs)))
      ∙ read-write_items xs [] h

module _ {ℓ} {A : Type ℓ} (read : List ℕ → Outcome A) (size : ℕ)
    (safe : (p : List ℕ) → size ≤ length p → read p ≢ fault) where
  pub read_items-ne-fault :
      (n : ℕ) (p : List ℕ) → size * n ≤ length p → read_items read size n p ≢ fault
  unfolding read_items
  read_items-ne-fault zero p h = cc
  read_items-ne-fault (suc n) p h = ground (
    arith,
    safe p (omega arith),
    read_items-ne-fault n (drop size p) (omega (arith, length-drop {0} size p)),
  )
