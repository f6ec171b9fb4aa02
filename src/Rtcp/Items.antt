-- ===== src/Rtcp/Items.antt =====
-- The loops over the items of fixed size that close many RTCP packets: `next += size` is `drop size`.
pub mod Laws
use naivertc.Base.{ℕ, zero, suc, List, [], ◌∷◌, ◌++◌, drop}
use naivertc.Bytes.{Outcome, ok, ◌>>=◌}

module _ {ℓ} {A : Type ℓ} where
  unfoldable pub read_items : (List ℕ → Outcome A) → ℕ → ℕ → List ℕ → Outcome (List A)
  read_items read size zero p = ok []
  read_items read size (suc n) p = do
    item ← read p
    rest ← read_items read size n (drop size p)
    ok (item ∷ rest)

  unfoldable pub write_items : (A → List ℕ) → List A → List ℕ
  write_items write [] = []
  write_items write (a ∷ as') = write a ++ write_items write as'

  abbrev pub All {κ} : (A → Type κ) → List A → Type κ
  All P [] = Unit
  All P (a ∷ as') = P a × All P as'
