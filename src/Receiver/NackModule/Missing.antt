-- ===== src/Receiver/NackModule/Missing.antt =====
-- The entries of the missing numbers, and whether they are due.
use naivertc.Base.{
  ℕ, suc, zero, ◌+◌, ◌%◌, ◌^◌, ◌≤◌, ◌<◌, ◌≡◌, ◌≢◌, refl, ap, sym, subst, arith, ◌==◌, if◌then◌else◌,
  Bool, true, false, ◌&&◌, ◌||◌, Bool-cases, inl, inr, List, [], ◌∷◌, ◌++◌, dec_lt, ℕ_discrete,
  some,
}
use mathlib.Core.List.{append-nil, append_assoc}
use naivertc.Base.Int.{ℤ}
use naivertc.Receiver.NackModule.{
  NackInfo, new_nack_info, seq_num_of, max_packet_age, max_nack_packet_count, add_missing,
  is_recovered_in,
}
use naivertc.Receiver.NackModule.Ordered.{put}
use naivertc.Receiver.NackModule.Age.{
  behind, Aged, Aged-weaken, Aged-put, older-behind, behind-next, behind-same, behind-zero,
  behind_injective,
}

pub put-append :
    (n hi : ℕ) (y : NackInfo) (xs : List NackInfo)
    → n < 2 ^ 16
    → y.seq_num < 2 ^ 16
    → hi ≤ 2 ^ 15
    → Aged n hi (suc (behind n y.seq_num)) xs
    → put seq_num_of y xs ≡ xs ++ y ∷ []
unfolding Aged put
put-append n hi y [] hn hy le aged = refl
put-append n hi y (x ∷ xs) hn hy le (h, r, from, below, rest) = ground (
  arith,
  older-behind n x.seq_num y.seq_num hn h hy (omega arith) (omega arith),
  put-append n (behind n x.seq_num) y xs hn hy (omega arith) rest,
)

-- The entries for `k` numbers from `s` on, less those recovered.
pub missing : ℕ → ℤ → ℕ → List ℕ → List NackInfo
missing zero now s recovered = []
missing (suc k) now s recovered =
    let rest = missing k now ((s + 1) % 2 ^ 16) recovered in
    if is_recovered_in recovered s then rest else new_nack_info s now ∷ rest

pub add_missing-append :
    (fuel k : ℕ) (now : ℤ) (s n : ℕ) (recovered : List ℕ) (infos : List NackInfo)
    → s < 2 ^ 16
    → n < 2 ^ 16
    → behind n s ≡ k
    → k < fuel
    → k ≤ max_nack_packet_count
    → Aged n (suc max_packet_age) (suc k) infos
    → add_missing fuel now s n recovered infos ≡ some (infos ++ missing k now s recovered)
unfolding add_missing missing
add_missing-append zero k now s n recovered infos hs hn e lt le aged = absurd (omega arith)
add_missing-append (suc fuel) zero now s n recovered infos hs hn e lt le aged =
    ground (arith, behind-zero n s hn hs e, append-nil infos)
add_missing-append (suc fuel) (suc k) now s n recovered infos hs hn e lt le aged =
    let info = new_nack_info s now in
    let s' = (s + 1) % 2 ^ 16 in
    let hi = suc max_packet_age in
    let differ : s ≢ n = λ same. omega (arith, behind-same n, ap (behind n) same) in
    let age : behind n s' ≡ k = omega (arith, behind-next n s hn hs differ) in
    elim (Bool-cases (is_recovered_in recovered s)) [
      | inl found ↦ ground (
        arith,
        found,
        differ,
        add_missing-append fuel k now s' n recovered infos (omega arith) hn age (omega arith)
            (omega arith)
            (Aged-weaken n hi (suc (suc k)) hi (suc k) infos (omega arith) (omega arith) aged),
      )
      | inr lost ↦
          let aged' = subst (λ lo. Aged n hi (suc lo) infos) (sym e) aged in
          ground (
            arith,
            lost,
            differ,
            put-append n hi info infos hn hs (omega arith) aged',
            append_assoc infos (info ∷ []) (missing k now s' recovered),
            add_missing-append fuel k now s' n recovered (put seq_num_of info infos) (omega arith)
                hn age (omega arith) (omega arith)
                (subst (λ lo. Aged n hi lo (put seq_num_of info infos)) e
                  (Aged-put n hi info infos hn hs (omega arith) (omega arith) (omega arith) aged')),
          )
    ]

-- Whether a number has an entry that is due.
unfoldable pub has_due : (NackInfo → Bool) → ℕ → List NackInfo → Bool
has_due due x [] = false
has_due due x (e ∷ es) = (e.seq_num == x && due e) || has_due due x es

pub has_due-append :
    (due : NackInfo → Bool) (x : ℕ) (xs ys : List NackInfo)
    → has_due due x ys ≡ true
    → has_due due x (xs ++ ys) ≡ true
unfolding has_due
has_due-append due x [] ys h = h
has_due-append due x (e ∷ es) ys h = ground (arith, has_due-append due x es ys h)

pub missing-has_due :
    (due : NackInfo → Bool) (k : ℕ) (now : ℤ) (s n x : ℕ) (recovered : List ℕ)
    → s < 2 ^ 16
    → n < 2 ^ 16
    → x < 2 ^ 16
    → behind n s ≡ k
    → 0 < behind n x
    → behind n x ≤ k
    → is_recovered_in recovered x ≡ false
    → due (new_nack_info x now) ≡ true
    → has_due due x (missing k now s recovered) ≡ true
unfolding missing has_due
missing-has_due due zero now s n x recovered hs hn hx e from below lost now_due =
    absurd (omega arith)
missing-has_due due (suc k) now s n x recovered hs hn hx e from below lost now_due =
    let s' = (s + 1) % 2 ^ 16 in
    let differ : s ≢ n = λ same. omega (arith, behind-same n, ap (behind n) same) in
    let age : behind n s' ≡ k = omega (arith, behind-next n s hn hs differ) in
    elim (ℕ_discrete s x) [
      | yes here ↦ ground (
        arith,
        here,
        ap (is_recovered_in recovered) here,
        lost,
        ap (λ y. due (new_nack_info y now)) here,
        now_due,
      )
      | no elsewhere ↦
          let nearer : behind n x ≤ k = elim (dec_lt (behind n x) (suc k)) [
            | yes lt ↦ omega arith
            | no ge ↦ absurd (elsewhere (behind_injective n s x hn hs hx (omega arith)))
          ] in
          ground (
            arith,
            missing-has_due due k now s' n x recovered (omega arith) hn hx age from nearer lost
                now_due,
          )
    ]
