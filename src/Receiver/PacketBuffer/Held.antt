-- ===== src/Receiver/PacketBuffer/Held.antt =====
-- The slots of the packet buffer (src/rtc/rtp_rtcp/rtp/receiver/video/jitter/packet_buffer.cpp): what they hold after a
-- write, and that the slot before a number's is the slot of the number before.
use naivertc.Base.{
  ℕ, zero, suc, ◌+◌, ◌%◌, ◌^◌, ◌<◌, ◌≡◌, ◌≢◌, refl, sym, ap, ◌∙◌, subst, arith, ◌⊎◌, inl, inr,
  Option, some, [], ◌∷◌, length, set, ℕ_discrete, dec_lt,
}
use native.Mathlib.Nat.{mod-lt, suc-mod, mod-mod_of_dvd, dvd_of_mod-eq-zero, mod-eq_of_lt, mod_self}
use naivertc.Receiver.PacketBuffer.Packets.{Packet, Slots, slot, next_num, prev_num, prev_index}

pub slot-set_self :
    (slots : Slots) (i : ℕ) (v : Option Packet) → i < length slots → slot (set slots i v) i ≡ v
unfolding slot
slot-set_self [] i v h = absurd (omega arith)
slot-set_self (x ∷ xs) zero v h = refl
slot-set_self (x ∷ xs) (suc i) v h = slot-set_self xs i v (omega arith)

pub slot-set_ne :
    (slots : Slots) (i j : ℕ) (v : Option Packet) → i ≢ j → slot (set slots i v) j ≡ slot slots j
unfolding slot
slot-set_ne [] i j v h = refl
slot-set_ne (x ∷ xs) zero zero v h = absurd (h refl)
slot-set_ne (x ∷ xs) zero (suc j) v h = refl
slot-set_ne (x ∷ xs) (suc i) zero v h = refl
slot-set_ne (x ∷ xs) (suc i) (suc j) v h = slot-set_ne xs i j v (λ e. h (ap suc e))

pub slot-in : (slots : Slots) (i : ℕ) (q : Packet) → slot slots i ≡ some q → i < length slots
unfolding slot
slot-in [] i q h = absurd (ground (arith, h))
slot-in (x ∷ xs) zero q h = omega arith
slot-in (x ∷ xs) (suc i) q h = omega (arith, slot-in xs i q h)

-- A size that divides the number of sequence numbers, and is less.
unfoldable pub IsSize : ℕ → Type 0
IsSize n = (0 < n) × (n < 2 ^ 16) × (2 ^ 16 % n ≡ 0)

pub wrapped-mod : (n y : ℕ) → IsSize n → y % 2 ^ 16 % n ≡ y % n
unfolding IsSize
wrapped-mod n y (pos, small, whole) = mod-mod_of_dvd n y (dvd_of_mod-eq-zero n whole)

next-mod : (n y : ℕ) → IsSize n → next_num y % n ≡ suc (y % n) % n
next-mod n y sized =
    let e : suc y ≡ y + 1 = omega arith in
    wrapped-mod n (y + 1) sized ∙ subst (λ t. t % n ≡ suc (y % n) % n) e (suc-mod y n)

pub prev_index-mod :
    (slots : Slots) (x : ℕ)
    → IsSize (length slots)
    → x < 2 ^ 16
    → prev_index slots (x % length slots) ≡ prev_num x % length slots
unfolding IsSize
prev_index-mod slots x sized h =
    let n = length slots in
    let y = prev_num x in
    let back : next_num y ≡ x = omega arith in
    let step : x % n ≡ suc (y % n) % n = ap (λ z. z % n) (sym back) ∙ next-mod n y sized in
    let below : y % n < n = mod-lt y sized.0 in
    elim (dec_lt (suc (y % n)) n) [
      | yes lt ↦ ground (arith, step, mod-eq_of_lt lt)
      | no ge ↦
          let e : suc (y % n) ≡ n = omega arith in
          ground (arith, step, ap (λ z. z % n) e, mod_self n, below)
    ]

-- What a slot holds after a write was written, or was there.
pub slot-set_cases :
    (slots : Slots) (i k : ℕ) (v : Option Packet) (q : Packet)
    → i < length slots
    → slot (set slots i v) k ≡ some q
    → ((k ≡ i) × (v ≡ some q)) ⊎ ((k ≢ i) × (slot slots k ≡ some q))
slot-set_cases slots i k v q lt held = elim (ℕ_discrete k i) [
  | yes same ↦
      inl (same, sym (slot-set_self slots i v lt) ∙ ap (slot (set slots i v)) (sym same) ∙ held)
  | no differ ↦ inr (differ, sym (slot-set_ne slots i k v (λ e. differ (sym e))) ∙ held)
]
