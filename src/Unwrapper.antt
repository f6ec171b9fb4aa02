-- ===== src/Unwrapper.antt =====
-- src/rtc/rtp_rtcp/components/num_unwrapper.hpp: the 64-bit count behind numbers of `w` bits that
-- wrap. int64_t is an integer here: no stream reaches 2 ^ 63 numbers.
pub mod Laws
use naivertc.Base.{ℕ, ◌-◌, ◌%◌, ◌^◌, if◌then◌else◌, Bool, Option, none, some}
use naivertc.Base.Int.{ℤ, pos, negsuc, ◌+ℤ◌, ◌-ℤ◌, ltb_ℤ}
use naivertc.Modulo.{forward_diff, reverse_diff}
use naivertc.WrapAround.{ahead_or_at}

pub record NumberUnwrapper : Type 0 where
  pub last_unwrapped_value : Option ℤ

-- `static_cast<U>(x)`, in two's complement.
abbrev pub cast_to : ℕ → ℤ → ℕ
cast_to w (pos n) = n % 2 ^ w
cast_to w (negsuc n) = 2 ^ w - 1 - n % 2 ^ w

pub unwrap_from : ℕ → ℤ → ℕ → ℤ
unwrap_from w last value =
    let last_value = cast_to w last in
    let back = last -ℤ pos (reverse_diff w last_value value) in
    if ahead_or_at w value last_value
    then last +ℤ pos (forward_diff w last_value value)
    else if ltb_ℤ back (pos 0)
    then back +ℤ pos (2 ^ w)
    else back

unwrapped_of : ℕ → Option ℤ → ℕ → ℤ
unwrapped_of w none value = pos value
unwrapped_of w (some last) value = unwrap_from w last value

pub unwrap : ℕ → NumberUnwrapper → ℕ → Bool → ℤ × NumberUnwrapper
unfolding unwrapped_of
unwrap w u value update_last =
    let unwrapped = unwrapped_of w u.last_unwrapped_value value in
    (unwrapped, if update_last then record { last_unwrapped_value = some unwrapped } else u)

abbrev pub last : NumberUnwrapper → Option ℤ
last u = u.last_unwrapped_value

pub update_last : NumberUnwrapper → ℤ → NumberUnwrapper
update_last u value = record { last_unwrapped_value = some value }
