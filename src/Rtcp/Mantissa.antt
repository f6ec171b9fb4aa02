-- ===== src/Rtcp/Mantissa.antt =====
-- Bitrates as a mantissa of few bits and an exponent: the loop of `Remb::PackInto` (src/rtc/rtp_rtcp/rtcp/packets/remb.cpp).
-- `none` is a loop that has not ended within its fuel; 64 rounds are enough for 64 bits.
pub mod Laws
use naivertc.Base.{ℕ, zero, suc, ◌+◌, ◌/◌, ltb, if◌then◌else◌, Option, none, some}

unfoldable pub normalize : ℕ → ℕ → ℕ → ℕ → Option (ℕ × ℕ)
normalize zero max_mantissa mantissa exponent = none
normalize (suc fuel) max_mantissa mantissa exponent =
    let rest = normalize fuel max_mantissa (mantissa / 2) (exponent + 1) in
    if ltb max_mantissa mantissa then rest else some (mantissa, exponent)
