-- ===== src/Modulo.antt =====
-- src/rtc/base/numerics/modulo_operator.hpp: arithmetic of numbers that wrap, at a modulus `M` (the
-- overloads with M > 0) or at the width of their type (those with M == 0, here `w` bits).
pub mod Laws
use naivertc.Base.{ℕ, ◌+◌, ◌-◌, ◌%◌, ◌^◌, ltb, leb, if◌then◌else◌, min}

-- unsigned long, 64 bits wide. `t` is at most `m`, and the difference may wrap.
unfoldable pub add : ℕ → ℕ → ℕ → ℕ
add m a b =
    let t = m - b % m in
    let res = (a + 2 ^ 64 - t) % 2 ^ 64 in if ltb a t then (res + m) % 2 ^ 64 else res

unfoldable pub subtract : ℕ → ℕ → ℕ → ℕ
subtract m a b = let sub = b % m in if ltb a sub then m - (sub - a) else a - sub

unfoldable pub forward_diff_mod : ℕ → ℕ → ℕ → ℕ
forward_diff_mod m a b = if leb a b then b - a else m - (a - b)

unfoldable pub forward_diff : ℕ → ℕ → ℕ → ℕ
forward_diff w a b = (b + 2 ^ w - a) % 2 ^ w

unfoldable pub reverse_diff_mod : ℕ → ℕ → ℕ → ℕ
reverse_diff_mod m a b = if leb b a then a - b else m - (b - a)

unfoldable pub reverse_diff : ℕ → ℕ → ℕ → ℕ
reverse_diff w a b = (a + 2 ^ w - b) % 2 ^ w

unfoldable pub min_diff_mod : ℕ → ℕ → ℕ → ℕ
min_diff_mod m a b = min (forward_diff_mod m a b) (reverse_diff_mod m a b)

unfoldable pub min_diff : ℕ → ℕ → ℕ → ℕ
min_diff w a b = min (forward_diff w a b) (reverse_diff w a b)
