-- ===== src/Receiver/NackModule/Asking.antt =====
-- Which numbers a packet makes the module ask for.
use naivertc.Base.{ℕ, ◌≡◌, Bool, true, false, ◌⊎◌, Option, some}
use mathlib.Core.Option
use naivertc.Receiver.NackModule.{NackInfo, NackModuleImpl}
use naivertc.Receiver.NackModule.Missing.{has_due}

-- What adding the missing packets gives: all of them, or a list that was cleared.
IsComplete : (NackInfo → Bool) → ℕ → NackModuleImpl → Option (NackModuleImpl × Bool) → Type 0
IsComplete due x m result =
    (outcome : NackModuleImpl × Bool) × (result ≡ some outcome)
    × (outcome.0.send_nack_delay_ms ≡ m.send_nack_delay_ms)
    × (outcome.0.rtt_ms ≡ m.rtt_ms)
    × ((outcome.1 ≡ false) ⊎ (has_due due x outcome.0.nack_list ≡ true))
