-- ===== src/Timer/Ticks.antt =====
-- nrf52/src/timer.rs: the length of a wait.
use async_on_embedded.Prelude.{ℕ, ◌+◌, ◌*◌, ◌^◌, ◌≤◌, ◌<◌, ◌≡◌, ◌↔◌, false, none, some, arith}
use async_on_embedded.Timer.{Rtc, f, nanos, u24, to_ticks, start}

-- For fewer than 2 ^ 40 seconds and fewer than 10 ^ 9 nanoseconds the ticks are the duration times
-- the frequency, rounded down to whole ticks: they never take longer than the duration, and fall
-- short of it by less than one tick.
pub to_ticks_floor :
    (secs subsec_nanos : ℕ)
    → secs < 2 ^ 40
    → subsec_nanos < nanos
    → (to_ticks secs subsec_nanos * nanos ≤ (secs * nanos + subsec_nanos) * f)
      × ((secs * nanos + subsec_nanos) * f < (to_ticks secs subsec_nanos + 1) * nanos)
unfolding to_ticks
to_ticks_floor secs subsec_nanos hs hn = (omega arith, omega arith)

-- For durations of fewer than 2 ^ 40 seconds, `wait` refuses exactly those of 2 ^ 24 ticks (512
-- seconds) and more.
start-none_iff :
    (secs subsec_nanos : ℕ) (r : Rtc)
    → secs < 2 ^ 40
    → subsec_nanos < nanos
    → (start secs subsec_nanos r ≡ none) ↔ (512 ≤ secs)
unfolding start to_ticks
start-none_iff secs subsec_nanos r hs hn = (λ e. ground arith, λ h. ground arith)

-- If `wait` accepts the duration and the counter is below 2 ^ 24, the counter reaches the compare
-- register for the first time after exactly the ticks of the duration, also where it wraps at 24
-- bits; the old event is gone and the interrupt is masked.
start_deadline :
    (secs subsec_nanos : ℕ) (r s : Rtc)
    → r.counter < 2 ^ 24
    → start secs subsec_nanos r ≡ some s
    → (s.events_compare ≡ false)
      × (s.unmasked ≡ false)
      × ((k : ℕ) → k < 2 ^ 24 → (u24 (r.counter + k) ≡ s.cc) ↔ (k ≡ to_ticks secs subsec_nanos))
unfolding start
start_deadline secs subsec_nanos r s h e =
    (ground arith, ground arith, λ k l. (λ p. ground arith, λ p. ground arith))
