-- ===== src/Timer/Waiting.antt =====
-- nrf52/src/timer.rs: polls and interrupts.
use async_on_embedded.Prelude.{ℕ, ◌≡◌, true, false, arith}
use async_on_embedded.Timer.{Rtc, poll, handler}
use async_on_embedded.Runtime.{ready, wake_by_ref}

-- After a pending first poll, the interrupt of the compare event raises the flag of the polling
-- task and masks itself, and the next poll is ready.
wakes_when_due :
    (waker waker' : ℕ) (r : Rtc)
    → r.events_compare ≡ false
    → let (_, installed, waiting) = poll waker false r in
      let woken = handler (record waiting { events_compare = true }) in
      (waiting.unmasked ≡ true)
      × (woken.world.ready waker ≡ true)
      × (woken.unmasked ≡ false)
      × ((poll waker' installed woken).0 ≡ ready)
unfolding poll handler wake_by_ref
wakes_when_due waker waker' r e = ground arith

-- No poll sets `installed_waker`. So a future that started without it leaves its waker installed
-- and the interrupt as it is when it becomes ready.
waker_stays_installed :
    (waker : ℕ) (r : Rtc)
    → let (p, installed, r') = poll waker false r in
      (installed ≡ false) × (p ≡ ready → (r'.waker ≡ r.waker) × (r'.unmasked ≡ r.unmasked))
unfolding poll
waker_stays_installed waker r = ground arith
