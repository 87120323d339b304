-- ===== src/Twim/Transfers.antt =====
-- nrf52/src/twim.rs: polls of the three futures and interrupts.
use async_on_embedded.Prelude.{ℕ, ◌≤◌, ◌<◌, ◌≡◌, refl, ◌⊎◌, true, false, none, some, arith}
use async_on_embedded.Twim.{
  start_read, start_write, start_write_then_read, uninstall, clear_read, poll_read, poll_write,
  poll_write_then_read, handler,
}
use async_on_embedded.Twim0.{
  not_started, in_progress, finished, short_read, pending, done, failed, Slice, Events, Twim,
}
use async_on_embedded.Runtime.{wake_by_ref}

-- A read ends well exactly when the device sent as many bytes as the buffer holds: for buffers of
-- fewer than 256 bytes, of which the hardware fills no more than it was asked for, a poll of a
-- running read that finds the transaction stopped without an error answers `done` if the amount is
-- the buffer's length, and reports the amount otherwise.
read_exact :
    (waker address : ℕ) (buf : Slice) (t : Twim)
    → buf.len < 256
    → t.rxd.amount ≤ buf.len
    → t.events.error ≡ false
    → t.events.stopped ≡ true
    → (t' : Twim) × (((t.rxd.amount ≡ buf.len)
          × (poll_read waker address buf in_progress t ≡ some (done, finished, t')))
        ⊎ ((t.rxd.amount < buf.len)
            × (poll_read waker address buf in_progress t
                ≡ some (failed (short_read t.rxd.amount), finished, t'))))
      × (t'.waker ≡ none)
      × (t'.unmasked ≡ false)
      × (t'.events.stopped ≡ false)
      × (t'.events.rxstarted ≡ false)
unfolding poll_read
read_exact waker address buf t hl ha e s =
    (uninstall (record t { events = clear_read t.events }), ground arith, refl, refl, refl, refl)

-- What a pending poll promises: the interrupt is enabled, and if there is a waker it is woken by
-- the next interrupt, which masks itself.
abbrev pub Armed : ℕ → Twim → Type 0
Armed waker t =
    (t.unmasked ≡ true)
    × (t.waker ≡ some waker)
    × ((e : Events)
        → let u = handler (record t { events = e }) in
          (u.world.ready waker ≡ true) × (u.unmasked ≡ false))

-- A first poll of any of the three futures is pending with the interrupt enabled and its task's
-- waker installed, and any later interrupt raises that task's flag; a spurious later poll, which
-- finds neither an error nor the end of the transaction, enables the interrupt again.
first_polls_arm :
    (waker address : ℕ) (buf bytes : Slice) (t : Twim)
    → ((t' : Twim) × (poll_read waker address buf not_started t ≡ some (pending, in_progress, t'))
        × Armed waker t')
      × ((t' : Twim) × (poll_write waker address bytes not_started t
            ≡ some (pending, in_progress, t'))
          × Armed waker t')
      × ((t' : Twim) × (poll_write_then_read waker address bytes buf not_started t
            ≡ some (pending, in_progress, t'))
          × Armed waker t')
unfolding poll_read poll_write poll_write_then_read handler wake_by_ref
first_polls_arm waker address buf bytes t = (
  (start_read waker address buf t, refl, ground arith),
  (start_write waker address bytes t, refl, ground arith),
  (start_write_then_read waker address bytes buf t, refl, ground arith),
)
