-- ===== src/Twim/Errors.antt =====
-- nrf52/src/twim.rs: what failed transactions leave behind.
use async_on_embedded.Prelude.{
  ℕ, ◌%◌, ◌≡◌, refl, ◌≢◌, ◌↔◌, ◌⊎◌, inl, inr, true, false, ◌||◌, none, some, arith, ◌==◌,
  Bool-cases,
}
use async_on_embedded.Twim.{
  start_read, unmask, u8, uninstall, clear_read, clear_both, poll_read, poll_write_then_read,
  drop_future,
}
use async_on_embedded.Twim0.{
  State, not_started, in_progress, finished, Error, short_write, short_read, src, pending, failed,
  Slice, Twim,
}

-- When a running `WriteThenRead` finds the transaction stopped without an error event, and the
-- bytes read or the bytes written differ, modulo 256, from the length asked for, its poll answers
-- with an error and leaves a state in which the drop of the future, which follows, panics.
short_transfer_panics :
    (waker address : ℕ) (wr_buf rd_buf : Slice) (t : Twim)
    → t.events.error ≡ false
    → t.events.stopped ≡ true
    → (t.rxd.amount % 256 ≢ rd_buf.len % 256) ⊎ (t.txd.amount % 256 ≢ wr_buf.len % 256)
    → (e : Error) × (s : State) × (t' : Twim) × (poll_write_then_read waker address wr_buf rd_buf
          in_progress t
        ≡ some (failed e, s, t'))
      × (drop_future s ≡ none)
unfolding poll_write_then_read drop_future
short_transfer_panics waker address wr_buf rd_buf t e s h =
    let t' = uninstall (record t { events = clear_both t.events }) in
    elim (Bool-cases (u8 t.rxd.amount == u8 rd_buf.len)) [
      | inl same ↦ (short_write (u8 t.txd.amount), in_progress, t', ground arith, refl)
      | inr differ ↦ (short_read (u8 t.rxd.amount), in_progress, t', ground arith, refl)
    ]

-- An error outlives its transaction. When a read fails with the error event set and no transmission
-- pending, its answer leaves the event set, and the start of the next read, which sees no
-- transaction pending, leaves it too; so that read fails at its next poll with the error register
-- that it finds, whatever else the hardware has done.
pub read_error_sticks :
    (waker address waker' address' : ℕ) (buf buf' : Slice) (t : Twim)
    → t.events.error ≡ true
    → t.events.txstarted ≡ false
    → (t' t'' : Twim) × (poll_read waker address buf in_progress t
        ≡ some (failed (src (t.errorsrc % 256)), finished, t'))
      × (poll_read waker' address' buf' not_started t' ≡ some (pending, in_progress, t''))
      × ((u : Twim)
          → u.events.error ≡ t''.events.error
          → (u' : Twim) × (poll_read waker' address' buf' in_progress u
              ≡ some (failed (src (u.errorsrc % 256)), finished, u')))
unfolding poll_read
read_error_sticks waker address waker' address' buf buf' t e x =
    let t' = record t { events = clear_read t.events } in
    (
      t',
      start_read waker' address' buf' t',
      ground arith,
      refl,
      λ u same. (record u { events = clear_read u.events }, ground arith),
    )

-- Polled again with no change by the hardware, a read that was just started is pending exactly if
-- a transaction was pending at its start, which is then aborted, or no error and no stop was left
-- over from an earlier one.
stale_events :
    (waker address : ℕ) (buf : Slice) (t : Twim)
    → (t' : Twim) × (poll_read waker address buf not_started t ≡ some (pending, in_progress, t'))
      × (((t'' : Twim) × (poll_read waker address buf in_progress t'
              ≡ some (pending, in_progress, t'')))
          ↔ (((t.events.rxstarted || t.events.txstarted) ≡ true)
              ⊎ ((t.events.error ≡ false) × (t.events.stopped ≡ false))))
unfolding poll_read
stale_events waker address buf t =
    let t' = start_read waker address buf t in
    (t', refl, (λ (t'', h). ground arith, λ h. (unmask t', ground arith)))
