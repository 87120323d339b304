-- ===== src/Twim.antt =====
-- nrf52/src/twim.rs: the I2C host. The registers of TWIM0, its interrupt and the static WAKER are
-- the state. What the hardware does between two calls is any change of the registers.
pub mod Transfers
pub mod Errors
pub mod Staging
pub mod Await
mod Tests
use async_on_embedded.Prelude.{
  ℕ, zero, suc, ◌+◌, ◌-◌, ◌*◌, ◌/◌, ◌%◌, ◌^◌, ◌≤◌, ◌<◌, ◌≡◌, refl, sym, ap, ◌∙◌, subst, ◌≢◌, ◌↔◌,
  ◌⊎◌, inl, inr, Bool, true, false, ◌&&◌, ◌||◌, not, Option, none, some, List, [], ◌∷◌, ◌++◌, map,
  arith, ltb, leb, ◌==◌, if◌then◌else◌, Bool-cases, Option-cases, ==_iff, is_some, length,
  get_elem?, ◌>>=◌,
}
use async_on_embedded.Twim0.{
  State, not_started, in_progress, finished, Error, short_write, short_read, src, Answer, pending,
  done, failed, Task, startrx, starttx, stop, Slice, Shorts, Dma, Events, Twim,
}
use async_on_embedded.Runtime.{World, wake_by_ref}

-- A poll returns its answer, the state of the future and the registers; `none` is a panic.
abbrev pub Polled : Type 0
Polled = Option (Answer × State × Twim)

abbrev pub u8 : ℕ → ℕ
u8 n = n % 256

abbrev mask : Twim → Twim
mask t = record t { unmasked = false }

abbrev unmask : Twim → Twim
unmask t = record t { unmasked = true }

-- Abort of a transaction that a forgotten future left behind.
abort_pending : Twim → Twim
abort_pending t =
    if t.events.rxstarted || t.events.txstarted
    then record t {
      tasks = stop ∷ t.tasks;
      errorsrc = 0;
      events = record {
        error = false;
        stopped = false;
        rxstarted = t.events.rxstarted;
        txstarted = t.events.txstarted;
        lastrx = false;
        lasttx = false;
      };
    }
    else t

-- a count register of 16 bits
abbrev pub u16 : ℕ → ℕ
u16 n = n % 2 ^ 16

abbrev load_dma : Slice → Dma → Dma
load_dma s d = record { ptr = s.ptr; maxcnt = u16 s.len; amount = d.amount }

-- The waker is installed and the interrupt enabled.
abbrev install : ℕ → Twim → Twim
install waker t = record t { waker = some waker; unmasked = true }

abbrev uninstall : Twim → Twim
uninstall t = record t { waker = none; unmasked = false }

start_read : ℕ → ℕ → Slice → Twim → Twim
unfolding abort_pending
start_read waker address buf t =
    let t' = abort_pending (mask t) in
    install waker (record t' {
      address = address;
      rxd = load_dma buf t'.rxd;
      shorts = record { lasttx_startrx = false; lasttx_stop = false; lastrx_stop = true };
      tasks = startrx ∷ t'.tasks;
    })

abbrev clear_read : Events → Events
clear_read e = record e { stopped = false; rxstarted = false; lastrx = false }

finish_read : Slice → Twim → Polled
finish_read buf t =
    let cleared = record t { events = clear_read t.events } in
    let amount = u8 t.rxd.amount in
    if t.events.error
    then some (failed (src (u8 t.errorsrc)), finished, cleared)
    else (if t.events.stopped
        then some (
          (if amount == u8 buf.len then done else failed (short_read amount)),
          finished,
          uninstall cleared,
        )
        else some (pending, in_progress, unmask t))

-- `Read::poll`: the waker, the device's address, the buffer, the future's state.
unfoldable pub poll_read : ℕ → ℕ → Slice → State → Twim → Polled
unfolding start_read finish_read
poll_read waker address buf not_started t =
    some (pending, in_progress, start_read waker address buf t)
poll_read waker address buf in_progress t = finish_read buf t
poll_read waker address buf finished t = none

start_write : ℕ → ℕ → Slice → Twim → Twim
unfolding abort_pending
start_write waker address bytes t =
    let t' = abort_pending (mask t) in
    install waker (record t' {
      address = address;
      txd = load_dma bytes t'.txd;
      shorts = record { lasttx_startrx = false; lasttx_stop = true; lastrx_stop = false };
      tasks = starttx ∷ t'.tasks;
    })

abbrev clear_write : Events → Events
clear_write e = record e { stopped = false; txstarted = false; lasttx = false }

finish_write : Slice → Twim → Polled
finish_write bytes t =
    let cleared = record t { events = clear_write t.events } in
    let amount = u8 t.txd.amount in
    if t.events.error
    then some (failed (src (u8 t.errorsrc)), finished, cleared)
    else (if t.events.stopped
        then some (
          (if amount == u8 bytes.len then done else failed (short_write amount)),
          finished,
          uninstall cleared,
        )
        else some (pending, in_progress, unmask t))

-- `Write::poll`
unfoldable pub poll_write : ℕ → ℕ → Slice → State → Twim → Polled
unfolding start_write finish_write
poll_write waker address bytes not_started t =
    some (pending, in_progress, start_write waker address bytes t)
poll_write waker address bytes in_progress t = finish_write bytes t
poll_write waker address bytes finished t = none

start_write_then_read : ℕ → ℕ → Slice → Slice → Twim → Twim
unfolding abort_pending
start_write_then_read waker address wr_buf rd_buf t =
    let t' = abort_pending (mask t) in
    install waker (record t' {
      address = address;
      rxd = load_dma rd_buf t'.rxd;
      txd = load_dma wr_buf t'.txd;
      shorts = record { lasttx_startrx = true; lasttx_stop = false; lastrx_stop = true };
      tasks = starttx ∷ t'.tasks;
    })

abbrev clear_both : Events → Events
clear_both e = record {
  error = e.error;
  stopped = false;
  rxstarted = false;
  txstarted = false;
  lastrx = false;
  lasttx = false;
}

-- The two early returns leave the future in its state.
finish_write_then_read : Slice → Slice → Twim → Polled
finish_write_then_read wr_buf rd_buf t =
    let cleared = record t { events = clear_both t.events } in
    let read_amount = u8 t.rxd.amount in
    let write_amount = u8 t.txd.amount in
    if t.events.error
    then some (failed (src (u8 t.errorsrc)), finished, cleared)
    else (if t.events.stopped
        then (if not (read_amount == u8 rd_buf.len)
            then some (failed (short_read read_amount), in_progress, uninstall cleared)
            else (if not (write_amount == u8 wr_buf.len)
                then some (failed (short_write write_amount), in_progress, uninstall cleared)
                else some (done, finished, uninstall cleared)))
        else some (pending, in_progress, unmask t))

-- `WriteThenRead::poll`
unfoldable pub poll_write_then_read : ℕ → ℕ → Slice → Slice → State → Twim → Polled
unfolding start_write_then_read finish_write_then_read
poll_write_then_read waker address wr_buf rd_buf not_started t =
    some (pending, in_progress, start_write_then_read waker address wr_buf rd_buf t)
poll_write_then_read waker address wr_buf rd_buf in_progress t =
    finish_write_then_read wr_buf rd_buf t
poll_write_then_read waker address wr_buf rd_buf finished t = none

-- The `drop` of the three futures: `none` is the panic of `todo!`.
pub drop_future : State → Option (Unit {0})
drop_future not_started = some tt
drop_future in_progress = none
drop_future finished = some tt

-- The interrupt handler.
pub handler : Twim → Twim
handler t = elim t.waker [
  | some p ↦ record t { world = wake_by_ref p t.world; unmasked = false }
  | none ↦ t
]

-- `crate::slice_in_ram` of nrf52/src/lib.rs
unfoldable pub slice_in_ram : Slice → Bool
slice_in_ram s =
    let ram_start : ℕ = 0x2000_0000 in
    let ram_end = ram_start + 128 * 1024 in
    let end = (s.ptr + s.len) % 2 ^ 32 in leb ram_start s.ptr && ltb end ram_end
