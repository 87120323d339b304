-- ===== src/Ds3231/Driver.antt =====
-- nrf52/src/ds3231.rs: the methods of the driver over the bus. `none` is a panic.
pub mod Clock
use async_on_embedded.Prelude.{ℕ, Option, some, List, [], ◌∷◌, get_elem?, ◌>>=◌}
use async_on_embedded.Bus.{Bus, Reply}
use async_on_embedded.Ds3231.{
  Chrono, Dated, ok, invalid_date, twim, seconds, date, time_from_regs, date_from_regs,
  set_date_bytes, set_time_bytes,
}

-- ADDRESS
abbrev pub address : ℕ
address = 0x68

module _ (C : Chrono) (B : Bus) where
  open C use {Date, Time}
  open B use {St}

  date_read : Reply (List ℕ) → Option (Dated Date)
  date_read (Reply.err e) = some (twim e)
  date_read (Reply.ok buf) = do
    r0 ← get_elem? buf 0
    r1 ← get_elem? buf 1
    r2 ← get_elem? buf 2
    some (date_from_regs C r0 r1 r2)

  pub get_date : St → Option (Dated Date × St)
  unfolding date_read
  get_date s = do
    let (r, s') = B.write_then_read address (date ∷ []) 3 s
    d ← date_read r
    some (d, s')

  time_read : Reply (List ℕ) → Option (Reply Time)
  time_read (Reply.err e) = some (Reply.err e)
  time_read (Reply.ok buf) = do
    r0 ← get_elem? buf 0
    r1 ← get_elem? buf 1
    r2 ← get_elem? buf 2
    t ← time_from_regs C r0 r1 r2
    some (Reply.ok t)

  pub get_time : St → Option (Reply Time × St)
  unfolding time_read
  get_time s = do
    let (r, s') = B.write_then_read address (seconds ∷ []) 3 s
    t ← time_read r
    some (t, s')

  -- `date.and_time(time)`, a `NaiveDateTime` being the pair of its date and its time
  with_time : Time → Dated Date → Dated (Date × Time)
  with_time t (ok d) = ok (d, t)
  with_time t invalid_date = invalid_date
  with_time t (twim e) = twim e

  datetime_read : Reply (List ℕ) → Option (Dated (Date × Time))
  unfolding with_time
  datetime_read (Reply.err e) = some (twim e)
  datetime_read (Reply.ok buf) = do
    r0 ← get_elem? buf 0
    r1 ← get_elem? buf 1
    r2 ← get_elem? buf 2
    time ← time_from_regs C r0 r1 r2
    r4 ← get_elem? buf 4
    r5 ← get_elem? buf 5
    r6 ← get_elem? buf 6
    some (with_time time (date_from_regs C r4 r5 r6))

  pub get_datetime : St → Option (Dated (Date × Time) × St)
  unfolding datetime_read
  get_datetime s = do
    let (r, s') = B.write_then_read address (seconds ∷ []) 7 s
    d ← datetime_read r
    some (d, s')

  written : Reply (Unit {0}) × St → Dated (Unit {0}) × St
  written (Reply.ok u, s) = (ok u, s)
  written (Reply.err e, s) = (twim e, s)

  send_date : Dated (List ℕ) → St → Dated (Unit {0}) × St
  unfolding written
  send_date (ok bytes) s = written (B.write address bytes s)
  send_date invalid_date s = (invalid_date, s)
  send_date (twim e) s = (twim e, s)

  pub set_date : Date → St → Dated (Unit {0}) × St
  unfolding send_date
  set_date d s = send_date (set_date_bytes C d) s

  pub set_time : Time → St → Reply (Unit {0}) × St
  set_time t s = B.write address (set_time_bytes C t) s
