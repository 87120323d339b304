-- ===== src/Singleton.antt =====
-- nrf52/src/timer.rs, nrf52/src/twim.rs and nrf52/src/serial.rs: `take`, each with its static flag
-- TAKEN. `none` is a panic, behind which the program does not go on.
pub mod Once
mod Tests
use async_on_embedded.Prelude.{
  ℕ, ◌≡◌, Bool, true, false, ◌&&◌, ◌||◌, not, Option, none, some, List, [], ◌∷◌, if◌then◌else◌,
  ◌>>=◌,
}

pub data Device : Type 0 where
  timer twim serial : Device

-- The three flags.
pub record Taken : Type 0 where
  pub timer : Bool
  pub twim : Bool
  pub serial : Bool

-- `compare_exchange_weak(false, true, ..)`: whether it is `Ok`, and the flag after it. It may fail
-- spuriously.
abbrev compare_exchange_weak : Bool → Bool → Bool × Bool
compare_exchange_weak spurious flag =
    if not flag && not spurious then (true, true) else (false, flag)

-- `Timer::take`
take_timer : Bool → Taken → Option Taken
take_timer spurious s =
    let (ok, flag) = compare_exchange_weak spurious s.timer in
    if ok then some (record s { timer = flag }) else none

-- `Twim::take`
take_twim : Bool → Taken → Option Taken
take_twim spurious s =
    let (ok, flag) = compare_exchange_weak spurious s.twim in
    if ok then some (record s { twim = flag }) else none

-- `serial::take`
take_serial : Bool → Taken → Option Taken
take_serial spurious s =
    let (ok, flag) = compare_exchange_weak spurious s.serial in
    if ok then some (record s { serial = flag }) else none

pub take : Device → Bool → Taken → Option Taken
unfolding take_timer take_twim take_serial
take Device.timer spurious s = take_timer spurious s
take Device.twim spurious s = take_twim spurious s
take Device.serial spurious s = take_serial spurious s

-- Calls in a row: the device, and whether its exchange fails spuriously.
pub take_all : List (Device × Bool) → Taken → Option Taken
take_all [] s = some s
take_all ((d, spurious) ∷ calls) s = do s' ← take d spurious s; take_all calls s'

pub free : Taken
free = record { timer = false; twim = false; serial = false }
