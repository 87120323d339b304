-- ===== src/Examples/Heartbeat.antt =====
-- nrf52/examples/5-heartbeat.rs: the red LED beats. The future is polled over the registers of the
-- timer and of the port; `none` is a panic.
pub mod Beats
mod Tests
use async_on_embedded.Prelude.{ℕ, zero, suc, ◌≡◌, Bool, true, false, Option, none, some, ◌>>=◌}
use async_on_embedded.Led.{Port, red, on, off}
use async_on_embedded.Timer
use async_on_embedded.Timer.{Rtc}
use async_on_embedded.Runtime.{Poll, ready, pending}

-- the four waits of the loop
pub data Phase : Type 0 where
  first_on first_off second_on second_off : Phase

abbrev pub next : Phase → Phase
next first_on = first_off
next first_off = second_on
next second_on = second_off
next second_off = first_on

-- `dur` is 100 ms, and `12 * dur` is 1.2 s: seconds, and nanoseconds.
abbrev pub duration : Phase → ℕ × ℕ
duration first_on = (0, 100000000)
duration first_off = (0, 100000000)
duration second_on = (0, 100000000)
duration second_off = (1, 200000000)

-- Before the LED is switched, or in the wait behind that, with the `installed_waker` of its future.
pub data Place : Type 0 where
  begins : Phase → Place
  waits : Phase → Bool → Place

pub record Board : Type 0 where
  pub rtc : Rtc
  pub port : Port

switch : Phase → Port → Port
switch first_on p = on red p
switch first_off p = off red p
switch second_on p = on red p
switch second_off p = off red p

polled : Phase → Board → Poll × Bool × Rtc → Bool × Place × Board
polled ph b (ready, installed, rtc) = (false, begins (next ph), record b { rtc = rtc })
polled ph b (pending, installed, rtc) = (true, waits ph installed, record b { rtc = rtc })

started : Phase → Board → Option Rtc → Option (Bool × Place × Board)
unfolding switch
started ph b none = none
started ph b (some rtc) =
    some (false, waits ph false, record { rtc = rtc; port = switch ph b.port })

-- One move of the future: whether it is blocked, and where it is then.
advance : ℕ → Place → Board → Option (Bool × Place × Board)
unfolding started polled
advance waker (begins ph) b =
    let (secs, nanos) = duration ph in started ph b (Timer.start secs nanos b.rtc)
advance waker (waits ph installed) b = some (polled ph b (Timer.poll waker installed b.rtc))

pub data Polled : Type 0 where
  blocked : Place → Board → Polled
  panicked : Polled
  moving : Place → Board → Polled

-- The poll of the future: it moves until it is blocked; `moving` is the end of the fuel.
pub poll : ℕ → ℕ → Place → Board → Polled
unfolding advance
poll zero waker at b = moving at b
poll (suc fuel) waker at b = elim (advance waker at b) [
  | none ↦ panicked
  | some (true, at', b') ↦ blocked at' b'
  | some (false, at', b') ↦ poll fuel waker at' b'
]
