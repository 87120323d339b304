-- ===== src/Timer/Tests.antt =====
-- nrf52/src/timer.rs: waits that are begun near the counter's end.
use async_on_embedded.Timer.{Rtc, f, nanos, to_ticks, start}
use async_on_embedded.Timer.Ticks.{to_ticks_floor}
use async_on_embedded.Timer.Counting.{IsPromised, ticks, polls, wait, left, wait_lem}
use async_on_embedded.Timer.Counting.Waking.{after, wakes_when_over}
use async_on_embedded.WakerSet.Tests.{quiet}
use async_on_embedded.Prelude.{
  [], ◌∷◌, ℕ, ◌+◌, ◌*◌, ◌≤◌, ◌<◌, ◌≡◌, refl, Bool, true, false, none, some, arith,
}

abbrev rtc : ℕ → ℕ → Bool → Rtc
rtc counter cc compare = record {
  counter = counter;
  events_compare = compare;
  cc = cc;
  unmasked = false;
  waker = none;
  world = quiet;
}

to_ticks_floor_example :
    (to_ticks 1 500000001 * nanos ≤ (1 * nanos + 500000001) * f)
    × ((1 * nanos + 500000001) * f < (to_ticks 1 500000001 + 1) * nanos)
to_ticks_floor_example = to_ticks_floor 1 500000001 (omega arith) (omega arith)

started : start 1 500000001 (rtc 16777200 0 true) ≡ some (rtc 16777200 49136 false)
unfolding start to_ticks
started = refl

-- a chip that never raises the event where the manual promises nothing
abbrev silent : ℕ → Rtc → Bool
silent k r = false

two_ticks-IsPromised : IsPromised (to_ticks 0 61036) (rtc 16777215 0x8000 true)
unfolding to_ticks
two_ticks-IsPromised = record {
  counter = omega arith;
  two = omega arith;
  short = omega arith;
  not_next = λ e. omega (arith, e);
  not_second = λ e. omega (arith, e);
}

-- Two ticks, over the end of the counter: the polls before the second tick are pending.
wait_lem_example :
    left (
      wait silent 20 0 61036
        (rtc 16777215 0x8000 true)
        (ticks ∷ polls ∷ ticks ∷ ticks ∷ polls ∷ polls ∷ []))
    ≡ some (polls ∷ [])
unfolding to_ticks
wait_lem_example =
    wait_lem silent 20 0 61036 (rtc 16777215 0x8000 true)
      (ticks ∷ polls ∷ ticks ∷ ticks ∷ polls ∷ polls ∷ []) two_ticks-IsPromised

wakes_when_over_example :
    (s : Rtc) × (start 0 61036 (rtc 16777215 0x8000 true) ≡ some s)
    × ((after silent 0 20 (polls ∷ ticks ∷ polls ∷ ticks ∷ []) s).world.ready 20 ≡ true)
unfolding to_ticks
wakes_when_over_example =
    wakes_when_over silent 20 0 61036 (rtc 16777215 0x8000 true) (ticks ∷ polls ∷ [])
      two_ticks-IsPromised refl
