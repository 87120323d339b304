-- ===== src/Timer.antt =====
-- nrf52/src/timer.rs: the timer on the real-time counter RTC0. Registers and the interrupt
-- controller are part of the state; a duration is its whole seconds and its nanoseconds below 10^9.
pub mod Ticks
pub mod Waiting
pub mod Counting
mod Tests
use async_on_embedded.Prelude.{
  ℕ, zero, suc, ◌+◌, ◌-◌, ◌*◌, ◌/◌, ◌%◌, ◌^◌, ◌≤◌, ◌<◌, ◌≡◌, refl, sym, ap, ◌∙◌, subst, ◌≢◌, ◌↔◌,
  ◌⊎◌, inl, inr, Bool, true, false, ◌&&◌, ◌||◌, not, Option, none, some, List, [], ◌∷◌, ◌++◌, map,
  arith, ltb, leb, ◌==◌, if◌then◌else◌, Bool-cases, Option-cases, ==_iff, is_some, length,
  get_elem?, ◌>>=◌,
}
use async_on_embedded.Runtime.{World, Poll, ready, pending, wake_by_ref}

-- frequency of the LFCLK
abbrev pub f : ℕ
f = 32768

abbrev pub nanos : ℕ
nanos = 1000000000

abbrev pub u32 : ℕ → ℕ
u32 n = n % 2 ^ 32

abbrev pub u64 : ℕ → ℕ
u64 n = n % 2 ^ 64

-- The counter and the compare field have 24 bits.
abbrev pub u24 : ℕ → ℕ
u24 n = n % 2 ^ 24

pub record Rtc : Type 0 where
  pub counter : ℕ
  pub events_compare : Bool
  pub cc : ℕ
  -- the interrupt RTC0 is unmasked
  pub unmasked : Bool
  -- `static mut WAKER`
  pub waker : Option ℕ
  pub world : World

-- The ticks of a duration, as the release profile computes them.
unfoldable pub to_ticks : ℕ → ℕ → ℕ
to_ticks secs subsec_nanos = u64 (u64 (secs * f) + u64 (subsec_nanos * f) / nanos)

-- The part of `wait` before the future: `none` is the failed `assert!`.
unfoldable pub start : ℕ → ℕ → Rtc → Option Rtc
start secs subsec_nanos r =
    let ticks = to_ticks secs subsec_nanos in
    if ltb ticks (2 ^ 24)
    then some (record r {
      unmasked = false;
      events_compare = false;
      cc = u24 (u32 (r.counter + u32 ticks));
    })
    else none

-- whether the event was set, and the registers once it is reset
has_expired : Rtc → Bool × Rtc
has_expired r = if r.events_compare then (true, record r { events_compare = false }) else (false, r)

expired : Bool → Rtc → Poll × Bool × Rtc
expired installed_waker r = (
  ready,
  installed_waker,
  (if installed_waker then record r { unmasked = false; waker = none } else r),
)

unexpired : ℕ → Bool → Rtc → Poll × Bool × Rtc
unexpired waker installed_waker r = (
  pending,
  installed_waker,
  (if not installed_waker
      then record r { waker = some waker; unmasked = true }
      else record r { unmasked = true }),
)

-- `Wait::poll`: the flag `installed_waker` before and after.
unfoldable pub poll : ℕ → Bool → Rtc → Poll × Bool × Rtc
unfolding has_expired expired unexpired
poll waker installed_waker r =
    let (over, r') = has_expired r in
    if over then expired installed_waker r' else unexpired waker installed_waker r'

-- The interrupt handler RTC0.
pub handler : Rtc → Rtc
handler r = elim r.waker [
  | some p ↦ record r { world = wake_by_ref p r.world; unmasked = false }
  | none ↦ r
]
