-- ===== src/Ds3231/Calendar.antt =====
-- A calendar whose months have 31 days, with whole seconds only: it shows that what nrf52/src/ds3231.rs relies on in chrono can
-- be met, and lets the examples run.
use async_on_embedded.Ds3231.{ℤ, pos, negsuc, Chrono}
use native.Mathlib.Decide.{dec_lt}
use native.Mathlib.Bridge.{le_prop}
use mathlib.Core.HLevel.{Σ_prop_path}
use async_on_embedded.Prelude.{
  ℕ, ◌+◌, ◌*◌, ◌/◌, ◌%◌, ◌≤◌, ◌<◌, ◌≡◌, refl, ap, Option, none, some, arith,
}

-- the second of the day
abbrev pub Clock : Type 0
Clock = (n : ℕ) × (n < 86400)

abbrev in_day : (n : ℕ) → Dec (n < 86400) → Option Clock
in_day n (yes l) = some (n, l)
in_day n (no l) = none

abbrev pub clock : ℕ → ℕ → ℕ → Option Clock
clock h m s = in_day (h * 3600 + m * 60 + s) (dec_lt (h * 3600 + m * 60 + s) 86400)

in_day-same : (n k : ℕ) (l : n < 86400) (d : Dec (k < 86400)) → k ≡ n → in_day k d ≡ some (n, l)
in_day-same n k l (yes l') e = ap some (Σ_prop_path (λ j. le_prop) e)
in_day-same n k l (no l') e = absurd (omega arith)

in_day-none : (n : ℕ) (d : Dec (n < 86400)) → 86400 ≤ n → in_day n d ≡ none
in_day-none n (yes l) e = absurd (omega arith)
in_day-none n (no l) e = refl

pub clock-fields : (t : Clock) → clock (t.0 / 3600) (t.0 / 60 % 60) (t.0 % 60) ≡ some t
clock-fields (n, l) = in_day-same n _ l (dec_lt _ 86400) (omega arith)

pub clock-none : (h m s : ℕ) → 24 ≤ h → clock h m s ≡ none
clock-none h m s l = in_day-none _ (dec_lt _ 86400) (omega arith)

-- A day is the number of its year, day and month in mixed radix.
abbrev calendar_day : ℤ → ℕ → ℕ → Option ℕ
calendar_day (pos y) m d = some (y * 416 + d * 13 + m)
calendar_day (negsuc y) m d = none

abbrev pub calendar : Chrono
calendar = record {
  Date = ℕ;
  Time = Clock;
  year = λ d. pos (d / 416);
  month = λ d. d % 13;
  day = λ d. d / 13 % 32;
  hour = λ t. t.0 / 3600;
  minute = λ t. t.0 / 60 % 60;
  second = λ t. t.0 % 60;
  nanosecond = λ t. 0;
  from_ymd_opt = calendar_day;
  from_hms = clock;
  month_range = λ d. omega arith;
  day_range = λ d. omega arith;
  hour_range = λ t. omega (arith, t.1);
  minute_range = λ t. omega arith;
  second_range = λ t. omega arith;
  from_ymd-fields = λ d. ap some (omega arith);
  from_hms-fields = λ t e. clock-fields t;
  from_hms-none = clock-none;
}
