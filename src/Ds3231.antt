-- ===== src/Ds3231.antt =====
-- nrf52/src/ds3231.rs: the driver of the real-time clock. Registers are bytes. The types of the
-- crate `chrono` are a parameter; the bytes on the I2C bus are what the functions return or take.
pub mod Bcd
pub mod Registers
pub mod Driver
pub mod Calendar
mod Tests
use Prim.Native.Nat.{bit_and, bit_or}
use async_on_embedded.Twim0.{Error}
use async_on_embedded.Prelude.{
  ℕ, ◌+◌, ◌-◌, ◌*◌, ◌/◌, ◌%◌, ◌^◌, ◌≤◌, ◌<◌, ◌≡◌, Bool, true, false, not, ◌||◌, Option, none, some,
  List, [], ◌∷◌, ltb, leb, ◌==◌, if◌then◌else◌, ◌>>=◌,
}

-- an `i32`; `negsuc n` is -(n + 1)
pub data ℤ : Type 0 where
  pos : ℕ → ℤ
  negsuc : ℕ → ℤ

-- What the driver uses of `chrono`, as its documentation has it: an hour, a minute or a second out
-- of range makes `from_hms` panic, a date is determined by its year, month and day, and a time by its
-- hour, minute, second and nanosecond, 10^9 and more of these being within a leap second that follows
-- on the second 59. `from_hms` gives whole seconds.
pub record Chrono : Type 1 where
  pub Date : Type 0
  pub Time : Type 0
  pub year : Date → ℤ
  pub month : Date → ℕ
  pub day : Date → ℕ
  pub hour : Time → ℕ
  pub minute : Time → ℕ
  pub second : Time → ℕ
  pub nanosecond : Time → ℕ
  pub from_ymd_opt : ℤ → ℕ → ℕ → Option Date
  pub from_hms : ℕ → ℕ → ℕ → Option Time
  pub month_range : (d : Date) → month d ≤ 12
  pub day_range : (d : Date) → day d ≤ 31
  pub hour_range : (t : Time) → hour t < 24
  pub minute_range : (t : Time) → minute t < 60
  pub second_range : (t : Time) → second t < 60
  pub from_ymd-fields : (d : Date) → from_ymd_opt (year d) (month d) (day d) ≡ some d
  pub from_hms-fields :
      (t : Time) → nanosecond t ≡ 0 → from_hms (hour t) (minute t) (second t) ≡ some t
  pub from_hms-none : (h m s : ℕ) → 24 ≤ h → from_hms h m s ≡ none

abbrev pub seconds : ℕ
seconds = 0

abbrev pub date : ℕ
date = 4

abbrev pub hour12 : ℕ
hour12 = 0x40

abbrev pub pm : ℕ
pm = 0x20

abbrev pub century : ℕ
century = 0x80

-- `!b` on a byte
abbrev pub complement : ℕ → ℕ
complement b = 255 - b

abbrev pub u8 : ℕ → ℕ
u8 n = n % 256

pub from_bcd : ℕ → ℕ
from_bcd bcd = let units = bit_and bcd 0xf in let tens = bcd / 16 in u8 (u8 (10 * tens) + units)

pub to_bcd : ℕ → ℕ
to_bcd x = let units = x % 10 in let tens = x / 10 in bit_or (u8 (tens * 16)) units

-- The hour of `time_from_regs`.
pub hour_from_reg : ℕ → ℕ
hour_from_reg r =
    if not (bit_and r hour12 == 0)
    then (if not (bit_and r pm == 0)
        then from_bcd (u8 (12 + bit_and r (complement pm)))
        else from_bcd r)
    else from_bcd r

-- `Result<_, Error>`
pub data Dated (A : Type 0) : Type 0 where
  ok : A → Dated A
  invalid_date : Dated A
  twim : Error → Dated A

abbrev pub or_invalid : {A : Type 0} → Option A → Dated A
or_invalid none = invalid_date
or_invalid (some d) = ok d

module _ (C : Chrono) where
  open C use {Date, Time}

  -- `none` is a panic.
  pub time_from_regs : ℕ → ℕ → ℕ → Option Time
  time_from_regs r0 r1 r2 =
      let sec = from_bcd r0 in
      let min = from_bcd r1 in let hour = hour_from_reg r2 in C.from_hms hour min sec

  pub date_from_regs : ℕ → ℕ → ℕ → Dated Date
  date_from_regs r0 r1 r2 =
      let day = from_bcd r0 in
      let month = from_bcd (bit_and r1 (complement century)) in
      let year = from_bcd r2 + (if not (bit_and r1 century == 0) then 2100 else 2000) in
      or_invalid (C.from_ymd_opt (pos year) month day)

  year_regs : ℕ → ℕ → ℕ → Dated (List ℕ)
  year_regs year day month =
      if ltb year 2000 || ltb 2199 year
      then invalid_date
      else (if leb 100 (year - 2000)
          then ok (date ∷ day ∷ bit_or month century ∷ to_bcd (u8 (year - 2000 - 100)) ∷ [])
          else ok (date ∷ day ∷ month ∷ to_bcd (u8 (year - 2000)) ∷ []))

  date_regs : ℤ → ℕ → ℕ → Dated (List ℕ)
  unfolding year_regs
  date_regs (pos year) day month = year_regs year day month
  date_regs (negsuc year) day month = invalid_date

  -- What `set_date` writes to the bus.
  pub set_date_bytes : Date → Dated (List ℕ)
  unfolding date_regs
  set_date_bytes d = date_regs (C.year d) (to_bcd (u8 (C.day d))) (to_bcd (u8 (C.month d)))

  -- What `set_time` writes to the bus.
  pub set_time_bytes : Time → List ℕ
  set_time_bytes t =
      let sec = to_bcd (u8 (C.second t)) in
      let min = to_bcd (u8 (C.minute t)) in
      let hour = to_bcd (u8 (C.hour t)) in seconds ∷ sec ∷ min ∷ hour ∷ []
