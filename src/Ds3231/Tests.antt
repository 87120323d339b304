-- ===== src/Ds3231/Tests.antt =====
-- nrf52/src/ds3231.rs: the driver over the calendar of Ds3231/Calendar.
use async_on_embedded.Ds3231.{time_from_regs}
use async_on_embedded.Ds3231.Driver.{address, set_date, set_time}
use async_on_embedded.Ds3231.Driver.Clock.{Reads, set-get_datetime}
use async_on_embedded.Bus.Registers.{Registers, file_bus, file_bus-IsRegisters}
use async_on_embedded.Ds3231.Calendar.{Clock, calendar}
use async_on_embedded.Ds3231.Registers.{time_from_regs-hour12}
use async_on_embedded.Prelude.{ℕ, ◌+◌, ◌*◌, ◌≡◌, refl, none, arith}

-- 31 December 2104
abbrev day : ℕ
day = 2104 * 416 + 31 * 13 + 12

-- 28 February 2020
abbrev today : ℕ
today = 2020 * 416 + 28 * 13 + 2

abbrev zeros : Registers
zeros a = 0

abbrev noon : Clock
noon = (43230, omega arith)

time_from_regs-hour12_example : time_from_regs calendar 0 0 0x41 ≡ none
time_from_regs-hour12_example =
    time_from_regs-hour12 calendar 0 0 0x41 (omega arith) (λ e. ground arith)

set-get_datetime_example :
    Reads calendar file_bus
      (file_bus-IsRegisters address)
      today
      noon
      (set_time calendar file_bus noon (set_date calendar file_bus today zeros).1).1
    × Reads calendar file_bus
        (file_bus-IsRegisters address)
        today
        noon
        (set_date calendar file_bus today (set_time calendar file_bus noon zeros).1).1
set-get_datetime_example =
    set-get_datetime calendar file_bus (file_bus-IsRegisters address) today noon zeros
      (omega arith, omega arith) refl
