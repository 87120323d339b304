-- ===== src/Singleton/Tests.antt =====
-- nrf52/src/timer.rs, nrf52/src/twim.rs and nrf52/src/serial.rs: the calls of nrf52/examples/9-clock.rs.
use async_on_embedded.Prelude.{◌≡◌, Bool, false, ◌&&◌, List, [], ◌∷◌, is_some}
use async_on_embedded.Singleton.{Device, take_all, free}
use async_on_embedded.Singleton.Once.{distinct, reliable, take_all_iff}

abbrev clock_calls : List (Device × Bool)
clock_calls = (Device.timer, false) ∷ (Device.twim, false) ∷ (Device.serial, false) ∷ []

take_all_iff_example :
    is_some (take_all clock_calls free) ≡ (reliable clock_calls && distinct clock_calls)
take_all_iff_example = take_all_iff clock_calls
