-- ===== src/Examples/Sensor/Tests.antt =====
-- nrf52/examples/8-sensor.rs: a measurement, a failure, and carriage returns.
use async_on_embedded.Prelude.{◌≡◌, refl, true, List, [], ◌∷◌, ◌++◌}
use async_on_embedded.Scd30.{Measurement, ok, checksum}
use async_on_embedded.Examples.Sensor
use async_on_embedded.Examples.Sensor.{Program, Event, got, received, initial, run, fatal}
use async_on_embedded.Examples.Sensor.Output.{AllAnswers, output_complete}
use async_on_embedded.Examples.Sensor.Failure.{failing, failure_final}

-- 652 ppm, 23 % and 26 C as floats
abbrev measurement : Measurement
measurement = record { co2 = 0x4423_0000; rh = 0x41b8_0000; t = 0x41d0_0000 }

abbrev events : List Event
events = received 13 ∷ got (ok measurement) ∷ received 13 ∷ []

output_complete_example : AllAnswers (run events initial).output
output_complete_example = output_complete events

is_polling : (run events initial).polling ≡ true
unfolding run Sensor.step Sensor.stored Sensor.answer Sensor.print initial
is_polling = refl

failure_final_example :
    (run (got checksum ∷ received 7 ∷ received 13 ∷ received 13 ∷ []) (run events initial)).output
    ≡ (run events initial).output
      ++ failing (run events initial).printing (received 7 ∷ received 13 ∷ received 13 ∷ [])
failure_final_example =
    failure_final checksum (received 7 ∷ received 13 ∷ received 13 ∷ []) (run events initial)
      is_polling tt
