-- ===== src/Scd30/Tests.antt =====
-- nrf52/src/scd30.rs: a bus whose sensor is ready at the second question.
use async_on_embedded.Prelude.{ℕ, ◌+◌, ◌-◌, ◌≡◌, refl, List, [], ◌∷◌, ◌==◌, if◌then◌else◌, arith}
use async_on_embedded.Bus.{Bus, ok}
use async_on_embedded.Scd30
use async_on_embedded.Scd30.{address, answered, checksum, data_ready, get_measurement}
use async_on_embedded.Scd30.Measuring.{Says, word, frame, now, later, get_measurement_lem}

abbrev number : ℕ → ℕ
number i = 0x40 + i

abbrev any_crc : ℕ → ℕ
any_crc i = 0xff

-- The state is how many questions are left until the sensor is ready.
abbrev answer : ℕ → ℕ → List ℕ
answer len left =
    if len == 18 then frame number any_crc else (0 ∷ (if left == 0 then 1 else 0) ∷ 0xff ∷ [])

abbrev slow_bus : Bus
slow_bus = record {
  St = ℕ;
  write = λ a bytes left. (ok tt, left);
  read = λ a len left. (ok (answer len left), left - 1);
  write_then_read = λ a bytes len left. (ok (answer len left), left);
}

not_ready : Says slow_bus 0 1 0
not_ready = record { high = 0; crc = 0xff; between = 1; asked = refl; said = refl }

is_ready : Says slow_bus 1 0 0
is_ready = record { high = 0; crc = 0xff; between = 0; asked = refl; said = refl }

get_measurement_lem_example :
    get_measurement slow_bus 2 1
    ≡ answered
        (Scd30.ok (record {
          co2 = word (number 0) (number 1) (number 2) (number 3);
          t = word (number 4) (number 5) (number 6) (number 7);
          rh = word (number 8) (number 9) (number 10) (number 11);
        }))
        0
get_measurement_lem_example =
    get_measurement_lem slow_bus 1 2 number any_crc 1 0 0 0 (later not_ready (now is_ready))
      (omega arith) refl refl
