-- ===== src/Examples/Clock/Tests.antt =====
-- nrf52/examples/9-clock.rs: a bus with the clock, and a sensor whose every byte is 68.
use async_on_embedded.Prelude.{
  arith, none, ℕ, ◌≡◌, refl, sym, ap, ◌∙◌, length, some, List, [], ◌∷◌, ◌++◌, ◌==◌, if◌then◌else◌,
}
use async_on_embedded.Bus.{Reply, err, Bus, ok}
use async_on_embedded.Bus.Registers.{Registers, load, store_all}
use async_on_embedded.Ds3231.{pos}
use async_on_embedded.Ds3231.Calendar.{Clock, calendar}
use async_on_embedded.Examples.Console.{Text}
use async_on_embedded.Examples.Console.Session.{prompt}
use async_on_embedded.Examples.Console.Sample.{parse_date, parse_time}
use async_on_embedded.Examples.Clock.{seen, Program, measures, senses, received, run}
use async_on_embedded.Examples.Clock.{Event}
use async_on_embedded.Examples.Clock.Sensing.{FillsReads, cells_of}
use async_on_embedded.Examples.Clock.Showing.{latest, reading, shows_latest}
use async_on_embedded.Examples.Sensor.{not_ready}
use async_on_embedded.Host.Bytes.{length-load}
use async_on_embedded.Scd30
use async_on_embedded.Scd30.{Measurement, Measured, measure, answered}

abbrev same_bytes : Registers
same_bytes a = 68

abbrev shared_bus : Bus
shared_bus = record {
  St = Registers;
  write = λ address bytes s.
      if address == 0x61
      then (ok tt, s)
      else elim bytes [ [] ↦ (ok tt, s) | a ∷ rest ↦ (ok tt, store_all a rest s) ];
  read = λ address n s. (ok (load 0 n same_bytes), s);
  write_then_read = λ address bytes n s. elim bytes [
    | [] ↦ (ok (load 0 n s), s)
    | a ∷ rest ↦ (ok (load a n (store_all a rest s)), store_all a rest s)
  ];
}

abbrev contents : Reply (List ℕ) → List ℕ
contents (ok buf) = buf
contents (err e) = []

shared_bus-FillsReads : FillsReads shared_bus
shared_bus-FillsReads len s buf e =
    sym (ap (λ r. length (contents r)) e) ∙ length-load len 0 same_bytes

abbrev show : ℕ → Clock → List Text
show d t = []

-- before the read of a measurement
abbrev program : Program shared_bus
program = record {
  cells = record { state = not_ready; co2 = 0; rh = 0; t = pos 0 };
  place = measures;
  input = [];
  output = [];
  bus = same_bytes;
}

abbrev measurement : Measurement
measurement = record { co2 = 0x4444_4444; rh = 0x4444_4444; t = 0x4444_4444 }

answers_measurement : measure shared_bus same_bytes ≡ answered (Measured.ok measurement) same_bytes
unfolding measure Scd30.command Scd30.then_read Scd30.measured Scd30.conclude Scd30.check_chunks
    Scd30.decode
answers_measurement = refl

-- the sensor's task reads the measurement when half of the command has been typed
abbrev typing : List Event
typing =
    received 115
    ∷ received 101
    ∷ received 110
    ∷ senses
    ∷ received 115
    ∷ received 111
    ∷ received 114
    ∷ received 115
    ∷ senses
    ∷ []

shows_latest_example :
    (p' : Program shared_bus) × (run calendar shared_bus show parse_date parse_time
        (typing ++ (received 13 ∷ []))
        program
      ≡ some p')
    × (p'.output
        ≡ reading (
            cells_of
              (latest calendar shared_bus show parse_date parse_time none typing program)
              (seen program.cells))
          ∷ prompt
          ∷ [])
    × (p'.input ≡ [])
shows_latest_example =
    shows_latest calendar shared_bus show parse_date parse_time typing program shared_bus-FillsReads
      (record { co2 = omega arith; rh = omega arith; t = omega arith }) refl refl
