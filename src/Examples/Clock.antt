-- ===== src/Examples/Clock.antt =====
-- nrf52/examples/9-clock.rs: the task that reads the sensor and the main task with the console, on
-- one bus, as steps: the sensor's task holds the bus for one transaction with the sensor, or a byte
-- is received and the main task comes to its next read. `none` is a panic.
pub mod Sensing
pub mod Typing
pub mod Showing
mod Tests
use async_on_embedded.Prelude.{ℕ, ◌++◌, Bool, true, false, Option, none, some, List, [], ◌∷◌, ◌>>=◌}
use async_on_embedded.Bus.{Bus}
use async_on_embedded.Ds3231.{Chrono}
use async_on_embedded.Examples.Console.{Text, receive}
use async_on_embedded.Examples.Console.Session
use async_on_embedded.Examples.Console.Session.{respond}
use async_on_embedded.Examples.Sensor.{Cells, ready, error, as_unsigned, as_i8}
use async_on_embedded.Scd30.{
  Measured, Measurement, ok, checksum, twim, Outcome, answered, panicked, waiting, data_ready,
  measure,
}

-- Where the sensor's task is: before a question whether the sensor is ready, before the read of the
-- measurement, in its endless loop of yields.
pub data Place : Type 0 where
  asks measures failed : Place

pub data Event : Type 0 where
  senses : Event
  received : ℕ → Event

-- `input` is the buffer of the line, `output` what has been written.
pub record Program (B : Bus) : Type 0 where
  pub cells : Cells
  pub place : Place
  pub input : List ℕ
  pub output : List Text
  pub bus : B.St

-- what the console reads of the cells
abbrev pub seen : Cells → Session.Cells
seen c = record { co2 = c.co2; t = c.t; rh = c.rh }

module _ (C : Chrono) (B : Bus) where
  open C use {Date, Time}
  open B use {St}

  -- the body of the loop of the sensor's task, once `get_measurement` has answered
  pub stored : Measured Measurement → St → Program B → Program B
  stored (ok m) s p = record p {
    cells = record {
      state = ready;
      co2 = as_unsigned 65535 m.co2;
      rh = as_unsigned 255 m.rh;
      t = as_i8 m.t;
    };
    place = asks;
    bus = s;
  }
  stored checksum s p = record p {
    cells = record p.cells { state = error };
    place = failed;
    bus = s;
  }
  stored (twim e) s p = record p {
    cells = record p.cells { state = error };
    place = failed;
    bus = s;
  }

  -- the loop of `get_measurement`, once the sensor has answered
  pub asked : Measured Bool → St → Program B → Program B
  unfolding stored
  asked (ok true) s p = record p { place = measures; bus = s }
  asked (ok false) s p = record p { bus = s }
  asked checksum s p = stored checksum s p
  asked (twim e) s p = stored (twim e) s p

  pub concluded : Outcome St → Program B → Option (Program B)
  unfolding stored
  concluded (answered r s) p = some (stored r s p)
  concluded panicked p = none
  concluded (waiting s) p = some (record p { bus = s })

  -- The transaction that the sensor's task comes to.
  pub sense : Place → Program B → Option (Program B)
  unfolding asked concluded
  sense asks p = do (r, s) ← data_ready B p.bus; some (asked r s p)
  sense measures p = concluded (measure B p.bus) p
  sense failed p = some p

  module _ (show : Date → Time → List Text) (parse_date : Text → Option Date)
      (parse_time : Text → Option Time) where
    pub hear : ℕ → Program B → Option (Program B)
    hear b p = do
      let (r, input) = receive C parse_date parse_time b p.input
      (out, s) ← respond C B (seen p.cells) show parse_date parse_time r p.bus
      some (record p { input = input; output = p.output ++ out; bus = s })

    pub step : Event → Program B → Option (Program B)
    unfolding sense hear
    step senses p = sense p.place p
    step (received b) p = hear b p

    pub run : List Event → Program B → Option (Program B)
    unfolding step
    run [] p = some p
    run (e ∷ events) p = do p' ← step e p; run events p'
