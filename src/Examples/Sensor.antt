-- ===== src/Examples/Sensor.antt =====
-- nrf52/examples/8-sensor.rs: the task that polls the sensor and the task that prints on demand, as
-- steps: a measurement ends, or a byte is received.
pub mod Output
pub mod Failure
mod Tests
use async_on_embedded.Prelude.{
  ℕ, zero, suc, ◌+◌, ◌*◌, ◌/◌, ◌%◌, ◌^◌, ◌≡◌, Bool, true, false, ◌&&◌, not, List, [], ◌∷◌, ◌++◌,
  ◌==◌, if◌then◌else◌,
}
use Prim.Native.Nat.{min}
use async_on_embedded.Ds3231.{ℤ, pos, negsuc}
use async_on_embedded.Scd30.{Measurement, Measured, ok, checksum, twim}
use async_on_embedded.Examples.Console.{Text, codes}
use async_on_embedded.Examples.Console.Report.{pieces, filled}

-- the whole part of a float's absolute value, 0 for what is not a number
whole : ℕ → ℕ
whole bits =
    let exponent = bits / 2 ^ 23 % 256 in
    let fraction = bits % 2 ^ 23 in
    if exponent == 255 && not (fraction == 0)
    then 0
    else (2 ^ 23 + fraction) * 2 ^ exponent / 2 ^ 150

is_negative : ℕ → Bool
is_negative bits = bits / 2 ^ 31 % 2 == 1

-- `as` from a float saturates.
pub as_unsigned : ℕ → ℕ → ℕ
unfolding whole is_negative
as_unsigned max bits = if is_negative bits then 0 else min max (whole bits)

abbrev negated : ℕ → ℤ
negated zero = pos 0
negated (suc n) = negsuc n

pub as_i8 : ℕ → ℤ
unfolding whole is_negative
as_i8 bits = if is_negative bits then negated (min 128 (whole bits)) else pos (min 127 (whole bits))

pub data SensorState : Type 0 where
  not_ready ready error : SensorState

pub record Cells : Type 0 where
  pub state : SensorState
  pub co2 : ℕ
  pub rh : ℕ
  pub t : ℤ

-- `polling` and `printing`: the task has not come to its endless loop of yields.
pub record Program : Type 0 where
  pub cells : Cells
  pub polling : Bool
  pub printing : Bool
  pub output : List Text

pub initial : Program
initial = record {
  cells = record { state = not_ready; co2 = 0; rh = 0; t = pos 0 };
  polling = true;
  printing = true;
  output = [];
}

abbrev pub fatal : Text
fatal = codes "fatal error: I2C error\n"

abbrev pub try_later : Text
try_later = codes "sensor not ready; try again later\n"

-- the body of the loop of the polling task, once the measurement is there
stored : Measured Measurement → Program → Program
unfolding as_unsigned as_i8
stored (ok m) p = record p {
  cells = record {
    state = ready;
    co2 = as_unsigned 65535 m.co2;
    rh = as_unsigned 255 m.rh;
    t = as_i8 m.t;
  };
}
stored checksum p = record p { cells = record p.cells { state = error }; polling = false }
stored (twim e) p = record p { cells = record p.cells { state = error }; polling = false }

print : Text → Program → Program
print text p = record p { output = p.output ++ (text ∷ []) }

-- the answer of the printing task to a carriage return
answer : SensorState → Program → Program
unfolding print
answer error p = record (print fatal p) { printing = false }
answer not_ready p = print try_later p
answer ready p = print (filled 32 (pieces p.cells.co2 p.cells.t p.cells.rh) []) p

pub data Event : Type 0 where
  got : Measured Measurement → Event
  received : ℕ → Event

pub step : Event → Program → Program
unfolding stored answer
step (got r) p = if p.polling then stored r p else p
step (received b) p = if p.printing && b == 13 then answer p.cells.state p else p

pub run : List Event → Program → Program
run [] p = p
run (e ∷ events) p = run events (step e p)
