-- ===== src/Examples/Sensor/Output.antt =====
-- nrf52/examples/8-sensor.rs: what is printed.
use async_on_embedded.Prelude.{
  ℕ, zero, suc, ◌≤◌, ◌<◌, inl, inr, sym, subst, Bool, true, false, ◌&&◌, List, [], ◌∷◌, ◌++◌, arith,
  ◌==◌, if◌then◌else◌, Bool-cases,
}
use Prim.Native.Nat.{min}
use async_on_embedded.Scd30.{Measurement, Measured, ok, checksum, twim}
use async_on_embedded.Examples.Console.{Text}
use async_on_embedded.Examples.Console.Report.{
  pieces, filled, joined, IsI8, sensors_fit, filled-joined,
}
use async_on_embedded.Examples.Sensor.{
  as_unsigned, as_i8, is_negative, whole, negated, SensorState, not_ready, ready, error, Cells,
  Program, initial, fatal, try_later, stored, print, answer, Event, got, received, step, run,
}

-- The cells hold values of their types.
pub record InRange (c : Cells) : Type 0 where
  pub co2 : c.co2 < 65536
  pub rh : c.rh < 256
  pub t : IsI8 c.t

-- A complete answer: the two messages, or the whole text for some values of the cells.
pub data IsAnswer : Text → Type 0 where
  fatal_error : IsAnswer fatal
  later : IsAnswer try_later
  values : (c : Cells) → InRange c → IsAnswer (joined (pieces c.co2 c.t c.rh))

abbrev pub AllAnswers : List Text → Type 0
AllAnswers [] = Unit
AllAnswers (text ∷ texts) = IsAnswer text × AllAnswers texts

pub record IsSound (p : Program) : Type 0 where
  pub cells : InRange p.cells
  pub output : AllAnswers p.output

pub as_unsigned_le : (max bits : ℕ) → as_unsigned max bits ≤ max
unfolding as_unsigned
as_unsigned_le max bits = ground arith

negated-IsI8 : (n : ℕ) → n ≤ 128 → IsI8 (negated n)
negated-IsI8 zero l = omega arith
negated-IsI8 (suc n) l = omega arith

pub as_i8-IsI8 : (bits : ℕ) → IsI8 (as_i8 bits)
unfolding as_i8
as_i8-IsI8 bits = elim (Bool-cases (is_negative bits)) [
  | inl e ↦ rw e (negated-IsI8 (min 128 (whole bits)) (ground arith))
  | inr e ↦ rw e (ground arith)
]

AllAnswers-append :
    (texts : List Text) (text : Text)
    → AllAnswers texts
    → IsAnswer text
    → AllAnswers (texts ++ (text ∷ []))
AllAnswers-append [] text a h = (h, tt)
AllAnswers-append (s ∷ texts) text a h = (a.0, AllAnswers-append texts text a.1 h)

stored-IsSound : (r : Measured Measurement) (p : Program) → IsSound p → IsSound (stored r p)
unfolding stored
stored-IsSound (ok m) p s = record {
  cells = record {
    co2 = omega (arith, as_unsigned_le 65535 m.co2);
    rh = omega (arith, as_unsigned_le 255 m.rh);
    t = as_i8-IsI8 m.t;
  };
  output = s.output;
}
stored-IsSound checksum p s = record {
  cells = record { co2 = s.cells.co2; rh = s.cells.rh; t = s.cells.t };
  output = s.output;
}
stored-IsSound (twim e) p s = record {
  cells = record { co2 = s.cells.co2; rh = s.cells.rh; t = s.cells.t };
  output = s.output;
}

-- The text for the values is complete.
values-IsAnswer : (c : Cells) → InRange c → IsAnswer (filled 32 (pieces c.co2 c.t c.rh) [])
values-IsAnswer c i =
    let (all, short) = sensors_fit c.co2 c.t c.rh i.co2 i.t i.rh in
    subst IsAnswer (sym (filled-joined 32 (pieces c.co2 c.t c.rh) [] (omega (arith, short))))
      (values c i)

answer-IsSound : (state : SensorState) (p : Program) → IsSound p → IsSound (answer state p)
unfolding answer print
answer-IsSound error p s = record {
  cells = s.cells;
  output = AllAnswers-append p.output fatal s.output fatal_error;
}
answer-IsSound not_ready p s = record {
  cells = s.cells;
  output = AllAnswers-append p.output try_later s.output later;
}
answer-IsSound ready p s = record {
  cells = s.cells;
  output = AllAnswers-append p.output _ s.output (values-IsAnswer p.cells s.cells);
}

if-IsSound : (b : Bool) (p q : Program) → IsSound p → IsSound q → IsSound (if b then p else q)
if-IsSound true p q s r = s
if-IsSound false p q s r = r

step-IsSound : (e : Event) (p : Program) → IsSound p → IsSound (step e p)
unfolding step
step-IsSound (got r) p s = if-IsSound p.polling (stored r p) p (stored-IsSound r p s) s
step-IsSound (received b) p s =
    if-IsSound (p.printing && b == 13) (answer p.cells.state p) p (answer-IsSound p.cells.state p s)
      s

run-IsSound : (events : List Event) (p : Program) → IsSound p → IsSound (run events p)
unfolding run
run-IsSound [] p s = s
run-IsSound (e ∷ events) p s = run-IsSound events (step e p) (step-IsSound e p s)

-- Whatever the measurements are and whenever bytes are received: each text that is printed is
-- complete. It is one of the two messages, or the whole text for values that are a `u16`, an `i8`
-- and a `u8`, which has not been cut at the 32 bytes of the buffer.
pub output_complete : (events : List Event) → AllAnswers (run events initial).output
unfolding initial
output_complete events =
    (run-IsSound events initial (record {
      cells = record { co2 = omega arith; rh = omega arith; t = omega arith };
      output = tt;
    })).output
