-- ===== src/Examples/Console/Session.antt =====
-- nrf52/examples/9-clock.rs: what the console writes, and what it does to the clock. `none` is a
-- panic. The `Display` of the date and time of `chrono` is a parameter: the pieces that it writes.
pub mod Setting
use async_on_embedded.Prelude.{
  ℕ, ◌+◌, ◌≤◌, ◌≡◌, Option, none, some, List, [], ◌∷◌, ◌++◌, length, leb, if◌then◌else◌, ◌>>=◌,
}
use async_on_embedded.Bus.{Bus, Reply}
use async_on_embedded.Ds3231.{ℤ, Chrono, Dated, ok, invalid_date, twim}
use async_on_embedded.Ds3231.Driver
use async_on_embedded.Examples.Console
use async_on_embedded.Examples.Console.{
  Text, codes, Command, date, help, sensors, set_date, set_time, Reaction, waits, full, answers,
  receive_all,
}
use async_on_embedded.Examples.Console.Report.{filled, pieces}

abbrev pub newline : Text
newline = 10 ∷ []

abbrev pub prompt : Text
prompt = b'>' ∷ 32 ∷ []

abbrev pub buffer_full : Text
buffer_full = codes "input buffer is full\n"

abbrev pub rtc_error : Text
rtc_error = codes "error communicating with the RTC\n"

abbrev pub rtc_date : Text
rtc_date = codes "invalid date stored in the RTC\n"

abbrev pub invalid_command : Text
invalid_command = codes "invalid command; try `help`\n"

abbrev pub commands : Text
commands =
    codes "Commands:\n"
    ++ codes "help              displays this text\n"
    ++ codes "date              display the current date and time\n"
    ++ codes "sensors           displays the gas sensor data\n"
    ++ codes "set date %Y-%m-%d changes the date\n"
    ++ codes "set time %H:%M:%S changes the time\n"

-- The cells that the sensor's task sets.
pub record Cells : Type 0 where
  pub co2 : ℕ
  pub t : ℤ
  pub rh : ℕ

-- The cells are what the sensor's task has left there, and do not change meanwhile.
module _ (C : Chrono) (B : Bus) (cells : Cells) where
  open C use {Date, Time}
  open B use {St}

  module _ (show : Date → Time → List Text) where
    date_text : Dated (Date × Time) → Text
    date_text (ok (d, t)) = filled 32 (show d t ++ (newline ∷ [])) []
    date_text invalid_date = rtc_date
    date_text (twim e) = rtc_error

    date_answer : Dated (Unit {0}) → List Text
    date_answer (ok u) = []
    date_answer invalid_date = rtc_error ∷ []
    date_answer (twim e) = rtc_error ∷ []

    time_answer : Reply (Unit {0}) → List Text
    time_answer (Reply.ok u) = []
    time_answer (Reply.err e) = rtc_error ∷ []

    -- What is written for a command, and the bus behind it.
    unfoldable pub execute : Command C → St → Option (List Text × St)
    unfolding date_text date_answer time_answer
    execute date s = do (d, s') ← Driver.get_datetime C B s; some (date_text d ∷ [], s')
    execute help s = some (commands ∷ [], s)
    execute sensors s = some (filled 32 (pieces cells.co2 cells.t cells.rh) [] ∷ [], s)
    execute (set_date d) s = let (r, s') = Driver.set_date C B d s in some (date_answer r, s')
    execute (set_time t) s = let (r, s') = Driver.set_time C B t s in some (time_answer r, s')

    unfoldable pub execute_or_not : Option (Command C) → St → Option (List Text × St)
    unfolding execute
    execute_or_not none s = some (invalid_command ∷ [], s)
    execute_or_not (some cmd) s = execute cmd s

    module _ (parse_date : Text → Option Date) (parse_time : Text → Option Time) where
      -- up to the next prompt
      unfoldable pub respond : Reaction C parse_date parse_time → St → Option (List Text × St)
      unfolding execute_or_not
      respond waits s = some ([], s)
      respond full s = some (buffer_full ∷ prompt ∷ [], s)
      respond (answers cmd) s = do (out, s') ← execute_or_not cmd s; some (out ++ (prompt ∷ []), s')

      unfoldable pub respond_all :
          List (Reaction C parse_date parse_time) → St → Option (List Text × St)
      unfolding respond
      respond_all [] s = some ([], s)
      respond_all (r ∷ rs) s = do
        (out, s') ← respond r s
        (outs, s'') ← respond_all rs s'
        some (out ++ outs, s'')

      -- The main task from its start on, while these bytes are received.
      pub session : List ℕ → St → Option (List Text × St)
      session bytes s = do
        (out, s') ← respond_all (receive_all C parse_date parse_time bytes []).0 s
        some (prompt ∷ out, s')
