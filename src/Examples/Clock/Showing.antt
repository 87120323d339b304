-- ===== src/Examples/Clock/Showing.antt =====
-- nrf52/examples/9-clock.rs: what the command `sensors` shows.
use async_on_embedded.Prelude.{
  ℕ, ◌+◌, ◌≤◌, ◌<◌, ◌≡◌, refl, sym, ap, ◌∙◌, subst, Option, none, some, List, [], ◌∷◌, ◌++◌, length,
  length-append, arith,
}
use mathlib.Core.List.{append_assoc, append-nil}
use async_on_embedded.Bus.{Bus}
use async_on_embedded.Ds3231.{Chrono}
use async_on_embedded.Examples.Console.{Text, sensors, answers, cmd_sensors}
use async_on_embedded.Examples.Console.Lines.{
  IsLine, IsLine-append, is_line-IsLine, receive_waits, receive_return,
}
use async_on_embedded.Examples.Console.Parsing.{sensors_parsed}
use async_on_embedded.Examples.Console.Report.{IsI8, pieces, joined, filled-joined, sensors_fit}
use async_on_embedded.Examples.Console.Session
use async_on_embedded.Examples.Console.Session.{prompt, respond, execute, execute_or_not}
use async_on_embedded.Examples.Clock.{Program, Event, senses, received, hear, step, run, seen}
use async_on_embedded.Examples.Clock.Sensing.{FillsReads, cells_of, taken, sense-Leaves}
use async_on_embedded.Examples.Sensor.Output.{InRange, as_unsigned_le, as_i8-IsI8}
use async_on_embedded.Scd30.{Measurement}

-- the bytes that are received
abbrev pub heard : List Event → List ℕ
heard [] = []
heard (senses ∷ events) = heard events
heard (received b ∷ events) = b ∷ heard events

-- the answer to `sensors`
abbrev pub reading : Session.Cells → Text
reading c = joined (pieces c.co2 c.t c.rh)

-- Values of a `u16`, an `i8` and a `u8`.
record Fits (c : Session.Cells) : Type 0 where
  co2 : c.co2 < 65536
  t : IsI8 c.t
  rh : c.rh < 256

cells_of-Fits : (last : Option Measurement) (c : Session.Cells) → Fits c → Fits (cells_of last c)
cells_of-Fits none c f = f
cells_of-Fits (some m) c f = record {
  co2 = omega (arith, as_unsigned_le 65535 m.co2);
  t = as_i8-IsI8 m.t;
  rh = omega (arith, as_unsigned_le 255 m.rh);
}

module _ (C : Chrono) (B : Bus) (show : C.Date → C.Time → List Text)
    (parse_date : Text → Option C.Date) (parse_time : Text → Option C.Time) where
  open B use {St}

  abbrev steps : Event → Program B → Option (Program B)
  steps = step C B show parse_date parse_time

  abbrev runs : List Event → Program B → Option (Program B)
  runs = run C B show parse_date parse_time

  abbrev after_event : Event → Program B → Option Measurement → Option Measurement
  after_event senses p last = taken B p.place p.bus last
  after_event (received b) p last = last

  -- The last measurement that the sensor has answered with in these steps, if any.
  pub latest : Option Measurement → List Event → Program B → Option Measurement
  latest last [] p = last
  latest last (e ∷ events) p = elim (steps e p) [
    | none ↦ after_event e p last
    | some p' ↦ latest (after_event e p last) events p'
  ]

  sensors_shown :
      (c : Session.Cells) (s : St)
      → Fits c
      → respond C B c show parse_date parse_time (answers (some sensors)) s
        ≡ some (reading c ∷ prompt ∷ [], s)
  unfolding respond execute_or_not execute
  sensors_shown c s f =
      let (all, short) = sensors_fit c.co2 c.t c.rh f.co2 f.t f.rh in
      rw (filled-joined 32 (pieces c.co2 c.t c.rh) [] (omega (arith, short)))

  -- A byte of a line that is not at its end.
  hear_waits :
      (b : ℕ) (p : Program B)
      → IsLine (p.input ++ (b ∷ []))
      → length p.input < 64
      → hear C B show parse_date parse_time b p ≡ some (record p { input = p.input ++ (b ∷ []) })
  unfolding hear respond
  hear_waits b p l short = rw (receive_waits C parse_date parse_time b p.input l short, append-nil)

  -- The program while a line is typed.
  record Typed (last : Option Measurement) (c : Session.Cells) (line : List ℕ) (p q : Program B)
      : Type 0 where
    input : q.input ≡ line
    output : q.output ≡ p.output
    cells : seen q.cells ≡ cells_of last c

  latest-step :
      (e : Event) (events : List Event) (last : Option Measurement) (p p' : Program B)
      → steps e p ≡ some p'
      → latest last (e ∷ events) p ≡ latest (after_event e p last) events p'
  unfolding latest
  latest-step e events last p p' s = rw (s, latest)

  typing :
      (A : FillsReads B) (events rest : List Event) (last : Option Measurement) (c : Session.Cells)
      (p : Program B)
      → IsLine p.input
      → IsLine (heard events)
      → length p.input + length (heard events) ≤ 64
      → seen p.cells ≡ cells_of last c
      → (q : Program B) × (runs (events ++ rest) p ≡ runs rest q)
        × Typed (latest last events p) c (p.input ++ heard events) p q
  unfolding run step latest
  typing A [] rest last c p lp le short e =
      (p, refl, record { input = sym (append-nil p.input); output = refl; cells = e })
  typing A (senses ∷ events) rest last c p lp le short e =
      let (p', s, k) = sense-Leaves B A C p.place last p in
      let line = subst IsLine (sym k.input) lp in
      let fits : length p'.input + length (heard events) ≤ 64 =
        omega (arith, short, ap length k.input) in
      let (q, r, t) =
        typing A events rest (taken B p.place p.bus last) c p' line le fits (k.cells c e) in
      (
        q,
        rw s r,
        record {
          input = t.input ∙ ap (λ i. i ++ heard events) k.input;
          output = t.output ∙ k.output;
          cells = t.cells ∙ ap (λ m. cells_of m c) (sym (latest-step senses events last p p' s));
        },
      )
  typing A (received b ∷ events) rest last c p lp le short e =
      let line = IsLine-append p.input (b ∷ []) lp (le.0, le.1, tt) in
      let p' : Program B = record p { input = p.input ++ (b ∷ []) } in
      let s = hear_waits b p line (omega (arith, short)) in
      let fits : length p'.input + length (heard events) ≤ 64 =
        omega (arith, short, length-append p.input (b ∷ [])) in
      let (q, r, t) = typing A events rest last c p' line le.2 fits e in
      (
        q,
        rw s r,
        record {
          input = t.input ∙ append_assoc p.input (b ∷ []) (heard events);
          output = t.output;
          cells =
              t.cells ∙ ap (λ m. cells_of m c) (sym (latest-step (received b) events last p p' s));
        },
      )

  -- From an empty line on and cells in the ranges of their types, with any number of steps of the
  -- sensor's task before, between and behind the bytes, whose transactions and those before may
  -- fail: when `sensors` has been typed and then the carriage return comes, the program has not
  -- panicked, has written nothing since, and now writes the whole text for the last measurement
  -- that the sensor answered with in these steps, its numbers cast to a `u16`, an `i8` and a `u8`,
  -- and a prompt. Without such a measurement the text is that for the cells as they were. A read
  -- of the sensor that does not fail fills its buffer.
  pub shows_latest :
      (events : List Event) (p : Program B)
      → FillsReads B
      → InRange p.cells
      → p.input ≡ []
      → heard events ≡ cmd_sensors
      → (p' : Program B) × (run C B show parse_date parse_time (events ++ (received 13 ∷ [])) p
          ≡ some p')
        × (p'.output
            ≡ p.output ++ (reading (cells_of (latest none events p) (seen p.cells)) ∷ prompt ∷ []))
        × (p'.input ≡ [])
  unfolding run step hear
  shows_latest events p A range empty typed =
      let line : IsLine (heard events) =
        subst IsLine (sym typed) (is_line-IsLine cmd_sensors refl) in
      let start : IsLine p.input = subst IsLine (sym empty) tt in
      let size : length p.input + length (heard events) ≤ 64 =
        omega (arith, ap length empty, ap length typed) in
      let (q, r, t) =
        typing A events (received 13 ∷ []) none (seen p.cells) p start line size refl in
      let all : q.input ≡ cmd_sensors = t.input ∙ ap (λ i. i ++ heard events) empty ∙ typed in
      let c = cells_of (latest none events p) (seen p.cells) in
      let fits =
        cells_of-Fits (latest none events p) (seen p.cells)
          (record { co2 = range.co2; t = range.t; rh = range.rh }) in
      let ends =
        receive_return C parse_date parse_time cmd_sensors (is_line-IsLine cmd_sensors refl)
          (omega arith) in
      (
        record q { input = []; output = q.output ++ (reading c ∷ prompt ∷ []) },
        r
            ∙ rw (
              all,
              ends,
              sensors_parsed C parse_date parse_time,
              t.cells,
              sensors_shown c q.bus fits,
            ),
        ap (λ o. o ++ (reading c ∷ prompt ∷ [])) t.output,
        refl,
      )
