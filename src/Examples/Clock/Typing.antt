-- ===== src/Examples/Clock/Typing.antt =====
-- nrf52/examples/9-clock.rs: bytes that are received with no step of the sensor's task between them.
use async_on_embedded.Prelude.{
  ℕ, ◌≡◌, refl, ◌∙◌, inl, inr, Option, none, some, List, [], ◌∷◌, ◌++◌, map, ◌>>=◌, Option-cases,
}
use mathlib.Core.List.{append_assoc, append-nil}
use async_on_embedded.Bus.{Bus}
use async_on_embedded.Ds3231.{Chrono}
use async_on_embedded.Examples.Console.{Text, receive, receive_all}
use async_on_embedded.Examples.Console.Session.{respond, respond_all}
use async_on_embedded.Examples.Clock.{Program, received, hear, step, run, seen}

module _ (C : Chrono) (B : Bus) (show : C.Date → C.Time → List Text)
    (parse_date : Text → Option C.Date) (parse_time : Text → Option C.Time) where
  open B use {St}

  -- The program behind an answer.
  abbrev pub replied : Program B → List ℕ → Option (List Text × St) → Option (Program B)
  replied p input none = none
  replied p input (some (out, s)) =
      some (record p { input = input; output = p.output ++ out; bus = s })

  replied-append :
      (out : List Text) (s : St) (p : Program B) (input input' : List ℕ)
      (o : Option (List Text × St))
      → replied (record p { input = input; output = p.output ++ out; bus = s }) input' o
        ≡ replied p input' (o >>= λ r. some (out ++ r.0, r.1))
  replied-append out s p input input' none = refl
  replied-append out s p input input' (some (outs, s')) = rw append_assoc

  -- The steps of the console do what `session` says, with the cells as they are: for the bytes in a
  -- row, `respond_all` answers the reactions of `receive_all`, both go on from the program's state,
  -- and the program panics when they do.
  run-respond_all :
      (bytes : List ℕ) (p : Program B)
      → run C B show parse_date parse_time (map received bytes) p
        ≡ replied p (receive_all C parse_date parse_time bytes p.input).1 (
            respond_all C B
              (seen p.cells)
              show
              parse_date
              parse_time
              (receive_all C parse_date parse_time bytes p.input).0
              p.bus)
  unfolding run step hear receive_all respond_all
  run-respond_all [] p = rw append-nil
  run-respond_all (b ∷ bytes) p =
      let r = receive C parse_date parse_time b p.input in
      elim (Option-cases (respond C B (seen p.cells) show parse_date parse_time r.0 p.bus)) [
        | inl e ↦ rw e
        | inr ((out, s), e) ↦
            let p' : Program B = record p { input = r.1; output = p.output ++ out; bus = s } in
            rw e (run-respond_all bytes p' ∙ replied-append out s p r.1 _ _)
      ]
