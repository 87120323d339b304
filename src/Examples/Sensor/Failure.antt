-- ===== src/Examples/Sensor/Failure.antt =====
-- nrf52/examples/8-sensor.rs: what is printed once the sensor has failed.
use async_on_embedded.Prelude.{
  ◌≡◌, inl, inr, refl, sym, ap, ◌∙◌, Bool, true, false, ◌&&◌, List, [], ◌∷◌, ◌++◌, ◌==◌,
  if◌then◌else◌, Bool-cases,
}
use mathlib.Core.List.{append-nil}
use async_on_embedded.Scd30.{Measurement, Measured, ok, checksum, twim}
use async_on_embedded.Examples.Console.{Text}
use async_on_embedded.Examples.Sensor.{
  error, Program, fatal, stored, print, answer, Event, got, received, step, run,
}

-- a step that its guard lets through, and one that it does not
pick : (b : Bool) (p q : Program) → b ≡ true → (if b then p else q) ≡ p
pick b p q e = ap (λ x. if x then p else q) e

skip : (b : Bool) (p q : Program) → b ≡ false → (if b then p else q) ≡ q
skip b p q e = ap (λ x. if x then p else q) e

-- The message at the first carriage return, and nothing ever after.
abbrev pub failing : Bool → List Event → List Text
failing printing [] = []
failing printing (got r ∷ events) = failing printing events
failing printing (received b ∷ events) =
    let rest = failing printing events in if printing && b == 13 then fatal ∷ [] else rest

abbrev pub IsFailure : Measured Measurement → Type 0
IsFailure (ok m) = ⊥
IsFailure checksum = Unit
IsFailure (twim e) = Unit

run-stuck :
    (events : List Event) (p : Program) → p.polling ≡ false → p.printing ≡ false → run events p ≡ p
unfolding run step
run-stuck [] p off quiet = refl
run-stuck (got r ∷ events) p off quiet =
    ap (run events) (skip p.polling (stored r p) p off) ∙ run-stuck events p off quiet
run-stuck (received b ∷ events) p off quiet =
    let out : (p.printing && b == 13) ≡ false = rw quiet in
    ap (run events) (skip (p.printing && b == 13) (answer p.cells.state p) p out)
    ∙ run-stuck events p off quiet

answer-error :
    (p : Program)
    → p.cells.state ≡ error
    → answer p.cells.state p ≡ record p { output = p.output ++ (fatal ∷ []); printing = false }
unfolding answer print
answer-error p s = ap (λ state. answer state p) s

run_failed :
    (events : List Event) (p : Program)
    → p.cells.state ≡ error
    → p.polling ≡ false
    → (run events p).output ≡ p.output ++ failing p.printing events
unfolding run step
run_failed [] p s off = rw append-nil
run_failed (got r ∷ events) p s off =
    ap (λ q. (run events q).output) (skip p.polling (stored r p) p off) ∙ run_failed events p s off
run_failed (received b ∷ events) p s off = elim (Bool-cases (p.printing && b == 13)) [
  | inl on ↦
      let q : Program = record p { output = p.output ++ (fatal ∷ []); printing = false } in
      ap (λ q. (run events q).output)
        (pick (p.printing && b == 13) (answer p.cells.state p) p on ∙ answer-error p s)
      ∙ ap (λ q. q.output) (run-stuck events q off refl)
      ∙ sym (rw on)
  | inr out ↦
      ap (λ q. (run events q).output) (skip (p.printing && b == 13) (answer p.cells.state p) p out)
      ∙ run_failed events p s off
      ∙ sym (rw out)
]

stored_failed :
    (r : Measured Measurement) (p : Program)
    → IsFailure r
    → stored r p ≡ record p { cells = record p.cells { state = error }; polling = false }
unfolding stored
stored_failed (ok m) p f = absurd f
stored_failed checksum p f = refl
stored_failed (twim e) p f = refl

-- From any state in which the sensor is still polled: once a measurement fails, whatever comes
-- afterwards, the first carriage return that the printing task takes is answered by the fatal
-- error, and nothing else is ever printed.
pub failure_final :
    (r : Measured Measurement) (events : List Event) (p : Program)
    → p.polling ≡ true
    → IsFailure r
    → (run (got r ∷ events) p).output ≡ p.output ++ failing p.printing events
unfolding run step
failure_final r events p on f =
    ap (λ q. (run events q).output) (pick p.polling (stored r p) p on ∙ stored_failed r p f)
    ∙ run_failed events _ refl refl
