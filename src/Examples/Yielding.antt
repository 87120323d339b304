-- ===== src/Examples/Yielding.antt =====
-- nrf52/examples/1-yield.rs: two tasks take turns.
pub mod Run
use async_on_embedded.Prelude.{
  ℕ, ◌≡◌, Bool, true, false, Option, none, some, List, [], ◌∷◌, ◌++◌, ◌>>=◌,
}
use async_on_embedded.Executor.{Machine, Outcome, poll_yield, block_on}
use async_on_embedded.Runtime.{World, Poll, ready, pending}

pub data Line : Type 0 where
  a_yield b_yield done : Line

-- Where task B is: at its start, or in its first or its second `yield().await`.
pub data Main : Type 0 where
  start : Main
  first second : Bool → Main

pub data Task : Type 0 where
  starting : Task
  yielding : Bool → Task

pub record Shared : Type 0 where
  pub lines : List Line
  pub main : Main
  pub task : Task

abbrev pub Program : Type 0
Program = Machine Shared

abbrev pub print : Line → Shared → Shared
print l u = record u { lines = u.lines ++ (l ∷ []) }

pub initial : Shared
initial = record { lines = []; main = start; task = starting }

in_second : ℕ → Bool → Program → Option (Unit {0}) × Program
in_second waker yielded m =
    let (p, yielded', world) = poll_yield waker yielded m.world in
    elim p [
      | ready ↦ (some tt, record m { world = world; user = print done m.user })
      | pending ↦
          (none, record m { world = world; user = record m.user { main = second yielded' } })
    ]

in_first : ℕ → Bool → Program → Option (Unit {0}) × Program
unfolding in_second
in_first waker yielded m =
    let (p, yielded', world) = poll_yield waker yielded m.world in
    elim p [
      | ready ↦ in_second waker false (record m { world = world; user = print b_yield m.user })
      | pending ↦ (none, record m { world = world; user = record m.user { main = first yielded' } })
    ]

resume : ℕ → Main → Program → Option (Unit {0}) × Program
unfolding in_first in_second
resume waker start m = in_first waker false (record m { user = print b_yield m.user })
resume waker (first yielded) m = in_first waker yielded m
resume waker (second yielded) m = in_second waker yielded m

-- the future of task B
pub poll_b : ℕ → Program → Option (Option (Unit {0}) × Program)
unfolding resume
poll_b waker m = some (resume waker m.user.main m)

-- one round of the loop of task A, up to its `await`
round : ℕ → Program → Poll × Program
round waker m =
    let (p, yielded, world) = poll_yield waker false m.world in
    let u = print a_yield m.user in
    (p, record m { world = world; user = record u { task = yielding yielded } })

advance : ℕ → Task → Program → Poll × Program
unfolding round
advance waker starting m = round waker m
advance waker (yielding yielded) m =
    let (p, yielded', world) = poll_yield waker yielded m.world in
    elim p [
      | ready ↦ round waker (record m { world = world })
      | pending ↦
          (pending, record m { world = world; user = record m.user { task = yielding yielded' } })
    ]

-- the future of task A
pub poll_a : ℕ → Program → Option (Poll × Program)
unfolding advance
poll_a waker m = some (advance waker m.user.task m)

pub run : ℕ → ℕ → Program → Outcome Shared (Unit {0})
run fuel main m = block_on poll_b poll_a fuel main m
