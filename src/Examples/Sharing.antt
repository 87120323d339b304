-- ===== src/Examples/Sharing.antt =====
-- nrf52/examples/2-share.rs: two tasks share a cell and a slot. The numbers that task B stores, 42
-- and 42 in the source, are parameters.
pub mod Run
use async_on_embedded.Prelude.{
  ℕ, ◌≡◌, Bool, true, false, Option, none, some, List, [], ◌∷◌, ◌++◌, ◌>>=◌,
}
use async_on_embedded.Executor.{Machine, Outcome, poll_yield, block_on}
use async_on_embedded.Runtime.{World, Poll, ready, pending}

pub data Line : Type 0 where
  b_initialize b_post b_yield a_yield done : Line
  a_x a_received : ℕ → Line

-- Where a task is: at its start, or in `yield().await`.
pub data Place : Type 0 where
  start : Place
  yielding : Bool → Place

pub record Shared : Type 0 where
  pub x : ℕ
  pub y : Option ℕ
  pub lines : List Line
  pub main : Place
  pub task : Place

abbrev pub Program : Type 0
Program = Machine Shared

abbrev pub print : Line → Shared → Shared
print l u = record u { lines = u.lines ++ (l ∷ []) }

pub initial : Shared
initial = record { x = 0; y = none; lines = []; main = start; task = start }

-- `yield().await` of task B up to its end, with what follows
b_polls : ℕ → Bool → Program → Option (Unit {0}) × Program
b_polls waker yielded m =
    let (p, yielded', world) = poll_yield waker yielded m.world in
    elim p [
      | ready ↦ (some tt, record m { world = world; user = print done m.user })
      | pending ↦
          (none, record m { world = world; user = record m.user { main = yielding yielded' } })
    ]

b_resumes : ℕ → ℕ → ℕ → Place → Program → Option (Unit {0}) × Program
unfolding b_polls
b_resumes x msg waker start m =
    let u = print b_initialize m.user in
    let u' = print b_post (record u { x = x }) in
    b_polls waker false (record m { user = print b_yield (record u' { y = some msg }) })
b_resumes x msg waker (yielding yielded) m = b_polls waker yielded m

-- the future of task B
pub poll_b : ℕ → ℕ → ℕ → Program → Option (Option (Unit {0}) × Program)
unfolding b_resumes
poll_b x msg waker m = some (b_resumes x msg waker m.user.main m)

-- one round of the loop of task A, up to its `await`
round : ℕ → Program → Poll × Program
round waker m =
    let (p, yielded, world) = poll_yield waker false m.world in
    let u = print a_yield m.user in
    (p, record m { world = world; user = record u { task = yielding yielded } })

take_message : Option ℕ → Shared → Shared
take_message none u = u
take_message (some msg) u = print (a_received msg) (record u { y = none })

a_resumes : ℕ → Place → Program → Poll × Program
unfolding round take_message
a_resumes waker start m =
    let u = print (a_x m.user.x) m.user in round waker (record m { user = take_message u.y u })
a_resumes waker (yielding yielded) m =
    let (p, yielded', world) = poll_yield waker yielded m.world in
    elim p [
      | ready ↦ round waker (record m { world = world })
      | pending ↦
          (pending, record m { world = world; user = record m.user { task = yielding yielded' } })
    ]

-- the future of task A
pub poll_a : ℕ → Program → Option (Poll × Program)
unfolding a_resumes
poll_a waker m = some (a_resumes waker m.user.task m)

pub run : ℕ → ℕ → ℕ → ℕ → Program → Outcome Shared (Unit {0})
run x msg fuel main m = block_on (poll_b x msg) poll_a fuel main m
