-- ===== src/Examples/Locking.antt =====
-- nrf52/examples/3-mutex.rs: task A holds the lock when task B asks for it. The number that A
-- writes, 42 in the source, is a parameter, and so are the slab and the type of the value.
pub mod Run
use async_on_embedded.Prelude.{
  ℕ, ◌≡◌, Bool, true, false, Option, none, some, List, [], ◌∷◌, ◌++◌, ◌>>=◌,
}
use async_on_embedded.Executor.{Machine, Outcome, poll_yield, block_on}
use async_on_embedded.Mutex
use async_on_embedded.Mutex.{Mutex}
use async_on_embedded.Runtime.{World, Poll, ready, pending}
use async_on_embedded.Slab.{Slab}

pub data Line (T : Type 0) : Type 0 where
  b_before_lock a_before_write a_after_release a_yield : Line T
  b_value : T → Line T
  done : Line T

-- Where task B is: at its start, or in `lock().await` with the key of its future.
pub data Main : Type 0 where
  start : Main
  locking : Option ℕ → Main

-- Where task A is: it holds the guard, or it is in `yield().await`.
pub data Task : Type 0 where
  holding : Task
  yielding : Bool → Task

module _ (S : Slab) (T : Type 0) where
  pub record Shared : Type 0 where
    pub mutex : Mutex S T
    pub lines : List (Line T)
    pub main : Main
    pub task : Task

  abbrev pub Program : Type 0
  Program = Machine Shared

  abbrev pub print : Line T → Shared → Shared
  print l u = record u { lines = u.lines ++ (l ∷ []) }

  -- The state before the tasks run: `try_lock().unwrap()` has succeeded.
  unfoldable pub initial : T → Option Shared
  initial x = do
    locked ← Mutex.try_lock S T (Mutex.new S T x)
    some (record { mutex = locked; lines = []; main = start; task = holding })

  locked_or_not : Program → Poll × Option ℕ × Mutex S T → Option (Unit {0}) × Program
  locked_or_not m (ready, key, mutex) =
      let u = print (b_value (Mutex.deref S T mutex)) (record m.user { mutex = mutex }) in
      (some tt, record m { user = print done u })
  locked_or_not m (pending, key, mutex) =
      (none, record m { user = record m.user { mutex = mutex; main = locking key } })

  lock : ℕ → Option ℕ → Program → Option (Option (Unit {0}) × Program)
  unfolding locked_or_not
  lock waker key m = do r ← Mutex.poll S T waker key m.user.mutex; some (locked_or_not m r)

  resume : ℕ → Main → Program → Option (Option (Unit {0}) × Program)
  unfolding lock
  resume waker start m = lock waker none (record m { user = print b_before_lock m.user })
  resume waker (locking key) m = lock waker key m

  -- the future of task B
  pub poll_b : ℕ → Program → Option (Option (Unit {0}) × Program)
  unfolding resume
  poll_b waker m = resume waker m.user.main m

  -- one round of the loop of task A, up to its `await`
  round : ℕ → Program → Poll × Program
  round waker m =
      let (p, yielded, world) = poll_yield waker false m.world in
      let u = print a_yield m.user in
      (p, record m { world = world; user = record u { task = yielding yielded } })

  release : Program → Program
  release m =
      let (mutex, world) = Mutex.drop_guard S T m.user.mutex m.world in
      record m { world = world; user = print a_after_release (record m.user { mutex = mutex }) }

  advance : T → ℕ → Task → Program → Poll × Program
  unfolding release round
  advance x waker holding m =
      let u = print a_before_write m.user in
      let written = record u { mutex = Mutex.deref_mut S T x u.mutex } in
      round waker (release (record m { user = written }))
  advance x waker (yielding yielded) m =
      let (p, yielded', world) = poll_yield waker yielded m.world in
      elim p [
        | ready ↦ round waker (record m { world = world })
        | pending ↦
            (pending, record m { world = world; user = record m.user { task = yielding yielded' } })
      ]

  -- the future of task A
  pub poll_a : T → ℕ → Program → Option (Poll × Program)
  unfolding advance
  poll_a x waker m = some (advance x waker m.user.task m)

  pub run : T → ℕ → ℕ → Program → Outcome Shared (Unit {0})
  run x fuel main m = block_on poll_b (poll_a x) fuel main m
