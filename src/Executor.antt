-- ===== src/Executor.antt =====
-- async-embedded/src/executor.rs and async-embedded/src/task.rs: the executor singleton, its
-- allocator, and the futures `Yield` and `Task`. `none` is `abort` (or a panic). The futures that
-- the application hands in are parameters: `U` is the state that they share.
pub mod Pass
pub mod Turns
pub mod Fair
pub mod Loop
pub mod Progress
pub mod Rendezvous
pub mod Spawn
mod Tests
use async_on_embedded.Prelude.{
  ℕ, zero, suc, ◌+◌, ◌-◌, ◌*◌, ◌/◌, ◌%◌, ◌^◌, ◌≤◌, ◌<◌, ◌≡◌, refl, sym, ap, ◌∙◌, subst, ◌≢◌, ◌↔◌,
  ◌⊎◌, inl, inr, Bool, true, false, ◌&&◌, ◌||◌, not, Option, none, some, List, [], ◌∷◌, ◌++◌, map,
  arith, ltb, leb, ◌==◌, if◌then◌else◌, Bool-cases, Option-cases, ==_iff, is_some, length,
  get_elem?, ◌>>=◌,
}
use async_on_embedded.Runtime.{
  World, Poll, ready, pending, ntasks, store, wake_by_ref, signal_event_ready, wait_for_event,
}
use async_on_embedded.Alloc
use async_on_embedded.Alloc.{Alloc, alloc}

-- The executor, the allocator, the flag INIT and everything that futures reach. A task is the
-- address of its node, which is that of its `ready` flag here.
pub record Machine (U : Type 0) : Type 0 where
  pub world : World
  pub init : Bool
  pub alloc : Alloc
  pub in_block_on : Bool
  pub tasks : List ℕ
  pub user : U

-- SCB_ICSR as u8 == 0
abbrev pub in_thread_mode : ℕ → Bool
in_thread_mode icsr = icsr % 256 == 0

-- `Yield::poll`: the future's state before and after is the flag `yielded`.
unfoldable pub poll_yield : ℕ → Bool → World → Poll × Bool × World
poll_yield waker yielded w =
    if yielded
    then (ready, yielded, w)
    else (pending, true, signal_event_ready (wake_by_ref waker w))

-- One turn of the loop of `block_on`: `waited` is a turn that ends in `wait_for_event`, with whether
-- that executed `wfi`, the sleep, or was a no-op.
pub data Turn (U V : Type 0) : Type 0 where
  broke : V → Machine U → Turn U V
  again : Machine U → Turn U V
  waited : Bool → Machine U → Turn U V

-- `running`: the fuel is used up, the loop is not.
pub data Outcome (U V : Type 0) : Type 0 where
  returned : V → Machine U → Outcome U V
  aborted : Outcome U V
  running : Machine U → Outcome U V

module _ {U : Type 0} where
  abbrev pub flag : Machine U → ℕ → Bool
  flag m p = m.world.ready p

  abbrev pub set_flag : ℕ → Bool → Machine U → Machine U
  set_flag p b m = record m {
    world = record { ready = store m.world.ready p b; task_ready = m.world.task_ready };
  }

  -- `current`, less the handle that it returns: MEMORY is 1024 bytes at the address `memory`.
  pub current : ℕ → ℕ → Machine U → Option (Machine U)
  current memory icsr m =
      if in_thread_mode icsr
      then (if m.init
          then some m
          else some (record m {
            in_block_on = false;
            tasks = [];
            alloc = Alloc.new memory 1024;
            init = true;
          }))
      else none

  -- `Executor::spawn` of a future whose node has this size and alignment.
  pub spawn : ℕ → ℕ → Machine U → Option (Machine U)
  spawn size align m = do
    (p, a) ← alloc size align m.alloc
    let m' = set_flag p true (record m { alloc = a })
    if ltb (length m.tasks) ntasks then some (record m' { tasks = m.tasks ++ (p ∷ []) }) else none

module _ {U V : Type 0} (poll_main : ℕ → Machine U → Option (Option V × Machine U))
    (poll_task : ℕ → Machine U → Option (Poll × Machine U)) where
  -- The future of `Task::new`: it aborts when the spawned future has terminated.
  abbrev aborting : Poll × Machine U → Option (Machine U)
  aborting (ready, m) = none
  aborting (pending, m) = some m

  -- The body of the `for` loop: whether the task was woken, and the machine.
  pub service : ℕ → Machine U → Option (Bool × Machine U)
  service task m = elim (flag m task) [
    | true ↦ (do r ← poll_task task (set_flag task false m); m' ← aborting r; some (true, m'))
    | false ↦ some (false, m)
  ]

  -- `for i in 0..len`: the rounds left and the index.
  pub pass : ℕ → ℕ → Bool → Machine U → Option (Bool × Machine U)
  pass zero i woken m = some (woken, m)
  pass (suc n) i woken m = do
    task ← get_elem? m.tasks i
    (b, m') ← service task m
    pass n (i + 1) (woken || b) m'

  pub advance_tasks : Bool → Machine U → Option (Turn U V)
  advance_tasks woken m = do
    (task_woken, m') ← pass (length m.tasks) 0 woken m
    let (wfi, w) = wait_for_event m'.world
    if task_woken then some (again m') else some (waited wfi (record m' { world = w }))

  pub after_main : Option V × Machine U → Option (Turn U V)
  after_main (some val, m) = some (broke val m)
  after_main (none, m) = advance_tasks true m

  -- One turn; `main` is the address of the flag of the main task.
  pub turn : ℕ → Machine U → Option (Turn U V)
  unfolding advance_tasks after_main
  turn main m = elim (flag m main) [
    | true ↦ (do r ← poll_main main (set_flag main false m); after_main r)
    | false ↦ advance_tasks false m
  ]

  pub loop : ℕ → ℕ → Machine U → Outcome U V
  loop zero main m = running m
  loop (suc fuel) main m = elim (turn main m) [
    | none ↦ aborted
    | some t ↦ elim t [
      | broke val m' ↦ returned val (record m' { in_block_on = false })
      | again m' ↦ loop fuel main m'
      | waited wfi m' ↦ loop fuel main m'
    ]
  ]

  -- `Executor::block_on`
  pub block_on : ℕ → ℕ → Machine U → Outcome U V
  block_on fuel main m =
      if m.in_block_on
      then aborted
      else loop fuel main (set_flag main true (record m { in_block_on = true }))
