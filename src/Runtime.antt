-- ===== src/Runtime.antt =====
-- async-embedded/src/lib.rs and the waker of async-embedded/src/executor.rs: the `ready` flags
-- that wakers point at, and the event flag of the `riscv-wait-wfi-single-hart` feature, the one
-- whose functions this repository writes out.
use async_on_embedded.Prelude.{ℕ, ◌^◌, Bool, true, false, not, ◌==◌, if◌then◌else◌}

-- `ready` is the memory of the `AtomicBool`s: the data pointer of a waker is an address in it.
pub record World : Type 0 where
  pub ready : ℕ → Bool
  pub task_ready : Bool

-- NTASKS
abbrev pub ntasks : ℕ
ntasks = 8

-- a 32-bit `usize`
abbrev pub usize : ℕ
usize = 2 ^ 32

abbrev pub store : (ℕ → Bool) → ℕ → Bool → ℕ → Bool
store f p b q = if p == q then b else f q

-- `wake` and `wake_by_ref` of VTABLE
unfoldable pub wake_by_ref : ℕ → World → World
wake_by_ref p w = record w { ready = store w.ready p true }

unfoldable pub signal_event_ready : World → World
signal_event_ready w = record w { task_ready = true }

-- the new state, and whether `wfi` was executed
unfoldable pub wait_for_event : World → Bool × World
wait_for_event w = (not w.task_ready, record w { task_ready = false })

-- `Poll`, less its value
pub data Poll : Type 0 where
  ready pending : Poll
