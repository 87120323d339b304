-- ===== src/Executor/Turns.antt =====
-- async-embedded/src/executor.rs: one turn of the loop of `block_on`, and its end.
use async_on_embedded.Prelude.{ℕ, ◌≡◌, true, false, Option, ◌>>=◌}
use async_on_embedded.Executor.{Machine, flag, set_flag, turn, after_main}
use async_on_embedded.Runtime.{Poll, wait_for_event}

module _ {U V : Type 0} (poll_main : ℕ → Machine U → Option (Option V × Machine U))
    (poll_task : ℕ → Machine U → Option (Poll × Machine U)) where
  abbrev pub reset : Machine U → Machine U
  reset m = record m { world = (wait_for_event m.world).1 }

  pub turn_on :
      (main : ℕ) (m : Machine U)
      → flag m main ≡ true
      → turn poll_main poll_task main m
        ≡ (poll_main main (set_flag main false m) >>= after_main poll_main poll_task)
  unfolding turn
  turn_on main m e = rw (e, turn)
