-- ===== src/Executor/Rendezvous.antt =====
-- async-embedded/src/executor.rs: the main task waits for a spawned one.
use async_on_embedded.Prelude.{
  arith, ℕ, suc, ◌≡◌, ap, ◌∙◌, true, false, Option, none, some, [], ◌∷◌, length,
}
use async_on_embedded.Executor.{
  Machine, again, broke, returned, flag, set_flag, pass, turn, loop, block_on,
}
use async_on_embedded.Executor.Loop.{
  entered, service_polled, pass_step, loop_broke, loop_again, turn_again, broken,
}
use async_on_embedded.Executor.Turns.{turn_on}
use async_on_embedded.Runtime.{Poll, pending}

module _ {U V : Type 0} (poll_main : ℕ → Machine U → Option (Option V × Machine U))
    (poll_task : ℕ → Machine U → Option (Poll × Machine U)) where
  single_pass :
      (t : ℕ) (k m' : Machine U)
      → k.tasks ≡ t ∷ []
      → flag k t ≡ true
      → poll_task t (set_flag t false k) ≡ some (pending, m')
      → pass poll_main poll_task (length k.tasks) 0 true k ≡ some (true, m')
  unfolding pass
  single_pass t k m' at up polled =
      ap (λ ts. pass poll_main poll_task (length ts) 0 true k) at
      ∙ pass_step poll_main poll_task 0 0 true k t true m' (rw at)
          (service_polled poll_main poll_task t k m' up polled)

  -- The main future is pending, the task is polled, and it leaves the flag of the main task up.
  pub turn_waiting :
      (main t : ℕ) (m k m' : Machine U)
      → flag m main ≡ true
      → poll_main main (set_flag main false m) ≡ some (none, k)
      → k.tasks ≡ t ∷ []
      → flag k t ≡ true
      → poll_task t (set_flag t false k) ≡ some (pending, m')
      → turn poll_main poll_task main m ≡ some (again m')
  turn_waiting main t m k m' on first at up polled =
      turn_again poll_main poll_task main m k m' on first (single_pass t k m' at up polled)

  pub turn_done :
      (main : ℕ) (m m' : Machine U) (v : V)
      → flag m main ≡ true
      → poll_main main (set_flag main false m) ≡ some (some v, m')
      → turn poll_main poll_task main m ≡ some (broke v m')
  turn_done main m m' v on polled =
      turn_on poll_main poll_task main m on ∙ rw polled (broken poll_main poll_task v m')

  pub block_on-loop :
      (fuel main : ℕ) (m : Machine U)
      → m.in_block_on ≡ false
      → block_on poll_main poll_task fuel main m
        ≡ loop poll_main poll_task fuel main (entered poll_main poll_task main m)
  unfolding block_on
  block_on-loop fuel main m out = rw out

  -- One poll of the main future, one of the only task, and a second poll of the main future.
  pub rendezvous :
      (fuel main t : ℕ) (m k m' m'' : Machine U) (v : V)
      → m.in_block_on ≡ false
      → poll_main main (set_flag main false (entered poll_main poll_task main m)) ≡ some (none, k)
      → k.tasks ≡ t ∷ []
      → flag k t ≡ true
      → poll_task t (set_flag t false k) ≡ some (pending, m')
      → flag m' main ≡ true
      → poll_main main (set_flag main false m') ≡ some (some v, m'')
      → block_on poll_main poll_task (suc (suc fuel)) main m
        ≡ returned v (record m'' { in_block_on = false })
  rendezvous fuel main t m k m' m'' v out first at up polled on second =
      block_on-loop (suc (suc fuel)) main m out
      ∙ loop_again poll_main poll_task (suc fuel) main (entered poll_main poll_task main m) m' (
          turn_waiting main t (entered poll_main poll_task main m) k m' (ground arith) first at up
            polled)
      ∙ loop_broke poll_main poll_task fuel main m' m'' v (turn_done main m' m'' v on second)
