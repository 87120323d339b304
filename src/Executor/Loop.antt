-- ===== src/Executor/Loop.antt =====
-- async-embedded/src/executor.rs: the steps of the loop of `block_on`, and its guard.
use async_on_embedded.Prelude.{
  ℕ, zero, suc, ◌+◌, ◌≡◌, refl, ◌∙◌, inl, inr, Bool, true, false, ◌||◌, Option, none, some, arith,
  Bool-cases, Option-cases, length, get_elem?,
}
use async_on_embedded.Executor.{
  Machine, broke, again, waited, returned, flag, set_flag, service, pass, turn, loop, block_on,
  advance_tasks, after_main,
}
use async_on_embedded.Executor.Turns.{turn_on}
use async_on_embedded.Runtime.{Poll, pending}

module _ {U V : Type 0} (poll_main : ℕ → Machine U → Option (Option V × Machine U))
    (poll_task : ℕ → Machine U → Option (Poll × Machine U)) where
  pub service_polled :
      (t : ℕ) (m m' : Machine U)
      → flag m t ≡ true
      → poll_task t (set_flag t false m) ≡ some (pending, m')
      → service poll_main poll_task t m ≡ some (true, m')
  unfolding service
  service_polled t m m' on e = rw (on, service, e)

  pub pass_step :
      (n i : ℕ) (woken : Bool) (m : Machine U) (t : ℕ) (b : Bool) (m₁ : Machine U)
      → get_elem? m.tasks i ≡ some t
      → service poll_main poll_task t m ≡ some (b, m₁)
      → pass poll_main poll_task (suc n) i woken m
        ≡ pass poll_main poll_task n (i + 1) (woken || b) m₁
  unfolding pass
  pass_step n i woken m t b m₁ at serviced = rw (at, serviced)

  -- The machine at the head of the loop.
  abbrev pub entered : ℕ → Machine U → Machine U
  entered main m = set_flag main true (record m { in_block_on = true })

  pub loop_broke :
      (fuel main : ℕ) (m m' : Machine U) (v : V)
      → turn poll_main poll_task main m ≡ some (broke v m')
      → loop poll_main poll_task (suc fuel) main m ≡ returned v (record m' { in_block_on = false })
  unfolding loop
  loop_broke fuel main m m' v e = rw (e, loop)

  pub loop_again :
      (fuel main : ℕ) (m m' : Machine U)
      → turn poll_main poll_task main m ≡ some (again m')
      → loop poll_main poll_task (suc fuel) main m ≡ loop poll_main poll_task fuel main m'
  unfolding loop
  loop_again fuel main m m' e = rw (e, loop)

  pub turn_again :
      (main : ℕ) (m k m' : Machine U)
      → flag m main ≡ true
      → poll_main main (set_flag main false m) ≡ some (none, k)
      → pass poll_main poll_task (length k.tasks) 0 true k ≡ some (true, m')
      → turn poll_main poll_task main m ≡ some (again m')
  unfolding after_main advance_tasks
  turn_again main m k m' on polled passed =
      turn_on poll_main poll_task main m on ∙ rw polled (rw (passed, advance_tasks))

  pub broken :
      (v : V) (k : Machine U) → after_main poll_main poll_task (some v, k) ≡ some (broke v k)
  unfolding after_main
  broken v k = refl

  pub loop-returned :
      (fuel main : ℕ) (m m' : Machine U) (v : V)
      → loop poll_main poll_task fuel main m ≡ returned v m'
      → m'.in_block_on ≡ false
  unfolding loop
  loop-returned zero main m m' v e = cc
  loop-returned (suc fuel) main m m' v e = elim (Option-cases (turn poll_main poll_task main m)) [
    | inl c ↦ ground arith
    | inr (broke u k, c) ↦ ground arith
    | inr (again k, c) ↦ loop-returned fuel main k m' v (ground arith)
    | inr (waited wfi k, c) ↦ loop-returned fuel main k m' v (ground arith)
  ]

  -- If `block_on` returns, the machine was not in it before (a nested call aborts), and it is out
  -- of it again, so that a later `block_on` is not taken for a nested one.
  block_on_guard :
      (fuel main : ℕ) (m m' : Machine U) (v : V)
      → block_on poll_main poll_task fuel main m ≡ returned v m'
      → (m.in_block_on ≡ false) × (m'.in_block_on ≡ false)
  unfolding block_on
  block_on_guard fuel main m m' v e = elim (Bool-cases m.in_block_on) [
    | inl c ↦ ground arith
    | inr c ↦ (c, loop-returned fuel main (entered main m) m' v (ground arith))
  ]
