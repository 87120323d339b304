-- ===== src/Executor/Progress.antt =====
-- async-embedded/src/executor.rs: `block_on` returns.
use async_on_embedded.Prelude.{
  get_elem?_in, ℕ, zero, suc, ◌+◌, ◌-◌, ◌≤◌, ◌<◌, ◌≡◌, refl, ap, ◌∙◌, ◌≢◌, ◌⊎◌, inl, inr, Bool,
  true, false, ◌||◌, Option, none, some, arith, Bool-cases, Option-cases, length, get_elem?,
}
use async_on_embedded.Executor.{
  Machine, broke, again, returned, flag, set_flag, service, pass, turn, loop, block_on,
}
use async_on_embedded.Executor.Loop.{
  service_polled, pass_step, loop_broke, loop_again, turn_again, broken, loop-returned, entered,
}
use async_on_embedded.Executor.Pass.{pass_woken, service_off}
use async_on_embedded.Executor.Turns.{turn_on}
use async_on_embedded.Runtime.{Poll, pending}

module _ {U V : Type 0} (poll_main : ℕ → Machine U → Option (Option V × Machine U))
    (poll_task : ℕ → Machine U → Option (Poll × Machine U)) where
  -- What is asked of the futures for `block_on` to end: a poll of the main future that stays
  -- pending lowers `rank` and wakes the main task; a poll of a task stays pending, raises no rank
  -- and leaves the main flag up; no poll aborts, drops a task or makes the main flag a task's.
  module _ (rank : U → ℕ) (main : ℕ) where
    abbrev pub Apart : Machine U → Type 0
    Apart m = (j : ℕ) → get_elem? m.tasks j ≢ some main

    pub record Finite : Type 0 where
      pub main_polls : (m : Machine U) → poll_main main m ≢ none
      pub main_works :
          (m m' : Machine U)
          → poll_main main m ≡ some (none, m')
          → (rank m'.user < rank m.user) × (flag m' main ≡ true) × (Apart m → Apart m')
      pub task_polls :
          (t : ℕ) (m : Machine U) → (m' : Machine U) × (poll_task t m ≡ some (pending, m'))
      pub task_works :
          (t : ℕ) (m m' : Machine U)
          → poll_task t m ≡ some (pending, m')
          → (rank m'.user ≤ rank m.user)
            × (flag m main ≡ true → flag m' main ≡ true)
            × (length m.tasks ≤ length m'.tasks)
            × (Apart m → Apart m')

    -- What holds between the polls of a turn, with `r` for the rank at most.
    record Going (r : ℕ) (m : Machine U) : Type 0 where
      low : rank m.user ≤ r
      awake : flag m main ≡ true
      apart : Apart m

    module _ (h : Finite) where
      service-Going :
          (r t : ℕ) (m : Machine U)
          → Going r m
          → t ≢ main
          → (b : Bool) × (m' : Machine U) × (service poll_main poll_task t m ≡ some (b, m'))
            × Going r m'
            × (length m.tasks ≤ length m'.tasks)
      service-Going r t m g ne = elim (Bool-cases (flag m t)) [
        | inl on ↦
            let m₀ = set_flag t false m in
            let (m', polled) = h.task_polls t m₀ in
            let w = h.task_works t m₀ m' polled in
            (
              true,
              m',
              service_polled poll_main poll_task t m m' on polled,
              record {
                low = omega (arith, w.0, g.low);
                awake = w.1 (ground (arith, g.awake));
                apart = w.3 g.apart;
              },
              w.2,
            )
        | inr off ↦ (false, m, service_off poll_main poll_task t m off, g, omega arith)
      ]

      pass-Going :
          (n i r : ℕ) (woken : Bool) (m : Machine U)
          → Going r m
          → i + n ≤ length m.tasks
          → (b : Bool) × (m' : Machine U) × (pass poll_main poll_task n i woken m ≡ some (b, m'))
            × Going r m'
      unfolding pass
      pass-Going zero i r woken m g l = (woken, m, refl, g)
      pass-Going (suc n) i r woken m g l = elim (Option-cases (get_elem? m.tasks i)) [
        | inl c ↦ absurd (get_elem?_in m.tasks i (omega arith) c)
        | inr (t, c) ↦
            let (b, m₁, serviced, g₁, more) =
              service-Going r t m g (λ e. g.apart i (c ∙ ap some e)) in
            let (b', m', others, g') =
              pass-Going n (i + 1) r (woken || b) m₁ g₁ (omega (arith, more)) in
            (b', m', pass_step poll_main poll_task n i woken m t b m₁ c serviced ∙ others, g')
      ]

      -- A turn returns, or goes on with a lower rank.
      turn-Going :
          (r : ℕ) (m : Machine U)
          → Going r m
          → ((v : V) × (m' : Machine U) × (turn poll_main poll_task main m ≡ some (broke v m')))
            ⊎ ((m' : Machine U) × (turn poll_main poll_task main m ≡ some (again m'))
                × Going (r - 1) m'
                × (0 < r))
      turn-Going r m g = elim (Option-cases (poll_main main (set_flag main false m))) [
        | inl c ↦ absurd (h.main_polls (set_flag main false m) c)
        | inr ((some v, k), c) ↦ inl (
          v,
          k,
          turn_on poll_main poll_task main m g.awake ∙ rw c (broken poll_main poll_task v k),
        )
        | inr ((none, k), c) ↦
            let w = h.main_works (set_flag main false m) k c in
            let g₁ : Going (r - 1) k = record {
              low = omega (arith, w.0, g.low);
              awake = w.1;
              apart = w.2 g.apart;
            } in
            let (b, m', passed, g') =
              pass-Going (length k.tasks) 0 (r - 1) true k g₁ (omega arith) in
            let told = pass_woken poll_main poll_task (length k.tasks) 0 k m' b passed in
            inr (
              m',
              turn_again poll_main poll_task main m k m' g.awake c
                  (passed ∙ ap (λ t. some (t, m')) told),
              g',
              omega (arith, w.0, g.low),
            )
      ]

      loop-returns :
          (fuel r : ℕ) (m : Machine U)
          → Going r m
          → r < fuel
          → (v : V) × (m' : Machine U) × (loop poll_main poll_task fuel main m ≡ returned v m')
      unfolding loop
      loop-returns zero r m g l = absurd (omega arith)
      loop-returns (suc fuel) r m g l = elim (turn-Going r m g) [
        | inl (v, m', e) ↦ (
          v,
          record m' { in_block_on = false },
          loop_broke poll_main poll_task fuel main m m' v e,
        )
        | inr (m', e, g', p) ↦
            let (v, k, done) = loop-returns fuel (r - 1) m' g' (omega arith) in
            (v, k, loop_again poll_main poll_task fuel main m m' e ∙ done)
      ]

      -- Suppose that a poll of the main future that stays pending lowers `rank` and wakes the main
      -- task; that a poll of a task stays pending, raises no rank, drops no task and leaves the
      -- main flag up if it is; and that no poll of the main future aborts and none makes the main
      -- flag a task's. Then `block_on` returns a value, from any machine that is not already in it
      -- and whose main flag is no task's, as soon as the fuel exceeds the rank; and it is out of
      -- `block_on` again.
      pub block_on_returns :
          (fuel : ℕ) (m : Machine U)
          → m.in_block_on ≡ false
          → Apart m
          → rank m.user < fuel
          → (v : V) × (m' : Machine U) × (block_on poll_main poll_task fuel main m ≡ returned v m')
            × (m'.in_block_on ≡ false)
      unfolding block_on
      block_on_returns fuel m out apart l =
          let g : Going (rank m.user) (entered poll_main poll_task main m) = record {
            low = omega arith;
            awake = ground arith;
            apart = apart;
          } in
          let (v, m', done) =
            loop-returns fuel (rank m.user) (entered poll_main poll_task main m) g l in
          (
            v,
            m',
            rw out done,
            loop-returned poll_main poll_task fuel main (entered poll_main poll_task main m) m' v
                done,
          )
