-- ===== src/Examples/Sharing/Run.antt =====
-- nrf52/examples/2-share.rs: what the program prints.
use async_on_embedded.Prelude.{
  ℕ, suc, ◌≡◌, ◌≢◌, refl, ap, ◌∙◌, true, false, none, some, [], ◌∷◌, arith,
}
use async_on_embedded.Examples.Sharing.{
  b_initialize, b_post, b_yield, a_yield, done, a_x, a_received, start, yielding, Program, print,
  initial, b_polls, b_resumes, poll_b, round, take_message, a_resumes, poll_a, run,
}
use async_on_embedded.Executor.{returned, flag, set_flag, poll_yield}
use async_on_embedded.Executor.Loop.{entered}
use async_on_embedded.Executor.Rendezvous.{rendezvous}
use async_on_embedded.Runtime.{pending, wake_by_ref, signal_event_ready}

-- Both tasks are about to run for the first time: A, the only spawned one, with its flag up.
pub record Prepared (t : ℕ) (m : Program) : Type 0 where
  pub outside : m.in_block_on ≡ false
  pub spawned : m.tasks ≡ t ∷ []
  pub up : flag m t ≡ true
  pub made : m.user ≡ initial

b_starts :
    (x msg main : ℕ) (m : Program)
    → m.user ≡ initial
    → (m' : Program) × (poll_b x msg main m ≡ some (none, m'))
      × (m'.user ≡ record {
        x = x;
        y = some msg;
        lines = b_initialize ∷ b_post ∷ b_yield ∷ [];
        main = yielding true;
        task = start;
      })
      × (m'.tasks ≡ m.tasks)
      × (m'.world ≡ signal_event_ready (wake_by_ref main m.world))
unfolding poll_b b_resumes b_polls initial poll_yield
b_starts x msg main m e =
    (_, ap (λ u. some (b_resumes x msg main u.main (record m { user = u }))) e, refl, refl, refl)

a_runs :
    (x msg t : ℕ) (m : Program)
    → m.user ≡ record {
      x = x;
      y = some msg;
      lines = b_initialize ∷ b_post ∷ b_yield ∷ [];
      main = yielding true;
      task = start;
    }
    → (m' : Program) × (poll_a t m ≡ some (pending, m'))
      × (m'.user ≡ record {
        x = x;
        y = none;
        lines = b_initialize ∷ b_post ∷ b_yield ∷ a_x x ∷ a_received msg ∷ a_yield ∷ [];
        main = yielding true;
        task = yielding true;
      })
      × (m'.world ≡ signal_event_ready (wake_by_ref t m.world))
unfolding poll_a a_resumes round take_message poll_yield
a_runs x msg t m e = (_, ap (λ u. some (a_resumes t u.task (record m { user = u }))) e, refl, refl)

b_ends :
    (x msg main : ℕ) (m : Program)
    → m.user.main ≡ yielding true
    → (m' : Program) × (poll_b x msg main m ≡ some (some tt, m')) × (m'.user ≡ print done m.user)
unfolding poll_b b_resumes b_polls poll_yield
b_ends x msg main m e = (_, ap (λ p. some (b_resumes x msg main p m)) e, refl)

-- Run with fuel for two turns, task A being the only one that was spawned and its flag not that of
-- the main task, the program prints the lines that its documentation lists, with the numbers that
-- B stored, and leaves the slot empty.
share_run :
    (x msg fuel main t : ℕ) (m : Program)
    → Prepared t m
    → main ≢ t
    → (m' : Program) × (run x msg (suc (suc fuel)) main m ≡ returned tt m')
      × (m'.user.lines
          ≡ b_initialize ∷ b_post ∷ b_yield ∷ a_x x ∷ a_received msg ∷ a_yield ∷ done ∷ [])
      × (m'.user.x ≡ x)
      × (m'.user.y ≡ none)
unfolding run wake_by_ref signal_event_ready
share_run x msg fuel main t m h apart =
    let m₀ = set_flag main false (entered (poll_b x msg) poll_a main m) in
    let (k, first, user₁, tasks₁, world₁) = b_starts x msg main m₀ h.made in
    let (m₂, second, user₂, world₂) = a_runs x msg t (set_flag t false k) user₁ in
    let woken : flag m₂ main ≡ true =
      ground (arith, ap (λ w. w.ready main) world₂, ap (λ w. w.ready main) world₁) in
    let (m₃, third, user₃) = b_ends x msg main (set_flag main false m₂) (ap (λ u. u.main) user₂) in
    let last = user₃ ∙ ap (print done) user₂ in
    (
      record m₃ { in_block_on = false },
      rendezvous (poll_b x msg) poll_a fuel main t m k m₂ m₃ tt h.outside first (tasks₁ ∙ h.spawned)
          (ground (arith, h.up, ap (λ w. w.ready t) world₁)) second woken third,
      ap (λ u. u.lines) last,
      ap (λ u. u.x) last,
      ap (λ u. u.y) last,
    )
