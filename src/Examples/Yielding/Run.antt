-- ===== src/Examples/Yielding/Run.antt =====
-- nrf52/examples/1-yield.rs: what the program prints.
use async_on_embedded.Prelude.{
  ℕ, suc, ◌≡◌, ◌≢◌, refl, ap, ◌∙◌, sym, true, false, none, some, [], ◌∷◌, arith,
}
use async_on_embedded.Examples.Yielding.{
  b_yield, a_yield, done, start, first, second, starting, yielding, Shared, Program, initial,
  in_first, in_second, resume, poll_b, round, advance, poll_a, run,
}
use async_on_embedded.Executor.{returned, flag, set_flag, poll_yield}
use async_on_embedded.Executor.Loop.{entered, loop_again, loop_broke}
use async_on_embedded.Executor.Rendezvous.{turn_waiting, turn_done, block_on-loop}
use async_on_embedded.Runtime.{pending, wake_by_ref, signal_event_ready}

-- Both tasks are about to run for the first time: A, the only spawned one, with its flag up.
pub record Prepared (t : ℕ) (m : Program) : Type 0 where
  pub outside : m.in_block_on ≡ false
  pub spawned : m.tasks ≡ t ∷ []
  pub up : flag m t ≡ true
  pub made : m.user ≡ initial

-- What the tasks share after each of their polls.
abbrev after_b : Shared
after_b = record { lines = b_yield ∷ []; main = first true; task = starting }

abbrev after_a : Shared
after_a = record { lines = b_yield ∷ a_yield ∷ []; main = first true; task = yielding true }

abbrev after_b_again : Shared
after_b_again = record {
  lines = b_yield ∷ a_yield ∷ b_yield ∷ [];
  main = second true;
  task = yielding true;
}

abbrev after_a_again : Shared
after_a_again = record {
  lines = b_yield ∷ a_yield ∷ b_yield ∷ a_yield ∷ [];
  main = second true;
  task = yielding true;
}

-- A poll of a task that ends in a new `yield`.
record Yielded (waker : ℕ) (u : Shared) (m m' : Program) : Type 0 where
  user : m'.user ≡ u
  tasks : m'.tasks ≡ m.tasks
  world : m'.world ≡ signal_event_ready (wake_by_ref waker m.world)

b_first :
    (main : ℕ) (m : Program)
    → m.user ≡ initial
    → (m' : Program) × (poll_b main m ≡ some (none, m')) × Yielded main after_b m m'
unfolding poll_b resume in_first in_second initial poll_yield
b_first main m e =
    let (p, m') = resume main start (record m { user = initial }) in
    (
      m',
      ap (λ u. some (resume main u.main (record m { user = u }))) e,
      record { user = refl; tasks = refl; world = refl },
    )

a_first :
    (t : ℕ) (m : Program)
    → m.user ≡ after_b
    → (m' : Program) × (poll_a t m ≡ some (pending, m')) × Yielded t after_a m m'
unfolding poll_a advance round poll_yield
a_first t m e =
    let (p, m') = advance t after_b.task (record m { user = after_b }) in
    (
      m',
      ap (λ u. some (advance t u.task (record m { user = u }))) e,
      record { user = refl; tasks = refl; world = refl },
    )

b_second :
    (main : ℕ) (m : Program)
    → m.user ≡ after_a
    → (m' : Program) × (poll_b main m ≡ some (none, m')) × Yielded main after_b_again m m'
unfolding poll_b resume in_first in_second initial poll_yield
b_second main m e =
    let (p, m') = resume main after_a.main (record m { user = after_a }) in
    (
      m',
      ap (λ u. some (resume main u.main (record m { user = u }))) e,
      record { user = refl; tasks = refl; world = refl },
    )

a_second :
    (t : ℕ) (m : Program)
    → m.user ≡ after_b_again
    → (m' : Program) × (poll_a t m ≡ some (pending, m')) × Yielded t after_a_again m m'
unfolding poll_a advance round poll_yield
a_second t m e =
    let (p, m') = advance t after_b_again.task (record m { user = after_b_again }) in
    (
      m',
      ap (λ u. some (advance t u.task (record m { user = u }))) e,
      record { user = refl; tasks = refl; world = refl },
    )

b_ends :
    (main : ℕ) (m : Program)
    → m.user ≡ after_a_again
    → (m' : Program) × (poll_b main m ≡ some (some tt, m'))
      × (m'.user.lines ≡ b_yield ∷ a_yield ∷ b_yield ∷ a_yield ∷ done ∷ [])
unfolding poll_b resume in_second poll_yield
b_ends main m e =
    let (p, m') = resume main (second true) (record m { user = after_a_again }) in
    (m', ap (λ u. some (resume main u.main (record m { user = u }))) e, refl)

-- The flag of a task that yields is up, and no flag of another goes down.
stays :
    (p q : ℕ) (m m' : Program) (u : Shared) → Yielded p u m m' → flag m q ≡ true → flag m' q ≡ true
unfolding wake_by_ref signal_event_ready
stays p q m m' u y e = ground (arith, ap (λ w. w.ready q) y.world)

raised : (p : ℕ) (m m' : Program) (u : Shared) → Yielded p u m m' → flag m' p ≡ true
unfolding wake_by_ref signal_event_ready
raised p m m' u y = ground (arith, ap (λ w. w.ready p) y.world)

lowered : (p q : ℕ) (m : Program) → p ≢ q → flag m q ≡ true → flag (set_flag p false m) q ≡ true
lowered p q m ne e = ground arith

-- Run with fuel for three turns, task A being the only one that was spawned and its flag not that
-- of the main task, the program prints the lines that its documentation lists: the tasks take
-- turns, B first.
yield_run :
    (fuel main t : ℕ) (m : Program)
    → Prepared t m
    → main ≢ t
    → (m' : Program) × (run (suc (suc (suc fuel))) main m ≡ returned tt m')
      × (m'.user.lines ≡ b_yield ∷ a_yield ∷ b_yield ∷ a_yield ∷ done ∷ [])
unfolding run
yield_run fuel main t m h apart =
    let m₀ = entered poll_b poll_a main m in
    let (m₁, p₁, y₁) = b_first main (set_flag main false m₀) h.made in
    let up₁ = stays main t _ m₁ _ y₁ (lowered main t m₀ apart (ground (arith, h.up))) in
    let (m₂, p₂, y₂) = a_first t (set_flag t false m₁) y₁.user in
    let on₂ =
      stays t main _ m₂ _ y₂ (lowered t main m₁ (λ e. apart (sym e)) (raised main _ m₁ _ y₁)) in
    let (m₃, p₃, y₃) = b_second main (set_flag main false m₂) y₂.user in
    let up₃ = stays main t _ m₃ _ y₃ (lowered main t m₂ apart (raised t _ m₂ _ y₂)) in
    let (m₄, p₄, y₄) = a_second t (set_flag t false m₃) y₃.user in
    let on₄ =
      stays t main _ m₄ _ y₄ (lowered t main m₃ (λ e. apart (sym e)) (raised main _ m₃ _ y₃)) in
    let (m₅, p₅, lines) = b_ends main (set_flag main false m₄) y₄.user in
    let at₁ = y₁.tasks ∙ h.spawned in
    let at₃ = y₃.tasks ∙ y₂.tasks ∙ at₁ in
    (
      record m₅ { in_block_on = false },
      block_on-loop poll_b poll_a (suc (suc (suc fuel))) main m h.outside
          ∙ loop_again poll_b poll_a (suc (suc fuel)) main m₀ m₂
              (turn_waiting poll_b poll_a main t m₀ m₁ m₂ (ground arith) p₁ at₁ up₁ p₂)
          ∙ loop_again poll_b poll_a (suc fuel) main m₂ m₄
              (turn_waiting poll_b poll_a main t m₂ m₃ m₄ on₂ p₃ at₃ up₃ p₄)
          ∙ loop_broke poll_b poll_a fuel main m₄ m₅ tt
              (turn_done poll_b poll_a main m₄ m₅ tt on₄ p₅),
      lines,
    )
