-- ===== src/Examples/Locking/Run.antt =====
-- nrf52/examples/3-mutex.rs: what the program prints.
use async_on_embedded.Prelude.{
  ℕ, suc, ◌≡◌, ◌≢◌, refl, ap, ◌∙◌, true, false, none, some, [], ◌∷◌, ◌++◌, arith,
}
use async_on_embedded.Examples.Locking.{
  b_before_lock, a_before_write, a_after_release, a_yield, b_value, done, start, locking, holding,
  Shared, Program, initial, lock, locked_or_not, resume, poll_b, round, release, advance, poll_a,
  run,
}
use async_on_embedded.Executor.{returned, flag, set_flag, poll_yield}
use async_on_embedded.Executor.Rendezvous.{rendezvous}
use async_on_embedded.Executor.Loop.{entered}
use async_on_embedded.Mutex
use async_on_embedded.Mutex.{Mutex}
use async_on_embedded.Mutex.Locking.{waiting, handover}
use async_on_embedded.Mutex.Contention.{first_wait}
use async_on_embedded.Runtime.{World, ready, pending, wake_by_ref, signal_event_ready}
use async_on_embedded.Slab.{Slab}
use async_on_embedded.WakerSet.View.{new-IsValid, view-new, IsValid}

module _ (S : Slab) (T : Type 0) where
  -- Both tasks are about to run for the first time: A, the only spawned one, with its flag up.
  pub record Prepared (t : ℕ) (m : Program S T) : Type 0 where
    pub outside : m.in_block_on ≡ false
    pub spawned : m.tasks ≡ t ∷ []
    pub up : flag m t ≡ true
    pub value : T
    pub made : initial S T value ≡ some m.user

  -- What `initial` gives.
  record Fresh (u : Shared S T) : Type 0 where
    held : u.mutex.locked ≡ true
    valid : IsValid S u.mutex.wakers
    nobody : waiting S T u.mutex ≡ []
    nothing : u.lines ≡ []
    main : u.main ≡ start
    task : u.task ≡ holding

  initial-Fresh : (x : T) (u : Shared S T) → initial S T x ≡ some u → Fresh u
  unfolding initial Mutex.try_lock Mutex.new
  initial-Fresh x u e = ground (arith, new-IsValid S, view-new S)

  -- Task B prints its first line and waits for the lock.
  b_waits :
      (main : ℕ) (m : Program S T)
      → Fresh m.user
      → (k : ℕ) × (u : Shared S T) × (poll_b S T main m ≡ some (none, record m { user = u }))
        × (u.lines ≡ b_before_lock ∷ [])
        × (u.main ≡ locking (some k))
        × (u.task ≡ holding)
        × IsValid S u.mutex.wakers
        × (waiting S T u.mutex ≡ (k, some main) ∷ [])
  unfolding poll_b resume lock locked_or_not
  b_waits main m f =
      let (k, s, polled, alone, valid) = first_wait S T main m.user.mutex f.valid f.held f.nobody in
      (
        k,
        record m.user {
          lines = m.user.lines ++ (b_before_lock ∷ []);
          mutex = record m.user.mutex { wakers = s };
          main = locking (some k);
        },
        rw (f.main, polled),
        rw f.nothing,
        refl,
        f.task,
        valid,
        alone,
      )

  -- Task A, when it still holds the guard: its lines, and the mutex that it leaves.
  a_releases :
      (x : T) (t : ℕ) (m : Program S T)
      → m.user.task ≡ holding
      → let (mutex, w) = Mutex.drop_guard S T (Mutex.deref_mut S T x m.user.mutex) m.world in
        (u : Shared S T) × (w' : World) × (poll_a S T x t m
          ≡ some (pending, record m { world = w'; user = u }))
        × (u.mutex ≡ mutex)
        × (u.main ≡ m.user.main)
        × (u.lines
            ≡ ((m.user.lines ++ (a_before_write ∷ [])) ++ (a_after_release ∷ [])) ++ (a_yield ∷ []))
        × (w' ≡ signal_event_ready (wake_by_ref t w))
  unfolding poll_a advance release round poll_yield
  a_releases x t m e =
      let m' = (advance S T x t holding m).1 in
      (m'.user, m'.world, ap (λ s. some (advance S T x t s m)) e, refl, refl, refl, refl)

  -- Task B, when it has waited for the lock with key `k` and gets it.
  b_locks :
      (main k : ℕ) (m : Program S T) (mutex : Mutex S T)
      → m.user.main ≡ locking (some k)
      → Mutex.poll S T main (some k) m.user.mutex ≡ some (ready, none, mutex)
      → (u : Shared S T) × (poll_b S T main m ≡ some (some tt, record m { user = u }))
        × (u.lines ≡ (m.user.lines ++ (b_value mutex.value ∷ [])) ++ (done ∷ []))
        × (u.mutex ≡ mutex)
  unfolding poll_b resume lock locked_or_not Mutex.deref
  b_locks main k m mutex at polled =
      let m' = (locked_or_not S T m (ready, none, mutex)).1 in
      (m'.user, rw (at, polled), refl, refl)

  raised :
      (t main : ℕ) (w : World)
      → w.ready main ≡ true
      → (signal_event_ready (wake_by_ref t w)).ready main ≡ true
  unfolding wake_by_ref signal_event_ready
  raised t main w e = ground arith

  -- Run with fuel for two turns, task A being the only one that was spawned and its flag not that
  -- of the main task, the program prints the lines that its documentation lists, with the value
  -- that A wrote, and leaves that value in the mutex.
  pub lock_run :
      (x : T) (fuel main t : ℕ) (m : Program S T)
      → Prepared t m
      → main ≢ t
      → (m' : Program S T) × (run S T x (suc (suc fuel)) main m ≡ returned tt m')
        × (m'.user.lines
            ≡ b_before_lock ∷ a_before_write ∷ a_after_release ∷ a_yield ∷ b_value x ∷ done ∷ [])
        × (m'.user.mutex.value ≡ x)
  unfolding run Mutex.deref_mut
  lock_run x fuel main t m h apart =
      let f = initial-Fresh h.value m.user h.made in
      let m₀ = set_flag main false (entered (poll_b S T) (poll_a S T x) main m) in
      let (k, u₁, first, lines₁, at₁, task₁, valid, alone) = b_waits main m₀ f in
      let m₁ = set_flag t false (record m₀ { user = u₁ }) in
      let (u₂, w₂, second, mutex₂, main₂, lines₂, world₂) = a_releases x t m₁ task₁ in
      let (up, told, (mutex, polled, held, value)) =
        handover S T (Mutex.deref_mut S T x u₁.mutex) m₁.world k main main []
          (record { counted = valid.counted }) alone in
      let m₂ = record m₁ { world = w₂; user = u₂ } in
      let woken : flag m₂ main ≡ true = ap (λ w. w.ready main) world₂ ∙ raised t main _ up in
      let (u₃, third, lines₃, mutex₃) =
        b_locks main k (set_flag main false m₂) mutex (main₂ ∙ at₁)
          (ap (Mutex.poll S T main (some k)) mutex₂ ∙ polled) in
      (
        record m₂ { world = (set_flag main false m₂).world; user = u₃; in_block_on = false },
        rendezvous (poll_b S T) (poll_a S T x) fuel main t m (record m₀ { user = u₁ }) m₂
            (record (set_flag main false m₂) { user = u₃ }) tt h.outside first h.spawned
            (ground (arith, h.up)) second woken third,
        rw (lines₃, lines₂, lines₁, value),
        ap (λ n. n.value) mutex₃ ∙ value,
      )
