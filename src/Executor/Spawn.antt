-- ===== src/Executor/Spawn.antt =====
-- async-embedded/src/executor.rs: `current` and `spawn`; async-embedded/src/task.rs: `Yield`.
use async_on_embedded.Prelude.{
  length-append, ℕ, zero, suc, ◌+◌, ◌≤◌, ◌<◌, ◌≡◌, refl, ◌≢◌, ◌↔◌, ◌⊎◌, inl, inr, true, false, none,
  some, List, [], ◌∷◌, ◌++◌, arith, Option-cases, length, get_elem?,
}
use async_on_embedded.Executor.{Machine, flag, in_thread_mode, current, spawn, poll_yield}
use async_on_embedded.Runtime.{World, ready, pending, ntasks, wake_by_ref, signal_event_ready}
use async_on_embedded.Alloc
use async_on_embedded.Alloc.{alloc}
use async_on_embedded.Alloc.Bump.{IsValid, alloc-Placed}

-- The first poll of `Yield` is pending, with the flag of its task raised and the event flag set,
-- so that the executor polls it again without sleeping; the second is ready and changes nothing.
yield_twice :
    (waker : ℕ) (w : World)
    → let (p, yielded, w') = poll_yield waker false w in
      (p ≡ pending)
      × (w'.ready waker ≡ true)
      × (w'.task_ready ≡ true)
      × (poll_yield waker yielded w' ≡ (ready, yielded, w'))
unfolding poll_yield wake_by_ref signal_event_ready
yield_twice waker w = (refl, ground arith, refl, refl)

module _ {U : Type 0} where
  -- If `current` does not abort, the processor was in thread mode, and every later call in thread
  -- mode gives the same executor. A first call sets up an executor without tasks and an allocator
  -- of 1024 bytes; a later one changes nothing.
  current_once :
      (memory icsr icsr' : ℕ) (m m' : Machine U)
      → in_thread_mode icsr' ≡ true
      → current memory icsr m ≡ some m'
      → (in_thread_mode icsr ≡ true)
        × (m'.user ≡ m.user)
        × (current memory icsr' m' ≡ some m')
        × ((m.init ≡ true) × (m' ≡ m)
            ⊎ (m.init ≡ false)
              × (m'.tasks ≡ [])
              × (m'.in_block_on ≡ false)
              × (m'.alloc ≡ Alloc.new memory 1024))
  unfolding current
  current_once memory icsr icsr' m m' later e = ground arith

  -- the first address that the allocator has not given out
  abbrev pub cursor : Machine U → ℕ
  cursor m = m.alloc.start + m.alloc.pos

abbrev pub AllBelow : ℕ → List ℕ → Type 0
AllBelow hi [] = Unit
AllBelow hi (t ∷ ts) = (t < hi) × AllBelow hi ts

AllBelow-raise : (lo hi : ℕ) (ts : List ℕ) → lo ≤ hi → AllBelow lo ts → AllBelow hi ts
AllBelow-raise lo hi [] l h = tt
AllBelow-raise lo hi (t ∷ ts) l h = (omega arith, AllBelow-raise lo hi ts l h.1)

AllBelow-append :
    (hi : ℕ) (ts : List ℕ) (p : ℕ) → p < hi → AllBelow hi ts → AllBelow hi (ts ++ (p ∷ []))
AllBelow-append hi [] p l h = (l, tt)
AllBelow-append hi (t ∷ ts) p l h = (h.0, AllBelow-append hi ts p l h.1)

AllBelow-not_at :
    (hi : ℕ) (ts : List ℕ) (p j : ℕ) → hi ≤ p → AllBelow hi ts → get_elem? ts j ≢ some p
AllBelow-not_at hi [] p j l h e = cc
AllBelow-not_at hi (t ∷ ts) p zero l h e = absurd (ground arith)
AllBelow-not_at hi (t ∷ ts) p (suc j) l h e = AllBelow-not_at hi ts p j l h.1 e

module _ {U : Type 0} where
  -- On a valid allocator whose cursor lies above every task, for a node that is not empty and,
  -- like its alignment, no larger than the memory: a spawn that succeeds appends one task; its
  -- node lies behind everything that the allocator had given out, so its flag is shared with no
  -- earlier task; its flag is up, every other flag is as it was; there are at most eight tasks,
  -- all below the cursor again, and the allocator stays valid.
  pub spawn_lem :
      (size align : ℕ) (m m' : Machine U)
      → IsValid m.alloc
      → AllBelow (cursor m) m.tasks
      → 0 < size
      → size ≤ m.alloc.len
      → 0 < align
      → align ≤ m.alloc.len
      → spawn size align m ≡ some m'
      → (p : ℕ) × (m'.tasks ≡ m.tasks ++ (p ∷ []))
        × ((j : ℕ) → get_elem? m.tasks j ≢ some p)
        × (flag m' p ≡ true)
        × ((q : ℕ) → q ≢ p → flag m' q ≡ flag m q)
        × (length m'.tasks ≤ ntasks)
        × AllBelow (cursor m') m'.tasks
        × IsValid m'.alloc
  unfolding spawn
  spawn_lem size align m m' v below ps ls pa la e = elim (Option-cases (alloc size align m.alloc)) [
    | inl c ↦ ground arith
    | inr ((p, a), c) ↦
        let at = alloc-Placed size align p v pa la ls c in
        let up = AllBelow-raise (cursor m) (a.start + a.pos) m.tasks (omega (arith, at)) below in
        let all = AllBelow-append (a.start + a.pos) m.tasks p (omega (arith, at)) up in
        (
          p,
          ground arith,
          λ j. AllBelow-not_at (cursor m) m.tasks p j (omega (arith, at)) below,
          ground arith,
          λ q ne. ground arith,
          ground (arith, length-append m.tasks (p ∷ [])),
          ground (arith, all),
          ground (arith, at),
        )
  ]

  -- A spawn aborts exactly when the memory or the list of eight tasks is exhausted.
  spawn-none_iff :
      (size align : ℕ) (m : Machine U)
      → (spawn size align m ≡ none)
        ↔ ((alloc size align m.alloc ≡ none) ⊎ (ntasks ≤ length m.tasks))
  unfolding spawn
  spawn-none_iff size align m = (λ e. ground arith, λ h. ground arith)
