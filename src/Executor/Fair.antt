-- ===== src/Executor/Fair.antt =====
-- async-embedded/src/executor.rs: no ready task is passed over.
use async_on_embedded.Prelude.{
  ℕ, zero, suc, ◌+◌, ◌≤◌, ◌<◌, ◌≡◌, subst, ◌≢◌, inl, inr, Bool, true, false, ◌||◌, Option, some,
  arith, Bool-cases, get_elem?,
}
use native.Mathlib.Decide.{ℕ_discrete}
use async_on_embedded.Executor.{Machine, flag, set_flag, service, pass}
use async_on_embedded.Executor.Pass.{pass-suc, service_on, service_off}
use async_on_embedded.Runtime.{Poll, pending}

module _ {U V : Type 0} (poll_main : ℕ → Machine U → Option (Option V × Machine U))
    (poll_task : ℕ → Machine U → Option (Poll × Machine U)) (polls : ℕ → U → ℕ) where
  -- What is asked of the tasks' futures: each counts its own polls, and no poll lowers a count,
  -- lowers a flag, or moves a task.
  pub record Honest : Type 0 where
    pub counts :
        (t : ℕ) (m m' : Machine U) (p : Poll)
        → poll_task t m ≡ some (p, m')
        → polls t m.user < polls t m'.user
    pub grows :
        (t a : ℕ) (m m' : Machine U) (p : Poll)
        → poll_task t m ≡ some (p, m')
        → polls a m.user ≤ polls a m'.user
    pub only_wakes :
        (t a : ℕ) (m m' : Machine U) (p : Poll)
        → poll_task t m ≡ some (p, m')
        → flag m a ≡ true
        → flag m' a ≡ true
    pub keeps_tasks :
        (t j a : ℕ) (m m' : Machine U) (p : Poll)
        → poll_task t m ≡ some (p, m')
        → get_elem? m.tasks j ≡ some a
        → get_elem? m'.tasks j ≡ some a

  module _ (h : Honest) where
    service_grows :
        (t a : ℕ) (b : Bool) (m m' : Machine U)
        → service poll_main poll_task t m ≡ some (b, m')
        → polls a m.user ≤ polls a m'.user
    service_grows t a b m m' e = elim (Bool-cases (flag m t)) [
      | inl on ↦
          h.grows t a (set_flag t false m) m' pending
            (service_on poll_main poll_task t m m' b on e).1
      | inr off ↦ ground (arith, service_off poll_main poll_task t m off)
    ]

    pass_grows :
        (n i a : ℕ) (woken b : Bool) (m m' : Machine U)
        → pass poll_main poll_task n i woken m ≡ some (b, m')
        → polls a m.user ≤ polls a m'.user
    unfolding pass
    pass_grows zero i a woken b m m' e = ground arith
    pass_grows (suc n) i a woken b m m' e =
        let r = pass-suc poll_main poll_task n i woken b m m' e in
        omega (
          arith,
          service_grows r.task a r.this m r.between r.serviced,
          pass_grows n (i + 1) a (woken || r.this) b r.between m' r.others,
        )

    store_ne :
        (t a : ℕ) (m : Machine U) → t ≢ a → flag m a ≡ true → flag (set_flag t false m) a ≡ true
    store_ne t a m ne on = ground arith

    service_keeps :
        (t a j : ℕ) (b : Bool) (m m' : Machine U)
        → service poll_main poll_task t m ≡ some (b, m')
        → t ≢ a
        → flag m a ≡ true
        → get_elem? m.tasks j ≡ some a
        → (flag m' a ≡ true) × (get_elem? m'.tasks j ≡ some a)
    service_keeps t a j b m m' e ne up at = elim (Bool-cases (flag m t)) [
      | inl on ↦
          let polled = (service_on poll_main poll_task t m m' b on e).1 in
          (
            h.only_wakes t a (set_flag t false m) m' pending polled (store_ne t a m ne up),
            h.keeps_tasks t j a (set_flag t false m) m' pending polled at,
          )
      | inr off ↦ ground (arith, service_off poll_main poll_task t m off)
    ]

    service_counts :
        (t : ℕ) (b : Bool) (m m' : Machine U)
        → service poll_main poll_task t m ≡ some (b, m')
        → flag m t ≡ true
        → polls t m.user < polls t m'.user
    service_counts t b m m' e on =
        h.counts t (set_flag t false m) m' pending (service_on poll_main poll_task t m m' b on e).1

    -- For futures that count their own polls and only ever raise flags and append tasks: a pass over
    -- `n` tasks from index `i` that completes has polled every one of them whose flag was up when
    -- the pass began.
    pub pass-polls :
        (n i : ℕ) (woken b : Bool) (m m' : Machine U) (j t : ℕ)
        → pass poll_main poll_task n i woken m ≡ some (b, m')
        → i ≤ j
        → j < i + n
        → get_elem? m.tasks j ≡ some t
        → flag m t ≡ true
        → polls t m.user < polls t m'.user
    pass-polls zero i woken b m m' j t e p q at on = absurd (omega arith)
    pass-polls (suc n) i woken b m m' j t e p q at on =
        let r = pass-suc poll_main poll_task n i woken b m m' e in
        let later = λ (a : ℕ). pass_grows n (i + 1) a (woken || r.this) b r.between m' r.others in
        elim (ℕ_discrete r.task t) [
          | yes same ↦
              let up : flag m r.task ≡ true = rw same on in
              subst (λ a. polls a m.user < polls a m'.user) same
                (omega
                  (arith, service_counts r.task r.this m r.between r.serviced up, later r.task))
          | no other ↦
              let kept = service_keeps r.task t j r.this m r.between r.serviced other on at in
              let further : j ≢ i = λ e'. other (ground (arith, r.at)) in
              let ih =
                pass-polls n (i + 1) (woken || r.this) b r.between m' j t r.others (omega arith)
                  (omega arith) kept.1 kept.0 in
              omega (arith, service_grows r.task t r.this m r.between r.serviced, ih)
        ]
