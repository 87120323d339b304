-- ===== src/Executor/Pass.antt =====
-- async-embedded/src/executor.rs: the `for` loop over the tasks.
use async_on_embedded.Prelude.{
  or_true, or_false, get_elem?_in, ℕ, zero, suc, ◌+◌, ◌≤◌, ◌<◌, ◌≡◌, refl, ◌∙◌, subst, inl, inr,
  Bool, true, false, ◌||◌, Option, some, arith, Bool-cases, Option-cases, length, get_elem?,
}
use native.Mathlib.Decide.{ℕ_discrete}
use async_on_embedded.Executor.{Machine, flag, set_flag, service, pass}
use async_on_embedded.Runtime.{Poll, pending}

module _ {U V : Type 0} (poll_main : ℕ → Machine U → Option (Option V × Machine U))
    (poll_task : ℕ → Machine U → Option (Poll × Machine U)) where
  -- No task with an index from `i` on, among the next `n`, has its flag raised.
  abbrev pub Idle : ℕ → ℕ → Machine U → Type 0
  Idle n i m = (j t : ℕ) → i ≤ j → j < i + n → get_elem? m.tasks j ≡ some t → flag m t ≡ false

  pub service_off :
      (t : ℕ) (m : Machine U) → flag m t ≡ false → service poll_main poll_task t m ≡ some (false, m)
  unfolding service
  service_off t m e = rw (e, service)

  pub service_on :
      (t : ℕ) (m m' : Machine U) (b : Bool)
      → flag m t ≡ true
      → service poll_main poll_task t m ≡ some (b, m')
      → (b ≡ true) × (poll_task t (set_flag t false m) ≡ some (pending, m'))
  unfolding service
  service_on t m m' b on e = ground arith

  pub pass-Idle :
      (n i : ℕ) (woken : Bool) (m : Machine U)
      → i + n ≤ length m.tasks
      → Idle n i m
      → pass poll_main poll_task n i woken m ≡ some (woken, m)
  unfolding pass
  pass-Idle zero i woken m l idle = refl
  pass-Idle (suc n) i woken m l idle = elim (Option-cases (get_elem? m.tasks i)) [
    | inl e ↦ absurd (get_elem?_in m.tasks i (omega arith) e)
    | inr (t, e) ↦
        rw (e, service_off t m (idle i t (omega arith) (omega arith) e))
          (rw (or_false woken) (
            pass-Idle n (i + 1) woken m (omega arith)
              (λ j u p q. idle j u (omega arith) (omega arith))))
  ]

  -- Once a task was woken, a pass says so.
  pub pass_woken :
      (n i : ℕ) (m m' : Machine U) (b : Bool)
      → pass poll_main poll_task n i true m ≡ some (b, m')
      → b ≡ true
  unfolding pass
  pass_woken zero i m m' b e = ground arith
  pass_woken (suc n) i m m' b e = elim (Option-cases (get_elem? m.tasks i)) [
    | inl c ↦ ground arith
    | inr (t, c) ↦ elim (Option-cases (service poll_main poll_task t m)) [
      | inl d ↦ ground arith
      | inr ((a, m₁), d) ↦ pass_woken n (i + 1) m₁ m' b (ground (arith, e, c, d))
    ]
  ]

  -- What the first round of a pass did.
  pub record Round (n i : ℕ) (woken b : Bool) (m m' : Machine U) : Type 0 where
    pub task : ℕ
    pub at : get_elem? m.tasks i ≡ some task
    pub this : Bool
    pub between : Machine U
    pub serviced : service poll_main poll_task task m ≡ some (this, between)
    pub others : pass poll_main poll_task n (i + 1) (woken || this) between ≡ some (b, m')

  pub pass-suc :
      (n i : ℕ) (woken b : Bool) (m m' : Machine U)
      → pass poll_main poll_task (suc n) i woken m ≡ some (b, m')
      → Round n i woken b m m'
  unfolding pass
  pass-suc n i woken b m m' e = elim (Option-cases (get_elem? m.tasks i)) [
    | inl c ↦ ground arith
    | inr (t, c) ↦ elim (Option-cases (service poll_main poll_task t m)) [
      | inl d ↦ ground arith
      | inr ((a, m₁), d) ↦ record {
        task = t;
        at = c;
        this = a;
        between = m₁;
        serviced = d;
        others = ground (arith, e, c, d);
      }
    ]
  ]

  Idle-suc :
      (n i t : ℕ) (m : Machine U)
      → get_elem? m.tasks i ≡ some t
      → flag m t ≡ false
      → Idle n (i + 1) m
      → Idle (suc n) i m
  Idle-suc n i t m at off rest j u p q h = elim (ℕ_discrete j i) [
    | yes same ↦ ground arith
    | no other ↦ rest j u (omega arith) (omega arith) h
  ]

  -- A pass that reports no woken task serviced none: it left the machine alone, and every task
  -- that it looked at had its flag down.
  pub pass-false :
      (n i : ℕ) (woken : Bool) (m m' : Machine U)
      → pass poll_main poll_task n i woken m ≡ some (false, m')
      → (woken ≡ false) × (m' ≡ m) × Idle n i m
  unfolding pass
  pass-false zero i woken m m' e = (ground arith, ground arith, λ j t p q h. absurd (omega arith))
  pass-false (suc n) i woken m m' e =
      let r = pass-suc n i woken false m m' e in
      let ih = pass-false n (i + 1) (woken || r.this) r.between m' r.others in
      elim (Bool-cases (flag m r.task)) [
        | inl on ↦
            let up = service_on r.task m r.between r.this on r.serviced in
            ground (arith, or_true woken, ih, up)
        | inr off ↦
            let down = service_off r.task m off in
            let same : r.between ≡ m = ground (arith, down, r.serviced) in
            (
              ground (arith, ih),
              ih.1 ∙ same,
              Idle-suc n i r.task m r.at off (subst (λ k. Idle n (i + 1) k) same ih.2),
            )
      ]
