-- ===== src/Executor/Tests.antt =====
-- async-embedded/src/executor.rs and async-embedded/src/task.rs: futures that count, and a node
-- that is spawned.
use async_on_embedded.Executor.{
  Machine, returned, flag, set_flag, current, spawn, service, pass, turn, block_on,
}
use async_on_embedded.Executor.Fair.{Honest, pass-polls}
use async_on_embedded.Executor.Progress.{Finite, Apart, block_on_returns}
use async_on_embedded.Executor.Spawn.{AllBelow, cursor, spawn_lem}
use async_on_embedded.Alloc
use async_on_embedded.Executor.{after_main, advance_tasks, loop}
use async_on_embedded.Alloc.{alloc, round_up}
use async_on_embedded.Alloc.Bump.{IsValid}
use async_on_embedded.WakerSet.Tests.{quiet}
use async_on_embedded.Runtime.{store, World, Poll, pending, ntasks}
use async_on_embedded.Prelude.{
  ℕ, zero, suc, ◌+◌, ◌≤◌, ◌<◌, ◌≡◌, refl, ◌≢◌, true, false, Option, none, some, List, [], ◌∷◌, ◌++◌,
  arith, ◌==◌, if◌then◌else◌, length, get_elem?,
}

abbrev memory : ℕ
memory = 0x2000_0000

-- a main future that needs `n` more polls and wakes itself
abbrev count_down : ℕ → ℕ → Machine ℕ → Option (Option ℕ × Machine ℕ)
count_down zero main m = some (some 7, m)
count_down (suc n) main m = some (none, set_flag main true (record m { user = n }))

abbrev poll_main : ℕ → Machine ℕ → Option (Option ℕ × Machine ℕ)
poll_main main m = count_down m.user main m

abbrev poll_task : ℕ → Machine ℕ → Option (Poll × Machine ℕ)
poll_task t m = some (pending, m)

abbrev machine : {U : Type 0} → U → List ℕ → World → Machine U
machine u tasks w = record {
  world = w;
  init = true;
  alloc = record { len = 1024; pos = 5; start = memory };
  in_block_on = false;
  tasks = tasks;
  user = u;
}

count_down-some : (n main : ℕ) (m : Machine ℕ) → count_down n main m ≢ none
count_down-some zero main m e = cc
count_down-some (suc n) main m e = cc

count_down-works :
    (n main : ℕ) (m m' : Machine ℕ)
    → count_down n main m ≡ some (none, m')
    → (m'.user < n)
      × (flag m' main ≡ true)
      × (Apart {U = ℕ} {V = ℕ} poll_main poll_task (λ n. n) main m
          → Apart {U = ℕ} {V = ℕ} poll_main poll_task (λ n. n) main m')
count_down-works zero main m m' e = cc
count_down-works (suc n) main m m' e = (ground arith, ground arith, λ h j at. h j (ground arith))

counting-Finite : Finite {U = ℕ} {V = ℕ} poll_main poll_task (λ n. n) 10
counting-Finite = record {
  main_polls = λ m. count_down-some m.user 10 m;
  main_works = λ m m'. count_down-works m.user 10 m m';
  task_polls = λ t m. (m, refl);
  task_works =
      λ t m m' e. (ground arith, λ h. ground arith, ground arith, λ h j at. h j (ground arith));
}

abbrev idle : Machine ℕ
idle = machine 2 (20 ∷ []) quiet

only_20 : (j : ℕ) → get_elem? {A = ℕ} (20 ∷ []) j ≢ some 10
only_20 zero e = ground arith
only_20 (suc j) e = cc

block_on_returns_example :
    (v : ℕ) × (m' : Machine ℕ) × (block_on poll_main poll_task 3 10 idle ≡ returned v m')
    × (m'.in_block_on ≡ false)
block_on_returns_example =
    block_on_returns poll_main poll_task (λ n. n) 10 counting-Finite 3 idle refl only_20
      (omega arith)

-- the machine when `block_on` has returned
abbrev over : Machine ℕ
over = record idle {
  world = record {
    ready =
        store
          (store (store (store (store (store quiet.ready 10 true) 10 false) 10 true) 10 false) 10
            true)
          10 false;
    task_ready = false;
  };
  user = 0;
}

idle-over : block_on poll_main poll_task 3 10 idle ≡ returned 7 over
unfolding block_on loop turn after_main advance_tasks pass service
idle-over = refl

-- tasks that count their own polls
abbrev counted : ℕ → Machine (ℕ → ℕ) → Machine (ℕ → ℕ)
counted t m = record m { user = λ a. if a == t then m.user a + 1 else m.user a }

abbrev count_poll : ℕ → Machine (ℕ → ℕ) → Option (Poll × Machine (ℕ → ℕ))
count_poll t m = some (pending, counted t m)

abbrev never : ℕ → Machine (ℕ → ℕ) → Option (Option ℕ × Machine (ℕ → ℕ))
never main m = some (none, m)

abbrev polls : ℕ → (ℕ → ℕ) → ℕ
polls a u = u a

count_poll-Honest : Honest {U = ℕ → ℕ} {V = ℕ} never count_poll polls
count_poll-Honest = record {
  counts = λ t m m' p e. ground arith;
  grows = λ t a m m' p e. ground arith;
  only_wakes = λ t a m m' p e on. ground arith;
  keeps_tasks = λ t j a m m' p e at. ground arith;
}

abbrev raised : Machine (ℕ → ℕ)
raised = machine (λ a. 0) (20 ∷ 30 ∷ []) (record { ready = λ p. p == 30; task_ready = false })

abbrev passed : Machine (ℕ → ℕ)
passed = counted 30 (set_flag 30 false raised)

raised-pass : pass {U = ℕ → ℕ} {V = ℕ} never count_poll 2 0 false raised ≡ some (true, passed)
unfolding pass service
raised-pass = refl

pass-polls_example : 0 < passed.user 30
pass-polls_example =
    pass-polls {V = ℕ} never count_poll polls count_poll-Honest 2 0 false true raised passed 1 30
      raised-pass (omega arith) (omega arith) refl refl

-- before the first call of `current`
abbrev raw : Machine ℕ
raw = record idle { init = false }

abbrev set_up : Machine ℕ
set_up = record raw { init = true; tasks = []; alloc = Alloc.new memory 1024 }

raw-set_up : current memory 0 raw ≡ some set_up
unfolding current
raw-set_up = refl

-- a node of 16 bytes, aligned to 4
abbrev spawned : Machine ℕ
spawned = set_flag (memory + 8) true (record idle {
  alloc = record { len = 1024; pos = 24; start = memory };
  tasks = 20 ∷ (memory + 8) ∷ [];
})

idle-spawned : spawn 16 4 idle ≡ some spawned
unfolding spawn alloc round_up
idle-spawned = refl

idle-IsValid : IsValid idle.alloc
idle-IsValid = record { inside = omega arith; small = omega arith }

spawn_lem_example :
    (p : ℕ) × (spawned.tasks ≡ idle.tasks ++ (p ∷ []))
    × ((j : ℕ) → get_elem? idle.tasks j ≢ some p)
    × (flag spawned p ≡ true)
    × ((q : ℕ) → q ≢ p → flag spawned q ≡ flag idle q)
    × (length spawned.tasks ≤ ntasks)
    × AllBelow (cursor spawned) spawned.tasks
    × IsValid spawned.alloc
spawn_lem_example =
    spawn_lem 16 4 idle spawned idle-IsValid (omega arith, tt) (omega arith) (omega arith)
      (omega arith) (omega arith) idle-spawned
