-- ===== src/Mutex/Tests.antt =====
-- async-embedded/src/unsync/mutex.rs: a mutex with three waiters, and a short run of one.
use async_on_embedded.Mutex
use async_on_embedded.Mutex.{Mutex, poll, drop_guard, drop_lock}
use async_on_embedded.Mutex.System.{
  System, Reach, IsSound, start, here, next, polled, written, released, Reach-IsSound,
}
use async_on_embedded.Mutex.Locking.{waiting, poll_lem, handover}
use async_on_embedded.WakerSet
use async_on_embedded.WakerSet.{WakerSet}
use async_on_embedded.WakerSet.Tests.{quiet, three, three-IsValid}
use async_on_embedded.WakerSet.View.{view-new, IsValid}
use async_on_embedded.Slab.{lookup}
use async_on_embedded.Slab.Lists.{list_slab}
use async_on_embedded.Runtime.{Poll, ready, pending}
use async_on_embedded.Prelude.{ℕ, ◌≡◌, refl, ◌⊎◌, true, false, Option, none, some, [], ◌∷◌, arith}

abbrev held : WakerSet list_slab → Mutex list_slab ℕ
held s = record { locked = true; value = 5; wakers = s }

-- One operation waits, with the waker 70.
abbrev single : WakerSet list_slab
single = record { entries = ((2, some 70) ∷ [], omega arith); notifiable = 1 }

single-IsValid : IsValid list_slab single
single-IsValid = record { counted = refl }

abbrev first_locked : Mutex list_slab ℕ
first_locked = record { locked = true; value = 5; wakers = WakerSet.new list_slab }

first_poll : poll list_slab ℕ 33 none (Mutex.new list_slab ℕ 5) ≡ some (ready, none, first_locked)
unfolding poll Mutex.new
first_poll = refl

poll_lem_example :
    (p : Poll) × (o' : Option ℕ) × (m' : Mutex list_slab ℕ) × (poll list_slab ℕ 33
        (some 4)
        (held three)
      ≡ some (p, o', m'))
    × (m'.locked ≡ true)
    × (m'.value ≡ 5)
    × IsValid list_slab m'.wakers
    × ((true ≡ false) × (p ≡ ready) × (o' ≡ none)
        ⊎ (true ≡ true)
          × (p ≡ pending)
          × ((k : ℕ) × (o' ≡ some k) × (lookup k (waiting list_slab ℕ m') ≡ some (some 33))))
poll_lem_example = poll_lem list_slab ℕ 33 (some 4) (held three) three-IsValid (λ e. cc)

handover_example :
    let (m', w') = drop_guard list_slab ℕ (held single) quiet in
    (w'.ready 70 ≡ true)
    × (w'.task_ready ≡ true)
    × ((m'' : Mutex list_slab ℕ) × (poll list_slab ℕ 33 (some 2) m' ≡ some (ready, none, m''))
        × (m''.locked ≡ true)
        × (m''.value ≡ 5))
handover_example = handover list_slab ℕ (held single) quiet 2 70 33 [] single-IsValid refl

-- The mutex is locked, its value is written, and the guard is dropped.
abbrev locked_once : System list_slab ℕ
locked_once = record { mutex = first_locked; world = quiet; guards = 1 }

abbrev written_once : System list_slab ℕ
written_once = record locked_once { mutex = Mutex.deref_mut list_slab ℕ 8 first_locked }

abbrev released_once : System list_slab ℕ
released_once = record {
  mutex = (drop_guard list_slab ℕ written_once.mutex quiet).0;
  world = (drop_guard list_slab ℕ written_once.mutex quiet).1;
  guards = 0;
}

run_once : Reach list_slab ℕ (start list_slab ℕ 5 quiet) released_once
unfolding start Mutex.new
run_once =
    next
      (next
        (next here (
          polled (start list_slab ℕ 5 quiet) 33 none ready none first_locked
            (rw (view-new list_slab) (omega arith)) first_poll))
        (written locked_once 8 (omega arith)))
      (released written_once 0 refl)

Reach-IsSound_example : IsSound list_slab ℕ released_once
Reach-IsSound_example = Reach-IsSound list_slab ℕ 5 quiet {s = released_once} run_once
