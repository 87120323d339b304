-- ===== src/Mutex/Locking.antt =====
-- async-embedded/src/unsync/mutex.rs: one call of `poll`, of a guard's `drop` and of a lock
-- future's `drop`.
use async_on_embedded.WakerSet.Walks.{notify_any_lem}
use async_on_embedded.Prelude.{
  ◌∷◌, [], ap, ℕ, ◌≤◌, ◌<◌, ◌≡◌, refl, sym, ◌∙◌, ◌≢◌, ◌⊎◌, inl, inr, true, false, Option, none,
  some, List, arith, Bool-cases, Option-cases, length,
}
use async_on_embedded.Mutex.{
  drop_guard, Mutex, poll, try_lock, unregister, register, lock_or_register,
}
use async_on_embedded.Slab.{Entry, Slab, lookup}
use async_on_embedded.Runtime.{wake_by_ref, World, signal_event_ready, Poll, ready, pending, ntasks}
use async_on_embedded.WakerSet
use async_on_embedded.WakerSet.{WakerSet}
use async_on_embedded.WakerSet.View.{
  head_waker, wake_opt, take_head, counts-erase, counts-length, view, blocked, notified, IsValid,
}
use async_on_embedded.WakerSet.Keys.{remove-Taken, Added, insert-Added, insert-none_iff}

module _ (S : Slab) (T : Type 0) where
  abbrev pub waiting : Mutex S T → List Entry
  waiting m = view S m.wakers

  -- What a future may rely on at a poll: its key, if it has one, is that of an entry, and if it has
  -- none then the set has room for one.
  abbrev pub CanPoll : Option ℕ → Mutex S T → Type 0
  CanPoll none m = length (waiting m) < ntasks
  CanPoll (some k) m = lookup k (waiting m) ≢ none

  -- What taking a future's own entry out leaves.
  pub record Left (m m' : Mutex S T) : Type 0 where
    pub same_lock : m'.locked ≡ m.locked
    pub same_value : m'.value ≡ m.value
    pub fewer : notified (waiting m') ≤ notified (waiting m)
    pub fewer_blocked : blocked (waiting m') ≤ blocked (waiting m)
    pub valid : IsValid S m'.wakers
    pub room : length (waiting m') < ntasks

  unregister-Left :
      (o : Option ℕ) (m : Mutex S T)
      → IsValid S m.wakers
      → CanPoll o m
      → (m' : Mutex S T) × (unregister S T o m ≡ some m') × Left m m'
  unfolding unregister
  unregister-Left none m v r = (m, refl, ground arith)
  unregister-Left (some k) m v r = elim (Option-cases (lookup k (waiting m))) [
    | inl e ↦ absurd (r e)
    | inr (o, e) ↦
        let (s, removed, taken) = remove-Taken S k o m.wakers v e in
        (
          record m { wakers = s },
          rw removed,
          ground (
            arith,
            taken,
            counts-length (waiting m),
            counts-length (view S s),
            counts-erase k o (waiting m) e,
            S.length-entries m.wakers.entries,
          ),
        )
  ]

  register_lem :
      (waker : ℕ) (m : Mutex S T)
      → IsValid S m.wakers
      → length (waiting m) < ntasks
      → (k : ℕ) × (s : WakerSet S) × (register S T waker m
          ≡ some (pending, some k, record m { wakers = s }))
        × Added S waker k m.wakers s
  unfolding register
  register_lem waker m v room = elim (Option-cases (WakerSet.insert S waker m.wakers)) [
    | inl e ↦ absurd (omega (arith, (insert-none_iff S waker m.wakers).0 e))
    | inr ((k, s), e) ↦ (k, s, rw e, insert-Added S waker k m.wakers s v e)
  ]

  -- A poll by a future whose key, if it has one, is that of an entry, and which otherwise finds
  -- room for one: on a valid, free mutex it takes the lock, forgets the key and is ready; on a
  -- valid, locked one it stays pending, and the waker of the polling task is stored, still unused,
  -- under the future's new key. Either way the value stays, the lock is held afterwards, and the
  -- set stays valid.
  pub poll_lem :
      (waker : ℕ) (o : Option ℕ) (m : Mutex S T)
      → IsValid S m.wakers
      → CanPoll o m
      → (p : Poll) × (o' : Option ℕ) × (m' : Mutex S T) × (poll S T waker o m ≡ some (p, o', m'))
        × (m'.locked ≡ true)
        × (m'.value ≡ m.value)
        × IsValid S m'.wakers
        × ((m.locked ≡ false) × (p ≡ ready) × (o' ≡ none)
            ⊎ (m.locked ≡ true)
              × (p ≡ pending)
              × ((k : ℕ) × (o' ≡ some k) × (lookup k (waiting m') ≡ some (some waker))))
  unfolding poll try_lock lock_or_register
  poll_lem waker o m v r =
      let (m', left, l) = unregister-Left o m v r in
      elim (Bool-cases m'.locked) [
        | inl held ↦
            let (k, s, stored, a) = register_lem waker m' l.valid l.room in
            (
              pending,
              some k,
              record m' { wakers = s },
              rw left (ground (arith, stored, held)),
              held,
              l.same_value,
              a.valid,
              inr (sym l.same_lock ∙ held, refl, (k, refl, a.stored)),
            )
        | inr free ↦ (
          ready,
          none,
          record m' { locked = true },
          rw left (ground (arith, free)),
          refl,
          l.same_value,
          l.valid,
          inl (sym l.same_lock ∙ free, refl, refl),
        )
      ]

  -- Dropping the guard of a valid mutex unlocks it and raises the event flag. It wakes the first
  -- waiter if that still holds its waker. If anyone waits, somebody is notified afterwards.
  pub drop_guard_lem :
      (m : Mutex S T) (w : World)
      → IsValid S m.wakers
      → let (m', w') = drop_guard S T m w in
        (m'.locked ≡ false)
        × (m'.value ≡ m.value)
        × (waiting m' ≡ take_head (waiting m))
        × (w' ≡ signal_event_ready (wake_opt (head_waker (waiting m)) w))
        × (waiting m ≢ [] → 0 < notified (waiting m'))
        × IsValid S m'.wakers
  unfolding drop_guard
  drop_guard_lem m w v =
      let (entries, world, reported, told, valid) = notify_any_lem S m.wakers w v in
      (refl, refl, entries, ap signal_event_ready world, told, valid)

  raised : (w w' : World) (p : ℕ) → w' ≡ signal_event_ready (wake_by_ref p w) → w'.ready p ≡ true
  unfolding wake_by_ref signal_event_ready
  raised w w' p e = ground arith

  signalled :
      (w w' : World) (p : ℕ) → w' ≡ signal_event_ready (wake_by_ref p w) → w'.task_ready ≡ true
  unfolding signal_event_ready
  signalled w w' p e = ground arith

  -- When the guard of a valid mutex is dropped while the first waiter, with key `k`, still holds
  -- the waker `p`, then the flag `p` and the event flag are raised, and the next poll of that
  -- waiter, if nobody has taken the lock before, takes it.
  pub handover :
      (m : Mutex S T) (w : World) (k p waker : ℕ) (es : List Entry)
      → IsValid S m.wakers
      → waiting m ≡ (k, some p) ∷ es
      → let (m', w') = drop_guard S T m w in
        (w'.ready p ≡ true)
        × (w'.task_ready ≡ true)
        × ((m'' : Mutex S T) × (poll S T waker (some k) m' ≡ some (ready, none, m''))
            × (m''.locked ≡ true)
            × (m''.value ≡ m.value))
  handover m w k p waker es v first =
      let (free, value, entries, world, told, valid) = drop_guard_lem m w v in
      let m' = (drop_guard S T m w).0 in
      let here : lookup k (waiting m') ≢ none = rw (entries, first) (ground arith) in
      let (r, o', m'', polled, held, value', valid', which) =
        poll_lem waker (some k) m' valid here in
      (
        raised w (drop_guard S T m w).1 p (ground (arith, world, first)),
        signalled w (drop_guard S T m w).1 p (ground (arith, world, first)),
        (m'', ground (arith, free, which, polled), held, value' ∙ value),
      )
