-- ===== src/Mutex.antt =====
-- async-embedded/src/unsync/mutex.rs: the asynchronous mutex. `none` is a panic. A guard is what
-- `try_lock` hands out; its holder reaches the value by `deref` and `deref_mut`.
pub mod Locking
pub mod Contention
pub mod System
mod Tests
use async_on_embedded.Prelude.{
  ℕ, zero, suc, ◌+◌, ◌-◌, ◌*◌, ◌/◌, ◌%◌, ◌^◌, ◌≤◌, ◌<◌, ◌≡◌, refl, sym, ap, ◌∙◌, subst, ◌≢◌, ◌↔◌,
  ◌⊎◌, inl, inr, Bool, true, false, ◌&&◌, ◌||◌, not, Option, none, some, List, [], ◌∷◌, ◌++◌, map,
  arith, ltb, leb, ◌==◌, if◌then◌else◌, Bool-cases, Option-cases, ==_iff, is_some, length,
  get_elem?, ◌>>=◌,
}
use async_on_embedded.Runtime.{World, Poll, ready, pending, signal_event_ready}
use async_on_embedded.Slab.{Slab}
use async_on_embedded.WakerSet
use async_on_embedded.WakerSet.{WakerSet}

module _ (S : Slab) (T : Type 0) where
  pub record Mutex : Type 0 where
    pub locked : Bool
    pub value : T
    pub wakers : WakerSet S

  unfoldable pub new : T → Mutex
  new t = record { locked = false; value = t; wakers = WakerSet.new S }

  -- `some`: the mutex once the guard is out
  unfoldable pub try_lock : Mutex → Option Mutex
  try_lock m = if not m.locked then some (record m { locked = true }) else none

  -- `if let Some(key) = self.opt_key.take() { wakers.remove(key) }`
  unregister : Option ℕ → Mutex → Option Mutex
  unregister none m = some m
  unregister (some key) m = do
    wakers ← WakerSet.remove S key m.wakers
    some (record m { wakers = wakers })

  register : ℕ → Mutex → Option (Poll × Option ℕ × Mutex)
  register waker m = do
    (key, wakers) ← WakerSet.insert S waker m.wakers
    some (pending, some key, record m { wakers = wakers })

  lock_or_register : Option Mutex → ℕ → Mutex → Option (Poll × Option ℕ × Mutex)
  unfolding register
  lock_or_register (some locked) waker m = some (ready, none, locked)
  lock_or_register none waker m = register waker m

  -- `Lock::poll`: the waker of the polling task, and `opt_key` before and after.
  pub poll : ℕ → Option ℕ → Mutex → Option (Poll × Option ℕ × Mutex)
  unfolding unregister lock_or_register try_lock
  poll waker opt_key m = do m' ← unregister opt_key m; lock_or_register (try_lock m') waker m'

  -- `Lock::drop`
  pub drop_lock : Option ℕ → Mutex → World → Option (Mutex × World)
  drop_lock none m w = some (m, w)
  drop_lock (some key) m w = do
    (wakers, w', woken) ← WakerSet.cancel S key m.wakers w
    some (record m { wakers = wakers }, w')

  -- `MutexGuard::drop`
  pub drop_guard : Mutex → World → Mutex × World
  drop_guard m w =
      let (wakers, w', woken) = WakerSet.notify_any S m.wakers w in
      (record m { locked = false; wakers = wakers }, signal_event_ready w')

  unfoldable pub deref : Mutex → T
  deref m = m.value

  unfoldable pub deref_mut : T → Mutex → Mutex
  deref_mut t m = record m { value = t }
