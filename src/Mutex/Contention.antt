-- ===== src/Mutex/Contention.antt =====
-- async-embedded/src/unsync/mutex.rs: the first operation that waits for a locked mutex.
use async_on_embedded.Prelude.{ℕ, ◌≡◌, true, none, some, [], ◌∷◌}
use async_on_embedded.Mutex.{Mutex, poll, try_lock, unregister, register, lock_or_register}
use async_on_embedded.Mutex.Locking.{waiting}
use async_on_embedded.Slab.{Slab}
use async_on_embedded.Runtime.{pending}
use async_on_embedded.WakerSet.{WakerSet}
use async_on_embedded.WakerSet.View.{IsValid}
use async_on_embedded.WakerSet.Keys.{insert_first}

module _ (S : Slab) (T : Type 0) where
  pub first_wait :
      (waker : ℕ) (m : Mutex S T)
      → IsValid S m.wakers
      → m.locked ≡ true
      → waiting S T m ≡ []
      → (k : ℕ) × (s : WakerSet S) × (poll S T waker none m
          ≡ some (pending, some k, record m { wakers = s }))
        × (waiting S T (record m { wakers = s }) ≡ (k, some waker) ∷ [])
        × IsValid S s
  unfolding poll unregister try_lock lock_or_register register
  first_wait waker m v held nobody =
      let (k, s, inserted, alone, valid) = insert_first S waker m.wakers v nobody in
      (k, s, rw (held, inserted), alone, valid)
