-- ===== src/Mutex/System.antt =====
-- async-embedded/src/unsync/mutex.rs: every interleaving of polls, guards' drops and cancelled
-- lock futures.
use async_on_embedded.Prelude.{
  ℕ, suc, ◌+◌, ◌<◌, ◌≡◌, refl, ◌≢◌, ◌⊎◌, inl, inr, Bool, true, false, Option, none, some, arith,
  Option-cases,
}
use async_on_embedded.WakerSet.Keys.{cancel_lem}
use async_on_embedded.Mutex
use async_on_embedded.Mutex.{Mutex, poll, drop_lock, drop_guard, deref_mut}
use async_on_embedded.Slab.{Slab, lookup}
use async_on_embedded.Runtime.{World, Poll, ready, pending}
use async_on_embedded.WakerSet.View.{
  view-new, new-IsValid, take_head_awake, blocked, notified, IsValid,
}
use async_on_embedded.Mutex.Locking.{CanPoll, waiting, poll_lem, drop_guard_lem}

abbrev pub granted : Poll → ℕ
granted ready = 1
granted pending = 0

abbrev pub as_number : Bool → ℕ
as_number true = 1
as_number false = 0

module _ (S : Slab) (T : Type 0) where
  -- `guards` counts the guards that are alive.
  pub record System : Type 0 where
    pub mutex : Mutex S T
    pub world : World
    pub guards : ℕ

  unfoldable pub start : T → World → System
  start t w = record { mutex = Mutex.new S T t; world = w; guards = 0 }

  pub data Step : System → System → Type 0 where
    polled :
        (s : System) (waker : ℕ) (o : Option ℕ) (p : Poll) (o' : Option ℕ) (m : Mutex S T)
        → CanPoll S T o s.mutex
        → poll S T waker o s.mutex ≡ some (p, o', m)
        → Step s (record s { mutex = m; guards = s.guards + granted p })
    released :
        (s : System) (g : ℕ)
        → s.guards ≡ suc g
        → Step s (record {
          mutex = (drop_guard S T s.mutex s.world).0;
          world = (drop_guard S T s.mutex s.world).1;
          guards = g;
        })
    cancelled :
        (s : System) (k : ℕ) (m : Mutex S T) (w : World)
        → lookup k (waiting S T s.mutex) ≢ none
        → drop_lock S T (some k) s.mutex s.world ≡ some (m, w)
        → Step s (record { mutex = m; world = w; guards = s.guards })
    written :
        (s : System) (t : T) → 0 < s.guards → Step s (record s { mutex = deref_mut S T t s.mutex })

  pub data Reach (s : System) : System → Type 0 where
    here : Reach s s
    next : {t u : System} → Reach s t → Step t u → Reach s u

  -- One guard exactly while the mutex is locked; and while it is free, nobody waits in vain: some
  -- waiter has been notified and will poll.
  pub record IsSound (s : System) : Type 0 where
    pub valid : IsValid S s.mutex.wakers
    pub owner : s.guards ≡ as_number s.mutex.locked
    pub awake :
        s.mutex.locked ≡ false
        → (blocked (waiting S T s.mutex) ≡ 0) ⊎ (0 < notified (waiting S T s.mutex))

  drop_lock-IsSound :
      (s : System) (k : ℕ) (m : Mutex S T) (w : World)
      → IsSound s
      → lookup k (waiting S T s.mutex) ≢ none
      → drop_lock S T (some k) s.mutex s.world ≡ some (m, w)
      → IsSound (record { mutex = m; world = w; guards = s.guards })
  unfolding drop_lock
  drop_lock-IsSound s k m w i r e = elim (Option-cases (lookup k (waiting S T s.mutex))) [
    | inl c ↦ absurd (r c)
    | inr (o, c) ↦
        let (t, w', b, gone, entries, world, reported, counts, less, valid) =
          cancel_lem S k o s.mutex.wakers s.world i.valid c in
        ground (arith, gone, counts, less, valid)
  ]

  pub Step-IsSound : {s t : System} → Step s t → IsSound s → IsSound t
  unfolding deref_mut
  Step-IsSound (polled s waker o p o' m c e) i =
      let (p', o'', m', polls, held, value, valid, which) =
        poll_lem S T waker o s.mutex i.valid c in
      ground (arith, polls, held, valid, which)
  Step-IsSound (released s g e) i =
      let (free, value, entries, world, told, valid) = drop_guard_lem S T s.mutex s.world i.valid in
      let awake = take_head_awake (waiting S T s.mutex) in
      record { valid = valid; owner = ground (arith, free); awake = λ h. rw entries awake }
  Step-IsSound (cancelled s k m w r e) i = drop_lock-IsSound s k m w i r e
  Step-IsSound (written s t h) i = ground arith

  start-IsSound : (t : T) (w : World) → IsSound (start t w)
  unfolding start Mutex.new
  start-IsSound t w = record {
    valid = new-IsValid S;
    owner = refl;
    awake = λ h. inl (rw (view-new S));
  }

  -- However polls, drops of guards, cancellations and writes through guards interleave, from a new
  -- mutex: at most one guard is alive, one exactly while the mutex is locked; the set of waiters
  -- stays valid; and while the mutex is free, either no waiter still holds its waker or some waiter
  -- has been notified, so no release is lost.
  pub Reach-IsSound : (t : T) (w : World) {s : System} → Reach (start t w) s → IsSound s
  Reach-IsSound t w here = start-IsSound t w
  Reach-IsSound t w (next r st) = Step-IsSound st (Reach-IsSound t w r)
