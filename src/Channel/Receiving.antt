-- ===== src/Channel/Receiving.antt =====
-- async-embedded/src/unsync/channel.rs: `Recv::poll`.
use async_on_embedded.Channel.Futures.{
  CanPoll, unregister-Left, IsSound, received-IsSound, with_receivers, insert_lem,
}
use async_on_embedded.Prelude.{
  ℕ, ◌+◌, ◌≤◌, ◌≡◌, refl, ◌≢◌, ◌⊎◌, inl, inr, Option, none, some, List, [], ◌∷◌, arith,
}
use async_on_embedded.Channel.{poll_recv, finish_recv, Channel, received}
use async_on_embedded.Channel.Ring.{IsQueue}
use async_on_embedded.Channel.Queue.{read-received, try_recv-eq, try_recv_empty, dequeue, Room}
use async_on_embedded.Runtime.{World}
use async_on_embedded.Slab.{Slab, lookup}
use async_on_embedded.WakerSet.View.{view}

module _ (S : Slab) (T : Type 0) where
  finish_recv-received :
      (waker : ℕ) (x : T) (c : Channel S T) (w : World)
      → finish_recv S T waker (received S T c w x)
        ≡ some (some x, none, (received S T c w x).1, (received S T c w x).2)
  unfolding finish_recv received
  finish_recv-received waker x c w = refl

  -- A poll of `Recv`, by a future whose key, if it has one, is that of an entry, and which
  -- otherwise finds room for one, on a sound channel whose read cursor is more than nine below 2 ^
  -- 32, does not panic, reads no unwritten cell and leaves a sound channel. It is ready with the
  -- oldest message, if there is one. On an empty channel it is pending and the future keeps the
  -- key of an entry with its task's waker.
  pub poll_recv_lem :
      (waker : ℕ) (q : List T) (o : Option ℕ) (c : Channel S T) (w : World)
      → Room c.read
      → IsSound S T q c
      → CanPoll S T o c.recv_wakers
      → (o' : Option ℕ) × (c' : Channel S T) × (w' : World) × (poll_recv S T waker o c w
          ≡ some ((dequeue q).0, o', c', w'))
        × IsSound S T (dequeue q).1 c'
        × (c'.read ≤ c.read + 1)
        × ((q ≢ [])
            ⊎ (q ≡ [])
              × ((k : ℕ) × (o' ≡ some k) × (lookup k (view S c'.recv_wakers) ≡ some (some waker))))
  unfolding poll_recv finish_recv
  poll_recv_lem waker [] o c w room i can =
      let (s, left, l) = unregister-Left S T o c.recv_wakers i.receivers can in
      let (k, t, stored, a) = insert_lem S T waker s l.valid l.room in
      let c₁ = with_receivers S T c s in
      let h : IsQueue S T c₁ [] = record {
        cells = i.queue.cells;
        cursors = i.queue.cursors;
        fits = i.queue.fits;
      } in
      (
        some k,
        with_receivers S T c t,
        w,
        rw (left, try_recv_empty S T c₁ w h, stored),
        record {
          senders = i.senders;
          receivers = a.valid;
          queue = record { cells = h.cells; cursors = h.cursors; fits = h.fits };
          recv_awake = inr (omega arith);
          send_awake = i.send_awake;
        },
        omega arith,
        inr (refl, (k, refl, a.stored)),
      )
  poll_recv_lem waker (x ∷ q) o c w room i can =
      let (s, left, l) = unregister-Left S T o c.recv_wakers i.receivers can in
      let c₁ = with_receivers S T c s in
      let h : IsQueue S T c₁ (x ∷ q) = record {
        cells = i.queue.cells;
        cursors = i.queue.cursors;
        fits = i.queue.fits;
      } in
      (
        none,
        (received S T c₁ w x).1,
        (received S T c₁ w x).2,
        rw (left, try_recv-eq S T x q c₁ w h) (finish_recv-received waker x c₁ w),
        received-IsSound S T x q c₁ w room i.senders l.valid h (ground (arith, l))
            (ground (arith, i.send_awake)),
        (read-received S T x c₁ w).1,
        inl (λ e. cc),
      )
