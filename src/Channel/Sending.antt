-- ===== src/Channel/Sending.antt =====
-- async-embedded/src/unsync/channel.rs: `Send::poll`.
use async_on_embedded.Channel.Futures.{
  CanPoll, unregister-Left, IsSound, sent-IsSound, with_senders, insert_lem,
}
use async_on_embedded.Prelude.{
  ltb→lt, ℕ, ◌<◌, ◌≡◌, refl, ap, ◌∙◌, ◌⊎◌, inl, inr, none, some, List, arith, ltb, if◌then◌else◌,
  Bool-cases, length,
}
use async_on_embedded.Channel.{Channel, Send, err, sent, unregister, finish_send, poll_send}
use async_on_embedded.Channel.Ring.{IsQueue}
use async_on_embedded.Channel.Queue.{read-sent, Room, enqueue, try_send-eq}
use async_on_embedded.Runtime.{World, Poll, ready, pending, ntasks}
use async_on_embedded.Slab.{Slab, lookup}
use async_on_embedded.WakerSet.{WakerSet}
use async_on_embedded.WakerSet.View.{view}

module _ (S : Slab) (T : Type 0) where
  pub finish_send-sent :
      (waker : ℕ) (v : T) (c : Channel S T) (w : World)
      → finish_send S T waker (sent S T v c w)
        ≡ some
            (ready, record { msg = none; opt_key = none }, (sent S T v c w).1, (sent S T v c w).2)
  unfolding finish_send sent
  finish_send-sent waker v c w = refl

  pub poll_send-eq :
      (waker : ℕ) (v : T) (q : List T) (f : Send S T) (c : Channel S T) (w : World) (s : WakerSet S)
      → Room c.read
      → IsQueue S T c q
      → f.msg ≡ some v
      → unregister S T f.opt_key c.send_wakers ≡ some s
      → let c₁ = with_senders S T c s in
        poll_send S T waker f c w
        ≡ finish_send S T waker (if ltb (length q) ntasks then sent S T v c₁ w else (err v, c₁, w))
  unfolding poll_send
  poll_send-eq waker v q f c w s room h msg left =
      rw (msg, left)
        (ap (finish_send S T waker) (
          try_send-eq S T v q (with_senders S T c s) w room
            (record { cells = h.cells; cursors = h.cursors; fits = h.fits })))

  -- A poll of `Send` with the message `v`, by a future whose key, if it has one, is that of an
  -- entry, and which otherwise finds room for one, on a sound channel whose read cursor is more
  -- than nine below 2 ^ 32, does not panic and leaves a sound channel. With a free cell it is
  -- ready and the message is queued. On a full channel it is pending, the future keeps the message
  -- and the key of an entry with its task's waker, and the queue stays.
  pub poll_send_lem :
      (waker : ℕ) (v : T) (q : List T) (f : Send S T) (c : Channel S T) (w : World)
      → Room c.read
      → IsSound S T q c
      → CanPoll S T f.opt_key c.send_wakers
      → f.msg ≡ some v
      → (p : Poll) × (f' : Send S T) × (c' : Channel S T) × (w' : World) × (poll_send S T waker f c
            w
          ≡ some (p, f', c', w'))
        × IsSound S T (enqueue v q) c'
        × (c'.read ≡ c.read)
        × ((length q < ntasks) × (p ≡ ready)
            ⊎ (length q ≡ ntasks)
              × (p ≡ pending)
              × (f'.msg ≡ some v)
              × ((k : ℕ) × (f'.opt_key ≡ some k)
                  × (lookup k (view S c'.send_wakers) ≡ some (some waker))))
  unfolding finish_send
  poll_send_lem waker v q f c w room i can msg =
      let (s, left, l) = unregister-Left S T f.opt_key c.send_wakers i.senders can in
      let c₁ = with_senders S T c s in
      let h : IsQueue S T c₁ q = record {
        cells = i.queue.cells;
        cursors = i.queue.cursors;
        fits = i.queue.fits;
      } in
      let eq = poll_send-eq waker v q f c w s room i.queue msg left in
      elim (Bool-cases (ltb (length q) ntasks)) [
        | inl e ↦ (
          ready,
          record { msg = none; opt_key = none },
          (sent S T v c₁ w).1,
          (sent S T v c₁ w).2,
          eq ∙ rw e (finish_send-sent waker v c₁ w),
          rw e (
              sent-IsSound S T v q c₁ w room l.valid i.receivers h (ltb→lt _ _ e) i.recv_awake
                (ground (arith, l))),
          read-sent S T v c₁ w,
          inl (ltb→lt _ _ e, refl),
        )
        | inr e ↦
            let (k, t, stored, a) = insert_lem S T waker s l.valid l.room in
            (
              pending,
              record { msg = some v; opt_key = some k },
              with_senders S T c t,
              w,
              eq ∙ rw (e, stored),
              rw e (record {
                senders = a.valid;
                receivers = i.receivers;
                queue = record { cells = h.cells; cursors = h.cursors; fits = h.fits };
                recv_awake = i.recv_awake;
                send_awake = inr (ground (arith, h));
              }),
              refl,
              inr (ground (arith, h), refl, refl, (k, refl, a.stored)),
            )
      ]
