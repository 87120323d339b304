-- ===== src/Channel/Delivery.antt =====
-- async-embedded/src/unsync/channel.rs: a receiver that waits alone, and the sender that wakes it.
use async_on_embedded.Prelude.{ℕ, ◌≡◌, ◌≢◌, refl, ap, ◌∙◌, true, inr, none, some, [], ◌∷◌, arith}
use async_on_embedded.Channel.{Channel, Send, poll_send, poll_recv, finish_recv, unregister, sent}
use async_on_embedded.Channel.Futures.{IsSound, sent-IsSound, with_receivers}
use async_on_embedded.Channel.Queue.{Room, try_recv_empty}
use async_on_embedded.Channel.Ring.{IsQueue}
use async_on_embedded.Channel.Sending.{poll_send-eq, finish_send-sent}
use async_on_embedded.Runtime.{World, ready, wake_by_ref, signal_event_ready}
use async_on_embedded.Slab.{Slab, lookup}
use async_on_embedded.WakerSet.{WakerSet}
use async_on_embedded.WakerSet.View.{view, first_blocked, take_first, wake_opt}
use async_on_embedded.WakerSet.Keys.{insert_first}
use async_on_embedded.WakerSet.Walks.{notify_one_lem}

module _ (S : Slab) (T : Type 0) where
  pub first_recv :
      (waker : ℕ) (c : Channel S T) (w : World)
      → IsSound S T [] c
      → view S c.recv_wakers ≡ []
      → (k : ℕ) × (s : WakerSet S) × (poll_recv S T waker none c w
          ≡ some (none, some k, with_receivers S T c s, w))
        × (view S s ≡ (k, some waker) ∷ [])
        × IsSound S T [] (with_receivers S T c s)
  unfolding poll_recv finish_recv unregister
  first_recv waker c w i nobody =
      let (k, s, inserted, alone, valid) = insert_first S waker c.recv_wakers i.receivers nobody in
      let h : IsQueue S T (with_receivers S T c c.recv_wakers) [] = i.queue in
      (
        k,
        s,
        rw (try_recv_empty S T (with_receivers S T c c.recv_wakers) w h, inserted),
        alone,
        record {
          senders = i.senders;
          receivers = valid;
          queue = record { cells = tt; cursors = i.queue.cursors; fits = i.queue.fits };
          recv_awake = inr (omega arith);
          send_awake = i.send_awake;
        },
      )

  -- What a first poll of `Send` does to an empty channel on which one receiver waits.
  pub send_wakes :
      (waker k p : ℕ) (v : T) (c : Channel S T) (w : World)
      → Room c.read
      → IsSound S T [] c
      → view S c.recv_wakers ≡ (k, some p) ∷ []
      → (f : Send S T) × (c' : Channel S T) × (w' : World) × (poll_send S T waker
            (record { msg = some v; opt_key = none })
            c
            w
          ≡ some (ready, f, c', w'))
        × IsSound S T (v ∷ []) c'
        × (lookup k (view S c'.recv_wakers) ≢ none)
        × (c'.read ≡ c.read)
        × (w'.ready p ≡ true)
  unfolding unregister sent wake_by_ref signal_event_ready
  send_wakes waker k p v c w room i alone =
      let woken = notify_one_lem S c.recv_wakers w i.receivers in
      let entries = woken.entries ∙ ap take_first alone in
      let world = woken.world ∙ ap (λ es. wake_opt (first_blocked es) w) alone in
      (
        record { msg = none; opt_key = none },
        (sent S T v c w).1,
        (sent S T v c w).2,
        poll_send-eq S T waker v [] _ c w c.send_wakers room i.queue refl refl
            ∙ finish_send-sent S T waker v c w,
        sent-IsSound S T v [] c w room i.senders i.receivers i.queue (omega arith) i.recv_awake
            (ground (arith, i.send_awake)),
        rw entries (λ e. ground arith),
        refl,
        ap (λ u. u.ready p) world ∙ (ground arith),
      )
