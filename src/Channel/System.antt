-- ===== src/Channel/System.antt =====
-- async-embedded/src/unsync/channel.rs: every interleaving of polls and of direct calls. The drop
-- of a `Send` or a `Recv` changes nothing in the code, so it is no step.
use async_on_embedded.Prelude.{
  ltb→lt, ℕ, ◌≡◌, refl, subst, inl, inr, Option, some, List, [], ◌∷◌, arith, ltb, Bool-cases,
  length,
}
use async_on_embedded.Channel
use async_on_embedded.Channel.{
  Channel, Send, Sent, ok, err, try_send, try_recv, poll_send, poll_recv, sent, received,
}
use async_on_embedded.Channel.Queue.{
  Room, enqueue, dequeue, try_send-eq, try_recv-eq, try_recv_empty,
}
use async_on_embedded.Channel.Futures.{CanPoll, IsSound, sent-IsSound, received-IsSound}
use async_on_embedded.Channel.Sending.{poll_send_lem}
use async_on_embedded.Channel.Receiving.{poll_recv_lem}
use async_on_embedded.Runtime.{World, Poll, ntasks}
use async_on_embedded.Slab.{Slab}
use async_on_embedded.WakerSet.View.{view-new, new-IsValid}

module _ (S : Slab) (T : Type 0) where
  pub record System : Type 0 where
    pub channel : Channel S T
    pub world : World

  unfoldable pub start : World → System
  start w = record { channel = Channel.new S T; world = w }

  -- Each step needs a read cursor that is more than nine below 2 ^ 32.
  pub data Step : System → System → Type 0 where
    polled_send :
        (s : System) (waker : ℕ) (v : T) (f : Send S T) (p : Poll) (f' : Send S T) (t : System)
        → Room s.channel.read
        → CanPoll S T f.opt_key s.channel.send_wakers
        → f.msg ≡ some v
        → poll_send S T waker f s.channel s.world ≡ some (p, f', t.channel, t.world)
        → Step s t
    polled_recv :
        (s : System) (waker : ℕ) (o : Option ℕ) (r : Option T) (o' : Option ℕ) (t : System)
        → Room s.channel.read
        → CanPoll S T o s.channel.recv_wakers
        → poll_recv S T waker o s.channel s.world ≡ some (r, o', t.channel, t.world)
        → Step s t
    tried_send :
        (s : System) (v : T)
        → Room s.channel.read
        → Step s (record {
          channel = (try_send S T v s.channel s.world).1;
          world = (try_send S T v s.channel s.world).2;
        })
    tried_recv :
        (s : System) (r : Option T) (t : System)
        → Room s.channel.read
        → try_recv S T s.channel s.world ≡ some (r, t.channel, t.world)
        → Step s t

  pub data Reach (s : System) : System → Type 0 where
    here : Reach s s
    next : {t u : System} → Reach s t → Step t u → Reach s u

  abbrev pub SoundFor : System → Type 0
  SoundFor s = (q : List T) × IsSound S T q s.channel

  tried_send-IsSound :
      (v : T) (q : List T) (s : System)
      → Room s.channel.read
      → IsSound S T q s.channel
      → IsSound S T (enqueue v q) (try_send S T v s.channel s.world).1
  tried_send-IsSound v q s room i =
      rw (try_send-eq S T v q s.channel s.world room i.queue)
        (elim (Bool-cases (ltb (length q) ntasks)) [
          | inl e ↦ rw e (
              sent-IsSound S T v q s.channel s.world room i.senders i.receivers i.queue
                (ltb→lt _ _ e) i.recv_awake (ground (arith, i.send_awake)))
          | inr e ↦ rw e i
        ])

  tried_recv-SoundFor :
      (q : List T) (s t : System) (r : Option T)
      → Room s.channel.read
      → IsSound S T q s.channel
      → try_recv S T s.channel s.world ≡ some (r, t.channel, t.world)
      → SoundFor t
  tried_recv-SoundFor [] s t r room i e =
      let same : s.channel ≡ t.channel =
        ground (arith, try_recv_empty S T s.channel s.world i.queue) in
      ([], subst (λ c. IsSound S T [] c) same i)
  tried_recv-SoundFor (x ∷ q) s t r room i e =
      let moved : (received S T s.channel s.world x).1 ≡ t.channel =
        ground (arith, try_recv-eq S T x q s.channel s.world i.queue) in
      (
        q,
        subst (λ c. IsSound S T q c) moved
            (received-IsSound S T x q s.channel s.world room i.senders i.receivers i.queue
              (ground (arith, i.recv_awake)) (ground (arith, i.send_awake))),
      )

  Step-SoundFor : {s t : System} → Step s t → SoundFor s → SoundFor t
  Step-SoundFor (polled_send s waker v f p f' t room can msg e) (q, i) =
      let (p', f'', c', w', polls, i', same, which) =
        poll_send_lem S T waker v q f s.channel s.world room i can msg in
      let moved : c' ≡ t.channel = ground (arith, polls) in
      (enqueue v q, subst (λ c. IsSound S T (enqueue v q) c) moved i')
  Step-SoundFor (polled_recv s waker o r o' t room can e) (q, i) =
      let (o'', c', w', polls, i', near, which) =
        poll_recv_lem S T waker q o s.channel s.world room i can in
      let moved : c' ≡ t.channel = ground (arith, polls) in
      ((dequeue q).1, subst (λ c. IsSound S T (dequeue q).1 c) moved i')
  Step-SoundFor (tried_send s v room) (q, i) = (enqueue v q, tried_send-IsSound v q s room i)
  Step-SoundFor (tried_recv s r t room e) (q, i) = tried_recv-SoundFor q s t r room i e

  pub new-IsSound : IsSound S T [] (Channel.new S T)
  unfolding Channel.new
  new-IsSound = record {
    senders = new-IsValid S;
    receivers = new-IsValid S;
    queue = record { cells = tt; cursors = refl; fits = omega arith };
    recv_awake = inl (rw (view-new S));
    send_awake = inl (rw (view-new S));
  }

  start-SoundFor : (w : World) → SoundFor (start w)
  unfolding start
  start-SoundFor w = ([], new-IsSound)

  -- However polls and direct calls interleave, from a new channel and while the read cursor is
  -- more than nine below 2 ^ 32: the channel holds a queue of at most eight messages; both waker
  -- sets are valid; either no receiver still holds its waker or at least as many receivers are
  -- notified as there are messages; and either no sender still holds its waker or at least as many
  -- senders are notified as there are free cells.
  pub Reach-SoundFor : (w : World) {s : System} → Reach (start w) s → SoundFor s
  Reach-SoundFor w here = start-SoundFor w
  Reach-SoundFor w (next r st) = Step-SoundFor st (Reach-SoundFor w r)
