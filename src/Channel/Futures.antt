-- ===== src/Channel/Futures.antt =====
-- async-embedded/src/unsync/channel.rs: what the polls of `Send` and `Recv` share, and who is
-- left waiting.
use async_on_embedded.Prelude.{
  length-append, ℕ, ◌+◌, ◌≤◌, ◌<◌, ◌≡◌, refl, ◌≢◌, ◌⊎◌, inl, inr, Option, none, some, List, [], ◌∷◌,
  ◌++◌, arith, Option-cases, length,
}
use async_on_embedded.Channel.{Channel, received, sent, unregister}
use async_on_embedded.Channel.Ring.{IsQueue}
use async_on_embedded.Channel.Queue.{received-IsQueue, Room, sent-IsQueue}
use async_on_embedded.Runtime.{World, ntasks}
use async_on_embedded.Slab.{Slab, lookup}
use async_on_embedded.WakerSet
use async_on_embedded.WakerSet.{WakerSet, notify_one}
use async_on_embedded.WakerSet.View.{counts-erase, counts-length, view, blocked, notified, IsValid}
use async_on_embedded.WakerSet.Walks.{notify_one_lem, counts-FirstWoken}
use async_on_embedded.WakerSet.Keys.{Added, remove-Taken, insert-Added, insert-none_iff}

module _ (S : Slab) (T : Type 0) where
  -- What a future may rely on at a poll: its key is that of an entry, or it has none and the set
  -- has room for one.
  abbrev pub CanPoll : Option ℕ → WakerSet S → Type 0
  CanPoll none s = length (view S s) < ntasks
  CanPoll (some k) s = lookup k (view S s) ≢ none

  pub record Left (s s' : WakerSet S) : Type 0 where
    pub fewer_blocked : blocked (view S s') ≤ blocked (view S s)
    pub one_less : notified (view S s) ≤ notified (view S s') + 1
    pub valid : IsValid S s'
    pub room : length (view S s') < ntasks

  pub unregister-Left :
      (o : Option ℕ) (s : WakerSet S)
      → IsValid S s
      → CanPoll o s
      → (s' : WakerSet S) × (unregister S T o s ≡ some s') × Left s s'
  unfolding unregister
  unregister-Left none s v r = (s, refl, ground arith)
  unregister-Left (some k) s v r = elim (Option-cases (lookup k (view S s))) [
    | inl e ↦ absurd (r e)
    | inr (o, e) ↦
        let (s', removed, taken) = remove-Taken S k o s v e in
        (
          s',
          removed,
          ground (
            arith,
            taken,
            counts-length (view S s),
            counts-length (view S s'),
            counts-erase k o (view S s) e,
            S.length-entries s.entries,
          ),
        )
  ]

  -- The channel holds the queue `q`, and nobody waits in vain: if a receiver still holds its waker,
  -- then at least as many receivers are notified as there are messages; if a sender still holds
  -- its waker, then at least as many senders are notified as there are free cells.
  pub record IsSound (q : List T) (c : Channel S T) : Type 0 where
    pub senders : IsValid S c.send_wakers
    pub receivers : IsValid S c.recv_wakers
    pub queue : IsQueue S T c q
    pub recv_awake :
        (blocked (view S c.recv_wakers) ≡ 0) ⊎ (length q ≤ notified (view S c.recv_wakers))
    pub send_awake :
        (blocked (view S c.send_wakers) ≡ 0) ⊎ (ntasks ≤ length q + notified (view S c.send_wakers))

  pub sent-IsSound :
      (v : T) (q : List T) (c : Channel S T) (w : World)
      → Room c.read
      → IsValid S c.send_wakers
      → IsValid S c.recv_wakers
      → IsQueue S T c q
      → length q < ntasks
      → (blocked (view S c.recv_wakers) ≡ 0) ⊎ (length q ≤ notified (view S c.recv_wakers))
      → (blocked (view S c.send_wakers) ≡ 0)
        ⊎ (ntasks ≤ length q + 1 + notified (view S c.send_wakers))
      → IsSound (q ++ (v ∷ [])) (sent S T v c w).1
  unfolding sent
  sent-IsSound v q c w room vs vr h l ra sa =
      let woken = notify_one_lem S c.recv_wakers w vr in
      let (t, w', b) = notify_one S c.recv_wakers w in
      let counts = counts-FirstWoken S c.recv_wakers t w w' b woken in
      record {
        senders = vs;
        receivers = woken.valid;
        queue = sent-IsQueue S T v q c w room h l;
        recv_awake = ground (arith, counts, length-append q (v ∷ []));
        send_awake = ground (arith, length-append q (v ∷ []));
      }

  pub received-IsSound :
      (x : T) (q : List T) (c : Channel S T) (w : World)
      → Room c.read
      → IsValid S c.send_wakers
      → IsValid S c.recv_wakers
      → IsQueue S T c (x ∷ q)
      → (blocked (view S c.recv_wakers) ≡ 0) ⊎ (length q ≤ notified (view S c.recv_wakers))
      → (blocked (view S c.send_wakers) ≡ 0)
        ⊎ (ntasks ≤ length q + 1 + notified (view S c.send_wakers))
      → IsSound q (received S T c w x).1
  unfolding received
  received-IsSound x q c w room vs vr h ra sa =
      let woken = notify_one_lem S c.send_wakers w vs in
      let (t, w', b) = notify_one S c.send_wakers w in
      let counts = counts-FirstWoken S c.send_wakers t w w' b woken in
      record {
        senders = woken.valid;
        receivers = vr;
        queue = received-IsQueue S T x q c w room h;
        recv_awake = ra;
        send_awake = ground (arith, counts);
      }

  abbrev pub with_senders : Channel S T → WakerSet S → Channel S T
  with_senders c s = record c { send_wakers = s }

  abbrev pub with_receivers : Channel S T → WakerSet S → Channel S T
  with_receivers c s = record c { recv_wakers = s }

  pub insert_lem :
      (waker : ℕ) (s : WakerSet S)
      → IsValid S s
      → length (view S s) < ntasks
      → (k : ℕ) × (t : WakerSet S) × (WakerSet.insert S waker s ≡ some (k, t)) × Added S waker k s t
  insert_lem waker s v room = elim (Option-cases (WakerSet.insert S waker s)) [
    | inl e ↦ absurd (omega (arith, (insert-none_iff S waker s).0 e))
    | inr ((k, t), e) ↦ (k, t, e, insert-Added S waker k s t v e)
  ]
