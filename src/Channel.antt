-- ===== src/Channel.antt =====
-- async-embedded/src/unsync/channel.rs: the bounded channel, a ring of NTASKS cells with two
-- cursors of 32 bits, as the release profile computes them (without overflow checks). `none` is a
-- panic or the read of a cell that was never written.
pub mod Ring
pub mod Queue
pub mod Futures
pub mod Sending
pub mod Receiving
pub mod Delivery
pub mod System
mod Tests
use async_on_embedded.Prelude.{
  ℕ, zero, suc, ◌+◌, ◌-◌, ◌*◌, ◌/◌, ◌%◌, ◌^◌, ◌≤◌, ◌<◌, ◌≡◌, refl, sym, ap, ◌∙◌, subst, ◌≢◌, ◌↔◌,
  ◌⊎◌, inl, inr, Bool, true, false, ◌&&◌, ◌||◌, not, Option, none, some, List, [], ◌∷◌, ◌++◌, map,
  arith, ltb, leb, ◌==◌, if◌then◌else◌, Bool-cases, Option-cases, ==_iff, is_some, length,
  get_elem?, ◌>>=◌,
}
use async_on_embedded.Runtime.{World, Poll, ready, pending, ntasks, usize, signal_event_ready}
use async_on_embedded.Slab.{Slab}
use async_on_embedded.WakerSet
use async_on_embedded.WakerSet.{WakerSet}

-- `Result<(), T>`
pub data Sent (T : Type 0) : Type 0 where
  ok : Sent T
  err : T → Sent T

abbrev pub put {ℓ} : {T : Type ℓ} → (ℕ → Option T) → ℕ → T → ℕ → Option T
put b i v j = if i == j then some v else b j

-- `wrapping_add(1)`
abbrev pub next_cursor : ℕ → ℕ
next_cursor n = (n + 1) % usize

module _ (S : Slab) (T : Type 0) where
  pub record Channel : Type 0 where
    pub buffer : ℕ → Option T
    pub read : ℕ
    pub write : ℕ
    pub send_wakers : WakerSet S
    pub recv_wakers : WakerSet S

  unfoldable pub new : Channel
  new = record {
    buffer = λ i. none;
    read = 0;
    write = 0;
    send_wakers = WakerSet.new S;
    recv_wakers = WakerSet.new S;
  }

  pub received : Channel → World → T → Option T × Channel × World
  received c w val =
      let (send_wakers, w', notified) = WakerSet.notify_one S c.send_wakers w in
      (
        some val,
        record c { read = next_cursor c.read; send_wakers = send_wakers },
        signal_event_ready w',
      )

  pub try_recv : Channel → World → Option (Option T × Channel × World)
  unfolding received
  try_recv c w =
      if ltb c.read c.write
      then (do val ← c.buffer (c.read % ntasks); some (received c w val))
      else some (none, c, w)

  pub sent : T → Channel → World → Sent T × Channel × World
  sent val c w =
      let (recv_wakers, w', notified) = WakerSet.notify_one S c.recv_wakers w in
      (
        ok,
        record c {
          buffer = put c.buffer (c.write % ntasks) val;
          write = next_cursor c.write;
          recv_wakers = recv_wakers;
        },
        signal_event_ready w',
      )

  pub try_send : T → Channel → World → Sent T × Channel × World
  unfolding sent
  try_send val c w =
      if ltb c.write ((c.read + ntasks) % usize) then sent val c w else (err val, c, w)

  -- `if let Some(key) = self.opt_key.take() { wakers.remove(key) }`
  pub unregister : Option ℕ → WakerSet S → Option (WakerSet S)
  unregister none s = some s
  unregister (some key) s = WakerSet.remove S key s

  -- the future `Send`
  pub record Send : Type 0 where
    pub msg : Option T
    pub opt_key : Option ℕ

  pub finish_send : ℕ → Sent T × Channel × World → Option (Poll × Send × Channel × World)
  finish_send waker (ok, c, w) = some (ready, record { msg = none; opt_key = none }, c, w)
  finish_send waker (err msg, c, w) = do
    (key, wakers) ← WakerSet.insert S waker c.send_wakers
    some (
      pending,
      record { msg = some msg; opt_key = some key },
      record c { send_wakers = wakers },
      w,
    )

  -- `Send::poll`
  pub poll_send : ℕ → Send → Channel → World → Option (Poll × Send × Channel × World)
  unfolding unregister finish_send
  poll_send waker f c w = do
    msg ← f.msg
    wakers ← unregister f.opt_key c.send_wakers
    finish_send waker (try_send msg (record c { send_wakers = wakers }) w)

  finish_recv : ℕ → Option T × Channel × World → Option (Option T × Option ℕ × Channel × World)
  finish_recv waker (some msg, c, w) = some (some msg, none, c, w)
  finish_recv waker (none, c, w) = do
    (key, wakers) ← WakerSet.insert S waker c.recv_wakers
    some (none, some key, record c { recv_wakers = wakers }, w)

  -- `Recv::poll`: `some` is `Poll::Ready`, and the `opt_key` afterwards.
  pub poll_recv : ℕ → Option ℕ → Channel → World → Option (Option T × Option ℕ × Channel × World)
  unfolding unregister finish_recv
  poll_recv waker opt_key c w = do
    wakers ← unregister opt_key c.recv_wakers
    r ← try_recv (record c { recv_wakers = wakers }) w
    finish_recv waker r
