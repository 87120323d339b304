-- ===== src/Serial/Await.antt =====
-- nrf52/src/serial.rs: `Rx::read` and `Tx::write_from_ram` awaited to their end, with the drop of the
-- future.
pub mod Ends
use async_on_embedded.Prelude.{
  ℕ, ◌≡◌, refl, ◌∙◌, Bool, true, false, Option, none, some, List, [], ◌∷◌, ◌++◌, arith, ltb,
  if◌then◌else◌, is_some,
}
use async_on_embedded.Runtime.{Poll, ready, pending}
use async_on_embedded.Serial.{
  State, not_started, in_progress, finished, Uarte, poll_read, poll_write, finish_read,
  finish_write, drop_future, handler,
}

-- What the two events are when the next interrupt comes.
pub record Change : Type 0 where
  pub endrx : Bool
  pub endtx : Bool

abbrev pub apply : Change → Uarte → Uarte
apply c u = record u { endrx = c.endrx; endtx = c.endtx }

-- `waiting`: the changes are used up, the transfer is not at its end.
pub data Awaited : Type 0 where
  answered : Uarte → Awaited
  panicked : Awaited
  waiting : State → Uarte → Awaited

-- The future is dropped as soon as it has answered.
dropped : Option (Unit {0}) → Uarte → Awaited
dropped none u = panicked
dropped (some done) u = answered u

settle : Option (Poll × State × Uarte) → Awaited
unfolding dropped
settle none = panicked
settle (some (pending, s, u)) = waiting s u
settle (some (ready, s, u)) = dropped (drop_future s) u

-- Every change raises the interrupt, whose handler wakes the task, which polls again.
pub await : (State → Uarte → Option (Poll × State × Uarte)) → State → Uarte → List Change → Awaited
unfolding settle
await poll s u [] = settle (poll s u)
await poll s u (c ∷ later) = elim (settle (poll s u)) [
  | waiting s' u' ↦ await poll s' (handler (apply c u')) later
  | answered u' ↦ answered u'
  | panicked ↦ panicked
]

-- `Rx::read`
unfoldable pub read : ℕ → ℕ → ℕ → Uarte → List Change → Awaited
read waker ptr len u changes =
    let awaited = await (poll_read waker ptr len) not_started u changes in
    if ltb len 1024 then awaited else panicked

-- `Tx::write_from_ram`
unfoldable pub write_from_ram : ℕ → ℕ → ℕ → Uarte → List Change → Awaited
write_from_ram waker ptr len u changes =
    let awaited = await (poll_write waker ptr len) not_started u changes in
    if ltb len 1024 then awaited else panicked

-- What an interrupt leaves of the registers of the receiver, and of the transmitter.
pub handler-endrx : (c : Change) (u : Uarte) → (handler (apply c u)).endrx ≡ c.endrx
unfolding handler
handler-endrx c u = refl

pub handler-rxd : (c : Change) (u : Uarte) → (handler (apply c u)).rxd ≡ u.rxd
unfolding handler
handler-rxd c u = refl

pub handler-endtx : (c : Change) (u : Uarte) → (handler (apply c u)).endtx ≡ c.endtx
unfolding handler
handler-endtx c u = refl

pub handler-txd : (c : Change) (u : Uarte) → (handler (apply c u)).txd ≡ u.txd
unfolding handler
handler-txd c u = refl

pub await-pending :
    (poll : State → Uarte → Option (Poll × State × Uarte)) (s s' : State) (u u' : Uarte)
    (c : Change) (later : List Change)
    → poll s u ≡ some (pending, s', u')
    → await poll s u (c ∷ later) ≡ await poll s' (handler (apply c u')) later
unfolding await settle
await-pending poll s s' u u' c later e = rw (e, await)

pub await-ready :
    (poll : State → Uarte → Option (Poll × State × Uarte)) (s : State) (u u' : Uarte)
    (changes : List Change)
    → poll s u ≡ some (ready, finished, u')
    → await poll s u changes ≡ answered u'
unfolding await settle dropped drop_future
await-ready poll s u u' [] e = rw (e, await)
await-ready poll s u u' (c ∷ changes) e = rw (e, await)

pub read_early :
    (waker ptr len : ℕ) (u : Uarte)
    → u.endrx ≡ false
    → poll_read waker ptr len in_progress u
      ≡ some (pending, in_progress, record u { unmasked = true })
unfolding poll_read finish_read
read_early waker ptr len u e = ground (arith, e)

pub read_ended :
    (waker ptr len : ℕ) (u : Uarte)
    → u.endrx ≡ true
    → poll_read waker ptr len in_progress u
      ≡ some (
        ready,
        finished,
        record u { endrx = false; rx_waker = none; unmasked = is_some u.tx_waker },
      )
unfolding poll_read finish_read
read_ended waker ptr len u e = ground (arith, e)

pub write_early :
    (waker ptr len : ℕ) (u : Uarte)
    → u.endtx ≡ false
    → poll_write waker ptr len in_progress u
      ≡ some (pending, in_progress, record u { unmasked = true })
unfolding poll_write finish_write
write_early waker ptr len u e = ground (arith, e)

pub write_ended :
    (waker ptr len : ℕ) (u : Uarte)
    → u.endtx ≡ true
    → poll_write waker ptr len in_progress u
      ≡ some (
        ready,
        finished,
        record u { endtx = false; tx_waker = none; unmasked = is_some u.rx_waker },
      )
unfolding poll_write finish_write
write_ended waker ptr len u e = ground (arith, e)
