-- ===== src/Examples/Messages.antt =====
-- nrf52/examples/4-channel.rs: task B receives what task A sends. The number that A sends, 42 in
-- the source, is a parameter, and so are the slab and the type of the message.
pub mod Run
use async_on_embedded.Prelude.{
  ℕ, ◌≡◌, Bool, true, false, Option, none, some, List, [], ◌∷◌, ◌++◌, ◌>>=◌,
}
use async_on_embedded.Executor.{Machine, Outcome, poll_yield, block_on}
use async_on_embedded.Channel
use async_on_embedded.Channel.{Channel, Send}
use async_on_embedded.Runtime.{World, Poll, ready, pending}
use async_on_embedded.Slab.{Slab}

pub data Line (T : Type 0) : Type 0 where
  b_before_recv a_before_send a_after_send a_yield : Line T
  b_message : T → Line T
  done : Line T

-- Where task B is: at its start, or in `recv().await` with the key of its future.
pub data Main : Type 0 where
  start : Main
  receiving : Option ℕ → Main

module _ (S : Slab) (T : Type 0) where
  -- Where task A is: at its start, in `send(..).await`, or in `yield().await`.
  pub data Task : Type 0 where
    starting : Task
    sending : Send S T → Task
    yielding : Bool → Task

  pub record Shared : Type 0 where
    pub channel : Channel S T
    pub lines : List (Line T)
    pub main : Main
    pub task : Task

  abbrev pub Program : Type 0
  Program = Machine Shared

  abbrev pub print : Line T → Shared → Shared
  print l u = record u { lines = u.lines ++ (l ∷ []) }

  -- The state before the tasks run.
  pub initial : Shared
  initial = record { channel = Channel.new S T; lines = []; main = start; task = starting }

  received_or_not :
      Program → Option T × Option ℕ × Channel S T × World → Option (Unit {0}) × Program
  received_or_not m (some msg, key, channel, world) =
      let u = print (b_message msg) (record m.user { channel = channel }) in
      (some tt, record m { world = world; user = print done u })
  received_or_not m (none, key, channel, world) = (
    none,
    record m { world = world; user = record m.user { channel = channel; main = receiving key } },
  )

  receive : ℕ → Option ℕ → Program → Option (Option (Unit {0}) × Program)
  unfolding received_or_not
  receive waker key m = do
    r ← Channel.poll_recv S T waker key m.user.channel m.world
    some (received_or_not m r)

  resume : ℕ → Main → Program → Option (Option (Unit {0}) × Program)
  unfolding receive
  resume waker start m = receive waker none (record m { user = print b_before_recv m.user })
  resume waker (receiving key) m = receive waker key m

  -- the future of task B
  pub poll_b : ℕ → Program → Option (Option (Unit {0}) × Program)
  unfolding resume
  poll_b waker m = resume waker m.user.main m

  -- one round of the loop of task A, up to its `await`
  round : ℕ → Program → Poll × Program
  round waker m =
      let (p, yielded, world) = poll_yield waker false m.world in
      let u = print a_yield m.user in
      (p, record m { world = world; user = record u { task = yielding yielded } })

  sent_or_not : ℕ → Program → Poll × Send S T × Channel S T × World → Poll × Program
  unfolding round
  sent_or_not waker m (ready, f, channel, world) =
      let u = print a_after_send (record m.user { channel = channel }) in
      round waker (record m { world = world; user = u })
  sent_or_not waker m (pending, f, channel, world) = (
    pending,
    record m { world = world; user = record m.user { channel = channel; task = sending f } },
  )

  send : ℕ → Send S T → Program → Option (Poll × Program)
  unfolding sent_or_not
  send waker f m = do
    r ← Channel.poll_send S T waker f m.user.channel m.world
    some (sent_or_not waker m r)

  advance : T → ℕ → Task → Program → Option (Poll × Program)
  unfolding send round
  advance x waker starting m =
      send waker (record { msg = some x; opt_key = none })
        (record m { user = print a_before_send m.user })
  advance x waker (sending f) m = send waker f m
  advance x waker (yielding yielded) m =
      let (p, yielded', world) = poll_yield waker yielded m.world in
      some (elim p [
        | ready ↦ round waker (record m { world = world })
        | pending ↦
            (pending, record m { world = world; user = record m.user { task = yielding yielded' } })
      ])

  -- the future of task A
  pub poll_a : T → ℕ → Program → Option (Poll × Program)
  unfolding advance
  poll_a x waker m = advance x waker m.user.task m

  pub run : T → ℕ → ℕ → Program → Outcome Shared (Unit {0})
  run x fuel main m = block_on poll_b (poll_a x) fuel main m
