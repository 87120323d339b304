-- ===== src/Channel/Tests.antt =====
-- async-embedded/src/unsync/channel.rs: a channel with two messages, and one at the end of the
-- cursors' range.
use async_on_embedded.Channel
use async_on_embedded.Channel.{
  Channel, Send, Sent, ok, err, put, try_send, try_recv, sent, poll_send, poll_recv,
}
use async_on_embedded.Channel.Ring.{IsQueue}
use async_on_embedded.Channel.Queue.{
  Call, send, recv, run, run_queue, enqueue, dequeue, run_refines, try_send_stuck,
}
use async_on_embedded.Channel.Futures.{IsSound}
use async_on_embedded.Channel.Sending.{poll_send_lem}
use async_on_embedded.Channel.Receiving.{poll_recv_lem}
use async_on_embedded.Channel.System.{
  System, Reach, SoundFor, start, here, next, tried_send, Reach-SoundFor,
}
use async_on_embedded.WakerSet.{WakerSet}
use async_on_embedded.WakerSet.Tests.{quiet}
use async_on_embedded.WakerSet.View.{IsValid, view}
use async_on_embedded.Slab.{lookup}
use async_on_embedded.Slab.Lists.{list_slab}
use async_on_embedded.Runtime.{World, Poll, ready, pending, ntasks, usize}
use async_on_embedded.Prelude.{
  ℕ, ◌+◌, ◌-◌, ◌≤◌, ◌<◌, ◌≡◌, refl, ◌≢◌, ◌⊎◌, inl, Option, none, some, List, [], ◌∷◌, arith, length,
}

abbrev nobody : WakerSet list_slab
nobody = record { entries = ([], omega arith); notifiable = 0 }

nobody-IsValid : IsValid list_slab nobody
nobody-IsValid = record { counted = refl }

-- Two messages, and nobody who waits.
abbrev stocked : Channel list_slab ℕ
stocked = record {
  buffer = put (put (λ i. none) 0 11) 1 22;
  read = 0;
  write = 2;
  send_wakers = nobody;
  recv_wakers = nobody;
}

abbrev stock : List ℕ
stock = 11 ∷ 22 ∷ []

stocked-IsQueue : IsQueue list_slab ℕ stocked stock
stocked-IsQueue = record { cells = (refl, (refl, tt)); cursors = refl; fits = omega arith }

stocked-IsSound : IsSound list_slab ℕ stock stocked
stocked-IsSound = record {
  senders = nobody-IsValid;
  receivers = nobody-IsValid;
  queue = stocked-IsQueue;
  recv_awake = inl refl;
  send_awake = inl refl;
}

abbrev calls : List (Call list_slab ℕ)
calls = send 33 ∷ recv ∷ recv ∷ recv ∷ recv ∷ []

run_refines_example : run list_slab ℕ calls stocked quiet ≡ some (run_queue list_slab ℕ calls stock)
run_refines_example =
    run_refines list_slab ℕ calls stock stocked quiet (omega arith) stocked-IsQueue

-- an empty channel whose cursors are 2 ^ 32 - 8
abbrev worn : Channel list_slab ℕ
worn = record {
  buffer = λ i. none;
  read = usize - 8;
  write = usize - 8;
  send_wakers = nobody;
  recv_wakers = nobody;
}

worn-IsQueue : IsQueue list_slab ℕ worn []
worn-IsQueue = record { cells = tt; cursors = refl; fits = omega arith }

try_send_stuck_example : try_send list_slab ℕ 33 worn quiet ≡ (err 33, worn, quiet)
try_send_stuck_example =
    try_send_stuck list_slab ℕ 33 [] worn quiet worn-IsQueue (omega arith) (omega arith)

abbrev sending_33 : Send list_slab ℕ
sending_33 = record { msg = some 33; opt_key = none }

poll_send_lem_example :
    (p : Poll) × (f' : Send list_slab ℕ) × (c' : Channel list_slab ℕ) × (w' : World) × (poll_send
        list_slab ℕ 60 sending_33 stocked quiet
      ≡ some (p, f', c', w'))
    × IsSound list_slab ℕ (enqueue 33 stock) c'
    × (c'.read ≡ 0)
    × ((length stock < ntasks) × (p ≡ ready)
        ⊎ (length stock ≡ ntasks)
          × (p ≡ pending)
          × (f'.msg ≡ some 33)
          × ((k : ℕ) × (f'.opt_key ≡ some k)
              × (lookup k (view list_slab c'.send_wakers) ≡ some (some 60))))
poll_send_lem_example =
    poll_send_lem list_slab ℕ 60 33 stock sending_33 stocked quiet (omega arith) stocked-IsSound
      (omega arith) refl

poll_recv_lem_example :
    (o' : Option ℕ) × (c' : Channel list_slab ℕ) × (w' : World) × (poll_recv list_slab ℕ 60 none
        stocked quiet
      ≡ some ((dequeue stock).0, o', c', w'))
    × IsSound list_slab ℕ (dequeue stock).1 c'
    × (c'.read ≤ 0 + 1)
    × ((stock ≢ [])
        ⊎ (stock ≡ [])
          × ((k : ℕ) × (o' ≡ some k) × (lookup k (view list_slab c'.recv_wakers) ≡ some (some 60))))
poll_recv_lem_example =
    poll_recv_lem list_slab ℕ 60 stock none stocked quiet (omega arith) stocked-IsSound
      (omega arith)

abbrev system : Sent ℕ × Channel list_slab ℕ × World → System list_slab ℕ
system r = record { channel = r.1; world = r.2 }

abbrev sent_once : System list_slab ℕ
sent_once = system (try_send list_slab ℕ 11 (Channel.new list_slab ℕ) quiet)

abbrev sent_twice : System list_slab ℕ
sent_twice = system (try_send list_slab ℕ 22 sent_once.channel sent_once.world)

run_twice : Reach list_slab ℕ (start list_slab ℕ quiet) sent_twice
unfolding start Channel.new try_send sent
run_twice =
    next (next here (tried_send (start list_slab ℕ quiet) 11 (omega arith)))
      (tried_send sent_once 22 (omega arith))

Reach-SoundFor_example : SoundFor list_slab ℕ sent_twice
Reach-SoundFor_example = Reach-SoundFor list_slab ℕ quiet {s = sent_twice} run_twice
