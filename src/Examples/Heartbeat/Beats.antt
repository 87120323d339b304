-- ===== src/Examples/Heartbeat/Beats.antt =====
-- nrf52/examples/5-heartbeat.rs: what a poll of the future does.
use async_on_embedded.Prelude.{
  ℕ, suc, ◌+◌, ◌≡◌, refl, ap, ◌∙◌, Bool, true, false, inl, inr, ◌⊎◌, not, some, arith, Bool-cases,
}
use async_on_embedded.Led.{Port, on, off}
use async_on_embedded.Timer
use async_on_embedded.Timer.{Rtc, u24}
use async_on_embedded.Runtime.{ready, pending}
use async_on_embedded.Examples.Heartbeat.{
  Phase, first_on, first_off, second_on, second_off, next, duration, Place, begins, waits, Board,
  switch, started, polled, advance, poll, blocked,
}

-- the ticks of the four waits
abbrev pub ticks : Phase → ℕ
ticks first_on = 3276
ticks first_off = 3276
ticks second_on = 3276
ticks second_off = 39321

abbrev pub shines : Phase → Bool
shines first_on = true
shines first_off = false
shines second_on = true
shines second_off = false

-- The future waits in this phase: the LED, on pin 13 and lit when low, is as it should be, and the
-- timer is set and wakes this task.
pub record Waits (waker : ℕ) (ph : Phase) (counter : ℕ) (b : Board) : Type 0 where
  pub high : b.port.high 13 ≡ (not (shines ph))
  pub deadline : b.rtc.cc ≡ u24 (counter + ticks ph)
  pub reset : b.rtc.events_compare ≡ false
  pub unmasked : b.rtc.unmasked ≡ true
  pub waker_set : b.rtc.waker ≡ some waker

switched : (ph : Phase) (p : Port) → (switch ph p).high 13 ≡ not (shines ph)
unfolding switch on off
switched first_on p = refl
switched first_off p = refl
switched second_on p = refl
switched second_off p = refl

-- the registers of the timer when a wait has begun and was polled
abbrev armed : ℕ → Phase → Rtc → Rtc
armed waker ph r = record r {
  events_compare = false;
  cc = u24 (r.counter + ticks ph);
  waker = some waker;
  unmasked = true;
}

start-ticks :
    (ph : Phase) (r : Rtc)
    → let (secs, nanos) = duration ph in
      Timer.start secs nanos r
      ≡ some
          (record r { unmasked = false; events_compare = false; cc = u24 (r.counter + ticks ph) })
unfolding Timer.start Timer.to_ticks
start-ticks first_on r =
    ap (λ c. some (record r { unmasked = false; events_compare = false; cc = c })) (omega arith)
start-ticks first_off r =
    ap (λ c. some (record r { unmasked = false; events_compare = false; cc = c })) (omega arith)
start-ticks second_on r =
    ap (λ c. some (record r { unmasked = false; events_compare = false; cc = c })) (omega arith)
start-ticks second_off r =
    ap (λ c. some (record r { unmasked = false; events_compare = false; cc = c })) (omega arith)

-- A phase that begins: the LED is switched, and the future waits.
abbrev begun : ℕ → Phase → Board → Board
begun waker ph b = record { rtc = armed waker ph b.rtc; port = switch ph b.port }

-- a move that ends in a wait, and one that does not
poll-blocked :
    (fuel waker : ℕ) (at at' : Place) (b b' : Board)
    → advance waker at b ≡ some (true, at', b')
    → poll (suc fuel) waker at b ≡ blocked at' b'
unfolding poll
poll-blocked fuel waker at at' b b' e = rw (e, poll)

poll-moved :
    (fuel waker : ℕ) (at at' : Place) (b b' : Board)
    → advance waker at b ≡ some (false, at', b')
    → poll (suc fuel) waker at b ≡ poll fuel waker at' b'
unfolding poll
poll-moved fuel waker at at' b b' e = rw (e, poll)

-- the timer's poll with the event, and without it
timer_due :
    (waker : ℕ) (r : Rtc)
    → r.events_compare ≡ true
    → Timer.poll waker false r ≡ (ready, false, record r { events_compare = false })
unfolding Timer.poll
timer_due waker r e = ground arith

timer_early :
    (waker : ℕ) (r : Rtc)
    → r.events_compare ≡ false
    → Timer.poll waker false r ≡ (pending, false, record r { waker = some waker; unmasked = true })
unfolding Timer.poll
timer_early waker r e = ground arith

poll-begins :
    (fuel waker : ℕ) (ph : Phase) (b : Board)
    → poll (suc (suc fuel)) waker (begins ph) b ≡ blocked (waits ph false) (begun waker ph b)
unfolding advance started polled
poll-begins fuel waker ph b =
    let r = record b.rtc {
      unmasked = false;
      events_compare = false;
      cc = u24 (b.rtc.counter + ticks ph);
    } in
    let b' : Board = record { rtc = r; port = switch ph b.port } in
    poll-moved (suc fuel) waker (begins ph) (waits ph false) b b'
      (ap (started ph b) (start-ticks ph b.rtc))
    ∙ poll-blocked fuel waker (waits ph false) (waits ph false) b' (begun waker ph b)
        (ap (λ p. some (polled ph b' p)) (timer_early waker r refl))

begun-Waits : (waker : ℕ) (ph : Phase) (b : Board) → Waits waker ph b.rtc.counter (begun waker ph b)
begun-Waits waker ph b = record {
  high = switched ph b.port;
  deadline = refl;
  reset = refl;
  unmasked = refl;
  waker_set = refl;
}

-- The board when the event of the compare register is taken, and when there is none.
abbrev taken : Board → Board
taken b = record b { rtc = record b.rtc { events_compare = false } }

abbrev pub rearmed : ℕ → Board → Board
rearmed waker b = record b { rtc = record b.rtc { waker = some waker; unmasked = true } }

poll-due :
    (fuel waker : ℕ) (ph : Phase) (b : Board)
    → b.rtc.events_compare ≡ true
    → poll (suc (suc (suc fuel))) waker (waits ph false) b
      ≡ blocked (waits (next ph) false) (begun waker (next ph) (taken b))
unfolding advance polled
poll-due fuel waker ph b e =
    poll-moved (suc (suc fuel)) waker (waits ph false) (begins (next ph)) b (taken b)
      (ap (λ p. some (polled ph b p)) (timer_due waker b.rtc e))
    ∙ poll-begins fuel waker (next ph) (taken b)

poll-early :
    (fuel waker : ℕ) (ph : Phase) (b : Board)
    → b.rtc.events_compare ≡ false
    → poll (suc fuel) waker (waits ph false) b ≡ blocked (waits ph false) (rearmed waker b)
unfolding advance polled
poll-early fuel waker ph b e =
    poll-blocked fuel waker (waits ph false) (waits ph false) b (rearmed waker b)
      (ap (λ p. some (polled ph b p)) (timer_early waker b.rtc e))

-- With fuel for three moves, a poll of the future, from its start or in a wait whose flag
-- `installed_waker` is down, blocks and does not panic. The first poll lights the LED and sets the
-- timer. A later poll goes on to the next of the four phases exactly if the compare event is set:
-- the LED is on, off, on, off in turn, and the timer is set to 3276 ticks, and in the last phase to
-- 39321. Without the event the poll only installs the waker again and unmasks the interrupt. No poll
-- raises the flag.
pub beats :
    (fuel waker : ℕ) (ph : Phase) (b : Board)
    → ((b' : Board) × (poll (suc (suc (suc fuel))) waker (begins first_on) b
          ≡ blocked (waits first_on false) b')
        × Waits waker first_on b.rtc.counter b')
      × (((b.rtc.events_compare ≡ true)
            × ((b' : Board) × (poll (suc (suc (suc fuel))) waker (waits ph false) b
                  ≡ blocked (waits (next ph) false) b')
                × Waits waker (next ph) b.rtc.counter b'))
          ⊎ ((b.rtc.events_compare ≡ false)
              × (poll (suc (suc (suc fuel))) waker (waits ph false) b
                  ≡ blocked (waits ph false) (rearmed waker b))))
beats fuel waker ph b = (
  (begun waker first_on b, poll-begins (suc fuel) waker first_on b, begun-Waits waker first_on b),
  elim (Bool-cases b.rtc.events_compare) [
    | inl due ↦ inl (
      due,
      (
        begun waker (next ph) (taken b),
        poll-due fuel waker ph b due,
        begun-Waits waker (next ph) (taken b),
      ),
    )
    | inr early ↦ inr (early, poll-early (suc (suc fuel)) waker ph b early)
  ],
)
