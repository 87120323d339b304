-- ===== src/Timer/Counting/Waking.antt =====
-- nrf52/src/timer.rs: the task is woken when its wait is over.
use async_on_embedded.Prelude.{
  ◌-◌, Bool, subst, ◌++◌, ℕ, zero, suc, ◌+◌, ◌^◌, ◌≤◌, ◌≡◌, refl, sym, true, false, ◌||◌, some,
  List, [], ◌∷◌, arith, ◌==◌,
}
use async_on_embedded.Runtime.{wake_by_ref}
use async_on_embedded.Timer.{Rtc, u24, to_ticks, start, poll, handler}
use async_on_embedded.Timer.Counting.{
  Move, ticks, polls, tick, IsBefore, tick-IsBefore, start-IsBefore, IsPromised, IsPromised-unsure,
  matches, reached, unsure,
}

-- The registers behind these moves of a future that has not become ready; the first number is that
-- of the increments that the manual says nothing on.
pub after : (ℕ → Rtc → Bool) → ℕ → ℕ → List Move → Rtc → Rtc
after chip k waker [] r = r
after chip k waker (ticks ∷ moves) r = after chip (k - 1) waker moves (tick (matches chip k r) r)
after chip k waker (polls ∷ moves) r = after chip k waker moves (poll waker false r).2

-- how many of the moves are ticks
abbrev pub count : List Move → ℕ
count [] = 0
count (ticks ∷ moves) = suc (count moves)
count (polls ∷ moves) = count moves

-- Before the event, with the waker installed and the interrupt unmasked.
record IsArmed (waker n : ℕ) (r : Rtc) : Type 0 where
  before : IsBefore n r
  waker_of : r.waker ≡ some waker
  unmasked : r.unmasked ≡ true

tick-IsArmed :
    (waker n : ℕ) (r : Rtc)
    → suc (suc n) ≤ 2 ^ 24
    → IsArmed waker (suc (suc n)) r
    → IsArmed waker (suc n) (tick (reached r) r)
unfolding tick
tick-IsArmed waker n r l a =
    let early : (r.events_compare || u24 (r.counter + 1) == r.cc) ≡ false =
      ground (arith, a.before.cc, a.before.counter, a.before.event) in
    record {
      before = tick-IsBefore n r l a.before;
      waker_of = rw early a.waker_of;
      unmasked = rw early a.unmasked;
    }

poll-IsArmed : (waker n : ℕ) (r : Rtc) → IsBefore n r → IsArmed waker n (poll waker false r).2
unfolding poll
poll-IsArmed waker n r b =
    let polled : (poll waker false r).2 ≡ record r { unmasked = true; waker = some waker } =
      rw b.event refl in
    subst (IsArmed waker n) (sym polled) (record {
      before = record { counter = b.counter; cc = b.cc; event = b.event };
      waker_of = refl;
      unmasked = refl;
    })

tick_wakes :
    (waker : ℕ) (r : Rtc) → IsArmed waker 1 r → (tick (reached r) r).world.ready waker ≡ true
unfolding tick handler wake_by_ref
tick_wakes waker r a =
    let now : (r.events_compare || u24 (r.counter + 1) == r.cc) ≡ true =
      ground (arith, a.before.cc, a.before.event) in
    rw (now, a.unmasked, a.waker_of) (ground arith)

after_armed :
    (chip : ℕ → Rtc → Bool) (waker n : ℕ) (moves : List Move) (r : Rtc)
    → suc n ≤ 2 ^ 24
    → count moves ≡ n
    → IsArmed waker (suc n) r
    → (after chip 0 waker (moves ++ (ticks ∷ [])) r).world.ready waker ≡ true
unfolding after
after_armed chip waker zero [] r l e a = tick_wakes waker r a
after_armed chip waker (suc n) [] r l e a = absurd (omega arith)
after_armed chip waker zero (ticks ∷ moves) r l e a = absurd (omega arith)
after_armed chip waker (suc n) (ticks ∷ moves) r l e a =
    after_armed chip waker n moves (tick (reached r) r) (omega arith) (omega arith)
      (tick-IsArmed waker n r l a)
after_armed chip waker n (polls ∷ moves) r l e a =
    after_armed chip waker n moves _ l e (poll-IsArmed waker (suc n) r a.before)

-- For a duration of at least 2 and fewer than 2 ^ 24 ticks, begun with a counter of 24 bits and when
-- the compare register is neither one nor two ahead of it, and polled once at first by a task and
-- then any number of times: with the last of the ticks that the wait takes, the flag of the task is
-- raised, whatever it was before. The event COMPARE comes as the manual of the chip promises.
pub wakes_when_over :
    (chip : ℕ → Rtc → Bool) (waker secs subsec_nanos : ℕ) (r : Rtc) (moves : List Move)
    → IsPromised (to_ticks secs subsec_nanos) r
    → suc (count moves) ≡ to_ticks secs subsec_nanos
    → (s : Rtc) × (start secs subsec_nanos r ≡ some s)
      × ((after chip
              (unsure (to_ticks secs subsec_nanos) r)
              waker
              (polls ∷ (moves ++ (ticks ∷ [])))
              s).world.ready
            waker
          ≡ true)
unfolding after
wakes_when_over chip waker secs subsec_nanos r moves p last =
    let n = to_ticks secs subsec_nanos in
    let (s, e, b) = start-IsBefore secs subsec_nanos r p.counter p.short in
    let armed = poll-IsArmed waker (suc (count moves)) s (subst (λ k. IsBefore k s) (sym last) b) in
    let bound : suc (count moves) ≤ 2 ^ 24 = omega (arith, last, p.short) in
    (
      s,
      e,
      rw (IsPromised-unsure n r p) (after_armed chip waker (count moves) moves _ bound refl armed),
    )
