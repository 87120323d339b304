-- ===== src/Timer/Counting.antt =====
-- nrf52/src/timer.rs: a wait awaited to its end, over the ticks of the counter. The manual of the
-- chip has RTC0 raise the event COMPARE with an increment that takes the counter to CC. It promises
-- nothing on the first increments after CC is written one ahead of the counter or on it, or while
-- the old CC is one or two ahead: there the event is a parameter, `chip`.
pub mod Waking
use async_on_embedded.Prelude.{
  ◌≢◌, lt→ltb, ℕ, zero, suc, ◌+◌, ◌-◌, ◌^◌, ◌≤◌, ◌<◌, ◌≡◌, refl, ap, ◌∙◌, Bool, true, false, ◌&&◌,
  ◌||◌, not, Option, none, some, List, [], ◌∷◌, arith, ◌==◌, leb, if◌then◌else◌, ◌>>=◌,
}
use async_on_embedded.Runtime.{Poll, ready, pending}
use async_on_embedded.Timer.{u32, Rtc, u24, to_ticks, start, poll, handler}

-- The counter goes on by one, or the executor polls the task.
pub data Move : Type 0 where
  ticks polls : Move

-- A tick of the counter, with whether CC matches: an event for which the interrupt is unmasked is
-- taken at once.
pub tick : Bool → Rtc → Rtc
tick match r =
    let event = r.events_compare || match in
    let r' = record r { counter = u24 (r.counter + 1); events_compare = event } in
    if event && r.unmasked then handler r' else r'

-- the match that the manual promises
abbrev pub reached : Rtc → Bool
reached r = u24 (r.counter + 1) == r.cc

-- whether the manual says what happens when CC is written so many ticks ahead
abbrev is_documented : ℕ → Rtc → Bool
is_documented n r = leb 2 n && not (r.cc == u24 (r.counter + 1) || r.cc == u24 (r.counter + 2))

-- how many of the next increments the manual says nothing on
abbrev pub unsure : ℕ → Rtc → ℕ
unsure n r = if is_documented n r then 0 else 2

ended :
    Poll × Bool × Rtc
    → (Bool → Rtc → Option (List Move × Rtc))
    → List Move
    → Option (List Move × Rtc)
ended (ready, installed, r) go_on later = some (later, r)
ended (pending, installed, r) go_on later = go_on installed r

module _ (chip : ℕ → Rtc → Bool) where
  abbrev pub matches : ℕ → Rtc → Bool
  matches zero r = reached r
  matches (suc k) r = chip k r

  -- `Wait` over these moves, the first number being that of the increments that the manual says
  -- nothing on: the moves that are left when a poll is ready.
  pub await : ℕ → ℕ → Bool → Rtc → List Move → Option (List Move × Rtc)
  unfolding tick ended
  await k waker installed r [] = none
  await k waker installed r (ticks ∷ moves) =
      await (k - 1) waker installed (tick (matches k r) r) moves
  await k waker installed r (polls ∷ moves) =
      ended (poll waker installed r) (λ installed' r'. await k waker installed' r' moves) moves

  -- `Timer::wait`, which polls its future once at first
  pub wait : ℕ → ℕ → ℕ → Rtc → List Move → Option (List Move × Rtc)
  wait waker secs subsec_nanos r moves = do
    r' ← start secs subsec_nanos r
    await (unsure (to_ticks secs subsec_nanos) r) waker false r' (polls ∷ moves)

-- The moves behind the first poll that comes after so many ticks.
abbrev pub due : ℕ → List Move → Option (List Move)
due n [] = none
due (suc n) (ticks ∷ moves) = due n moves
due (suc n) (polls ∷ moves) = due (suc n) moves
due zero (ticks ∷ moves) = due zero moves
due zero (polls ∷ moves) = some moves

abbrev pub left : Option (List Move × Rtc) → Option (List Move)
left none = none
left (some (moves, r)) = some moves

-- a tick, as far as the event is concerned
record Ticked (r r' : Rtc) : Type 0 where
  counter : r'.counter ≡ u24 (r.counter + 1)
  cc : r'.cc ≡ r.cc
  event : r'.events_compare ≡ (r.events_compare || u24 (r.counter + 1) == r.cc)

handler-Ticked : (r r' : Rtc) → Ticked r r' → Ticked r (handler r')
unfolding handler
handler-Ticked r r' t = record {
  counter = ground (arith, t.counter);
  cc = ground (arith, t.cc);
  event = ground (arith, t.event);
}

if-Ticked : (b : Bool) (r r₁ r₂ : Rtc) → Ticked r r₁ → Ticked r r₂ → Ticked r (if b then r₁ else r₂)
if-Ticked true r r₁ r₂ t₁ t₂ = t₁
if-Ticked false r r₁ r₂ t₁ t₂ = t₂

tick-Ticked : (r : Rtc) → Ticked r (tick (reached r) r)
unfolding tick
tick-Ticked r =
    if-Ticked _ r _ _ (handler-Ticked r _ (record { counter = refl; cc = refl; event = refl }))
      (record { counter = refl; cc = refl; event = refl })

-- Behind the event every tick leaves it, and a poll is ready.
tick_due : (r : Rtc) → r.events_compare ≡ true → (tick (reached r) r).events_compare ≡ true
tick_due r e = (tick-Ticked r).event ∙ ap (λ event. event || u24 (r.counter + 1) == r.cc) e

event_due :
    (chip : ℕ → Rtc → Bool) (waker : ℕ) (installed : Bool) (r : Rtc) (moves : List Move)
    → r.events_compare ≡ true
    → left (await chip 0 waker installed r moves) ≡ due zero moves
unfolding await poll
event_due chip waker installed r [] e = refl
event_due chip waker installed r (ticks ∷ moves) e =
    event_due chip waker installed (tick (reached r) r) moves (tick_due r e)
event_due chip waker installed r (polls ∷ moves) e = rw e

-- The counter is so many ticks before the compare register, and the event has not come.
pub record IsBefore (n : ℕ) (r : Rtc) : Type 0 where
  pub counter : r.counter < 2 ^ 24
  pub cc : u24 (r.counter + n) ≡ r.cc
  pub event : r.events_compare ≡ false

pub tick-IsBefore :
    (n : ℕ) (r : Rtc)
    → suc (suc n) ≤ 2 ^ 24
    → IsBefore (suc (suc n)) r
    → IsBefore (suc n) (tick (reached r) r)
tick-IsBefore n r l b =
    let t = tick-Ticked r in
    let early : (u24 (r.counter + 1) == r.cc) ≡ false = ground (arith, b.cc, b.counter) in
    record {
      counter = omega (arith, t.counter);
      cc = omega (arith, t.counter, t.cc, b.cc, b.counter);
      event = t.event ∙ rw (b.event, early);
    }

tick_last : (r : Rtc) → IsBefore 1 r → (tick (reached r) r).events_compare ≡ true
tick_last r b =
    let t = tick-Ticked r in
    let now : (u24 (r.counter + 1) == r.cc) ≡ true = ground (arith, b.cc) in
    t.event ∙ rw (b.event, now)

-- A poll before the event is pending.
poll_early :
    (n waker : ℕ) (installed : Bool) (r : Rtc)
    → IsBefore n r
    → (r' : Rtc) × (poll waker installed r ≡ (pending, installed, r')) × IsBefore n r'
unfolding poll
poll_early n waker true r b = (
  record r { unmasked = true },
  rw b.event,
  record { counter = b.counter; cc = b.cc; event = b.event },
)
poll_early n waker false r b = (
  record r { waker = some waker; unmasked = true },
  rw b.event,
  record { counter = b.counter; cc = b.cc; event = b.event },
)

await_before :
    (chip : ℕ → Rtc → Bool) (n waker : ℕ) (installed : Bool) (r : Rtc) (moves : List Move)
    → suc n ≤ 2 ^ 24
    → IsBefore (suc n) r
    → left (await chip 0 waker installed r moves) ≡ due (suc n) moves
unfolding await poll
await_before chip n waker installed r [] l b = refl
await_before chip zero waker installed r (ticks ∷ moves) l b =
    event_due chip waker installed (tick (reached r) r) moves (tick_last r b)
await_before chip (suc n) waker installed r (ticks ∷ moves) l b =
    await_before chip n waker installed (tick (reached r) r) moves (omega arith)
      (tick-IsBefore n r l b)
await_before chip n waker installed r (polls ∷ moves) l b =
    let (r', e, b') = poll_early (suc n) waker installed r b in
    ap (λ p. left (ended p (λ installed' r''. await chip 0 waker installed' r'' moves) moves)) e
    ∙ await_before chip n waker installed r' moves l b'

deadline :
    (n counter : ℕ)
    → counter < 2 ^ 24
    → n < 2 ^ 24
    → u24 (counter + n) ≡ u24 (u32 (counter + u32 n))
deadline n counter c t = omega arith

pub start-IsBefore :
    (secs subsec_nanos : ℕ) (r : Rtc)
    → r.counter < 2 ^ 24
    → to_ticks secs subsec_nanos < 2 ^ 24
    → (s : Rtc) × (start secs subsec_nanos r ≡ some s) × IsBefore (to_ticks secs subsec_nanos) s
unfolding start
start-IsBefore secs subsec_nanos r c t =
    let n = to_ticks secs subsec_nanos in
    (
      record r { unmasked = false; events_compare = false; cc = u24 (u32 (r.counter + u32 n)) },
      rw (lt→ltb n (2 ^ 24) t),
      record { counter = c; cc = deadline n r.counter c t; event = refl },
    )

await_started :
    (chip : ℕ → Rtc → Bool) (n waker : ℕ) (r : Rtc) (moves : List Move)
    → 2 ≤ n
    → n < 2 ^ 24
    → IsBefore n r
    → left (await chip 0 waker false r moves) ≡ due n moves
await_started chip zero waker r moves two t b = absurd (omega arith)
await_started chip (suc n) waker r moves two t b =
    await_before chip n waker false r moves (omega arith) b

-- When a wait is within what the manual of the chip promises.
pub record IsPromised (n : ℕ) (r : Rtc) : Type 0 where
  pub counter : r.counter < 2 ^ 24
  pub two : 2 ≤ n
  pub short : n < 2 ^ 24
  pub not_next : r.cc ≢ u24 (r.counter + 1)
  pub not_second : r.cc ≢ u24 (r.counter + 2)

pub IsPromised-unsure : (n : ℕ) (r : Rtc) → IsPromised n r → unsure n r ≡ 0
IsPromised-unsure n r p = ground (arith, p.two, p.not_next, p.not_second)

-- For a duration of at least 2 and fewer than 2 ^ 24 ticks, begun with a counter of 24 bits and when
-- the compare register is neither one nor two ahead of it: `wait` is over at exactly the first poll
-- that comes after as many ticks of the counter as the duration has, however often the task is
-- polled before that, and not over as long as there is no such poll. The event COMPARE comes as the
-- manual of the chip promises, whatever the chip does where that promises nothing.
pub wait_lem :
    (chip : ℕ → Rtc → Bool) (waker secs subsec_nanos : ℕ) (r : Rtc) (moves : List Move)
    → IsPromised (to_ticks secs subsec_nanos) r
    → left (wait chip waker secs subsec_nanos r moves)
      ≡ due (to_ticks secs subsec_nanos) (polls ∷ moves)
unfolding wait
wait_lem chip waker secs subsec_nanos r moves p =
    let n = to_ticks secs subsec_nanos in
    let (s, e, b) = start-IsBefore secs subsec_nanos r p.counter p.short in
    rw (e, IsPromised-unsure n r p) (await_started chip n waker s (polls ∷ moves) p.two p.short b)
