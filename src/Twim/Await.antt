-- ===== src/Twim/Await.antt =====
-- nrf52/src/twim.rs: the three transactions awaited to their end: `read`, `write_from_ram` and
-- `write_from_ram_then_read`, with the drop of the future.
pub mod Combined
use async_on_embedded.Prelude.{
  ◌⊎◌, ℕ, ◌%◌, ◌<◌, ◌≡◌, refl, true, false, Option, none, some, List, [], ◌∷◌, ◌++◌, arith, ltb,
  ◌==◌, if◌then◌else◌, inl, inr, Bool-cases, ◌∙◌, lt→ltb,
}
use async_on_embedded.Twim.{
  uninstall, short_write, finish_read, finish_write, clear_read, clear_write, src, start_write,
  short_read, start_read, unmask, poll_write_then_read, poll_write, poll_read, handler, not_started,
  in_progress, Polled, drop_future,
}
use async_on_embedded.Twim0.{Error, Slice, State, Answer, pending, done, failed, Events, Twim}

-- What the registers hold when the next interrupt comes.
pub record Change : Type 0 where
  pub events : Events
  pub errorsrc : ℕ
  pub read_amount : ℕ
  pub write_amount : ℕ

abbrev pub apply : Change → Twim → Twim
apply c t = record t {
  events = c.events;
  errorsrc = c.errorsrc;
  rxd = record t.rxd { amount = c.read_amount };
  txd = record t.txd { amount = c.write_amount };
}

-- `waiting`: the changes are used up, the transaction is not at its end.
pub data Awaited : Type 0 where
  answered : Answer → Twim → Awaited
  panicked : Awaited
  waiting : State → Twim → Awaited

-- The future is dropped as soon as it has answered.
pub finish : Answer → Option (Unit {0}) → Twim → Awaited
finish a none t = panicked
finish a (some u) t = answered a t

pub settle : Option (Answer × State × Twim) → Awaited
unfolding finish
settle none = panicked
settle (some (pending, s, t)) = waiting s t
settle (some (done, s, t)) = finish done (drop_future s) t
settle (some (failed e, s, t)) = finish (failed e) (drop_future s) t

-- Every change raises the interrupt, whose handler wakes the task, which polls again.
pub await : (State → Twim → Polled) → State → Twim → List Change → Awaited
unfolding settle
await poll s t [] = settle (poll s t)
await poll s t (c ∷ later) = elim (settle (poll s t)) [
  | waiting s' t' ↦ await poll s' (handler (apply c t')) later
  | answered a t' ↦ answered a t'
  | panicked ↦ panicked
]

-- `Twim::read`
pub read : ℕ → ℕ → Slice → Twim → List Change → Awaited
read waker address buf t changes =
    let awaited = await (poll_read waker address buf) not_started t changes in
    if ltb buf.len 256 then awaited else panicked

-- `Twim::write_from_ram`
pub write_from_ram : ℕ → ℕ → Slice → Twim → List Change → Awaited
write_from_ram waker address bytes t changes =
    await (poll_write waker address bytes) not_started t changes

-- `Twim::write_from_ram_then_read`
pub write_from_ram_then_read : ℕ → ℕ → Slice → Slice → Twim → List Change → Awaited
write_from_ram_then_read waker address wr_buf rd_buf t changes =
    await (poll_write_then_read waker address wr_buf rd_buf) not_started t changes

-- A change that is neither an error nor the end of the transaction, such as the start of a
-- transfer.
abbrev pub IsSpurious : Change → Type 0
IsSpurious c = (c.events.error ≡ false) × (c.events.stopped ≡ false)

abbrev pub AllSpurious : List Change → Type 0
AllSpurious [] = Unit
AllSpurious (c ∷ cs) = IsSpurious c × AllSpurious cs

-- A future whose first poll is pending and whose later polls are pending at spurious changes.
pub record Patient (poll : State → Twim → Polled) : Type 0 where
  pub starts : (t : Twim) → (t' : Twim) × (poll not_started t ≡ some (pending, in_progress, t'))
  pub again :
      (c : Change) (t : Twim)
      → IsSpurious c
      → poll in_progress (handler (apply c t))
        ≡ some (pending, in_progress, unmask (handler (apply c t)))

-- Spurious changes do not matter: the poll at the last change decides.
pub await-last :
    (poll : State → Twim → Polled) (s : State) (t t₁ : Twim) (spurious : List Change)
    (last : Change)
    → Patient poll
    → AllSpurious spurious
    → poll s t ≡ some (pending, in_progress, t₁)
    → (t' : Twim) × (await poll s t (spurious ++ (last ∷ []))
        ≡ settle (poll in_progress (handler (apply last t'))))
unfolding await settle
await-last poll s t t₁ [] last p q e = (t₁, rw (e, await))
await-last poll s t t₁ (c ∷ spurious) last p q e =
    let (t', ih) =
      await-last poll in_progress (handler (apply c t₁)) (unmask (handler (apply c t₁))) spurious
        last p q.1 (p.again c t₁ q.0) in
    (t', rw (e, await) ih)

-- the answer that a change which ends a transfer of `len` bytes, `amount` of them moved, stands for
abbrev pub verdict : Change → ℕ → ℕ → (ℕ → Error) → Answer
verdict c len amount short =
    if c.events.error
    then failed (src (c.errorsrc % 256))
    else if amount % 256 == len % 256
    then done
    else failed (short (amount % 256))

-- What the handler leaves alone.
pub record Seen (c : Change) (u : Twim) : Type 0 where
  pub events : u.events ≡ c.events
  pub errorsrc : u.errorsrc ≡ c.errorsrc
  pub read_amount : u.rxd.amount ≡ c.read_amount
  pub write_amount : u.txd.amount ≡ c.write_amount

pub handler-Seen : (c : Change) (t : Twim) → Seen c (handler (apply c t))
unfolding handler
handler-Seen c t = ground arith

read-Patient : (waker address : ℕ) (buf : Slice) → Patient (poll_read waker address buf)
unfolding poll_read handler
read-Patient waker address buf = record {
  starts = λ t. (start_read waker address buf t, refl);
  again = λ c t q. ground arith;
}

write-Patient : (waker address : ℕ) (bytes : Slice) → Patient (poll_write waker address bytes)
unfolding poll_write handler
write-Patient waker address bytes = record {
  starts = λ t. (start_write waker address bytes t, refl);
  again = λ c t q. ground arith;
}

read_settled :
    (waker address : ℕ) (buf : Slice) (c : Change) (u : Twim)
    → Seen c u
    → (c.events.error ≡ true) ⊎ (c.events.stopped ≡ true)
    → (t' : Twim) × (settle (poll_read waker address buf in_progress u)
        ≡ answered (verdict c buf.len c.read_amount short_read) t')
unfolding settle finish poll_read finish_read drop_future
read_settled waker address buf c u seen e = elim (Bool-cases c.events.error) [
  | inl bad ↦ (record u { events = clear_read u.events }, ground (arith, seen, bad))
  | inr good ↦
      (uninstall (record u { events = clear_read u.events }), ground (arith, seen, good, e))
]

write_settled :
    (waker address : ℕ) (bytes : Slice) (c : Change) (u : Twim)
    → Seen c u
    → (c.events.error ≡ true) ⊎ (c.events.stopped ≡ true)
    → (t' : Twim) × (settle (poll_write waker address bytes in_progress u)
        ≡ answered (verdict c bytes.len c.write_amount short_write) t')
unfolding settle finish poll_write finish_write drop_future
write_settled waker address bytes c u seen e = elim (Bool-cases c.events.error) [
  | inl bad ↦ (record u { events = clear_write u.events }, ground (arith, seen, bad))
  | inr good ↦
      (uninstall (record u { events = clear_write u.events }), ground (arith, seen, good, e))
]

-- A read of fewer than 256 bytes, or a write out of RAM, awaited over any number of spurious
-- changes and then one that is an error or the end of the transaction, answers with what that
-- change stands for: the error of the bus, or the success if the amount moved is the length (both
-- to 8 bits), or else the short transfer.
pub awaited_lem :
    (waker address : ℕ) (buf : Slice) (t : Twim) (spurious : List Change) (last : Change)
    → AllSpurious spurious
    → (last.events.error ≡ true) ⊎ (last.events.stopped ≡ true)
    → buf.len < 256
    → ((t' : Twim) × (read waker address buf t (spurious ++ (last ∷ []))
          ≡ answered (verdict last buf.len last.read_amount short_read) t'))
      × ((t' : Twim) × (write_from_ram waker address buf t (spurious ++ (last ∷ []))
            ≡ answered (verdict last buf.len last.write_amount short_write) t'))
unfolding read write_from_ram
awaited_lem waker address buf t spurious last s e fits =
    let pr = read-Patient waker address buf in
    let (r₁, r) = pr.starts t in
    let (ur, er) = await-last _ not_started t r₁ spurious last pr s r in
    let (tr, vr) = read_settled waker address buf last _ (handler-Seen last ur) e in
    let pw = write-Patient waker address buf in
    let (w₁, w) = pw.starts t in
    let (uw, ew) = await-last _ not_started t w₁ spurious last pw s w in
    let (tw, vw) = write_settled waker address buf last _ (handler-Seen last uw) e in
    ((tr, rw (lt→ltb _ _ fits) (er ∙ vr)), (tw, ew ∙ vw))
