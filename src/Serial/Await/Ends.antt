-- ===== src/Serial/Await/Ends.antt =====
-- nrf52/src/serial.rs: the end of a read, and of a write.
use async_on_embedded.Prelude.{
  ℕ, ◌%◌, ◌^◌, ◌<◌, ◌≡◌, refl, ap, ◌∙◌, true, false, none, some, List, [], ◌∷◌, ◌++◌, arith, lt→ltb,
  ◌==◌, is_some,
}
use async_on_embedded.Runtime.{pending}
use async_on_embedded.Serial.{
  State, not_started, in_progress, Dma, Uarte, poll_read, poll_write, start_read, start_write,
  handler,
}
use async_on_embedded.Serial.Await.{
  Change, apply, answered, await, read, write_from_ram, handler-endrx, handler-rxd, handler-endtx,
  handler-txd, await-pending, await-ready, read_early, read_ended, write_early, write_ended,
}

-- changes that are not the end of a read, and not the end of a write
abbrev pub NoneReceived : List Change → Type 0
NoneReceived [] = Unit
NoneReceived (c ∷ cs) = (c.endrx ≡ false) × NoneReceived cs

abbrev pub NoneSent : List Change → Type 0
NoneSent [] = Unit
NoneSent (c ∷ cs) = (c.endtx ≡ false) × NoneSent cs

-- The end of a read: the receiver is idle, and has been given this buffer.
pub record Received (ptr len : ℕ) (u : Uarte) : Type 0 where
  pub buffer : u.rxd ≡ record { ptr = ptr; maxcnt = len }
  pub waker : u.rx_waker ≡ none
  pub event : u.endrx ≡ false

pub record Sent (ptr len : ℕ) (u : Uarte) : Type 0 where
  pub buffer : u.txd ≡ record { ptr = ptr; maxcnt = len }
  pub waker : u.tx_waker ≡ none
  pub event : u.endtx ≡ false

-- A transfer in progress, over changes that do not end it and then one that does.
read_waits :
    (waker ptr len n : ℕ) (quiet : List Change) (last : Change) (s : State) (u u₁ : Uarte)
    → poll_read waker ptr len s u ≡ some (pending, in_progress, u₁)
    → u₁.rxd ≡ record { ptr = ptr; maxcnt = n }
    → NoneReceived quiet
    → last.endrx ≡ true
    → (u' : Uarte) × (await (poll_read waker ptr len) s u (quiet ++ (last ∷ [])) ≡ answered u')
      × Received ptr n u'
read_waits waker ptr len n [] last s u u₁ e b q l =
    let v = handler (apply last u₁) in
    let end = read_ended waker ptr len v (handler-endrx last u₁ ∙ l) in
    (
      record v { endrx = false; rx_waker = none; unmasked = is_some v.tx_waker },
      await-pending _ s in_progress u u₁ last [] e ∙ await-ready _ in_progress v _ [] end,
      record { buffer = handler-rxd last u₁ ∙ b; waker = refl; event = refl },
    )
read_waits waker ptr len n (c ∷ quiet) last s u u₁ e b q l =
    let v = handler (apply c u₁) in
    let early = read_early waker ptr len v (handler-endrx c u₁ ∙ q.0) in
    let (u', ih, r) =
      read_waits waker ptr len n quiet last in_progress v (record v { unmasked = true }) early
        (handler-rxd c u₁ ∙ b) q.1 l in
    (u', await-pending _ s in_progress u u₁ c _ e ∙ ih, r)

write_waits :
    (waker ptr len n : ℕ) (quiet : List Change) (last : Change) (s : State) (u u₁ : Uarte)
    → poll_write waker ptr len s u ≡ some (pending, in_progress, u₁)
    → u₁.txd ≡ record { ptr = ptr; maxcnt = n }
    → NoneSent quiet
    → last.endtx ≡ true
    → (u' : Uarte) × (await (poll_write waker ptr len) s u (quiet ++ (last ∷ [])) ≡ answered u')
      × Sent ptr n u'
write_waits waker ptr len n [] last s u u₁ e b q l =
    let v = handler (apply last u₁) in
    let end = write_ended waker ptr len v (handler-endtx last u₁ ∙ l) in
    (
      record v { endtx = false; tx_waker = none; unmasked = is_some v.rx_waker },
      await-pending _ s in_progress u u₁ last [] e ∙ await-ready _ in_progress v _ [] end,
      record { buffer = handler-txd last u₁ ∙ b; waker = refl; event = refl },
    )
write_waits waker ptr len n (c ∷ quiet) last s u u₁ e b q l =
    let v = handler (apply c u₁) in
    let early = write_early waker ptr len v (handler-endtx c u₁ ∙ q.0) in
    let (u', ih, r) =
      write_waits waker ptr len n quiet last in_progress v (record v { unmasked = true }) early
        (handler-txd c u₁ ∙ b) q.1 l in
    (u', await-pending _ s in_progress u u₁ c _ e ∙ ih, r)

pub read_starts :
    (waker ptr len : ℕ) (u : Uarte)
    → 0 < len
    → poll_read waker ptr len not_started u
      ≡ some (pending, in_progress, start_read waker ptr len u)
unfolding poll_read start_read
read_starts waker ptr len u l = let full : (len == 0) ≡ false = ground arith in rw full

pub write_starts :
    (waker ptr len : ℕ) (u : Uarte)
    → 0 < len
    → poll_write waker ptr len not_started u
      ≡ some (pending, in_progress, start_write waker ptr len u)
unfolding poll_write start_write
write_starts waker ptr len u l = let full : (len == 0) ≡ false = ground arith in rw full

-- A read, and a write out of RAM, of at least one byte and fewer than 1024, awaited over any number
-- of interrupts that are not the end of it and then one that is, answers without a panic; the DMA
-- was given the whole buffer, the waker is taken down, and the event is reset.
pub transfers_end :
    (waker ptr len : ℕ) (u : Uarte) (before before' : List Change) (last last' : Change)
    → 0 < len
    → len < 1024
    → NoneReceived before
    → last.endrx ≡ true
    → NoneSent before'
    → last'.endtx ≡ true
    → ((u' : Uarte) × (read waker ptr len u (before ++ (last ∷ [])) ≡ answered u')
        × Received ptr len u')
      × ((u' : Uarte) × (write_from_ram waker ptr len u (before' ++ (last' ∷ [])) ≡ answered u')
          × Sent ptr len u')
unfolding read write_from_ram start_read start_write
transfers_end waker ptr len u before before' last last' lo hi r e s e' =
    let whole : len % 2 ^ 16 ≡ len = omega arith in
    let given : ℕ → Dma = λ n. record { ptr = ptr; maxcnt = n } in
    let buffer = ap given whole in
    let (u₁, er, received) =
      read_waits waker ptr len len before last not_started u (start_read waker ptr len u)
        (read_starts waker ptr len u lo) buffer r e in
    let (u₂, ew, sent) =
      write_waits waker ptr len len before' last' not_started u (start_write waker ptr len u)
        (write_starts waker ptr len u lo) buffer s e' in
    ((u₁, rw (lt→ltb _ _ hi) er, received), (u₂, rw (lt→ltb _ _ hi) ew, sent))
