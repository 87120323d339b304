-- ===== src/Serial/Link/Moves.antt =====
-- nrf52/src/serial.rs: which bytes a write moves.
use async_on_embedded.Prelude.{
  lt-cases, Bool-cases, ltb, ℕ, zero, suc, ◌+◌, ◌%◌, ◌^◌, ◌≤◌, ◌<◌, ◌≡◌, refl, sym, ap, ◌∙◌, ◌⊎◌,
  inl, inr, true, false, none, some, List, [], ◌∷◌, ◌++◌, length, arith, ◌==◌,
}
use mathlib.Core.List.{append_assoc, append-nil}
use async_on_embedded.Bus.Registers.{load}
use async_on_embedded.Host.{store}
use async_on_embedded.Host.Bytes.{load-store, length-load}
use async_on_embedded.Serial.{not_started, poll_write, start_write, chunks}
use async_on_embedded.Serial.Await
use async_on_embedded.Serial.Await.{Change, await-ready}
use async_on_embedded.Serial.Await.Ends.{NoneReceived, NoneSent, transfers_end, write_starts}
use async_on_embedded.Serial.Chunks.{joined, AllFit, joined-chunks, chunks-AllFit}
use async_on_embedded.Serial.Link.{
  Link, ended, transmitted, concluded, write_from_ram, write_chunks, write, zeroed, blanks,
}
use async_on_embedded.Twim.{slice_in_ram}
use async_on_embedded.Twim.Staging.{Memory}

store-below :
    (ptr : ℕ) (bytes : List ℕ) (mem : Memory) (a : ℕ) → a < ptr → store ptr bytes mem a ≡ mem a
store-below ptr [] mem a l = refl
store-below ptr (b ∷ bytes) mem a l =
    let other : (ptr == a) ≡ false = ground arith in
    rw other (store-below (ptr + 1) bytes mem a (omega arith))

-- What has become of the link once bytes have left: below the buffer nothing is written.
pub record Sends (stack : ℕ) (l : Link) (bytes : List ℕ) (l' : Link) : Type 0 where
  pub sent : l'.sent ≡ l.sent ++ bytes
  pub input : l'.input ≡ l.input
  pub kept : (a : ℕ) → a < stack → l'.mem a ≡ l.mem a

module _ (waker : ℕ) (early : List Change) (stack : ℕ) where
  nothing-Sends : (l : Link) → Sends stack l [] l
  nothing-Sends l = record { sent = sym (append-nil l.sent); input = refl; kept = λ a below. refl }

  transmitted_from :
      (ptr len : ℕ) (l : Link)
      → 0 < len
      → len < 1024
      → transmitted (poll_write waker ptr len not_started l.uarte) l
        ≡ some (record l { sent = l.sent ++ load ptr len l.mem })
  unfolding transmitted start_write
  transmitted_from ptr len l lo hi =
      let whole : len % 2 ^ 16 ≡ len = omega arith in
      rw (write_starts waker ptr len l.uarte lo, whole)

  write_nothing : (ptr : ℕ) (l : Link) → write_from_ram waker early ptr zero l ≡ some l
  unfolding write_from_ram poll_write transmitted concluded Await.write_from_ram
  write_nothing ptr l =
      let answer =
        await-ready (poll_write waker ptr zero) not_started l.uarte l.uarte (early ++ (ended ∷ []))
          refl in
      ap (λ awaited. concluded awaited l) answer

  write_some :
      (ptr len : ℕ) (l : Link)
      → 0 < len
      → len < 1024
      → NoneReceived early
      → NoneSent early
      → (l' : Link) × (write_from_ram waker early ptr len l ≡ some l')
        × Sends stack l (load ptr len l.mem) l'
  unfolding write_from_ram concluded
  write_some ptr len l lo hi rx tx =
      let (u', e, s) =
        (transfers_end waker ptr len l.uarte early early ended ended lo hi rx refl tx refl).1 in
      (
        record l { uarte = u'; sent = l.sent ++ load ptr len l.mem },
        rw (transmitted_from ptr len l lo hi, e),
        record { sent = refl; input = refl; kept = λ a below. refl },
      )

  write_short :
      (ptr len : ℕ) (l : Link)
      → len < 1024
      → NoneReceived early
      → NoneSent early
      → (l' : Link) × (write_from_ram waker early ptr len l ≡ some l')
        × Sends stack l (load ptr len l.mem) l'
  write_short ptr zero l hi rx tx = (l, write_nothing ptr l, nothing-Sends l)
  write_short ptr (suc n) l hi rx tx = write_some ptr (suc n) l (omega arith) hi rx tx

  write_slices :
      (slices : List (List ℕ)) (l : Link)
      → AllFit slices
      → NoneReceived early
      → NoneSent early
      → (l' : Link) × (write_chunks waker early stack slices l ≡ some l')
        × Sends stack l (joined slices) l'
  unfolding write_chunks
  write_slices [] l f rx tx = (l, refl, nothing-Sends l)
  write_slices (c ∷ slices) l f rx tx =
      let (l₁, e, s) =
        write_short stack (length c) (record l { mem = store stack c l.mem }) (omega (arith, f.1))
          rx tx in
      let (l₂, e₂, s₂) = write_slices slices l₁ f.2 rx tx in
      (
        l₂,
        rw (e) e₂,
        record {
          sent =
              rw (s₂.sent, s.sent, load-store stack c l.mem)
                (append_assoc l.sent c (joined slices));
          input = s₂.input ∙ s.input;
          kept = λ a below. s₂.kept a below ∙ s.kept a below ∙ store-below stack c l.mem a below;
        },
      )

  write_too_long :
      (ptr len : ℕ) (l : Link) → 1024 ≤ len → write_from_ram waker early ptr len l ≡ none
  unfolding write_from_ram transmitted concluded Await.write_from_ram
  write_too_long ptr len l lo =
      let long : ltb len 1024 ≡ false = ground arith in
      rw (write_starts waker ptr len l.uarte (omega arith), long)

  write_elsewhere :
      (ptr len : ℕ) (l : Link)
      → slice_in_ram (record { ptr = ptr; len = len }) ≡ false
      → NoneReceived early
      → NoneSent early
      → (l' : Link) × (write waker early stack ptr len l ≡ some l')
        × Sends stack l (load ptr len l.mem) l'
  unfolding write
  write_elsewhere ptr len l e rx tx =
      let bytes = load ptr len l.mem in
      let whole = joined-chunks len bytes (omega (arith, length-load len ptr l.mem)) in
      let (l', w, s) =
        write_slices (chunks len bytes) (zeroed stack l) (chunks-AllFit len bytes) rx tx in
      (
        l',
        rw e w,
        record {
          sent = s.sent ∙ ap (λ sent. l.sent ++ sent) whole;
          input = s.input;
          kept = λ a below. s.kept a below ∙ store-below stack (blanks 128) l.mem a below;
        },
      )

  write_in_ram :
      (ptr len : ℕ) (l : Link)
      → slice_in_ram (record { ptr = ptr; len = len }) ≡ true
      → write waker early stack ptr len l ≡ write_from_ram waker early ptr len l
  unfolding write
  write_in_ram ptr len l e = rw e

  -- Either the bytes are not in RAM or fewer than 1024: then `Tx::write` answers, has sent exactly
  -- the bytes of the slice after what was sent before, and has written to no address below its
  -- buffer. Or they are 1024 or more and in RAM: then it panics. The interrupts before the end of
  -- each transfer are any that report no end.
  pub write-Sends :
      (ptr len : ℕ) (l : Link)
      → NoneReceived early
      → NoneSent early
      → (((slice_in_ram (record { ptr = ptr; len = len }) ≡ false) ⊎ (len < 1024))
          × ((l' : Link) × (write waker early stack ptr len l ≡ some l')
              × Sends stack l (load ptr len l.mem) l'))
        ⊎ ((slice_in_ram (record { ptr = ptr; len = len }) ≡ true)
            × (1024 ≤ len)
            × (write waker early stack ptr len l ≡ none))
  write-Sends ptr len l rx tx = elim (Bool-cases (slice_in_ram (record { ptr = ptr; len = len }))) [
    | inr e ↦ inl (inl e, write_elsewhere ptr len l e rx tx)
    | inl e ↦ elim (lt-cases len 1024) [
      | inl short ↦
          let (l', w, s) = write_short ptr len l short rx tx in
          inl (inr short, (l', write_in_ram ptr len l e ∙ w, s))
      | inr long ↦ inr (e, long, write_in_ram ptr len l e ∙ write_too_long ptr len l long)
    ]
  ]
