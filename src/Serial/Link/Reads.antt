-- ===== src/Serial/Link/Reads.antt =====
-- nrf52/src/serial.rs: which bytes a read moves.
use async_on_embedded.Prelude.{
  Bool-cases, ℕ, zero, suc, ◌%◌, ◌^◌, ◌≤◌, ◌<◌, ◌≡◌, refl, sym, ap, ◌∙◌, ◌⊎◌, inl, inr, true, false,
  none, some, List, [], ◌∷◌, ◌++◌, length, take, drop, arith, ltb, leb, lt-cases,
}
use async_on_embedded.Bus.Registers.{load}
use async_on_embedded.Host.{store}
use async_on_embedded.Host.Bytes.{load-store}
use async_on_embedded.Serial.{not_started, poll_read, start_read}
use async_on_embedded.Serial.Await
use async_on_embedded.Serial.Await.{Change, await-ready}
use async_on_embedded.Serial.Await.Ends.{NoneReceived, NoneSent, transfers_end, read_starts}
use async_on_embedded.Serial.Link.{Link, ended, received, concluded, read}

-- What has become of the link once bytes have come.
pub record Receives (ptr len : ℕ) (l l' : Link) : Type 0 where
  pub found : load ptr len l'.mem ≡ take len l.input
  pub input : l'.input ≡ drop len l.input
  pub sent : l'.sent ≡ l.sent

length-take : (n : ℕ) (xs : List ℕ) → n ≤ length xs → length (take n xs) ≡ n
length-take zero xs l = refl
length-take (suc n) [] l = absurd (omega arith)
length-take (suc n) (x ∷ xs) l = omega (arith, length-take n xs (omega arith))

module _ (waker : ℕ) (early : List Change) where
  received_from :
      (ptr len : ℕ) (l : Link)
      → 0 < len
      → len < 1024
      → len ≤ length l.input
      → received (poll_read waker ptr len not_started l.uarte) l
        ≡ some (record l { mem = store ptr (take len l.input) l.mem; input = drop len l.input })
  unfolding received start_read
  received_from ptr len l lo hi enough =
      let whole : len % 2 ^ 16 ≡ len = omega arith in
      let there : leb len (length l.input) ≡ true = ground arith in
      rw (read_starts waker ptr len l.uarte lo, whole, there)

  read_nothing : (ptr : ℕ) (l : Link) → read waker early ptr zero l ≡ some l
  unfolding read poll_read received concluded Await.read
  read_nothing ptr l =
      let answer =
        await-ready (poll_read waker ptr zero) not_started l.uarte l.uarte (early ++ (ended ∷ []))
          refl in
      ap (λ awaited. concluded awaited l) answer

  read_some :
      (ptr len : ℕ) (l : Link)
      → 0 < len
      → len < 1024
      → len ≤ length l.input
      → NoneReceived early
      → NoneSent early
      → (l' : Link) × (read waker early ptr len l ≡ some l') × Receives ptr len l l'
  unfolding read concluded
  read_some ptr len l lo hi enough rx tx =
      let (u', e, s) =
        (transfers_end waker ptr len l.uarte early early ended ended lo hi rx refl tx refl).0 in
      let bytes = take len l.input in
      let same = length-take len l.input enough in
      (
        record l { uarte = u'; mem = store ptr bytes l.mem; input = drop len l.input },
        rw (received_from ptr len l lo hi enough, e),
        record {
          found =
              ap (λ n. load ptr n (store ptr bytes l.mem)) (sym same) ∙ load-store ptr bytes l.mem;
          input = refl;
          sent = refl;
        },
      )

  read_too_long : (ptr len : ℕ) (l : Link) → 1024 ≤ len → read waker early ptr len l ≡ none
  unfolding read received concluded start_read Await.read
  read_too_long ptr len l lo =
      let long : ltb len 1024 ≡ false = ground arith in
      elim (Bool-cases (leb (len % 2 ^ 16) (length l.input))) [
        | inl e ↦ rw (read_starts waker ptr len l.uarte (omega arith), long, e)
        | inr e ↦ rw (read_starts waker ptr len l.uarte (omega arith), long, e)
      ]

  read_waits_on :
      (ptr len : ℕ) (l : Link)
      → len < 1024
      → length l.input < len
      → read waker early ptr len l ≡ none
  unfolding read received start_read
  read_waits_on ptr len l hi few =
      let whole : len % 2 ^ 16 ≡ len = omega arith in
      let missing : leb len (length l.input) ≡ false = ground arith in
      rw (read_starts waker ptr len l.uarte (omega arith), whole, missing)

  read_short :
      (ptr len : ℕ) (l : Link)
      → len < 1024
      → len ≤ length l.input
      → NoneReceived early
      → NoneSent early
      → (l' : Link) × (read waker early ptr len l ≡ some l') × Receives ptr len l l'
  read_short ptr zero l hi enough rx tx =
      (l, read_nothing ptr l, record { found = refl; input = refl; sent = refl })
  read_short ptr (suc n) l hi enough rx tx = read_some ptr (suc n) l (omega arith) hi enough rx tx

  -- Of a buffer shorter than 1024, `Rx::read` leaves exactly the next bytes of the line in the
  -- buffer, in order, and takes them off the line, once enough have come; until then it does not
  -- answer. With a longer buffer it never answers. The interrupts before the end of the transfer are
  -- any that report no end.
  pub read-Receives :
      (ptr len : ℕ) (l : Link)
      → NoneReceived early
      → NoneSent early
      → ((len < 1024)
          × (len ≤ length l.input)
          × ((l' : Link) × (read waker early ptr len l ≡ some l') × Receives ptr len l l'))
        ⊎ (((1024 ≤ len) ⊎ (length l.input < len)) × (read waker early ptr len l ≡ none))
  read-Receives ptr len l rx tx = elim (lt-cases len 1024) [
    | inr long ↦ inr (inl long, read_too_long ptr len l long)
    | inl short ↦ elim (lt-cases (length l.input) len) [
      | inl few ↦ inr (inr few, read_waits_on ptr len l short few)
      | inr enough ↦ inl (short, enough, read_short ptr len l short enough rx tx)
    ]
  ]
