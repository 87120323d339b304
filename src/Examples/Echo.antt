-- ===== src/Examples/Echo.antt =====
-- nrf52/examples/6-hello.rs and 7-echo.rs: the main futures, on the serial line. `none` is a panic,
-- or a read that waits for bytes that do not come.
use async_on_embedded.Prelude.{
  subst, sym, ℕ, zero, suc, ◌+◌, ◌≤◌, ◌<◌, ◌≡◌, refl, ap, ◌∙◌, inl, inr, Option, some, List, [],
  ◌∷◌, ◌++◌, length, take, drop, arith, ◌>>=◌,
}
use mathlib.Core.List.{append_assoc, append-nil}
use async_on_embedded.Bus.Registers.{load}
use async_on_embedded.Host.Bytes.{load-eq}
use async_on_embedded.Serial.Await.{Change}
use async_on_embedded.Serial.Await.Ends.{NoneReceived, NoneSent}
use async_on_embedded.Serial.Link.{Link, read, write}
use async_on_embedded.Serial.Link.Moves.{Sends, write-Sends}
use async_on_embedded.Serial.Link.Reads.{read-Receives}

-- b"Hello, world!\n\r"
abbrev pub text : List ℕ
text = 72 ∷ 101 ∷ 108 ∷ 108 ∷ 111 ∷ 44 ∷ 32 ∷ 119 ∷ 111 ∷ 114 ∷ 108 ∷ 100 ∷ 33 ∷ 10 ∷ 13 ∷ []

abbrev pub repeated : ℕ → List ℕ → List ℕ
repeated zero bytes = []
repeated (suc n) bytes = bytes ++ repeated n bytes

take-suc : (n : ℕ) (xs : List ℕ) → take 1 xs ++ take n (drop 1 xs) ≡ take (suc n) xs
take-suc zero [] = refl
take-suc (suc n) [] = refl
take-suc n (x ∷ xs) = refl

drop-suc : (n : ℕ) (xs : List ℕ) → drop n (drop 1 xs) ≡ drop (suc n) xs
drop-suc zero [] = refl
drop-suc (suc n) [] = refl
drop-suc n (x ∷ xs) = refl

length-drop_one : (n : ℕ) (xs : List ℕ) → suc n ≤ length xs → n ≤ length (drop 1 xs)
length-drop_one n [] l = absurd (omega arith)
length-drop_one n (x ∷ xs) l = omega arith

-- The waker, the interrupts before the end of a transfer, and the buffer of `Tx::write`.
module _ (waker : ℕ) (early : List Change) (stack : ℕ) where
  -- So many rounds of the loop of 6-hello.rs; the text is at the address `ptr`.
  pub hello : ℕ → ℕ → Link → Option Link
  hello ptr zero l = some l
  hello ptr (suc rounds) l = do l' ← write waker early stack ptr 15 l; hello ptr rounds l'

  -- So many rounds of the loop of 7-echo.rs; `buf` is the address of its buffer.
  pub echo : ℕ → ℕ → Link → Option Link
  echo buf zero l = some l
  echo buf (suc rounds) l = do
    l₁ ← read waker early buf 1 l
    l₂ ← write waker early stack buf 1 l₁
    echo buf rounds l₂

  greeted :
      (ptr : ℕ) (l : Link)
      → NoneReceived early
      → NoneSent early
      → (l' : Link) × (write waker early stack ptr 15 l ≡ some l')
        × Sends stack l (load ptr 15 l.mem) l'
  greeted ptr l rx tx = elim (write-Sends waker early stack ptr 15 l rx tx) [
    | inl done ↦ done.1
    | inr (in_ram, long, panic) ↦ absurd (omega (arith, long))
  ]

  -- One round of the loop of 7-echo.rs.
  echoed :
      (buf : ℕ) (l : Link)
      → 0 < length l.input
      → NoneReceived early
      → NoneSent early
      → (l₂ : Link) × ((rounds : ℕ) → echo buf (suc rounds) l ≡ echo buf rounds l₂)
        × (l₂.sent ≡ l.sent ++ take 1 l.input)
        × (l₂.input ≡ drop 1 l.input)
  unfolding echo
  echoed buf l some_input rx tx = elim (read-Receives waker early buf 1 l rx tx) [
    | inr (few, waits) ↦ absurd (omega (arith, some_input, few))
    | inl (short, enough, (l₁, r, got)) ↦ elim (write-Sends waker early stack buf 1 l₁ rx tx) [
      | inr (in_ram, long, panic) ↦ absurd (omega (arith, long))
      | inl (fits, (l₂, w, s)) ↦ (
        l₂,
        λ rounds. rw (r, w) refl,
        s.sent ∙ rw (got.sent, got.found) refl,
        s.input ∙ got.input,
      )
    ]
  ]

  -- With the text in memory below the buffer of `Tx::write`, as in flash, any number of rounds of
  -- 6-hello.rs answer, and have sent the text that many times, whole, in sequence.
  hello_lem :
      (ptr rounds : ℕ) (l : Link)
      → load ptr 15 l.mem ≡ text
      → ptr + 15 ≤ stack
      → NoneReceived early
      → NoneSent early
      → (l' : Link) × (hello ptr rounds l ≡ some l') × (l'.sent ≡ l.sent ++ repeated rounds text)
  unfolding hello
  hello_lem ptr zero l at below rx tx = (l, refl, sym (append-nil l.sent))
  hello_lem ptr (suc rounds) l at below rx tx =
      let (l₁, w, s) = greeted ptr l rx tx in
      let still = load-eq 15 ptr ptr l₁.mem l.mem λ i there. s.kept (ptr + i) (omega arith) in
      let (l₂, rest, sent) = hello_lem ptr rounds l₁ (still ∙ at) below rx tx in
      (l₂, rw (w) rest, sent ∙ rw (s.sent, at) (append_assoc l.sent text (repeated rounds text)))

  -- Any number of rounds of 7-echo.rs, with at least as many bytes to come, answer, and have sent
  -- back exactly these bytes in their order; the rest of the input is untouched.
  pub echo_lem :
      (buf rounds : ℕ) (l : Link)
      → rounds ≤ length l.input
      → NoneReceived early
      → NoneSent early
      → (l' : Link) × (echo buf rounds l ≡ some l')
        × (l'.sent ≡ l.sent ++ take rounds l.input)
        × (l'.input ≡ drop rounds l.input)
  unfolding echo
  echo_lem buf zero l enough rx tx = (l, refl, sym (append-nil l.sent), refl)
  echo_lem buf (suc rounds) l enough rx tx =
      let (l₁, round, sent, input) = echoed buf l (omega arith) rx tx in
      let left : rounds ≤ length l₁.input =
        subst (λ xs. rounds ≤ length xs) (sym input) (length-drop_one rounds l.input enough) in
      let (l₂, rest, sent₂, input₂) = echo_lem buf rounds l₁ left rx tx in
      (
        l₂,
        round rounds ∙ rest,
        sent₂
            ∙ rw (sent, input)
                (append_assoc l.sent (take 1 l.input) (take rounds (drop 1 l.input))
                  ∙ ap (λ bytes. l.sent ++ bytes) (take-suc rounds l.input)),
        input₂ ∙ rw input (drop-suc rounds l.input),
      )
