-- ===== src/Channel/Queue.antt =====
-- async-embedded/src/unsync/channel.rs: `try_send` and `try_recv` against a bounded queue.
use async_on_embedded.Prelude.{
  ltb→lt, length-append, ℕ, ◌+◌, ◌%◌, ◌≤◌, ◌<◌, ◌≡◌, refl, ap, subst, inl, inr, false, Option, none,
  some, List, [], ◌∷◌, ◌++◌, arith, ltb, if◌then◌else◌, Bool-cases, length, ◌>>=◌,
}
use async_on_embedded.Channel.{
  Channel, Sent, ok, err, next_cursor, received, sent, try_send, try_recv,
}
use async_on_embedded.Channel.Ring.{Holds, Holds-put, IsQueue}
use async_on_embedded.Runtime.{World, ntasks, usize}
use async_on_embedded.Slab.{Slab}

-- A queue of at most eight messages, oldest first.
abbrev pub enqueue {ℓ} : {T : Type ℓ} → T → List T → List T
enqueue v q = if ltb (length q) ntasks then q ++ (v ∷ []) else q

abbrev pub accepts : {T : Type 0} → T → List T → Sent T
accepts v q = if ltb (length q) ntasks then ok else err v

abbrev pub dequeue {ℓ} : {T : Type ℓ} → List T → Option T × List T
dequeue [] = (none, [])
dequeue (x ∷ q) = (some x, q)

-- The cursors are far enough from the end of a `usize` for one more call.
abbrev pub Room : ℕ → Type 0
Room read = read + 9 < usize

module _ (S : Slab) (T : Type 0) where
  pub try_send-eq :
      (v : T) (q : List T) (c : Channel S T) (w : World)
      → Room c.read
      → IsQueue S T c q
      → try_send S T v c w ≡ (if ltb (length q) ntasks then sent S T v c w else (err v, c, w))
  unfolding try_send
  try_send-eq v q c w room h =
      let test : ltb c.write ((c.read + ntasks) % usize) ≡ ltb (length q) ntasks = ground arith in
      rw test

  pub sent-IsQueue :
      (v : T) (q : List T) (c : Channel S T) (w : World)
      → Room c.read
      → IsQueue S T c q
      → length q < ntasks
      → IsQueue S T (sent S T v c w).1 (q ++ (v ∷ []))
  unfolding sent
  sent-IsQueue v q c w room h l = record {
    cells = Holds-put c.buffer c.read c.write v q h.cursors l h.cells;
    cursors = omega (arith, length-append q (v ∷ []), h);
    fits = omega (arith, length-append q (v ∷ []));
  }

  pub read-sent : (v : T) (c : Channel S T) (w : World) → (sent S T v c w).1.read ≡ c.read
  unfolding sent
  read-sent v c w = refl

  pub ok-sent : (v : T) (c : Channel S T) (w : World) → (sent S T v c w).0 ≡ ok
  unfolding sent
  ok-sent v c w = refl

  -- While the read cursor is more than nine below 2 ^ 32, `try_send` on a channel that holds a
  -- queue accepts the message exactly if the queue has fewer than eight, and hands it back
  -- otherwise; the channel then holds the queue with the message appended, or the same queue.
  pub try_send_refines :
      (v : T) (q : List T) (c : Channel S T) (w : World)
      → Room c.read
      → IsQueue S T c q
      → let (r, c', w') = try_send S T v c w in
        (r ≡ accepts v q) × IsQueue S T c' (enqueue v q) × (c'.read ≡ c.read)
  try_send_refines v q c w room h =
      rw (try_send-eq v q c w room h) (elim (Bool-cases (ltb (length q) ntasks)) [
        | inl e ↦ rw e (ok-sent v c w, sent-IsQueue v q c w room h (ltb→lt _ _ e), read-sent v c w)
        | inr e ↦ rw e (refl, h, refl)
      ])

  pub try_recv-eq :
      (x : T) (q : List T) (c : Channel S T) (w : World)
      → IsQueue S T c (x ∷ q)
      → try_recv S T c w ≡ some (received S T c w x)
  unfolding try_recv
  try_recv-eq x q c w h = ground arith

  pub try_recv_empty :
      (c : Channel S T) (w : World) → IsQueue S T c [] → try_recv S T c w ≡ some (none, c, w)
  unfolding try_recv
  try_recv_empty c w h = ground arith

  pub received-IsQueue :
      (x : T) (q : List T) (c : Channel S T) (w : World)
      → Room c.read
      → IsQueue S T c (x ∷ q)
      → IsQueue S T (received S T c w x).1 q
  unfolding received
  received-IsQueue x q c w room h = record {
    cells =
        subst (λ r. Holds c.buffer r q) (let e : c.read + 1 ≡ next_cursor c.read = omega arith in e)
          h.cells.1;
    cursors = omega arith;
    fits = omega arith;
  }

  pub read-received :
      (x : T) (c : Channel S T) (w : World)
      → ((received S T c w x).0 ≡ some x) × ((received S T c w x).1.read ≤ c.read + 1)
  unfolding received
  read-received x c w = (refl, omega arith)

  -- Under the same condition `try_recv` never reads a cell that was not written, returns the
  -- oldest message if there is one, and leaves the rest of the queue.
  pub try_recv_refines :
      (q : List T) (c : Channel S T) (w : World)
      → Room c.read
      → IsQueue S T c q
      → (c' : Channel S T) × (w' : World) × (try_recv S T c w ≡ some ((dequeue q).0, c', w'))
        × IsQueue S T c' (dequeue q).1
        × (c'.read ≤ c.read + 1)
  try_recv_refines [] c w room h = (c, w, try_recv_empty c w h, h, omega arith)
  try_recv_refines (x ∷ q) c w room h = (
    (received S T c w x).1,
    (received S T c w x).2,
    ground (arith, try_recv-eq x q c w h, read-received x c w),
    received-IsQueue x q c w room h,
    (read-received x c w).1,
  )

  -- On a channel that holds a queue, from a read cursor of 2 ^ 32 - 8 on, while the write cursor
  -- is below 2 ^ 32, the sum in `try_send` wraps: every message is handed back and nothing
  -- changes, however empty the channel is.
  pub try_send_stuck :
      (v : T) (q : List T) (c : Channel S T) (w : World)
      → IsQueue S T c q
      → usize ≤ c.read + ntasks
      → c.write < usize
      → try_send S T v c w ≡ (err v, c, w)
  unfolding try_send
  try_send_stuck v q c w h far near =
      let test : ltb c.write ((c.read + ntasks) % usize) ≡ false = ground arith in rw test

  -- Calls in order, with what each returns.
  pub data Call : Type 0 where
    send : T → Call
    recv : Call

  pub data Reply : Type 0 where
    sending : Sent T → Reply
    receiving : Option T → Reply

  pub run : List Call → Channel S T → World → Option (List Reply)
  run [] c w = some []
  run (send v ∷ calls) c w = do
    let (r, c', w') = try_send S T v c w
    replies ← run calls c' w'
    some (sending r ∷ replies)
  run (recv ∷ calls) c w = do
    (r, c', w') ← try_recv S T c w
    replies ← run calls c' w'
    some (receiving r ∷ replies)

  pub run_queue : List Call → List T → List Reply
  run_queue [] q = []
  run_queue (send v ∷ calls) q = sending (accepts v q) ∷ run_queue calls (enqueue v q)
  run_queue (recv ∷ calls) q = receiving (dequeue q).0 ∷ run_queue calls (dequeue q).1

  -- No sequence of calls tells a channel that holds a queue from the bounded queue, as long as the
  -- read cursor plus the number of calls stays more than nine below 2 ^ 32.
  pub run_refines :
      (calls : List Call) (q : List T) (c : Channel S T) (w : World)
      → c.read + length calls + 9 < usize
      → IsQueue S T c q
      → run calls c w ≡ some (run_queue calls q)
  unfolding run run_queue
  run_refines [] q c w room h = refl
  run_refines (send v ∷ calls) q c w room h =
      let (r, h', same) = try_send_refines v q c w (omega arith) h in
      let (_, c', w') = try_send S T v c w in
      let rest = run_refines calls (enqueue v q) c' w' (omega (arith, same)) h' in
      rw rest (ap (λ s. some (sending s ∷ run_queue calls (enqueue v q))) r)
  run_refines (recv ∷ calls) q c w room h =
      let (c', w', received, h', near) = try_recv_refines q c w (omega arith) h in
      rw received (rw (run_refines calls (dequeue q).1 c' w' (omega (arith, near)) h'))
