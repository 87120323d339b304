-- ===== src/Twim/Await/Combined.antt =====
-- nrf52/src/twim.rs: a write and a read in one transaction, awaited to its end.
use async_on_embedded.Prelude.{
  ℕ, ◌%◌, ◌≡◌, ◌⊎◌, ◌∙◌, ◌&&◌, refl, true, List, [], ◌∷◌, ◌++◌, arith, ◌==◌, if◌then◌else◌, inl,
  inr, Bool-cases,
}
use async_on_embedded.Twim.{
  start_write_then_read, finish_write_then_read, clear_both, src, uninstall, poll_write_then_read,
  handler, not_started, in_progress, drop_future,
}
use async_on_embedded.Twim0.{Slice, Twim, done, failed}
use async_on_embedded.Twim.Await.{
  Change, Awaited, answered, panicked, finish, settle, write_from_ram_then_read, AllSpurious,
  Patient, await-last, Seen, handler-Seen,
}

combined-Patient :
    (waker address : ℕ) (wr_buf rd_buf : Slice)
    → Patient (poll_write_then_read waker address wr_buf rd_buf)
unfolding poll_write_then_read handler
combined-Patient waker address wr_buf rd_buf = record {
  starts = λ t. (start_write_then_read waker address wr_buf rd_buf t, refl);
  again = λ c t q. ground arith;
}

-- what the awaited transaction comes to, once it has ended with this change
abbrev pub outcome : Change → ℕ → ℕ → Twim → Awaited
outcome c wr_len rd_len t =
    if c.events.error
    then answered (failed (src (c.errorsrc % 256))) t
    else if c.read_amount % 256 == rd_len % 256 && c.write_amount % 256 == wr_len % 256
    then answered done t
    else panicked

combined_settled :
    (waker address : ℕ) (wr_buf rd_buf : Slice) (c : Change) (u : Twim)
    → Seen c u
    → (c.events.error ≡ true) ⊎ (c.events.stopped ≡ true)
    → (t' : Twim) × (settle (poll_write_then_read waker address wr_buf rd_buf in_progress u)
        ≡ outcome c wr_buf.len rd_buf.len t')
unfolding settle finish poll_write_then_read finish_write_then_read drop_future
combined_settled waker address wr_buf rd_buf c u seen e = elim (Bool-cases c.events.error) [
  | inl bad ↦ (record u { events = clear_both u.events }, ground (arith, seen, bad))
  | inr good ↦
      (uninstall (record u { events = clear_both u.events }), ground (arith, seen, good, e))
]

-- A write and a read in one transaction, awaited over any number of spurious changes and then one
-- that is an error or the end of the transaction: an error of the bus is the answer; without one,
-- the transaction succeeds if both amounts moved are the lengths (to 8 bits), and otherwise the
-- program panics.
pub combined_lem :
    (waker address : ℕ) (wr_buf rd_buf : Slice) (t : Twim) (spurious : List Change) (last : Change)
    → AllSpurious spurious
    → (last.events.error ≡ true) ⊎ (last.events.stopped ≡ true)
    → (t' : Twim) × (write_from_ram_then_read waker address wr_buf rd_buf t
          (spurious ++ (last ∷ []))
        ≡ outcome last wr_buf.len rd_buf.len t')
unfolding write_from_ram_then_read
combined_lem waker address wr_buf rd_buf t spurious last s e =
    let p = combined-Patient waker address wr_buf rd_buf in
    let (t₁, first) = p.starts t in
    let (u, eq) = await-last _ not_started t t₁ spurious last p s first in
    let (t', v) = combined_settled waker address wr_buf rd_buf last _ (handler-Seen last u) e in
    (t', eq ∙ v)
