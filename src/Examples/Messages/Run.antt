-- ===== src/Examples/Messages/Run.antt =====
-- nrf52/examples/4-channel.rs: what the program prints.
use async_on_embedded.Prelude.{
  ℕ, suc, ◌≡◌, ◌≢◌, refl, ap, ◌∙◌, true, false, none, some, [], ◌∷◌, ◌++◌, arith,
}
use async_on_embedded.Examples.Messages.{
  print, b_before_recv, a_before_send, a_after_send, a_yield, b_message, done, receiving, starting,
  Shared, Program, initial, receive, received_or_not, resume, poll_b, round, sent_or_not, send,
  advance, poll_a, run,
}
use async_on_embedded.Executor.{returned, flag, set_flag, poll_yield}
use async_on_embedded.Executor.Loop.{entered}
use async_on_embedded.Executor.Rendezvous.{rendezvous}
use async_on_embedded.Channel
use async_on_embedded.Channel.{Channel, Send}
use async_on_embedded.Channel.Delivery.{first_recv, send_wakes}
use async_on_embedded.Channel.Futures.{IsSound}
use async_on_embedded.Channel.Receiving.{poll_recv_lem}
use async_on_embedded.Channel.System.{new-IsSound}
use async_on_embedded.Runtime.{World, ready, pending, wake_by_ref, signal_event_ready}
use async_on_embedded.Slab.{Slab, lookup}
use async_on_embedded.WakerSet.View.{view-new, view}

module _ (S : Slab) (T : Type 0) where
  -- Both tasks are about to run for the first time: A, the only spawned one, with its flag up.
  pub record Prepared (t : ℕ) (m : Program S T) : Type 0 where
    pub outside : m.in_block_on ≡ false
    pub spawned : m.tasks ≡ t ∷ []
    pub up : flag m t ≡ true
    pub made : m.user ≡ initial S T

  -- Task B prints its first line and waits for a message.
  b_waits :
      (main : ℕ) (m : Program S T)
      → m.user ≡ initial S T
      → (k : ℕ) × (u : Shared S T) × (poll_b S T main m ≡ some (none, record m { user = u }))
        × (u.lines ≡ b_before_recv ∷ [])
        × (u.main ≡ receiving (some k))
        × (u.task ≡ starting)
        × IsSound S T [] u.channel
        × (u.channel.read ≡ 0)
        × (view S u.channel.recv_wakers ≡ (k, some main) ∷ [])
  unfolding poll_b resume receive received_or_not initial Channel.new
  b_waits main m e =
      let (k, s, polled, alone, i) =
        first_recv S T main (Channel.new S T) m.world (new-IsSound S T) (view-new S) in
      (
        k,
        record {
          lines = b_before_recv ∷ [];
          main = receiving (some k);
          task = starting;
          channel = record (Channel.new S T) { recv_wakers = s };
        },
        ap (λ u. resume S T main u.main (record m { user = u })) e ∙ rw polled,
        refl,
        refl,
        refl,
        i,
        refl,
        alone,
      )

  -- Task A, at its start, on an empty channel with one receiver that waits.
  a_sends :
      (x : T) (t main k : ℕ) (m : Program S T)
      → m.user.task ≡ starting
      → IsSound S T [] m.user.channel
      → m.user.channel.read ≡ 0
      → view S m.user.channel.recv_wakers ≡ (k, some main) ∷ []
      → (u : Shared S T) × (w' : World) × (poll_a S T x t m
          ≡ some (pending, record m { world = w'; user = u }))
        × IsSound S T (x ∷ []) u.channel
        × (lookup k (view S u.channel.recv_wakers) ≢ none)
        × (u.channel.read ≡ 0)
        × (w'.ready main ≡ true)
        × (u.main ≡ m.user.main)
        × (u.lines
            ≡ ((m.user.lines ++ (a_before_send ∷ [])) ++ (a_after_send ∷ [])) ++ (a_yield ∷ []))
  unfolding poll_a advance send sent_or_not round poll_yield wake_by_ref signal_event_ready
  a_sends x t main k m e i near alone =
      let (f, c', w', polled, i', in_set, read, up) =
        send_wakes S T t k main x m.user.channel m.world (omega (arith, near)) i alone in
      let m' =
        (sent_or_not S T t (record m { user = print S T a_before_send m.user })
          (ready, f, c', w')).1 in
      (
        m'.user,
        m'.world,
        ap (λ s. advance S T x t s m) e ∙ rw polled,
        i',
        in_set,
        read ∙ near,
        ground (arith, up),
        refl,
        refl,
      )

  -- Task B, when it has waited with key `k` and a message is there.
  b_receives :
      (main k : ℕ) (x : T) (m : Program S T)
      → m.user.main ≡ receiving (some k)
      → IsSound S T (x ∷ []) m.user.channel
      → m.user.channel.read ≡ 0
      → lookup k (view S m.user.channel.recv_wakers) ≢ none
      → (u : Shared S T) × (w' : World) × (poll_b S T main m
          ≡ some (some tt, record m { world = w'; user = u }))
        × (u.lines ≡ (m.user.lines ++ (b_message x ∷ [])) ++ (done ∷ []))
        × IsSound S T [] u.channel
  unfolding poll_b resume receive received_or_not
  b_receives main k x m at i near in_set =
      let (o', c', w', polled, i', close, which) =
        poll_recv_lem S T main (x ∷ []) (some k) m.user.channel m.world (omega (arith, near)) i
          in_set in
      let m' = (received_or_not S T m (some x, o', c', w')).1 in
      (m'.user, m'.world, ap (λ s. resume S T main s m) at ∙ rw polled, refl, i')

  -- Run with fuel for two turns, task A being the only one that was spawned and its flag not that
  -- of the main task, the program prints the lines that its documentation lists, with the message
  -- that was sent, and leaves a sound and empty channel.
  pub message_run :
      (x : T) (fuel main t : ℕ) (m : Program S T)
      → Prepared t m
      → main ≢ t
      → (m' : Program S T) × (run S T x (suc (suc fuel)) main m ≡ returned tt m')
        × (m'.user.lines
            ≡ b_before_recv ∷ a_before_send ∷ a_after_send ∷ a_yield ∷ b_message x ∷ done ∷ [])
        × IsSound S T [] m'.user.channel
  unfolding run
  message_run x fuel main t m h apart =
      let m₀ = set_flag main false (entered (poll_b S T) (poll_a S T x) main m) in
      let (k, u₁, first, lines₁, at₁, task₁, i₁, read₁, alone) = b_waits main m₀ h.made in
      let m₁ = set_flag t false (record m₀ { user = u₁ }) in
      let (u₂, w₂, second, i₂, in_set, read₂, up, at₂, lines₂) =
        a_sends x t main k m₁ task₁ i₁ read₁ alone in
      let m₂ = record m₁ { world = w₂; user = u₂ } in
      let (u₃, w₃, third, lines₃, i₃) =
        b_receives main k x (set_flag main false m₂) (at₂ ∙ at₁) i₂ read₂ in_set in
      (
        record m₂ { world = w₃; user = u₃; in_block_on = false },
        rendezvous (poll_b S T) (poll_a S T x) fuel main t m (record m₀ { user = u₁ }) m₂
            (record m₂ { world = w₃; user = u₃ }) tt h.outside first h.spawned
            (ground (arith, h.up)) second up third,
        rw (lines₃, lines₂, lines₁),
        i₃,
      )
