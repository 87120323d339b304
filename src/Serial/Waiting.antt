-- ===== src/Serial/Waiting.antt =====
-- nrf52/src/serial.rs: receiver and transmitter share one interrupt; neither is left asleep.
use async_on_embedded.Serial.{
  State, not_started, in_progress, finished, Uarte, poll_read, poll_write, handler,
}
use async_on_embedded.Runtime.{Poll, wake_by_ref, store}
use async_on_embedded.Prelude.{
  ℕ, ◌≡◌, refl, sym, ◌∙◌, ◌≢◌, ◌⊎◌, inl, inr, Bool, true, false, Option, none, some, arith,
}

-- The registers, and the states of the receiver's and the transmitter's latest future.
pub record System : Type 0 where
  pub uarte : Uarte
  pub rx : State
  pub tx : State

-- The executor lowers the flag of a task before it polls.
abbrev pub serviced : ℕ → Uarte → Uarte
serviced t u = record u {
  world = record { ready = store u.world.ready t false; task_ready = u.world.task_ready };
}

-- The task `p` reads and the task `q` writes.
module _ (p q : ℕ) where
  pub data Step : System → System → Type 0 where
    new_read : (s : System) → s.rx ≢ in_progress → Step s (record s { rx = not_started })
    new_write : (s : System) → s.tx ≢ in_progress → Step s (record s { tx = not_started })
    polled_read :
        (s : System) (ptr len : ℕ) (a : Poll) (rx : State) (u : Uarte)
        → poll_read p ptr len s.rx (serviced p s.uarte) ≡ some (a, rx, u)
        → Step s (record s { uarte = u; rx = rx })
    polled_write :
        (s : System) (ptr len : ℕ) (a : Poll) (tx : State) (u : Uarte)
        → poll_write q ptr len s.tx (serviced q s.uarte) ≡ some (a, tx, u)
        → Step s (record s { uarte = u; tx = tx })
    interrupted :
        (s : System) → s.uarte.unmasked ≡ true → Step s (record s { uarte = handler s.uarte })
    ended :
        (s : System) (endrx endtx : Bool)
        → Step s (record s { uarte = record s.uarte { endrx = endrx; endtx = endtx } })

  pub data Reach (s : System) : System → Type 0 where
    here : Reach s s
    next : {t u : System} → Reach s t → Step t u → Reach s u

  abbrev pub waker_of : ℕ → State → Option ℕ
  waker_of t not_started = none
  waker_of t in_progress = some t
  waker_of t finished = none

  -- A waker is installed exactly while its future is in progress, and then the interrupt is
  -- enabled or the task's flag is up.
  pub record IsSound (s : System) : Type 0 where
    pub rx_installed : s.uarte.rx_waker ≡ waker_of p s.rx
    pub tx_installed : s.uarte.tx_waker ≡ waker_of q s.tx
    pub rx_awake :
        (s.uarte.rx_waker ≡ none) ⊎ (s.uarte.unmasked ≡ true) ⊎ (s.uarte.world.ready p ≡ true)
    pub tx_awake :
        (s.uarte.tx_waker ≡ none) ⊎ (s.uarte.unmasked ≡ true) ⊎ (s.uarte.world.ready q ≡ true)

  module _ (apart : p ≢ q) where
    polled_read-IsSound :
        (s : System) (rx : State) (ptr len : ℕ) (a : Poll) (rx' : State) (u : Uarte)
        → s.rx ≡ rx
        → poll_read p ptr len rx (serviced p s.uarte) ≡ some (a, rx', u)
        → IsSound s
        → IsSound (record s { uarte = u; rx = rx' })
    unfolding poll_read
    polled_read-IsSound s not_started ptr len a rx' u at e i = ground (arith, i, apart)
    polled_read-IsSound s in_progress ptr len a rx' u at e i = ground (arith, i, apart)
    polled_read-IsSound s finished ptr len a rx' u at e i = cc

    polled_write-IsSound :
        (s : System) (tx : State) (ptr len : ℕ) (a : Poll) (tx' : State) (u : Uarte)
        → s.tx ≡ tx
        → poll_write q ptr len tx (serviced q s.uarte) ≡ some (a, tx', u)
        → IsSound s
        → IsSound (record s { uarte = u; tx = tx' })
    unfolding poll_write
    polled_write-IsSound s not_started ptr len a tx' u at e i = ground (arith, i, apart)
    polled_write-IsSound s in_progress ptr len a tx' u at e i = ground (arith, i, apart)
    polled_write-IsSound s finished ptr len a tx' u at e i = cc

    waker_of_cases : (t : ℕ) (s : State) → (waker_of t s ≡ none) ⊎ (waker_of t s ≡ some t)
    waker_of_cases t not_started = inl refl
    waker_of_cases t in_progress = inr refl
    waker_of_cases t finished = inl refl

    handler-IsSound : (s : System) → IsSound s → IsSound (record s { uarte = handler s.uarte })
    unfolding handler wake_by_ref
    handler-IsSound s i = ground (arith, i, waker_of_cases p s.rx, waker_of_cases q s.tx)

    idle : (t : ℕ) (s : State) → s ≢ in_progress → waker_of t s ≡ none
    idle t not_started n = refl
    idle t in_progress n = absurd (n refl)
    idle t finished n = refl

    Step-IsSound : {s t : System} → Step s t → IsSound s → IsSound t
    Step-IsSound (new_read s n) i = record {
      rx_installed = i.rx_installed ∙ idle p s.rx n;
      tx_installed = i.tx_installed;
      rx_awake = i.rx_awake;
      tx_awake = i.tx_awake;
    }
    Step-IsSound (new_write s n) i = record {
      rx_installed = i.rx_installed;
      tx_installed = i.tx_installed ∙ idle q s.tx n;
      rx_awake = i.rx_awake;
      tx_awake = i.tx_awake;
    }
    Step-IsSound (polled_read s ptr len a rx u e) i =
        polled_read-IsSound s s.rx ptr len a rx u refl e i
    Step-IsSound (polled_write s ptr len a tx u e) i =
        polled_write-IsSound s s.tx ptr len a tx u refl e i
    Step-IsSound (interrupted s on) i = handler-IsSound s i
    Step-IsSound (ended s endrx endtx) i = record {
      rx_installed = i.rx_installed;
      tx_installed = i.tx_installed;
      rx_awake = i.rx_awake;
      tx_awake = i.tx_awake;
    }

    -- One task reads, another writes. However new futures, polls, interrupts and the ends of
    -- transfers interleave, from registers without wakers and with no future in progress: a waker
    -- is installed exactly while its future is in progress, and then the shared interrupt is
    -- enabled or the flag of its task is up, so neither side sleeps through the end of its
    -- transfer.
    pub reached-IsSound :
        {s t : System}
        → s.rx ≢ in_progress
        → s.tx ≢ in_progress
        → s.uarte.rx_waker ≡ none
        → s.uarte.tx_waker ≡ none
        → Reach s t
        → IsSound t
    reached-IsSound {s} nr nt er et here = record {
      rx_installed = er ∙ sym (idle p s.rx nr);
      tx_installed = et ∙ sym (idle q s.tx nt);
      rx_awake = inl er;
      tx_awake = inl et;
    }
    reached-IsSound nr nt er et (next r st) = Step-IsSound st (reached-IsSound nr nt er et r)
