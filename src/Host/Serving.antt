-- ===== src/Host/Serving.antt =====
-- nrf52/src/twim.rs: what the hardware does for each first poll, and what is concluded at the end.
use async_on_embedded.Prelude.{
  ◌||◌, false, ◌&&◌, ℕ, ◌%◌, ◌^◌, ◌<◌, ◌≡◌, refl, ap, ◌∙◌, ◌⊎◌, inl, inr, true, Option, none, some,
  List, [], ◌∷◌, ◌++◌, arith, is_some, Option-cases, ◌==◌, if◌then◌else◌,
}
use async_on_embedded.Bus.{Reply, ok, err}
use async_on_embedded.Bus.Registers.{load}
use async_on_embedded.Twim.{poll_read, poll_write, poll_write_then_read}
use async_on_embedded.Twim.Await.{AllSpurious, Change, answered, panicked, panicked}
use async_on_embedded.Twim.Staging.{Memory}
use async_on_embedded.Twim0.{Events, Error, not_started, Slice, Twim, done, failed, src}
use async_on_embedded.Host.{
  either, accumulated, source, Outcome, Wire, store, replied, last, Host, served, serve, requested,
  concluded,
}

abbrev pub forget : {A : Type 0} → Reply A → Reply (Unit {0})
forget (ok a) = ok tt
forget (err e) = err e

-- The bytes of a good reply are in the buffer.
abbrev pub Filled : Slice → Reply (List ℕ) → Memory → Type 0
Filled buf (ok bytes) mem = load buf.ptr buf.len mem ≡ bytes
Filled buf (err e) mem = Unit

-- No event of the past is left that the next transaction would see.
pub record IsClean (t : Twim) : Type 0 where
  pub error : t.events.error ≡ false
  pub stopped : t.events.stopped ≡ false
  pub rxstarted : t.events.rxstarted ≡ false
  pub txstarted : t.events.txstarted ≡ false

-- What the interrupts come to from clean registers: the last one is for what it would be alone.
pub record Sees (e₀ : Events) (noise : List Change) (end : Change) : Type 0 where
  pub early : List Change
  pub events : Events
  pub changes :
      accumulated e₀ (noise ++ (end ∷ [])) ≡ early ++ (record end { events = events } ∷ [])
  pub early-AllSpurious : AllSpurious early
  pub error : events.error ≡ end.events.error
  pub stopped : events.stopped ≡ end.events.stopped

pub accumulated-Sees :
    (e₀ : Events) (noise : List Change) (end : Change)
    → e₀.error ≡ false
    → e₀.stopped ≡ false
    → AllSpurious noise
    → Sees e₀ noise end
unfolding accumulated
accumulated-Sees e₀ [] end good going q = record {
  early = [];
  events = either e₀ end.events;
  changes = refl;
  early-AllSpurious = tt;
  error = rw good;
  stopped = rw going;
}
accumulated-Sees e₀ (c ∷ noise) end good going q =
    let e₁ = either e₀ c.events in
    let good' : e₁.error ≡ false = rw (good, q.0.0) in
    let going' : e₁.stopped ≡ false = rw (going, q.0.1) in
    let s = accumulated-Sees e₁ noise end good' going' q.1 in
    record {
      early = record c { events = e₁ } ∷ s.early;
      events = s.events;
      changes = ap (λ cs. record c { events = e₁ } ∷ cs) s.changes;
      early-AllSpurious = ((good', going'), s.early-AllSpurious);
      error = s.error;
      stopped = s.stopped;
    }

module _ (W : Wire) where
  open W use {Device}

  pub last-ends :
      (r : Outcome Device) → ((last r).events.error ≡ true) ⊎ ((last r).events.stopped ≡ true)
  last-ends r = elim (Option-cases r.error) [ inl e ↦ inr (rw e) | inr (x, e) ↦ inl (rw e) ]

  abbrev pub host : Twim → Memory → Device → Host W
  host t mem d = record { twim = t; mem = mem; device = d }

  -- What is concluded from the last interrupt is what the bus replies.
  pub concluded_last :
      {A : Type 0} (error : Option ℕ) (len amount : ℕ) (short : ℕ → Error) (t : Twim) (mem : Memory)
      (d : Device) (x : A)
      → (error ≡ none → amount % 256 ≡ len % 256)
      → concluded W
          (answered
            (if is_some error
              then failed (src (source error % 256))
              else if amount % 256 == len % 256
              then done
              else failed (short (amount % 256)))
            t)
          mem
          d
        ≡ some (forget (replied error x), host t mem d)
  unfolding concluded
  concluded_last none len amount short t mem d x h =
      let all : (amount % 256 == len % 256) ≡ true = ground (arith, h refl) in rw all
  concluded_last (some e) len amount short t mem d x h = refl

  pub concluded_both :
      {A : Type 0} (error : Option ℕ) (wr_len rd_len sent received : ℕ) (t : Twim) (mem : Memory)
      (d : Device) (x : A)
      → (error ≡ none → (received % 256 ≡ rd_len % 256) × (sent % 256 ≡ wr_len % 256))
      → concluded W
          (if is_some error
            then answered (failed (src (source error % 256))) t
            else if received % 256 == rd_len % 256 && sent % 256 == wr_len % 256
            then answered done t
            else panicked)
          mem
          d
        ≡ some (forget (replied error x), host t mem d)
  unfolding concluded
  concluded_both none wr_len rd_len sent received t mem d x h =
      let all : (received % 256 == rd_len % 256 && sent % 256 == wr_len % 256) ≡ true =
        ground (arith, h refl) in
      rw all
  concluded_both (some e) wr_len rd_len sent received t mem d x h = refl

  -- what the hardware has done, given where the bytes received go
  abbrev pub went : Events → ℕ → Memory → Outcome Device → List Change × Memory × Device
  went e ptr mem r = (accumulated e (r.noise ++ (last r ∷ [])), store ptr r.received mem, r.device)

  idle : (t : Twim) → IsClean t → (t.events.rxstarted || t.events.txstarted) ≡ false
  idle t k = rw (k.rxstarted, k.txstarted)

  pub serve-read :
      (waker address : ℕ) (buf : Slice) (t : Twim) (mem : Memory) (d : Device)
      → IsClean t
      → buf.len < 256
      → let r = W.transfer address [] buf.len d in
        serve W (poll_read waker address buf not_started t) mem d ≡ went t.events buf.ptr mem r
  unfolding serve poll_read requested served
  serve-read waker address buf t mem d k l =
      let whole : buf.len % 2 ^ 16 ≡ buf.len = omega arith in
      rw (idle t k) (ap (λ n. went t.events buf.ptr mem (W.transfer address [] n d)) whole)

  pub serve-write :
      (waker address : ℕ) (bytes : Slice) (t : Twim) (mem : Memory) (d : Device)
      → IsClean t
      → bytes.len < 256
      → let r = W.transfer address (load bytes.ptr bytes.len mem) 0 d in
        (after : Memory) × (serve W (poll_write waker address bytes not_started t) mem d
          ≡ (accumulated t.events (r.noise ++ (last r ∷ [])), after, r.device))
  unfolding serve poll_write requested served
  serve-write waker address bytes t mem d k l =
      let whole : bytes.len % 2 ^ 16 ≡ bytes.len = omega arith in
      let first = W.transfer address (load bytes.ptr (bytes.len % 2 ^ 16) mem) 0 d in
      let after = store t.rxd.ptr first.received mem in
      (
        after,
        rw (idle t k) (
            ap
              (λ n.
                let r = W.transfer address (load bytes.ptr n mem) 0 d in
                (accumulated t.events (r.noise ++ (last r ∷ [])), after, r.device))
              whole),
      )

  pub serve-write_then_read :
      (waker address : ℕ) (wr_buf rd_buf : Slice) (t : Twim) (mem : Memory) (d : Device)
      → IsClean t
      → wr_buf.len < 256
      → rd_buf.len < 256
      → let r = W.transfer address (load wr_buf.ptr wr_buf.len mem) rd_buf.len d in
        serve W (poll_write_then_read waker address wr_buf rd_buf not_started t) mem d
        ≡ went t.events rd_buf.ptr mem r
  unfolding serve poll_write_then_read requested served
  serve-write_then_read waker address wr_buf rd_buf t mem d k lw lr =
      let whole : wr_buf.len % 2 ^ 16 ≡ wr_buf.len = omega arith in
      let whole' : rd_buf.len % 2 ^ 16 ≡ rd_buf.len = omega arith in
      rw (idle t k) (
        ap
          (λ n.
            went t.events rd_buf.ptr mem
              (W.transfer address (load wr_buf.ptr n mem) (rd_buf.len % 2 ^ 16) d))
          whole
        ∙ ap
            (λ n.
              went t.events rd_buf.ptr mem
                (W.transfer address (load wr_buf.ptr wr_buf.len mem) n d))
            whole')

  -- What a method of the host does is what the bus does: the reply is the same, the device goes the
  -- same way, and the memory is as a good reply wants it.
  abbrev pub Does :
      {A : Type 0}
      → Option (Reply (Unit {0}) × Host W)
      → Reply A × Device
      → (Reply A → Memory → Type 0)
      → Type 0
  Does got (r, d) Good =
      (t : Twim) × (mem : Memory) × (got ≡ some (forget r, host t mem d)) × Good r mem
