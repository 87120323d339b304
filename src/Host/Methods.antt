-- ===== src/Host/Methods.antt =====
-- nrf52/src/twim.rs: `read`, and `write` and `write_then_read` once their bytes are staged.
use async_on_embedded.Twim.Await.Combined.{combined_lem}
use async_on_embedded.Prelude.{
  ℕ, ◌%◌, ◌<◌, ◌≡◌, refl, ap, ◌∙◌, Option, none, some, List, [], length, subst, true, ◌⊎◌, inl, inr,
}
use async_on_embedded.Bus.{Reply}
use async_on_embedded.Bus.Registers.{load}
use async_on_embedded.Twim.{poll_write_then_read, poll_write}
use async_on_embedded.Twim.Await
use async_on_embedded.Twim.Await.{Change, answered, panicked, AllSpurious, awaited_lem, verdict}
use async_on_embedded.Twim.Staging.{Memory, Ready}
use async_on_embedded.Twim0.{short_read, short_write, not_started, Slice, Twim, Events}
use async_on_embedded.Host.{
  Outcome, Wire, IsComplete, store, replied, wire_bus, last, Host, serve, concluded, read,
}
use async_on_embedded.Host.Bytes.{load-eq, load-store, length-load}
use async_on_embedded.Host.Serving.{
  Filled, serve-write_then_read, IsClean, Sees, accumulated-Sees, forget, last-ends, host,
  concluded_last, concluded_both, serve-read, serve-write,
}

module _ (W : Wire) where
  open W use {Device}

  module _ (C : IsComplete W) (waker stack : ℕ) where
    replied-Filled :
        (error : Option ℕ) (buf : Slice) (bytes : List ℕ) (mem : Memory)
        → (error ≡ none → length bytes ≡ buf.len)
        → Filled buf (replied error bytes) (store buf.ptr bytes mem)
    replied-Filled none buf bytes mem h =
        subst (λ n. load buf.ptr n (store buf.ptr bytes mem) ≡ bytes) (h refl)
          (load-store buf.ptr bytes mem)
    replied-Filled (some e) buf bytes mem h = tt

    -- what the driver sees of a transaction that begins with clean registers
    seen :
        (address : ℕ) (bytes : List ℕ) (len : ℕ) (h : Host W)
        → IsClean h.twim
        → let r = W.transfer address bytes len h.device in Sees h.twim.events r.noise (last r)
    seen address bytes len h k =
        let r = W.transfer address bytes len h.device in
        accumulated-Sees h.twim.events r.noise (last r) k.error k.stopped
          (C.noise-AllSpurious address bytes len h.device)

    ends :
        {e : Events} (r : Outcome Device) (s : Sees e r.noise (last r))
        → (s.events.error ≡ true) ⊎ (s.events.stopped ≡ true)
    ends r s = elim (last-ends W r) [
      | inl failed ↦ inl (s.error ∙ failed)
      | inr over ↦ inr (s.stopped ∙ over)
    ]

    pub read_refines :
        (address : ℕ) (buf : Slice) (h : Host W)
        → IsClean h.twim
        → buf.len < 256
        → let (r, d) = (wire_bus W).read address buf.len h.device in
          (t : Twim) × (mem : Memory) × (read W waker stack address buf h
            ≡ some (forget r, host W t mem d))
          × Filled buf r mem
    unfolding read
    read_refines address buf h k fits =
        let r = W.transfer address [] buf.len h.device in
        let all = C.received-all address [] buf.len h.device in
        let s = seen address [] buf.len h k in
        let ((t, e), other) =
          awaited_lem waker address buf h.twim s.early (record (last r) { events = s.events })
            s.early-AllSpurious (ends r s) fits in
        let mem = store buf.ptr r.received h.mem in
        (
          t,
          mem,
          rw (serve-read W waker address buf h.twim h.mem h.device k fits, s.changes, e, s.error)
              (concluded_last W r.error buf.len (length r.received) (λ n. short_read n) t mem
                r.device r.received λ n. ap (λ k. k % 256) (all n)),
          replied-Filled r.error buf r.received h.mem all,
        )

    -- The bytes that are staged are those of the slice.
    pub staged_bytes :
        (s : Slice) (mem : Memory) (r : Slice × Memory)
        → Ready s mem r
        → load r.0.ptr r.0.len r.1 ≡ load s.ptr s.len mem
    staged_bytes s mem r made =
        ap (λ n. load r.0.ptr n r.1) made.same_len
        ∙ load-eq s.len r.0.ptr s.ptr r.1 mem made.same_bytes

    -- `write` once its bytes are staged
    abbrev pub written : ℕ → Slice → Memory → Host W → Option (Reply (Unit {0}) × Host W)
    written address s staged h =
        let (changes, mem, d) =
          serve W (poll_write waker address s not_started h.twim) staged h.device in
        concluded W (Await.write_from_ram waker address s h.twim changes) mem d

    pub forget-replied : (error : Option ℕ) → forget (replied error tt) ≡ replied error tt
    forget-replied none = refl
    forget-replied (some e) = refl

    pub write_staged :
        (address : ℕ) (s : Slice) (staged : Memory) (h : Host W)
        → IsClean h.twim
        → s.len < 256
        → let (r, d) = (wire_bus W).write address (load s.ptr s.len staged) h.device in
          (t : Twim) × (mem : Memory) × (written address s staged h ≡ some (r, host W t mem d))
    write_staged address s staged h k short =
        let bytes = load s.ptr s.len staged in
        let r = W.transfer address bytes 0 h.device in
        let (after, es) = serve-write W waker address s h.twim staged h.device k short in
        let v = seen address bytes 0 h k in
        let (other, (t, e)) =
          awaited_lem waker address s h.twim v.early (record (last r) { events = v.events })
            v.early-AllSpurious (ends r v) short in
        (
          t,
          after,
          rw (es, v.changes, e, v.error)
              (concluded_last W r.error s.len r.sent (λ n. short_write n) t after r.device tt
                  (λ n.
                    ap (λ k. k % 256)
                      (C.sent-all address bytes 0 h.device n ∙ length-load s.len s.ptr staged))
                ∙ ap (λ x. some (x, host W t after r.device)) (forget-replied r.error)),
        )

    -- `write_then_read` once its bytes are staged
    abbrev pub exchanged : ℕ → Slice → Slice → Memory → Host W → Option (Reply (Unit {0}) × Host W)
    exchanged address s rd_buf staged h =
        let (changes, mem, d) =
          serve W (poll_write_then_read waker address s rd_buf not_started h.twim) staged
            h.device in
        concluded W (Await.write_from_ram_then_read waker address s rd_buf h.twim changes) mem d

    pub write_then_read_staged :
        (address : ℕ) (s rd_buf : Slice) (staged : Memory) (h : Host W)
        → IsClean h.twim
        → s.len < 256
        → rd_buf.len < 256
        → let (r, d) =
            (wire_bus W).write_then_read address (load s.ptr s.len staged) rd_buf.len h.device in
          (t : Twim) × (mem : Memory) × (exchanged address s rd_buf staged h
            ≡ some (forget r, host W t mem d))
          × Filled rd_buf r mem
    write_then_read_staged address s rd_buf staged h k short short' =
        let bytes = load s.ptr s.len staged in
        let r = W.transfer address bytes rd_buf.len h.device in
        let all = C.received-all address bytes rd_buf.len h.device in
        let sent = C.sent-all address bytes rd_buf.len h.device in
        let es =
          serve-write_then_read W waker address s rd_buf h.twim staged h.device k short short' in
        let v = seen address bytes rd_buf.len h k in
        let (t, e) =
          combined_lem waker address s rd_buf h.twim v.early (record (last r) { events = v.events })
            v.early-AllSpurious (ends r v) in
        let mem = store rd_buf.ptr r.received staged in
        (
          t,
          mem,
          rw (es, v.changes, e, v.error)
              (concluded_both W r.error s.len rd_buf.len r.sent (length r.received) t mem r.device
                r.received
                λ n. (
                  ap (λ k. k % 256) (all n),
                  ap (λ k. k % 256) (sent n ∙ length-load s.len s.ptr staged),
                )),
          replied-Filled r.error rd_buf r.received staged all,
        )
