-- ===== src/Twim/Staging.antt =====
-- nrf52/src/twim.rs: `write` and `write_then_read` up to their futures: the DMA reads RAM only, so
-- bytes elsewhere are copied into a buffer on the stack. Memory is a function of addresses.
use async_on_embedded.Prelude.{
  ◌⊎◌, ℕ, ◌+◌, ◌-◌, ◌≤◌, ◌<◌, ◌≡◌, refl, true, ◌&&◌, Option, none, some, arith, ltb, leb,
  if◌then◌else◌, inl, inr, Bool-cases,
}
use async_on_embedded.Twim.{slice_in_ram}
use async_on_embedded.Twim0.{Slice}

abbrev pub Memory : Type 0
Memory = ℕ → ℕ

-- MAXCNT
abbrev pub maxcnt : ℕ
maxcnt = 256

-- `let mut buf = [0; MAXCNT]` at the address `stack`, and `buf[..n].copy_from_slice(bytes)`
pub copied : ℕ → Slice → Memory → Memory
copied stack s mem a =
    if leb stack a && ltb a (stack + s.len)
    then mem (s.ptr + (a - stack))
    else if leb stack a && ltb a (stack + maxcnt)
    then 0
    else mem a

-- the slice for the DMA
pub staged : ℕ → Slice → Memory → Slice × Memory
staged stack s mem =
    if slice_in_ram s then (s, mem) else (record { ptr = stack; len = s.len }, copied stack s mem)

-- `write` before its future: `none` is the failed `assert!`.
pub stage_write : ℕ → Slice → Memory → Option (Slice × Memory)
stage_write stack bytes mem = if ltb bytes.len maxcnt then some (staged stack bytes mem) else none

-- `write_then_read` before its future
pub stage_write_then_read : ℕ → Slice → Slice → Memory → Option (Slice × Memory)
stage_write_then_read stack wr_buf rd_buf mem =
    if ltb wr_buf.len maxcnt && ltb rd_buf.len maxcnt then some (staged stack wr_buf mem) else none

-- What the DMA is given: a slice in RAM that holds the same bytes.
pub record Ready (s : Slice) (mem : Memory) (r : Slice × Memory) : Type 0 where
  pub same_len : r.0.len ≡ s.len
  pub in_ram : slice_in_ram r.0 ≡ true
  pub same_bytes : (i : ℕ) → i < s.len → r.1 (r.0.ptr + i) ≡ mem (s.ptr + i)

buffer_in_ram :
    (stack len : ℕ)
    → 0x2000_0000 ≤ stack
    → stack + maxcnt < 0x2002_0000
    → len < maxcnt
    → slice_in_ram (record { ptr = stack; len = len }) ≡ true
unfolding slice_in_ram
buffer_in_ram stack len lo hi l = ground arith

copied_at :
    (stack : ℕ) (s : Slice) (mem : Memory) (i : ℕ)
    → i < s.len
    → copied stack s mem (stack + i) ≡ mem (s.ptr + i)
unfolding copied
copied_at stack s mem i l =
    let inside : (leb stack (stack + i) && ltb (stack + i) (stack + s.len)) ≡ true = ground arith in
    let same : stack + i - stack ≡ i = omega arith in rw inside (rw same)

staged-Ready :
    (stack : ℕ) (s : Slice) (mem : Memory)
    → 0x2000_0000 ≤ stack
    → stack + maxcnt < 0x2002_0000
    → s.len < maxcnt
    → Ready s mem (staged stack s mem)
unfolding staged
staged-Ready stack s mem lo hi l = elim (Bool-cases (slice_in_ram s)) [
  | inl e ↦ rw e (record { same_len = refl; in_ram = e; same_bytes = λ i l'. refl })
  | inr e ↦ rw e (record {
    same_len = refl;
    in_ram = buffer_in_ram stack s.len lo hi l;
    same_bytes = copied_at stack s mem;
  })
]

-- With a buffer on a stack that lies in RAM: `write` and `write_then_read` panic exactly on slices
-- of 256 bytes and more; otherwise the slice that their futures give to the DMA lies in RAM, has
-- the same length and holds the same bytes, wherever the given slice lies.
pub staging_lem :
    (stack : ℕ) (wr rd : Slice) (mem : Memory)
    → 0x2000_0000 ≤ stack
    → stack + maxcnt < 0x2002_0000
    → (((stage_write stack wr mem ≡ none) × (maxcnt ≤ wr.len))
        ⊎ ((r : Slice × Memory) × (stage_write stack wr mem ≡ some r) × Ready wr mem r))
      × (((stage_write_then_read stack wr rd mem ≡ none) × ((maxcnt ≤ wr.len) ⊎ (maxcnt ≤ rd.len)))
          ⊎ ((r : Slice × Memory) × (stage_write_then_read stack wr rd mem ≡ some r)
              × (rd.len < maxcnt)
              × Ready wr mem r))
unfolding stage_write stage_write_then_read
staging_lem stack wr rd mem lo hi =
    let made = staged-Ready stack wr mem lo hi in
    elim (Bool-cases (ltb wr.len maxcnt)) [
      | inr e ↦ (inl (rw e, ground arith), inl (rw e, inl (ground arith)))
      | inl e ↦ (
        inr (staged stack wr mem, rw e, made (ground arith)),
        elim (Bool-cases (ltb rd.len maxcnt)) [
          | inr f ↦ inl (rw (e, f), inr (ground arith))
          | inl f ↦ inr (staged stack wr mem, rw (e, f), ground arith, made (ground arith))
        ],
      )
    ]
