-- ===== src/WakerSet.antt =====
-- async-embedded/src/unsync/waker_set.rs: the set of the wakers of blocked operations, over the
-- slab that is its parameter. A method returns `none` where the code panics.
pub mod View
pub mod Walks
pub mod Keys
pub mod Tests
use async_on_embedded.Prelude.{
  ℕ, ◌+◌, ◌-◌, ◌%◌, Bool, true, false, Option, none, some, List, [], ◌∷◌, if◌then◌else◌, ◌>>=◌,
}
use async_on_embedded.Runtime.{World, usize, wake_by_ref}
use async_on_embedded.Slab.{Slab, Entry}

pub data Notify : Type 0 where
  any one : Notify

abbrev is_any : Notify → Bool
is_any any = true
is_any one = false

abbrev is_one : Notify → Bool
is_one any = false
is_one one = true

-- `notifiable -= 1` on a `usize`
abbrev pub decrement : ℕ → ℕ
decrement n = (n + usize - 1) % usize

abbrev pub increment : ℕ → ℕ
increment n = (n + 1) % usize

-- What a walk over the entries leaves: the entries, `notifiable`, the world, and whether an
-- operation was notified.
abbrev pub Walk : Type 0
Walk = List Entry × ℕ × World × Bool

-- The loop of `notify`.
pub notify_loop : Notify → Bool → List Entry → ℕ → World → Walk
notify_loop n notified [] m w = ([], m, w, notified)
notify_loop n notified ((k, some p) ∷ es) m w =
    let m' = decrement m in
    let w' = wake_by_ref p w in
    let rest = notify_loop n true es m' w' in
    if is_one n
    then ((k, none) ∷ es, m', w', true)
    else if is_any n
    then ((k, none) ∷ es, m', w', true)
    else ((k, none) ∷ rest.0, rest.1, rest.2, rest.3)
notify_loop n notified ((k, none) ∷ es) m w =
    let rest = notify_loop n notified es m w in
    if is_any n
    then ((k, none) ∷ es, m, w, notified)
    else ((k, none) ∷ rest.0, rest.1, rest.2, rest.3)

-- The loop of `cancel`.
pub cancel_loop : List Entry → ℕ → World → Walk
cancel_loop [] m w = ([], m, w, false)
cancel_loop ((k, some p) ∷ es) m w = ((k, none) ∷ es, decrement m, wake_by_ref p w, true)
cancel_loop ((k, none) ∷ es) m w =
    let (es', m', w', b) = cancel_loop es m w in ((k, none) ∷ es', m', w', b)

module _ (S : Slab) where
  open S use {Store}

  pub record WakerSet : Type 0 where
    pub entries : Store
    pub notifiable : ℕ

  pub new : WakerSet
  new = record { entries = S.new; notifiable = 0 }

  walk : WakerSet → Walk → WakerSet × World × Bool
  walk s (es, m, w, b) = (record { entries = S.walked s.entries es; notifiable = m }, w, b)

  pub notify : Notify → WakerSet → World → WakerSet × World × Bool
  unfolding walk
  notify n s w = walk s (notify_loop n false (S.entries s.entries) s.notifiable w)

  pub notify_any : WakerSet → World → WakerSet × World × Bool
  notify_any = notify any

  pub notify_one : WakerSet → World → WakerSet × World × Bool
  notify_one = notify one

  -- The key of the new entry; the waker is that of the task which polls.
  pub insert : ℕ → WakerSet → Option (ℕ × WakerSet)
  insert waker s = do
    (key, entries) ← S.insert (some waker) s.entries
    some (key, record { entries = entries; notifiable = increment s.notifiable })

  abbrev pub forget : Option ℕ → ℕ → ℕ
  forget (some p) m = decrement m
  forget none m = m

  pub remove : ℕ → WakerSet → Option WakerSet
  remove key s = do
    (opt_waker, entries) ← S.remove key s.entries
    some (record { entries = entries; notifiable = forget opt_waker s.notifiable })

  cancel_removed : Option ℕ → WakerSet → World → WakerSet × World × Bool
  unfolding walk
  cancel_removed (some p) s w = (record s { notifiable = decrement s.notifiable }, w, false)
  cancel_removed none s w = walk s (cancel_loop (S.entries s.entries) s.notifiable w)

  pub cancel : ℕ → WakerSet → World → Option (WakerSet × World × Bool)
  unfolding cancel_removed
  cancel key s w = do
    (opt_waker, entries) ← S.remove key s.entries
    some (cancel_removed opt_waker (record s { entries = entries }) w)
