-- ===== src/WakerSet/Keys.antt =====
-- async-embedded/src/unsync/waker_set.rs: `insert`, `remove` and `cancel` by their keys.
use async_on_embedded.WakerSet.Walks.{
  counts-FirstWoken, notify_loop_one, cancel_loop-eq, notify_one_lem,
}
use async_on_embedded.Runtime.{ntasks}
use async_on_embedded.Prelude.{
  [], ◌∷◌, zero, ◌≤◌, ℕ, suc, ◌+◌, ◌≡◌, refl, ap, ◌∙◌, ◌↔◌, ◌⊎◌, inl, inr, Bool, false, Option,
  none, some, List, arith, Option-cases, is_some, length,
}
use async_on_embedded.WakerSet.View.{
  erase-insert_at, wake_opt, take_first, first_blocked, count_small, lookup-insert_at, counts-erase,
  counts-insert_at, is_notified, notified, is_blocked, blocked, view, IsValid,
}
use async_on_embedded.Slab.{insert_at, Entry, erase, lookup, Slab}
use async_on_embedded.WakerSet.{
  increment, notify, notify_one, cancel_removed, decrement, World, forget, Option, ℕ, WakerSet,
  insert, remove, cancel,
}

module _ (S : Slab) where
  -- A new entry is blocked, under a key that no entry had.
  pub record Added (waker k : ℕ) (s t : WakerSet S) : Type 0 where
    pub fresh : lookup k (view S s) ≡ none
    pub stored : lookup k (view S t) ≡ some (some waker)
    pub back : erase k (view S t) ≡ view S s
    pub one_more : blocked (view S t) ≡ suc (blocked (view S s))
    pub same_notified : notified (view S t) ≡ notified (view S s)
    pub valid : IsValid S t

  pub insert-Added :
      (waker k : ℕ) (s t : WakerSet S)
      → IsValid S s
      → insert S waker s ≡ some (k, t)
      → Added waker k s t
  unfolding insert
  insert-Added waker k s t v e = elim (Option-cases (S.insert (some waker) s.entries)) [
    | inl c ↦ ground arith
    | inr ((j, u), c) ↦
        let (fresh, placed) = S.entries-insert (some waker) s.entries j u c in
        let (i, at) = placed in
        ground (
          arith,
          fresh,
          at,
          counts-insert_at i j (some waker) (view S s),
          erase-insert_at i j (some waker) (view S s),
          lookup-insert_at i j (some waker) (view S s),
          count_small S s v,
        )
  ]

  -- The entry at a key is taken out, and the count of wakers follows.
  pub record Taken (k : ℕ) (o : Option ℕ) (s t : WakerSet S) : Type 0 where
    pub erased : view S t ≡ erase k (view S s)
    pub blocked_sum : blocked (view S s) ≡ is_blocked o + blocked (view S t)
    pub notified_sum : notified (view S s) ≡ is_notified o + notified (view S t)
    pub valid : IsValid S t

  pub remove-Taken :
      (k : ℕ) (o : Option ℕ) (s : WakerSet S)
      → IsValid S s
      → lookup k (view S s) ≡ some o
      → (t : WakerSet S) × (remove S k s ≡ some t) × Taken k o s t
  unfolding remove
  remove-Taken k o s v e =
      let (u, removed, at) = S.entries-remove k s.entries o e in
      let t : WakerSet S = record { entries = u; notifiable = forget S o s.notifiable } in
      (t, rw removed refl, ground (arith, at, counts-erase k o (view S s), count_small S s v))

  -- `insert` panics exactly on a full set.
  pub insert-none_iff :
      (waker : ℕ) (s : WakerSet S) → (insert S waker s ≡ none) ↔ (length (view S s) ≡ ntasks)
  unfolding insert
  insert-none_iff waker s = (
    λ e.
        (S.insert_full (some waker) s.entries).0
          (elim (Option-cases (S.insert (some waker) s.entries)) [
            | inl c ↦ c
            | inr (r, c) ↦ ground arith
          ]),
    λ e. rw ((S.insert_full (some waker) s.entries).1 e),
  )

  insert_at_nil : (i : ℕ) (e : Entry) → insert_at i e [] ≡ e ∷ []
  insert_at_nil zero e = refl
  insert_at_nil (suc i) e = refl

  -- The first operation that waits.
  pub insert_first :
      (waker : ℕ) (s : WakerSet S)
      → IsValid S s
      → view S s ≡ []
      → (k : ℕ) × (t : WakerSet S) × (insert S waker s ≡ some (k, t))
        × (view S t ≡ (k, some waker) ∷ [])
        × IsValid S t
  unfolding insert
  insert_first waker s v nobody = elim (Option-cases (S.insert (some waker) s.entries)) [
    | inl c ↦ absurd (omega (arith, ap length nobody, (S.insert_full (some waker) s.entries).0 c))
    | inr ((k, u), c) ↦
        let (fresh, (i, at)) = S.entries-insert (some waker) s.entries k u c in
        let alone : S.entries u ≡ (k, some waker) ∷ [] =
          at ∙ ap (insert_at i (k, some waker)) nobody ∙ insert_at_nil i (k, some waker) in
        let t : WakerSet S = record { entries = u; notifiable = increment s.notifiable } in
        (
          k,
          t,
          rw c,
          alone,
          record { counted = ground (arith, v, ap blocked nobody, ap blocked alone) },
        )
  ]

  -- Removing what was just inserted brings back the entries and the count, for a valid set.
  remove-insert :
      (waker k : ℕ) (s t : WakerSet S)
      → IsValid S s
      → insert S waker s ≡ some (k, t)
      → (u : WakerSet S) × (remove S k t ≡ some u)
        × (view S u ≡ view S s)
        × (u.notifiable ≡ s.notifiable)
  remove-insert waker k s t v e =
      let a = insert-Added waker k s t v e in
      let (u, removed, taken) = remove-Taken k (some waker) t a.valid a.stored in
      (u, removed, taken.erased ∙ a.back, omega (arith, taken, a))

  -- The entries that `cancel` leaves once the cancelled entry is out.
  abbrev pub handed_over : Option ℕ → List Entry → List Entry
  handed_over (some p) es = es
  handed_over none es = take_first es

  abbrev pub heir : Option ℕ → List Entry → Option ℕ
  heir (some p) es = none
  heir none es = first_blocked es

  -- Handing a notification on is `notify_one`.
  cancel_removed-none : (s : WakerSet S) (w : World) → cancel_removed S none s w ≡ notify_one S s w
  unfolding cancel_removed notify_one notify
  cancel_removed-none s w =
      rw (cancel_loop-eq (view S s) s.notifiable w, notify_loop_one (view S s) s.notifiable w)

  -- Cancelling an operation that has an entry in a valid set takes the entry out. If it was still
  -- blocked, nobody is woken. If it had been notified, the first operation that still holds a
  -- waker is woken in its place, so that the number of notified operations stays the same unless
  -- none is left blocked. No operation becomes blocked. The result says whether one was woken, and
  -- the set stays valid.
  pub cancel_lem :
      (k : ℕ) (o : Option ℕ) (s : WakerSet S) (w : World)
      → IsValid S s
      → lookup k (view S s) ≡ some o
      → let rest = erase k (view S s) in
        (t : WakerSet S) × (w' : World) × (b : Bool) × (cancel S k s w ≡ some (t, w', b))
        × (view S t ≡ handed_over o rest)
        × (w' ≡ wake_opt (heir o rest) w)
        × (b ≡ is_some (heir o rest))
        × ((notified (view S t) ≡ notified (view S s)) ⊎ (blocked (view S t) ≡ 0))
        × (blocked (view S t) ≤ blocked (view S s))
        × IsValid S t
  unfolding cancel
  cancel_lem k (some p) s w v e =
      let (u, removed, at) = S.entries-remove k s.entries (some p) e in
      let t : WakerSet S = record { entries = u; notifiable = decrement s.notifiable } in
      let c = counts-erase k (some p) (view S s) e in
      (
        t,
        w,
        false,
        rw (removed, cancel_removed),
        at,
        refl,
        refl,
        inl (ground (arith, at, c)),
        ground (arith, at, c),
        ground (arith, at, c, count_small S s v),
      )
  cancel_lem k none s w v e =
      let (u, removed, at) = S.entries-remove k s.entries none e in
      let s' : WakerSet S = record { entries = u; notifiable = s.notifiable } in
      let c = counts-erase k none (view S s) e in
      let woken = notify_one_lem S s' w (ground (arith, at, c)) in
      let (t, w', b) = notify_one S s' w in
      (
        t,
        w',
        b,
        rw (removed, cancel_removed-none s' w),
        woken.entries ∙ ap take_first at,
        woken.world ∙ ap (λ es. wake_opt (first_blocked es) w) at,
        woken.reported ∙ ap (λ es. is_some (first_blocked es)) at,
        ground (arith, at, c, counts-FirstWoken S s' t w w' b woken),
        ground (arith, at, c, counts-FirstWoken S s' t w w' b woken),
        woken.valid,
      )
