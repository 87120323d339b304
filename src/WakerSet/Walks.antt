-- ===== src/WakerSet/Walks.antt =====
-- async-embedded/src/unsync/waker_set.rs: whom `notify_one`, `notify_any` and `cancel` wake.
use async_on_embedded.Prelude.{
  ◌∙◌, ap, suc, ◌⊎◌, ◌≤◌, ◌<◌, ◌≢◌, ℕ, ◌≡◌, refl, none, some, List, [], ◌∷◌, map, arith, Bool, true,
  false, is_some, Option-cases, inl, inr,
}
use native.Mathlib.Decide.{ℕ_discrete}
use async_on_embedded.Slab.{Slab, Entry, key}
use async_on_embedded.Runtime.{ntasks, World, wake_by_ref}
use async_on_embedded.WakerSet.{
  notify_any, WakerSet, notify, notify_one, Walk, any, one, notify_loop, cancel_loop, decrement,
}
use async_on_embedded.WakerSet.View.{
  blocked, notified, head_waker, take_head, first_blocked, take_first, wake_opt, view, IsValid,
  keys-take_first, counts-take_first, take_first_of_none, first_blocked-none, first_blocked-some,
  count_small,
}

-- what a walk that takes the first waker leaves
abbrev pub first_taken : List Entry → ℕ → World → Walk
first_taken es m w = elim (first_blocked es) [
  | none ↦ (es, m, w, false)
  | some p ↦ (take_first es, decrement m, wake_by_ref p w, true)
]

pub cancel_loop-eq : (es : List Entry) (m : ℕ) (w : World) → cancel_loop es m w ≡ first_taken es m w
unfolding cancel_loop
cancel_loop-eq [] m w = refl
cancel_loop-eq ((k, some p) ∷ es) m w = refl
cancel_loop-eq ((k, none) ∷ es) m w = ground (arith, cancel_loop-eq es m w)

pub notify_loop_one :
    (es : List Entry) (m : ℕ) (w : World) → notify_loop one false es m w ≡ first_taken es m w
unfolding notify_loop
notify_loop_one [] m w = refl
notify_loop_one ((k, some p) ∷ es) m w = refl
notify_loop_one ((k, none) ∷ es) m w = ground (arith, notify_loop_one es m w)

abbrev pub head_taken : List Entry → ℕ → World → Walk
head_taken [] m w = ([], m, w, false)
head_taken ((k, some p) ∷ es) m w = ((k, none) ∷ es, decrement m, wake_by_ref p w, true)
head_taken ((k, none) ∷ es) m w = ((k, none) ∷ es, m, w, false)

pub notify_loop_any :
    (es : List Entry) (m : ℕ) (w : World) → notify_loop any false es m w ≡ head_taken es m w
unfolding notify_loop
notify_loop_any [] m w = refl
notify_loop_any ((k, some p) ∷ es) m w = refl
notify_loop_any ((k, none) ∷ es) m w = refl

keys-first_taken :
    (es : List Entry) (m : ℕ) (w : World) → map key (first_taken es m w).0 ≡ map key es
keys-first_taken es m w = elim (Option-cases (first_blocked es)) [
  | inl e ↦ rw (e, first_taken)
  | inr (p, e) ↦ rw (e, first_taken) (keys-take_first es)
]

keys-head_taken : (es : List Entry) (m : ℕ) (w : World) → map key (head_taken es m w).0 ≡ map key es
keys-head_taken [] m w = refl
keys-head_taken ((k, some p) ∷ es) m w = refl
keys-head_taken ((k, none) ∷ es) m w = refl

head_taken_lem :
    (es : List Entry) (m : ℕ) (w : World)
    → m ≡ blocked es
    → m ≤ ntasks
    → let (es', m', w', b) = head_taken es m w in
      (es' ≡ take_head es)
      × (w' ≡ wake_opt (head_waker es) w)
      × (b ≡ is_some (head_waker es))
      × (es ≢ [] → 0 < notified es')
      × (m' ≡ blocked es')
head_taken_lem [] m w e h = (refl, refl, refl, λ n. absurd (n refl), e)
head_taken_lem ((k, some p) ∷ es) m w e h = (refl, refl, refl, λ n. omega arith, omega arith)
head_taken_lem ((k, none) ∷ es) m w e h = (refl, refl, refl, λ n. omega arith, e)

-- What it means that the first waker of a set, if there is one, was taken and woken.
pub record FirstWoken (S : Slab) (s t : WakerSet S) (w w' : World) (b : Bool) : Type 0 where
  pub entries : view S t ≡ take_first (view S s)
  pub world : w' ≡ wake_opt (first_blocked (view S s)) w
  pub reported : b ≡ is_some (first_blocked (view S s))
  pub valid : IsValid S t

module _ (S : Slab) where
  first_taken-FirstWoken :
      (s t : WakerSet S) (w : World)
      → IsValid S s
      → view S t ≡ (first_taken (view S s) s.notifiable w).0
      → t.notifiable ≡ (first_taken (view S s) s.notifiable w).1
      → FirstWoken S s t w
          (first_taken (view S s) s.notifiable w).2
          (first_taken (view S s) s.notifiable w).3
  first_taken-FirstWoken s t w v e n = elim (Option-cases (first_blocked (view S s))) [
    | inl c ↦ ground (arith, take_first_of_none (view S s) (first_blocked-none (view S s) c))
    | inr (p, c) ↦
        ground (
          arith,
          counts-take_first (view S s) (first_blocked-some p (view S s) c),
          count_small S s v,
        )
  ]

  -- On a valid set `notify_one` takes and wakes the first operation that still holds a waker, and
  -- reports whether there was one; every other entry stays, and the set stays valid.
  pub notify_one_lem :
      (s : WakerSet S) (w : World)
      → IsValid S s
      → let (t, w', b) = notify_one S s w in FirstWoken S s t w w' b
  unfolding notify_one notify
  notify_one_lem s w v = rw (notify_loop_one (view S s) s.notifiable w) (
      first_taken-FirstWoken s _ w v
        (S.entries-walked s.entries _ (keys-first_taken (view S s) s.notifiable w)) refl)

  -- On a valid set `notify_any` looks at the first entry alone. If that entry holds a waker, it is
  -- taken and woken, and the result is `true`; otherwise nothing changes and the result is `false`.
  -- Either way a set that has an entry then has a notified one, and the set stays valid.
  pub notify_any_lem :
      (s : WakerSet S) (w : World)
      → IsValid S s
      → let (t, w', b) = notify_any S s w in
        (view S t ≡ take_head (view S s))
        × (w' ≡ wake_opt (head_waker (view S s)) w)
        × (b ≡ is_some (head_waker (view S s)))
        × (view S s ≢ [] → 0 < notified (view S t))
        × IsValid S t
  unfolding notify_any notify
  notify_any_lem s w v = rw (notify_loop_any (view S s) s.notifiable w) (
      let h = head_taken_lem (view S s) s.notifiable w v.counted (count_small S s v) in
      rw (S.entries-walked s.entries _ (keys-head_taken (view S s) s.notifiable w)) (
        h.0,
        h.1,
        h.2,
        h.3,
        record {
          counted =
              rw (S.entries-walked s.entries _ (keys-head_taken (view S s) s.notifiable w)) h.4;
        },
      ))

  -- Waking the first operation notifies one more, unless none is blocked.
  pub counts-FirstWoken :
      (s t : WakerSet S) (w w' : World) (b : Bool)
      → FirstWoken S s t w w' b
      → ((blocked (view S s) ≡ 0)
          × (blocked (view S t) ≡ 0)
          × (notified (view S t) ≡ notified (view S s)))
        ⊎ ((suc (blocked (view S t)) ≡ blocked (view S s))
            × (notified (view S t) ≡ suc (notified (view S s))))
  counts-FirstWoken s t w w' b f = elim (ℕ_discrete (blocked (view S s)) 0) [
    | yes z ↦ inl (
      z,
      rw f.entries (rw (take_first_of_none (view S s) z) z),
      ap notified (f.entries ∙ take_first_of_none (view S s) z),
    )
    | no nz ↦ inr (rw f.entries (counts-take_first (view S s) nz))
  ]
