-- ===== src/WakerSet/Tests.antt =====
-- async-embedded/src/unsync/waker_set.rs: a set with three entries.
use async_on_embedded.WakerSet.{WakerSet, insert, cancel}
use async_on_embedded.WakerSet.View.{view, IsValid, wake_opt, notified, blocked}
use async_on_embedded.WakerSet.Keys.{handed_over, heir, cancel_lem}
use async_on_embedded.Slab.{erase}
use async_on_embedded.Slab.Lists.{list_slab}
use async_on_embedded.Runtime.{World}
use native.Mathlib.Decide.{dec_lt}
use async_on_embedded.Prelude.{
  ◌≤◌, ◌≡◌, refl, ◌⊎◌, Bool, false, none, some, [], ◌∷◌, arith, is_some,
}

abbrev pub quiet : World
quiet = record { ready = λ p. false; task_ready = false }

-- The first operation has been notified; the others hold the wakers 70 and 90.
abbrev pub three : WakerSet list_slab
three = record {
  entries = ((4, none) ∷ (2, some 70) ∷ (1, some 90) ∷ [], omega arith);
  notifiable = 2;
}

pub three-IsValid : IsValid list_slab three
three-IsValid = record { counted = refl }

-- one more, with the waker 60
abbrev four : WakerSet list_slab
four = elim (dec_lt 3 8) [
  | yes l ↦ record {
    entries = ((10, some 60) ∷ (4, none) ∷ (2, some 70) ∷ (1, some 90) ∷ [], l);
    notifiable = 3;
  }
  | no n ↦ three
]

four-inserted : insert list_slab 60 three ≡ some (10, four)
unfolding insert dec_lt
four-inserted = refl

cancel_lem_example :
    let rest = erase 4 (view list_slab three) in
    (t : WakerSet list_slab) × (w' : World) × (b : Bool) × (cancel list_slab 4 three quiet
      ≡ some (t, w', b))
    × (view list_slab t ≡ handed_over list_slab none rest)
    × (w' ≡ wake_opt (heir list_slab none rest) quiet)
    × (b ≡ is_some (heir list_slab none rest))
    × ((notified (view list_slab t) ≡ notified (view list_slab three))
        ⊎ (blocked (view list_slab t) ≡ 0))
    × (blocked (view list_slab t) ≤ blocked (view list_slab three))
    × IsValid list_slab t
cancel_lem_example = cancel_lem list_slab 4 none three quiet three-IsValid refl
