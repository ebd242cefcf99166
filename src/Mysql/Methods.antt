-- ===== src/Mysql/Methods.antt =====
-- How the methods of XMySQL end, and the stop watch around their calls of the library.
use test.Prelude.{ℕ, ◌≡◌, ◌⊎◌, refl, sym, subst, inl, inr}
use test.Prelude.Tests.{◌==◌, Bool-cases}
use test.Mysql.Client.{Client, Text}
use test.Mysql.Session.{State, Outcome, returned, thrown, no_fuel, get_elapsed_time}

-- An exception with the name of this place.
abbrev pub Throws : Text → Outcome ℕ → Type 0
Throws place (returned n) = ⊥
Throws place (thrown e) = e.function ≡ place
Throws place Outcome.invalid = ⊥
Throws place no_fuel = ⊥

-- A read of the clock, or none.
pub elapsed :
    (c : Client) (s : State c)
    → (w : c.World) × (get_elapsed_time c s ≡ (returned tt, record s { world = w }))
      × ((w ≡ s.world) ⊎ (w ≡ (c.counter s.world).1))
unfolding get_elapsed_time
elapsed c s = elim (Bool-cases (s.object.start_tick == 0)) [
  | inl stopped ↦ (s.world, rw stopped refl, inl refl)
  | inr runs ↦ ((c.counter s.world).1, rw runs refl, inr refl)
]

-- What a read of the clock cannot change still holds behind it.
pub elapsed_keeps :
    (c : Client) (P : c.World → Type 0)
    → ((w : c.World) → P w → P (c.counter w).1)
    → (s : State c) → P s.world
    → (w : c.World) × (get_elapsed_time c s ≡ (returned tt, record s { world = w })) × P w
elapsed_keeps c P keeps s h =
    let (w, run, which) = elapsed c s in
    elim which [
      | inl e ↦ (w, run, subst P (sym e) h)
      | inr e ↦ (w, run, subst P (sym e) (keeps s.world h))
    ]
