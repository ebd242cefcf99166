-- ===== src/Prelude/Draws.antt =====
-- Draws that are enough for the generator.
use Prim.Native.Nat.{ℕ, zero, suc, ◌%◌, ◌<◌}
use mathlib.Core.Path.{◌≡◌, ap}
use mathlib.Core.Logic.{◌⊎◌, inr}
use mathlib.Core.List.{List, [], ◌∷◌, ◌++◌}
use native.Mathlib.Omega.{arith}
use test.Prelude.Lists.{◌∈◌}

-- Each of the four sides is the remainder of one of the draws.
abbrev pub NamesAll : List ℕ → Type 0
NamesAll draws = (s : ℕ) → s < 4 → (e : ℕ) × (e ∈ draws) × (e % 4 ≡ s)

-- The draws have `n` parts, one after another, of a draw and some that name each side.
abbrev pub Feeds : ℕ → List ℕ → Type 0
Feeds zero draws = Unit {0}
Feeds (suc n) draws =
    (d : ℕ) × (used : List ℕ) × (rest : List ℕ) × (draws ≡ d ∷ (used ++ rest))
    × NamesAll used
    × Feeds n rest

Feeds-cons : (n x : ℕ) (draws : List ℕ) → Feeds n draws → Feeds n (x ∷ draws)
Feeds-cons zero x draws f = tt
Feeds-cons (suc n) x draws (d, used, rest, e, names, f) =
    (x, d ∷ used, rest, ap (λ l. x ∷ l) e, λ s h. let (c, q, r) = names s h in (c, inr q, r), f)

pub Feeds-append : (n : ℕ) (used rest : List ℕ) → Feeds n rest → Feeds n (used ++ rest)
Feeds-append n [] rest f = f
Feeds-append n (x ∷ used) rest f = Feeds-cons n x (used ++ rest) (Feeds-append n used rest f)

-- Two draws of those for one round more.
pub Feeds-two :
    (n : ℕ) (draws : List ℕ)
    → Feeds (suc n) draws
    → (d : ℕ) × (e : ℕ) × (rest : List ℕ) × (draws ≡ d ∷ e ∷ rest) × Feeds n rest
Feeds-two n draws (d, [], rest, e, names, f) =
    let (c, none_in, r) = names 0 (omega arith) in absurd none_in
Feeds-two n draws (d, x ∷ used, rest, e, names, f) =
    (d, x, used ++ rest, e, Feeds-append n used rest f)

-- The draws are enough for `n` rounds, or `X` holds.
abbrev pub Supplied : Type 0 → ℕ → List ℕ → Type 0
Supplied X n draws = X ⊎ Feeds n draws
