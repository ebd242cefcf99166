-- ===== src/Cell/Random.antt =====
-- `CL::addRandomWall` (CL.cpp): which draw is taken, and what it does to the walls.
use test.Prelude.{
  ℕ, subst, ap, ◌⊎◌, zero, suc, sym, ◌∙◌, ◌+◌, ◌%◌, ◌^◌, ◌-◌, ◌<◌, ◌≡◌, refl, inl, inr, arith,
}
use test.Prelude.{true, false, false≢true, ◌++◌, List, [], ◌∷◌}
use test.Prelude.Tests.{Bool-cases}
use test.Prelude.Lists.{◌∈◌}
use test.Prelude.Results.{ok_injective, ok, err, no_draw, PlaysOr, PlaysOr-intro}
use test.Prelude.Draws.{NamesAll, Feeds, Feeds-append, Supplied}
use test.Cell
use test.Cell.{Cell, Drawn}
use test.Cell.Walls.{Walls, of_walls, wall_at, put, count, has_wall_at-of_walls}

-- What `add_random_wall` returns for a cell with the walls `w`: a free side, and the cell with
-- that one wall more.
pub record Adds (w : Walls) (d : Drawn) : Type 0 where
  pub side-lt : d.side < 4
  pub free : wall_at w d.side ≡ false
  pub added : d.cell ≡ of_walls (put w d.side true)

-- The sum of the code, `m_char += pow(2, 3 - r)`, adds the wall of side `r`.
power_adds :
    (w : Walls) (s : ℕ)
    → s < 4
    → wall_at w s ≡ false
    → Cell.with_char (((of_walls w).char + 2 ^ (3 - s)) % 2 ^ 8) ≡ of_walls (put w s true)
unfolding of_walls
power_adds w zero h e = ground arith
power_adds w (suc zero) h e = ground arith
power_adds w (suc (suc zero)) h e = ground arith
power_adds w (suc (suc (suc zero))) h e = ground arith
power_adds w (suc (suc (suc (suc s)))) h e = absurd (omega arith)

take_draw :
    (w : Walls) (d : ℕ) (draws : List ℕ)
    → wall_at w (d % 4) ≡ false
    → (r : Drawn) × (Cell.add_random_wall (of_walls w) (d ∷ draws) ≡ ok r)
      × Adds w r
      × (r.draws ≡ draws)
unfolding Cell.add_random_wall
take_draw w d draws e =
    let lt : d % 4 < 4 = omega arith in
    (
      record { side = d % 4; cell = _; draws = draws },
      rw (has_wall_at-of_walls w (d % 4) lt ∙ e),
      record { side-lt = lt; free = e; added = power_adds w (d % 4) lt e },
      refl,
    )

skip_draw :
    (w : Walls) (d : ℕ) (draws : List ℕ)
    → wall_at w (d % 4) ≡ true
    → Cell.add_random_wall (of_walls w) (d ∷ draws) ≡ Cell.add_random_wall (of_walls w) draws
unfolding Cell.add_random_wall
skip_draw w d draws e = rw (has_wall_at-of_walls w (d % 4) (omega arith) ∙ e)

-- A cell with four walls makes the code draw for ever: no list of draws is enough.
pub add_random_wall_full :
    (w : Walls) (draws : List ℕ)
    → ((s : ℕ) → wall_at w s ≡ true)
    → Cell.add_random_wall (of_walls w) draws ≡ err no_draw
unfolding Cell.add_random_wall
add_random_wall_full w [] h = refl
add_random_wall_full w (d ∷ draws) h =
    skip_draw w d draws (h (d % 4)) ∙ add_random_wall_full w draws h

-- Whatever is drawn, a result is a free side of the cell, with its wall and no other added.
pub add_random_wall-Adds :
    (w : Walls) (draws : List ℕ) (r : Drawn)
    → Cell.add_random_wall (of_walls w) draws ≡ ok r
    → Adds w r
unfolding Cell.add_random_wall
add_random_wall-Adds w [] r h = cc
add_random_wall-Adds w (d ∷ draws) r h = elim (Bool-cases (wall_at w (d % 4))) [
  | inl taken ↦ add_random_wall-Adds w draws r (sym (skip_draw w d draws taken) ∙ h)
  | inr free ↦
      let (r', e, adds, _) = take_draw w d draws free in
      subst (Adds w) (ok_injective r' r (sym e ∙ h)) adds
]

-- It returns as soon as a draw names a side with no wall.
pub add_random_wall_returns :
    (w : Walls) (draws : List ℕ) (d : ℕ)
    → d ∈ draws
    → wall_at w (d % 4) ≡ false
    → (r : Drawn) × (Cell.add_random_wall (of_walls w) draws ≡ ok r) × Adds w r
add_random_wall_returns w [] d m e = absurd m
add_random_wall_returns w (x ∷ draws) d m e = elim (Bool-cases (wall_at w (x % 4))) [
  | inl taken ↦ elim m [
    | inl first ↦ cc
    | inr later ↦ rw (skip_draw w x draws taken) (add_random_wall_returns w draws d later e)
  ]
  | inr free ↦ let (r, e, adds, _) = take_draw w x draws free in (r, e, adds)
]

-- What is left after a wall was drawn is enough for `n` rounds.
abbrev pub Leaves : Type 0 → ℕ → Walls → Drawn → Type 0
Leaves X n w r = Adds w r × Supplied X n r.draws

module _ (X : Type 0) (n : ℕ) (w : Walls) where
  -- Nothing but the end of the draws keeps it from returning.
  add_random_wall-PlaysOr :
      X → (draws : List ℕ) → PlaysOr X (Leaves X n w) (Cell.add_random_wall (of_walls w) draws)
  unfolding Cell.add_random_wall
  add_random_wall-PlaysOr x [] = x
  add_random_wall-PlaysOr x (d ∷ draws) = elim (Bool-cases (wall_at w (d % 4))) [
    | inl taken ↦
        subst (PlaysOr X (Leaves X n w)) (sym (skip_draw w d draws taken))
          (add_random_wall-PlaysOr x draws)
    | inr free ↦
        let (r, e, adds, _) = take_draw w d draws free in
        PlaysOr-intro X (Leaves X n w) _ r e (adds, inl x)
  ]

  -- It returns before the end of draws that name a free side.
  fed_lem :
      (used rest : List ℕ) (d : ℕ)
      → d ∈ used
      → wall_at w (d % 4) ≡ false
      → Feeds n rest
      → PlaysOr X (Leaves X n w) (Cell.add_random_wall (of_walls w) (used ++ rest))
  fed_lem [] rest d q e f = absurd q
  fed_lem (x ∷ used) rest d q e f = elim (Bool-cases (wall_at w (x % 4))) [
    | inl taken ↦ elim q [
      | inl first ↦ absurd (false≢true (sym e ∙ ap (λ c. wall_at w (c % 4)) first ∙ taken))
      | inr later ↦
          subst (PlaysOr X (Leaves X n w)) (sym (skip_draw w x (used ++ rest) taken))
            (fed_lem used rest d later e f)
    ]
    | inr free ↦
        let (r, run, adds, left_over) = take_draw w x (used ++ rest) free in
        PlaysOr-intro X (Leaves X n w) _ r run
          (adds, inr (subst (Feeds n) (sym left_over) (Feeds-append n used rest f)))
  ]

  free_side : count w < 4 → (s : ℕ) × (s < 4) × (wall_at w s ≡ false)
  free_side h = elim (Bool-cases w.top) [
    | inr e ↦ (0, omega arith, e)
    | inl t ↦ elim (Bool-cases w.right) [
      | inr e ↦ (1, omega arith, e)
      | inl r ↦ elim (Bool-cases w.bottom) [
        | inr e ↦ (2, omega arith, e)
        | inl b ↦ (3, omega arith, ground arith)
      ]
    ]
  ]

  -- For a cell that has less than four walls the draws of one round are enough.
  pub add_random_wall-Leaves :
      (used rest : List ℕ)
      → count w < 4
      → (X ⊎ (NamesAll used × Feeds n rest))
      → PlaysOr X (Leaves X n w) (Cell.add_random_wall (of_walls w) (used ++ rest))
  add_random_wall-Leaves used rest h (inl x) = add_random_wall-PlaysOr x (used ++ rest)
  add_random_wall-Leaves used rest h (inr (names, f)) =
      let (s, hs, free) = free_side h in
      let (d, q, e) = names s hs in fed_lem used rest d q (ap (wall_at w) e ∙ free) f
