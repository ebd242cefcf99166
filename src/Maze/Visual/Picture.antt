-- ===== src/Maze/Visual/Picture.antt =====
-- The first loop of `updateVisual`: which entries of the array it sets.
use test.Prelude.{ℕ, ◌+◌, ◌*◌, ◌/◌, ◌%◌, ◌<◌, ◌≡◌, ◌↔◌, ◌⊎◌, refl, ap, sym}
use test.Prelude.{◌∙◌, inl, inr, ⊎_elim, subst, arith, Bool, true, false, false≢true, ◌&&◌}
use test.Prelude.Tests.{◌==◌, if◌then◌else◌, lt→ltb, Bool-cases, ==→≡}
use test.Prelude.Results.{Result, ok, Returns, Returns-value, Returns-for_range, for_range}
use native.Mathlib.Nat.{div-lt_iff_lt-mul, div-add-mod, mul-add-mod_self_left, mod-eq_of_lt}
use test.Cell
use test.Maze.State.{Maze}
use test.Maze.Grid
use test.Maze.Check.Compatible.{IsFull, cell, at-cell}
use test.Maze.Visual
use test.Maze.Visual.{Picture}

-- The walls of cell `c` at their places in the picture: column `2 x + 1` of a cell's own column
-- for the walls above and below, `2 x` and `2 x + 2` for those to the left and right, which stand
-- one line lower.
abbrev pub IsDrawn : Maze → ℕ → ℕ → ℕ → Type 0
IsDrawn m c x y =
    (Cell.has_top_wall (cell m c) ≡ true) × (x ≡ 2 * (c % m.width) + 1) × (y ≡ c / m.width)
    ⊎ (Grid.is_bottom_row m c ≡ true)
      × (Cell.has_bottom_wall (cell m c) ≡ true)
      × (x ≡ 2 * (c % m.width) + 1)
      × (y ≡ c / m.width + 1)
    ⊎ (Cell.has_left_wall (cell m c) ≡ true) × (x ≡ 2 * (c % m.width)) × (y ≡ c / m.width + 1)
    ⊎ (Grid.is_right_edge m c ≡ true)
      × (Cell.has_right_wall (cell m c) ≡ true)
      × (x ≡ 2 * (c % m.width) + 2)
      × (y ≡ c / m.width + 1)

abbrev paint : Bool → ℕ → ℕ → Picture → Picture
paint b x y v = λ p q. if b && p == x && q == y then true else v p q

mark_if_lem :
    (b : Bool) (x y : ℕ) (v : Picture)
    → x < 100
    → y < 100
    → Visual.mark_if b x y v ≡ ok (paint b x y v)
unfolding Visual.mark
mark_if_lem false x y v hx hy = refl
mark_if_lem true x y v hx hy = rw (lt→ltb x 100 hx, lt→ltb y 100 hy)

paint_lem :
    (b : Bool) (x y : ℕ) (v : Picture) (p q : ℕ)
    → (paint b x y v p q ≡ true) ↔ ((b ≡ true) × (p ≡ x) × (q ≡ y) ⊎ (v p q ≡ true))
paint_lem b x y v p q = ground arith

double_mod : (c w k : ℕ) → 0 < w → k < 2 → (2 * c + k) % (w * 2) ≡ 2 * (c % w) + k
double_mod c w k hw hk =
    ap (λ (t : ℕ). t % (w * 2))
      (let e : 2 * c + k ≡ w * 2 * (c / w) + (2 * (c % w) + k) = omega (arith, div-add-mod c w) in
        e)
    ∙ mul-add-mod_self_left (w * 2) (c / w) (2 * (c % w) + k)
    ∙ mod-eq_of_lt (omega arith)

module _ (m : Maze) (f : IsFull m) (wide : 2 * m.width < 100) (high : m.height < 100) where
  open f use {grid}

  odd_column : (c : ℕ) → (2 * c + 1) % (m.width * 2) ≡ 2 * (c % m.width) + 1
  odd_column c = double_mod c m.width 1 grid.wide (omega arith)

  even_column : (c : ℕ) → 2 * c % (m.width * 2) ≡ 2 * (c % m.width)
  even_column c =
      ap (λ (t : ℕ). t % (m.width * 2)) (let e : 2 * c ≡ 2 * c + 0 = omega arith in e)
      ∙ double_mod c m.width 0 grid.wide (omega arith)
      ∙ (omega arith)

  pub row-lt : (c : ℕ) → c < m.total_cells → c / m.width < m.height
  row-lt c h = (div-lt_iff_lt-mul grid.wide).1 (omega (arith, grid.total))

  column-lt : (c : ℕ) → c % m.width < m.width
  column-lt c = omega (arith, grid.wide)

  abbrev painted : ℕ → Picture → Picture
  painted c v =
      let cl = cell m c in
      let x = 2 * (c % m.width) in
      let y = c / m.width in
      paint (Grid.is_right_edge m c && Cell.has_right_wall cl) (x + 2) (y + 1) (
        paint (Cell.has_left_wall cl) x (y + 1) (
          paint (Grid.is_bottom_row m c && Cell.has_bottom_wall cl) (x + 1) (y + 1)
            (paint (Cell.has_top_wall cl) (x + 1) y v)))

  draw_cell_lem :
      (c : ℕ) (v : Picture) → c < m.total_cells → Visual.draw_cell m c v ≡ ok (painted c v)
  unfolding Visual.draw_cell
  draw_cell_lem c v h =
      let x = 2 * (c % m.width) in
      let y = c / m.width in
      let hx : x + 2 < 100 = omega (arith, column-lt c) in
      let hy : y + 1 < 100 = omega (arith, row-lt c h) in
      rw (
        at-cell m f c h,
        odd_column c,
        even_column c,
        mark_if_lem (Cell.has_top_wall (cell m c)) (x + 1) y v (omega arith) (omega arith),
        mark_if_lem _ (x + 1) (y + 1) _ (omega arith) hy,
        mark_if_lem _ x (y + 1) _ (omega arith) hy,
        mark_if_lem _ (x + 2) (y + 1) _ hx hy,
      )

  painted_lem :
      (c : ℕ) (v : Picture) (p q : ℕ)
      → (painted c v p q ≡ true) ↔ (IsDrawn m c p q ⊎ (v p q ≡ true))
  painted_lem c v p q = ground arith

  -- The array after the cells below `i`.
  abbrev pub Shows : ℕ → Picture → Type 0
  Shows i v = (p q : ℕ) → (v p q ≡ true) ↔ ((c : ℕ) × (c < i) × IsDrawn m c p q)

  Shows-painted : (i : ℕ) (v : Picture) → Shows i v → Shows (i + 1) (painted i v)
  Shows-painted i v h p q = (
    λ e.
        ⊎_elim (λ d. (i, omega arith, d))
          (λ old. let (c, lt, d) = (h p q).0 old in (c, omega arith, d))
          ((painted_lem i v p q).0 e),
    λ (c, lt, d). (painted_lem i v p q).1 (elim (Bool-cases (c == i)) [
      | inl e ↦ inl (subst (λ c. IsDrawn m c p q) (==→≡ c i e) d)
      | inr e ↦ inr ((h p q).1 (c, ground arith, d))
    ]),
  )

  abbrev draw_all : Result Picture
  draw_all = for_range m.total_cells 0 (Visual.draw_cell m) Visual.blank

  pub picture_lem : (v : Picture) × (draw_all ≡ ok v) × Shows m.total_cells v
  picture_lem = Returns-value (Shows m.total_cells) draw_all (
      Returns-for_range Shows (Visual.draw_cell m) m.total_cells
        (λ i v lt h.
          subst (Returns (Shows (i + 1))) (sym (draw_cell_lem i v lt)) (Shows-painted i v h))
        m.total_cells 0 Visual.blank (omega arith)
        (λ p q. (λ e. absurd (false≢true e), λ (c, lt, d). absurd (omega arith))))
