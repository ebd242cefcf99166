-- ===== src/Maze/Generate/Opened.antt =====
-- A maze with a border and no wall inside: every cell can be reached.
use test.Prelude.{
  ℕ, zero, suc, ◌+◌, ◌-◌, ◌/◌, ◌%◌, ◌<◌, ◌≡◌, ◌∙◌, refl, sym, ap, arith, false, subst, false≢true,
}
use test.Prelude.Tests.{◌==◌, if◌then◌else◌, ==→≡}
use native.Mathlib.Nat.{div-add-mod', div-lt_iff_lt-mul, mod-add-mod}
use test.Cell.Walls.{has_bottom_wall-of_walls, has_left_wall-of_walls}
use test.Maze.State.{Maze}
use test.Maze.Grid
use test.Maze.Grid.Laws.{cell_at, cell_at-lt, neighbours_lem, mod_cases, right_edge_column}
use test.Maze.Routes.Passage.{Passage, down, left, Reach, here, step}
use test.Maze.Generate.Shape.{Sides, walls_of, at-shape}
use test.Maze.Generate.Sides.{is_outside}
use test.Maze.Generate.Walled.{IsWalled}

module _ (m : Maze) (has : Sides) (w : IsWalled m has)
    (bare : (c s : ℕ)
      → c < m.total_cells
      → s < 4
      → is_outside m c s ≡ false
      → has c s ≡ false) where
  open w use {grid, shaped}

  Passage-left : (c : ℕ) → c < m.total_cells → Grid.is_left_edge m c ≡ false → Passage m c (c - 1)
  unfolding Grid.neighbour_left
  Passage-left c h inner =
      left _ (at-shape m.total_cells has m.cl_matrix shaped c h)
        (has_left_wall-of_walls (walls_of has c) ∙ bare c 3 h (omega arith) (ground arith))
        (λ e. false≢true (sym inner ∙ ap (Grid.is_left_edge m) e ∙ w.exit_left)) (rw inner)

  Passage-down : (c : ℕ) → c < m.total_cells → Passage m c (Grid.neighbour_bottom m c)
  Passage-down c h =
      down _ (at-shape m.total_cells has m.cl_matrix shaped c h)
        (has_bottom_wall-of_walls (walls_of has c) ∙ bare c 2 h (omega arith) (ground arith)) refl

  module _ (y0 : ℕ) (hy0 : y0 < m.height) where
    -- Along the row.
    row_reached :
        (k x : ℕ)
        → x + k + 1 ≡ m.width
        → Reach m (cell_at m (m.width - 1) y0)
        → Reach m (cell_at m x y0)
    row_reached zero x e r = subst (λ x. Reach m (cell_at m x y0)) (omega arith) r
    row_reached (suc k) x e r =
        let before = row_reached k (x + 1) (omega arith) r in
        let placed = neighbours_lem m grid (x + 1) y0 (omega arith) hy0 in
        let inner : Grid.is_left_edge m (cell_at m (x + 1) y0) ≡ false =
          placed.left_edge ∙ (ground arith) in
        let back : cell_at m (x + 1) y0 - 1 ≡ cell_at m x y0 = omega arith in
        step before (
          subst (Passage m (cell_at m (x + 1) y0)) back (
            Passage-left (cell_at m (x + 1) y0) (cell_at-lt m grid (x + 1) y0 (omega arith) hy0)
              inner))

    -- Down the column.
    column_reached :
        (j x : ℕ)
        → x < m.width
        → Reach m (cell_at m x y0)
        → Reach m (cell_at m x ((y0 + j) % m.height))
    column_reached zero x hx r =
        let e : y0 ≡ (y0 + 0) % m.height = ground (arith, mod_cases (y0 + 0) m.height) in
        subst (λ y. Reach m (cell_at m x y)) e r
    column_reached (suc j) x hx r =
        let before = column_reached j x hx r in
        let y = (y0 + j) % m.height in
        let hy : y < m.height = omega (arith, grid.high) in
        let placed = neighbours_lem m grid x y hx hy in
        let next : (if y + 1 == m.height then 0 else y + 1) ≡ (y0 + suc j) % m.height =
          ground (arith, mod-add-mod (y0 + j) m.height 1, mod_cases (y + 1) m.height) in
        subst (λ y. Reach m (cell_at m x y)) next
          (step before (
            subst (Passage m (cell_at m x y)) placed.bottom
              (Passage-down (cell_at m x y) (cell_at-lt m grid x y hx hy))))

  pub all_reached : (d : ℕ) → d < m.total_cells → Reach m d
  all_reached d hd =
      let e = m.entrance in
      let y0 = e / m.width in
      let hy0 : y0 < m.height =
        (div-lt_iff_lt-mul grid.wide).1 (omega (arith, grid.total, w.inside)) in
      let y = d / m.width in
      let hy : y < m.height = (div-lt_iff_lt-mul grid.wide).1 (omega (arith, grid.total)) in
      let x = d % m.width in
      let hx : x < m.width = omega (arith, grid.wide) in
      let last : e % m.width ≡ m.width - 1 =
        ==→≡ _ _ (sym (right_edge_column m e grid) ∙ w.entrance_right) in
      let at_entrance : cell_at m (m.width - 1) y0 ≡ e = rw (← last) (div-add-mod' e m.width) in
      let begun : Reach m (cell_at m (m.width - 1) y0) = here at_entrance in
      let along = row_reached y0 hy0 (m.width - 1 - x) x (omega arith) begun in
      let down_to = column_reached y0 hy0 (y + m.height - y0) x hx along in
      let e1 : (y0 + (y + m.height - y0)) % m.height ≡ y =
        ground (arith, mod_cases (y0 + (y + m.height - y0)) m.height) in
      subst (Reach m) (rw e1 (div-add-mod' d m.width)) down_to
