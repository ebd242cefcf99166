-- ===== src/Maze/Generate/Bare.antt =====
-- The picture of a maze with a border: what an empty place of it says of the walls.
use test.Prelude.{
  ℕ, ◌+◌, ◌-◌, ◌*◌, ◌<◌, ◌≡◌, ◌≢◌, ◌∙◌, sym, ap, inl, inr, arith, Bool, false, false≢true, List,
}
use test.Prelude.Tests.{Bool-cases}
use test.Prelude.Results.{ok_injective, ok, at}
use test.Cell
use test.Cell.Walls.{has_top_wall-of_walls, has_right_wall-of_walls, has_left_wall-of_walls}
use test.Maze.State.{Maze}
use test.Maze.Grid.Laws.{cell_at, cell_at-lt, cell_at_div, cell_at_mod, neighbours_lem}
use test.Maze.Visual.Picture.{IsDrawn}
use test.Maze.Visual.Pixels.{Draws}
use test.Maze.Visual.Intersections.{IsPictured}
use test.Maze.Load.Frames.{IsSmall}
use test.Maze.Generate.Shape.{Sides, walls_of}
use test.Maze.Generate.Walled.{IsWalled}

module _ (m : Maze) (has : Sides) (w : IsWalled m has) (small : IsSmall m) (bits : List Bool)
    (d : Draws m (record m { cl_matrix_visual = bits })) where
  open w use {grid, shaped}

  abbrev pub seen : Maze
  seen = record m { cl_matrix_visual = bits }

  pub seen-IsPictured : IsPictured seen
  seen-IsPictured = record { columns = small.columns; lines = small.lines; entries = d.size }

  no_mark :
      (x y c : ℕ)
      → x < m.width_visual
      → y < m.height_visual
      → at bits (x + y * m.width_visual) ≡ ok false
      → c < m.total_cells
      → ¬ IsDrawn m c x y
  no_mark x y c hx hy e hc drawn =
      let (b, run, shows) = d.entries x y hx hy in
      let same : x + y * m.width_visual ≡ y * m.width_visual + x = omega arith in
      let dark : false ≡ b = ok_injective false b (sym e ∙ ap (at bits) same ∙ run) in
      false≢true (dark ∙ shows.1 (c, hc, drawn))

  pub no_left :
      (x r : ℕ)
      → x < m.width
      → r < m.height
      → at bits (2 * x + (r + 1) * m.width_visual) ≡ ok false
      → has (cell_at m x r) 3 ≡ false
  no_left x r hx hr e =
      let c = cell_at m x r in
      let hc = cell_at-lt m grid x r hx hr in
      elim (Bool-cases (has c 3)) [
        | inl taken ↦ absurd (
            no_mark (2 * x) (r + 1) c (omega (arith, small.columns)) (omega (arith, small.lines)) e
              hc
              (inr (
                inr (
                  inl (
                    ap Cell.has_left_wall (shaped.shape c hc)
                        ∙ has_left_wall-of_walls (walls_of has c)
                        ∙ taken,
                    ap (λ n. 2 * n) (sym (cell_at_mod m grid x r hx hr)),
                    ap (λ n. n + 1) (sym (cell_at_div m grid x r hx hr)),
                  )))))
        | inr free ↦ free
      ]

  pub no_top :
      (x r : ℕ)
      → x < m.width
      → r < m.height
      → at bits (2 * x + 1 + r * m.width_visual) ≡ ok false
      → has (cell_at m x r) 0 ≡ false
  no_top x r hx hr e =
      let c = cell_at m x r in
      let hc = cell_at-lt m grid x r hx hr in
      elim (Bool-cases (has c 0)) [
        | inl taken ↦ absurd (
            no_mark (2 * x + 1) r c (omega (arith, small.columns)) (omega (arith, small.lines)) e hc
              (inl (
                ap Cell.has_top_wall (shaped.shape c hc)
                    ∙ has_top_wall-of_walls (walls_of has c)
                    ∙ taken,
                ap (λ n. 2 * n + 1) (sym (cell_at_mod m grid x r hx hr)),
                sym (cell_at_div m grid x r hx hr),
              )))
        | inr free ↦ free
      ]

  pub no_right :
      (r : ℕ)
      → r < m.height
      → at bits (2 * m.width + (r + 1) * m.width_visual) ≡ ok false
      → has (cell_at m (m.width - 1) r) 1 ≡ false
  no_right r hr e =
      let x = m.width - 1 in
      let hx : x < m.width = omega (arith, grid.wide) in
      let c = cell_at m x r in
      let hc = cell_at-lt m grid x r hx hr in
      elim (Bool-cases (has c 1)) [
        | inl taken ↦ absurd (
            no_mark (2 * m.width) (r + 1) c (omega (arith, small.columns))
              (omega (arith, small.lines)) e hc
              (inr (
                inr (
                  inr (
                    (neighbours_lem m grid x r hx hr).right_edge ∙ (ground arith),
                    ap Cell.has_right_wall (shaped.shape c hc)
                        ∙ has_right_wall-of_walls (walls_of has c)
                        ∙ taken,
                    omega (arith, cell_at_mod m grid x r hx hr),
                    ap (λ n. n + 1) (sym (cell_at_div m grid x r hx hr)),
                  )))))
        | inr free ↦ free
      ]

  -- No two rows have no wall at the border.
  pub not_left :
      (r : ℕ)
      → r + 1 < m.height
      → has (cell_at m 0 r) 3 ≡ false
      → has (cell_at m 0 (r + 1)) 3 ≢ false
  not_left r hr e e' =
      let at_exit : (r : ℕ)
          → r < m.height
          → has (cell_at m 0 r) 3 ≡ false
          → cell_at m 0 r ≡ m.exit =
        λ r hr e.
          w.left_closed _ (cell_at-lt m grid 0 r grid.wide hr)
            (neighbours_lem m grid 0 r grid.wide hr).left_edge e in
      let same = at_exit r (omega arith) e ∙ sym (at_exit (r + 1) hr e') in
      absurd (omega (arith, grid.wide))

  pub not_right :
      (r : ℕ)
      → r + 1 < m.height
      → has (cell_at m (m.width - 1) r) 1 ≡ false
      → has (cell_at m (m.width - 1) (r + 1)) 1 ≢ false
  not_right r hr e e' =
      let x = m.width - 1 in
      let hx : x < m.width = omega (arith, grid.wide) in
      let at_entrance : (r : ℕ)
          → r < m.height
          → has (cell_at m x r) 1 ≡ false
          → cell_at m x r ≡ m.entrance =
        λ r hr e.
          w.right_closed _ (cell_at-lt m grid x r hx hr)
            ((neighbours_lem m grid x r hx hr).right_edge ∙ (ground arith)) e in
      let same = at_entrance r (omega arith) e ∙ sym (at_entrance (r + 1) hr e') in
      absurd (omega (arith, grid.wide))
