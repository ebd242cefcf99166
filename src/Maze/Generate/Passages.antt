-- ===== src/Maze/Generate/Passages.antt =====
-- The steps of the search in a maze with a border, by its walls.
use test.Prelude.{ℕ, ◌+◌, ◌-◌, ◌<◌, ◌≡◌, ◌∙◌, ◌↔◌, refl, sym, ap, arith, false, subst, false≢true}
use test.Prelude.Results.{ok, at}
use test.Cell.Walls.{
  of_walls, has_top_wall-of_walls, has_right_wall-of_walls, has_bottom_wall-of_walls,
  has_left_wall-of_walls,
}
use test.Maze.State.{Maze}
use test.Maze.Grid
use test.Maze.Grid.Laws.{cell_at, cell_at-lt, neighbours_lem}
use test.Maze.Routes.Passage.{Passage, up, right, down, left, Reach, step}
use test.Maze.Generate.Shape.{Sides, walls_of, at-shape}
use test.Maze.Generate.Sides.{Beyond-right_inner, Beyond-bottom}
use test.Maze.Generate.Walled.{IsWalled}

module _ (m : Maze) (has : Sides) (w : IsWalled m has) where
  open w use {grid, shaped}

  module _ (c : ℕ) (h : c < m.total_cells) where
    walls_at : at m.cl_matrix c ≡ ok (of_walls (walls_of has c))
    walls_at = at-shape m.total_cells has m.cl_matrix shaped c h

    pub go_up : has c 0 ≡ false → Passage m c (Grid.neighbour_top m c)
    go_up e = up _ walls_at (has_top_wall-of_walls (walls_of has c) ∙ e) refl

    pub go_down : has c 2 ≡ false → Passage m c (Grid.neighbour_bottom m c)
    go_down e = down _ walls_at (has_bottom_wall-of_walls (walls_of has c) ∙ e) refl

    pub go_left : Grid.is_left_edge m c ≡ false → has c 3 ≡ false → Passage m c (c - 1)
    unfolding Grid.neighbour_left
    go_left inner e =
        left _ walls_at (has_left_wall-of_walls (walls_of has c) ∙ e)
          (λ same. false≢true (sym inner ∙ ap (Grid.is_left_edge m) same ∙ w.exit_left)) (rw inner)

    pub go_right : Grid.is_right_edge m c ≡ false → has c 1 ≡ false → Passage m c (c + 1)
    unfolding Grid.neighbour_right
    go_right inner e =
        right _ walls_at (has_right_wall-of_walls (walls_of has c) ∙ e)
          (λ same. false≢true (sym inner ∙ ap (Grid.is_right_edge m) same ∙ w.entrance_right))
          (rw inner)

  -- Each of the two cells can be reached if the other can.
  abbrev pub Joined : ℕ → ℕ → Type 0
  Joined c d = Reach m c ↔ Reach m d

  pub Joined-right :
      (x r : ℕ)
      → x + 1 < m.width
      → r < m.height
      → has (cell_at m x r) 1 ≡ false
      → Joined (cell_at m x r) (cell_at m (x + 1) r)
  Joined-right x r hx hr e =
      let c = cell_at m x r in
      let d = cell_at m (x + 1) r in
      let lt : x < m.width = omega arith in
      let hc = cell_at-lt m grid x r lt hr in
      let hd = cell_at-lt m grid (x + 1) r hx hr in
      let next : c + 1 ≡ d = omega arith in
      let prev : d - 1 ≡ c = omega arith in
      let inner : Grid.is_right_edge m c ≡ false =
        (neighbours_lem m grid x r lt hr).right_edge ∙ (ground arith) in
      let inner' : Grid.is_left_edge m d ≡ false =
        (neighbours_lem m grid (x + 1) r hx hr).left_edge ∙ (ground arith) in
      let e' : has d 3 ≡ false =
        ap (λ d. has d 3) (sym next)
        ∙ sym (w.matched c 1 (c + 1) hc (omega arith) (Beyond-right_inner m c inner))
        ∙ e in
      (
        λ reached. step reached (subst (Passage m c) next (go_right c hc inner e)),
        λ reached. step reached (subst (Passage m d) prev (go_left d hd inner' e')),
      )

  pub Joined-down :
      (x r : ℕ)
      → x < m.width
      → r + 1 < m.height
      → has (cell_at m x r) 2 ≡ false
      → Joined (cell_at m x r) (cell_at m x (r + 1))
  Joined-down x r hx hr e =
      let c = cell_at m x r in
      let d = cell_at m x (r + 1) in
      let lt : r < m.height = omega arith in
      let hc = cell_at-lt m grid x r hx lt in
      let hd = cell_at-lt m grid x (r + 1) hx hr in
      let next : Grid.neighbour_bottom m c ≡ d =
        (neighbours_lem m grid x r hx lt).bottom ∙ ap (cell_at m x) (ground arith) in
      let prev : Grid.neighbour_top m d ≡ c =
        (neighbours_lem m grid x (r + 1) hx hr).top ∙ ap (cell_at m x) (ground arith) in
      let e' : has d 0 ≡ false =
        ap (λ d. has d 0) (sym next)
        ∙ sym (w.matched c 2 (Grid.neighbour_bottom m c) hc (omega arith) (Beyond-bottom m c))
        ∙ e in
      (
        λ reached. step reached (subst (Passage m c) next (go_down c hc e)),
        λ reached. step reached (subst (Passage m d) prev (go_up d hd e')),
      )
