-- ===== src/Maze/Generate/Detour.antt =====
-- What `fillWalllessCells` leaves open: below a wall that it adds there is a way round.
use test.Prelude.{
  ℕ, zero, suc, ◌+◌, ◌-◌, ◌/◌, ◌%◌, ◌<◌, ◌≡◌, ◌∙◌, ◌⊎◌, sym, ap, inl, inr, arith, false, subst,
  List,
}
use test.Prelude.Tests.{◌==◌, Bool-cases}
use test.Prelude.Int.{pos_injective, negsuc-ne-pos}
use native.Mathlib.Nat.{div-add-mod', div-lt_iff_lt-mul}
use test.Cell
use test.Cell.{Cell}
use test.Cell.Walls.{
  has_top_wall-of_walls, has_right_wall-of_walls, has_bottom_wall-of_walls, has_left_wall-of_walls,
}
use test.Maze.State.{Maze}
use test.Maze.Grid
use test.Maze.Grid.Laws.{cell_at, cell_at_div, cell_at_mod, neighbours_lem, left-right}
use test.Maze.Routes.Passage.{Passage, up, right, down, left, Reach, here, step}
use test.Maze.Generate.Shape.{Sides, walls_of}
use test.Maze.Generate.Sides.{Beyond-left_inner}
use test.Maze.Generate.Walled.{IsWalled, read_lt, read_eq}
use test.Maze.Generate.Gaps.{IsGap}
use test.Maze.Generate.Passages.{go_up, go_down, Joined, Joined-right, Joined-down}

module _ (m : Maze) (has : Sides) (w : IsWalled m has) (cells : List Cell) (more : Sides)
    (w' : IsWalled (record m { cl_matrix = cells }) more) (top : (c : ℕ) → more c 0 ≡ has c 0)
    (bottom : (c : ℕ) → more c 2 ≡ has c 2)
    (beside : (c : ℕ) → has c 1 ≡ false → (more c 1 ≡ false) ⊎ ((k : ℕ) × IsGap m has k c)) where
  open w use {grid}

  abbrev filled : Maze
  filled = record m { cl_matrix = cells }

  -- What is open around the post below the cell.
  abbrev IsOpenBelow : ℕ → ℕ → Type 0
  IsOpenBelow x r =
      (r + 1 < m.height)
      × (has (cell_at m x (r + 1)) 1 ≡ false)
      × (has (cell_at m x r) 2 ≡ false)
      × (has (cell_at m (x + 1) r) 2 ≡ false)

  gap-IsOpenBelow :
      (x r k : ℕ) → x < m.width → r < m.height → IsGap m has k (cell_at m x r) → IsOpenBelow x r
  gap-IsOpenBelow x r k hx hr g =
      let lt : g.x < m.width = omega (arith, g.inner) in
      let low : g.row < m.height = omega (arith, g.low) in
      let column : g.x ≡ x =
        sym (cell_at_mod m grid g.x g.row lt low)
        ∙ ap (λ c. c % m.width) (sym g.place)
        ∙ cell_at_mod m grid x r hx hr in
      let line : g.row ≡ r =
        sym (cell_at_div m grid g.x g.row lt low)
        ∙ ap (λ c. c / m.width) (sym g.place)
        ∙ cell_at_div m grid x r hx hr in
      subst (λ x. IsOpenBelow x r) column
        (subst (IsOpenBelow g.x) line (g.low, g.free_below, g.down_left, g.down_right))

  around :
      (x r : ℕ)
      → x + 1 < m.width
      → IsOpenBelow x r
      → Joined filled more w' (cell_at m x (r + 1)) (cell_at m (x + 1) (r + 1))
      → Joined filled more w' (cell_at m x r) (cell_at m (x + 1) r)
  around x r hx (hr, _, on_left, on_right) (there, back_again) =
      let (down_left, up_left) =
        Joined-down filled more w' x r (omega arith) hr (bottom _ ∙ on_left) in
      let (down_right, up_right) =
        Joined-down filled more w' (x + 1) r hx hr (bottom _ ∙ on_right) in
      (
        λ reached. up_right (there (down_left reached)),
        λ reached. up_left (back_again (down_right reached)),
      )

  -- From the rows below upwards: past the end of the wall, or through where none is.
  cross :
      (n x r : ℕ)
      → x + 1 < m.width
      → r + n + 1 ≡ m.height
      → has (cell_at m x r) 1 ≡ false
      → Joined filled more w' (cell_at m x r) (cell_at m (x + 1) r)
  cross zero x r hx hr e = elim (beside (cell_at m x r) e) [
    | inl open_side ↦ Joined-right filled more w' x r hx (omega arith) open_side
    | inr (k, g) ↦
        let (low, _, _, _) = gap-IsOpenBelow x r k (omega arith) (omega arith) g in
        absurd (omega arith)
  ]
  cross (suc n) x r hx hr e = elim (beside (cell_at m x r) e) [
    | inl open_side ↦ Joined-right filled more w' x r hx (omega arith) open_side
    | inr (k, g) ↦
        let below = gap-IsOpenBelow x r k (omega arith) (omega arith) g in
        around x r hx below (cross n x (r + 1) hx (omega arith) below.1)
  ]

  -- The cell `c` and the next one in its row.
  cross_at :
      (c : ℕ)
      → c < m.total_cells
      → Grid.is_right_edge m c ≡ false
      → has c 1 ≡ false
      → Joined filled more w' c (c + 1)
  cross_at c hc inner e =
      let x = c % m.width in
      let r = c / m.width in
      let hx : x < m.width = omega (arith, grid.wide) in
      let hr : r < m.height = (div-lt_iff_lt-mul grid.wide).1 (omega (arith, grid.total)) in
      let place : cell_at m x r ≡ c = div-add-mod' c m.width in
      let edge : (x + 1 == m.width) ≡ false =
        sym (neighbours_lem m grid x r hx hr).right_edge
        ∙ ap (Grid.is_right_edge m) place
        ∙ inner in
      let next : cell_at m (x + 1) r ≡ c + 1 = omega arith in
      subst (λ d. Joined filled more w' d (c + 1)) place
        (subst (Joined filled more w' (cell_at m x r)) next
          (cross (m.height - r - 1) x r (ground arith) (omega arith) (ap (λ c. has c 1) place ∙ e)))

  -- A step of the search before is a walk after.
  step_again : (c d : ℕ) → Passage m c d → Reach filled c → Reach filled d
  unfolding Grid.neighbour_top Grid.neighbour_bottom Grid.neighbour_right Grid.neighbour_left
  step_again c d (up cl e none p) r =
      let hc = read_lt m has w c cl e in
      let free : has c 0 ≡ false =
        sym (has_top_wall-of_walls (walls_of has c))
        ∙ ap Cell.has_top_wall (sym (read_eq m has w c cl e))
        ∙ none in
      subst (Reach filled) (sym p) (step r (go_up filled more w' c hc (top c ∙ free)))
  step_again c d (down cl e none p) r =
      let hc = read_lt m has w c cl e in
      let free : has c 2 ≡ false =
        sym (has_bottom_wall-of_walls (walls_of has c))
        ∙ ap Cell.has_bottom_wall (sym (read_eq m has w c cl e))
        ∙ none in
      subst (Reach filled) (sym p) (step r (go_down filled more w' c hc (bottom c ∙ free)))
  step_again c d (right cl e none _ p) r =
      let hc = read_lt m has w c cl e in
      let free : has c 1 ≡ false =
        sym (has_right_wall-of_walls (walls_of has c))
        ∙ ap Cell.has_right_wall (sym (read_eq m has w c cl e))
        ∙ none in
      elim (Bool-cases (Grid.is_right_edge m c)) [
        | inl edge ↦ absurd (negsuc-ne-pos 0 d (rw edge at p))
        | inr inner ↦
            subst (Reach filled) (pos_injective (c + 1) d (rw inner at p))
              ((cross_at c hc inner free).0 r)
      ]
  step_again c d (left cl e none _ p) r =
      let hc = read_lt m has w c cl e in
      let free : has c 3 ≡ false =
        sym (has_left_wall-of_walls (walls_of has c))
        ∙ ap Cell.has_left_wall (sym (read_eq m has w c cl e))
        ∙ none in
      elim (Bool-cases (Grid.is_left_edge m c)) [
        | inl edge ↦ absurd (negsuc-ne-pos 0 d (rw edge at p))
        | inr inner ↦
            let (lt, again, inner') = left-right m grid c hc inner in
            let free' : has (c - 1) 1 ≡ false =
              sym (w.matched c 3 (c - 1) hc (omega arith) (Beyond-left_inner m c inner)) ∙ free in
            subst (Reach filled) (pos_injective (c - 1) d (rw inner at p))
              ((cross_at (c - 1) lt inner' free').1 (subst (Reach filled) (sym again) r))
      ]

  pub Reach-filled : {d : ℕ} → Reach m d → Reach filled d
  Reach-filled (here e) = here e
  Reach-filled (step {c = c} {d = d} r p) = step_again c d p (Reach-filled r)
