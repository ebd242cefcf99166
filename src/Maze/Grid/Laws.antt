-- ===== src/Maze/Grid/Laws.antt =====
-- The neighbours form a cylinder: up and down are inverse, and so are left and right off the edge.
use test.Prelude.{ℕ, ◌+◌, ◌-◌, ◌*◌, ◌/◌, ◌%◌, ◌≤◌, ◌<◌, ◌≡◌, ◌≢◌, ap, inl, inr, ◌⊎◌, ◌∙◌, arith}
use test.Prelude.{false}
use test.Prelude.Tests.{◌==◌, if◌then◌else◌, Bool-cases, ==→≡, ==→≢}
use test.Prelude.Int.{pos, negsuc}
use test.Maze.State.{Maze}
use test.Maze.Grid
use native.Mathlib.Decide.{dec_lt}
use native.Mathlib.Nat.{zero-mod, mod-add-mod, mod-eq-sub-mod, mod-eq_of_lt, mul-add-mod_self_right}

-- A remainder below twice the divisor.
pub mod_cases : (a n : ℕ) → a < n + n → (a < n) × (a % n ≡ a) ⊎ (n ≤ a) × (a % n + n ≡ a)
mod_cases a n h = elim (dec_lt a n) [
  | yes p ↦ inl (p, mod-eq_of_lt p)
  | no p ↦
      let le : n ≤ a = omega arith in
      inr (le, omega (arith, mod-eq-sub-mod le, mod-eq_of_lt {n = a - n} {m = n} (omega arith)))
]

-- The cells of `m` are `w * h`, and there is one.
pub record IsGrid (m : Maze) : Type 0 where
  pub total : m.total_cells ≡ m.width * m.height
  pub wide : 0 < m.width
  pub high : 0 < m.height

-- The index of the cell in column `x` of row `y`.
abbrev pub cell_at : Maze → ℕ → ℕ → ℕ
cell_at m x y = y * m.width + x

module _ (m : Maze) (g : IsGrid m) (x y : ℕ) (hx : x < m.width) (hy : y < m.height) where
  pub cell_at-lt : cell_at m x y < m.total_cells
  cell_at-lt = grind arith

  pub cell_at_div : cell_at m x y / m.width ≡ y
  cell_at_div = grind arith

  pub cell_at_mod : cell_at m x y % m.width ≡ x
  cell_at_mod = mul-add-mod_self_right y m.width x ∙ mod-eq_of_lt hx

-- The right edge is the last column.
pub right_edge_column :
    (m : Maze) (c : ℕ) → IsGrid m → Grid.is_right_edge m c ≡ (c % m.width == m.width - 1)
unfolding Grid.is_right_edge
right_edge_column m c g =
    let r : c % m.width < m.width = omega (arith, g.wide) in
    ground (arith, g.wide, mod-add-mod c m.width 1, mod_cases (c % m.width + 1) m.width)

module _ (m : Maze) (g : IsGrid m) (c : ℕ) (h : c < m.total_cells) where
  width-le-total : m.width ≤ m.total_cells
  width-le-total = grind arith

  pub neighbour_bottom-lt : Grid.neighbour_bottom m c < m.total_cells
  unfolding Grid.neighbour_bottom
  neighbour_bottom-lt = omega arith

  pub neighbour_top-lt : Grid.neighbour_top m c < m.total_cells
  unfolding Grid.neighbour_top
  neighbour_top-lt = omega arith

  pub right-lt : Grid.is_right_edge m c ≡ false → c + 1 < m.total_cells
  unfolding Grid.is_right_edge
  right-lt e = grind arith

  -- Off the right edge the next cell is off the left edge, and the other way round.
  pub right-left : Grid.is_right_edge m c ≡ false → Grid.is_left_edge m (c + 1) ≡ false
  unfolding Grid.is_right_edge Grid.is_left_edge
  right-left e = e

  pub left-right :
      Grid.is_left_edge m c ≡ false
      → (c - 1 < m.total_cells) × (c - 1 + 1 ≡ c) × (Grid.is_right_edge m (c - 1) ≡ false)
  unfolding Grid.is_right_edge Grid.is_left_edge
  left-right e =
      let pos_c : c ≢ 0 = λ z. ground (arith, zero-mod m.width, ap (λ (t : ℕ). t % m.width) z) in
      let back_again : c - 1 + 1 ≡ c = omega arith in (omega arith, back_again, rw back_again e)

  -- Down and up again, up and down again.
  pub neighbour_top-neighbour_bottom : Grid.neighbour_top m (Grid.neighbour_bottom m c) ≡ c
  unfolding Grid.neighbour_top Grid.neighbour_bottom
  neighbour_top-neighbour_bottom = ground (
    arith,
    width-le-total,
    mod_cases (c + m.width) m.total_cells,
    mod_cases ((c + m.width) % m.total_cells + m.total_cells - m.width) m.total_cells,
  )

  pub neighbour_bottom-neighbour_top : Grid.neighbour_bottom m (Grid.neighbour_top m c) ≡ c
  unfolding Grid.neighbour_top Grid.neighbour_bottom
  neighbour_bottom-neighbour_top = ground (
    arith,
    width-le-total,
    mod_cases (c + m.total_cells - m.width) m.total_cells,
    mod_cases ((c + m.total_cells - m.width) % m.total_cells + m.width) m.total_cells,
  )

-- Every query of the class at the cell in column `x` of row `y`: its row, the two edges, the
-- last row, and the four neighbours, of which those above and below wrap round.
pub record IsPlaced (m : Maze) (x y : ℕ) : Type 0 where
  pub row : Grid.get_row_number m (cell_at m x y) ≡ y
  pub left_edge : Grid.is_left_edge m (cell_at m x y) ≡ (x == 0)
  pub right_edge : Grid.is_right_edge m (cell_at m x y) ≡ (x + 1 == m.width)
  pub bottom_row : Grid.is_bottom_row m (cell_at m x y) ≡ (y + 1 == m.height)
  pub bottom :
      Grid.neighbour_bottom m (cell_at m x y) ≡ cell_at m x (if y + 1 == m.height then 0 else y + 1)
  pub top :
      Grid.neighbour_top m (cell_at m x y) ≡ cell_at m x (if y == 0 then m.height - 1 else y - 1)
  pub right :
      Grid.neighbour_right m (cell_at m x y)
      ≡ (if x + 1 == m.width then negsuc 0 else pos (cell_at m (x + 1) y))
  pub left :
      Grid.neighbour_left m (cell_at m x y)
      ≡ (if x == 0 then negsuc 0 else pos (cell_at m (x - 1) y))

module _ (m : Maze) (g : IsGrid m) (x y : ℕ) (hx : x < m.width) (hy : y < m.height) where
  abbrev c : ℕ
  c = cell_at m x y

  last :
      ((y + 1 ≡ m.height) → c + m.width ≡ m.total_cells + x)
      × (y + 1 < m.height → c + m.width < m.total_cells)
  last = (
    λ e. omega (arith, g.total, ap (λ (t : ℕ). m.width * t) e),
    λ h. omega (arith, cell_at-lt m g x (y + 1) hx h),
  )

  total_rows : (m.height - 1) * m.width + m.width ≡ m.total_cells
  total_rows =
      let e : m.height - 1 + 1 ≡ m.height = omega (arith, g.high) in
      omega (arith, g.total, ap (λ (t : ℕ). t * m.width) e)

  row_above : y ≢ 0 → (y - 1) * m.width + m.width ≡ y * m.width
  row_above ne = let e : y - 1 + 1 ≡ y = omega arith in omega (arith, ap (λ (t : ℕ). t * m.width) e)

  row_lem : Grid.get_row_number m c ≡ y
  unfolding Grid.get_row_number
  row_lem = cell_at_div m g x y hx hy

  left_edge_lem : Grid.is_left_edge m c ≡ (x == 0)
  unfolding Grid.is_left_edge
  left_edge_lem = rw (cell_at_mod m g x y hx hy)

  right_edge_lem : Grid.is_right_edge m c ≡ (x + 1 == m.width)
  unfolding Grid.is_right_edge
  right_edge_lem = ground (
    arith,
    mul-add-mod_self_right y m.width (x + 1),
    mod-eq_of_lt {n = x + 1} {m = m.width},
    mod_cases (x + 1) m.width,
  )

  bottom_row_lem : Grid.is_bottom_row m c ≡ (y + 1 == m.height)
  unfolding Grid.is_bottom_row
  bottom_row_lem = ground (arith, last)

  bottom_lem : Grid.neighbour_bottom m c ≡ cell_at m x (if y + 1 == m.height then 0 else y + 1)
  unfolding Grid.neighbour_bottom
  bottom_lem = elim (Bool-cases (y + 1 == m.height)) [
    | inl e ↦ rw e (ground (arith, last, mod_cases (c + m.width) m.total_cells))
    | inr e ↦ rw e (ground (arith, last, mod_cases (c + m.width) m.total_cells))
  ]

  top_lem : Grid.neighbour_top m c ≡ cell_at m x (if y == 0 then m.height - 1 else y - 1)
  unfolding Grid.neighbour_top
  top_lem = elim (Bool-cases (y == 0)) [
    | inl e ↦ rw e (
        ground (
          arith,
          total_rows,
          ap (λ (t : ℕ). t * m.width) (==→≡ y 0 e),
          mod_cases (c + m.total_cells - m.width) m.total_cells,
        ))
    | inr e ↦ rw e (
        ground (
          arith,
          cell_at-lt m g x y hx hy,
          row_above (==→≢ y 0 e),
          mod_cases (c + m.total_cells - m.width) m.total_cells,
        ))
  ]

  right_lem :
      Grid.neighbour_right m c ≡ (if x + 1 == m.width then negsuc 0 else pos (cell_at m (x + 1) y))
  unfolding Grid.neighbour_right
  right_lem = rw right_edge_lem (ground arith)

  left_lem : Grid.neighbour_left m c ≡ (if x == 0 then negsuc 0 else pos (cell_at m (x - 1) y))
  unfolding Grid.neighbour_left
  left_lem = rw left_edge_lem (ground arith)

  -- For the cell in column `x` of row `y`, the row number, the two edge tests, the test of the last row
  -- and the four neighbours are those of a grid in which the row above the first is the last.
  pub neighbours_lem : IsPlaced m x y
  neighbours_lem = record {
    row = row_lem;
    left_edge = left_edge_lem;
    right_edge = right_edge_lem;
    bottom_row = bottom_row_lem;
    bottom = bottom_lem;
    top = top_lem;
    right = right_lem;
    left = left_lem;
  }
