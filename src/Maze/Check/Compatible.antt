-- ===== src/Maze/Check/Compatible.antt =====
-- `checkEdgeCompatibility` decides whether two cells agree on the wall between them.
use test.Prelude.{ℕ, ◌+◌, ◌-◌, ◌<◌, ◌≡◌, ◌↔◌, refl, sym, subst, ap, ◌∙◌, inl, inr, arith}
use test.Prelude.{Bool, true, false, not, ◌&&◌}
use test.Prelude.Tests.{◌==◌, ==→≡, Bool-cases, if◌then◌else◌, same, same→≡, ≡→same}
use test.Prelude.Lists.{length, get_or}
use test.Prelude.Results.{ok, at, at-get_or, Returns, Returns-value, Returns-for_range, for_range}
use test.Cell
use test.Cell.{Cell}
use test.Maze.State.{Maze}
use test.Maze.Grid
use test.Maze.Grid.Laws.{
  IsGrid, neighbour_top-lt, neighbour_bottom-lt, right-lt, left-right,
  neighbour_bottom-neighbour_top,
}
use test.Maze.Check

-- The cell with index `c`.
abbrev pub cell : Maze → ℕ → Cell
cell m c = get_or m.cl_matrix c (record { char = b'0'; human_char = b'0' })

-- The matrix has a cell for each index of the grid.
pub record IsFull (m : Maze) : Type 0 where
  pub grid : IsGrid m
  pub cells : length m.cl_matrix ≡ m.total_cells

-- Neighbours agree on the wall between them, in a row and, with the last row above the first, in a
-- column.
pub record IsCompatible (m : Maze) : Type 0 where
  pub sideways :
      (c : ℕ)
      → c < m.total_cells
      → Grid.is_right_edge m c ≡ false
      → Cell.has_right_wall (cell m c) ≡ Cell.has_left_wall (cell m (c + 1))
  pub downwards :
      (c : ℕ)
      → c < m.total_cells
      → Cell.has_bottom_wall (cell m c) ≡ Cell.has_top_wall (cell m (Grid.neighbour_bottom m c))

and_regroup : (a b c d e : Bool) → (a && b && c && d && e) ≡ (a && (b && c && d && e))
and_regroup a b c d e = ground arith

module _ (m : Maze) (f : IsFull m) where
  pub at-cell : (c : ℕ) → c < m.total_cells → at m.cl_matrix c ≡ ok (cell m c)
  at-cell c h = at-get_or m.cl_matrix c _ (omega (arith, f.cells))

  -- The four tests of the cell `i`, as Booleans.
  abbrev left_ok : ℕ → Bool
  left_ok i =
      if not (Grid.is_left_edge m i)
      then same (Cell.has_left_wall (cell m i)) (Cell.has_right_wall (cell m (i - 1)))
      else true

  abbrev right_ok : ℕ → Bool
  right_ok i =
      if not (Grid.is_right_edge m i)
      then same (Cell.has_right_wall (cell m i)) (Cell.has_left_wall (cell m (i + 1)))
      else true

  abbrev top_ok : ℕ → Bool
  top_ok i =
      same (Cell.has_top_wall (cell m i)) (Cell.has_bottom_wall (cell m (Grid.neighbour_top m i)))

  abbrev bottom_ok : ℕ → Bool
  bottom_ok i =
      same (Cell.has_bottom_wall (cell m i))
        (Cell.has_top_wall (cell m (Grid.neighbour_bottom m i)))

  left_lem :
      (i : ℕ)
      → i < m.total_cells
      → (if not (Grid.is_left_edge m i) then Check.left_compatible m i else ok true)
        ≡ ok (left_ok i)
  unfolding Check.left_compatible Grid.neighbour_left
  left_lem i h = elim (Bool-cases (Grid.is_left_edge m i)) [
    | inl e ↦ rw e
    | inr e ↦ rw (e, at-cell i h, at-cell (i - 1) (omega arith))
  ]

  right_lem :
      (i : ℕ)
      → i < m.total_cells
      → (if not (Grid.is_right_edge m i) then Check.right_compatible m i else ok true)
        ≡ ok (right_ok i)
  unfolding Check.right_compatible Grid.neighbour_right
  right_lem i h = elim (Bool-cases (Grid.is_right_edge m i)) [
    | inl e ↦ rw e
    | inr e ↦ rw (e, at-cell i h, at-cell (i + 1) (right-lt m f.grid i h e))
  ]

  top_lem : (i : ℕ) → i < m.total_cells → Check.top_compatible m i ≡ ok (top_ok i)
  unfolding Check.top_compatible
  top_lem i h = rw (at-cell i h, at-cell (Grid.neighbour_top m i) (neighbour_top-lt m f.grid i h))

  bottom_lem : (i : ℕ) → i < m.total_cells → Check.bottom_compatible m i ≡ ok (bottom_ok i)
  unfolding Check.bottom_compatible
  bottom_lem i h =
      rw (at-cell i h, at-cell (Grid.neighbour_bottom m i) (neighbour_bottom-lt m f.grid i h))

  check_cell_lem :
      (i : ℕ) (b : Bool)
      → i < m.total_cells
      → Check.check_cell m i b ≡ ok (b && left_ok i && right_ok i && top_ok i && bottom_ok i)
  unfolding Check.check_cell
  check_cell_lem i b h = rw (left_lem i h, right_lem i h, top_lem i h, bottom_lem i h)

  -- The four tests of a cell hold exactly if ...
  abbrev all_ok : ℕ → Bool
  all_ok i = left_ok i && right_ok i && top_ok i && bottom_ok i

  -- The flag of the loop, after the cells below `i`.
  abbrev Flag : ℕ → Bool → Type 0
  Flag i b = (b ≡ true) ↔ ((c : ℕ) → c < i → all_ok c ≡ true)

  Flag-step : (i : ℕ) (b : Bool) → Flag i b → Flag (i + 1) (b && all_ok i)
  Flag-step i b (sound, full) = (
    λ e c lt. elim (Bool-cases (c == i)) [
      | inl same_cell ↦ ground (arith, ap all_ok (==→≡ c i same_cell))
      | inr other ↦ sound (ground arith) c (ground arith)
    ],
    λ h. ground (arith, full (λ c lt. h c (omega arith)), h i (omega arith)),
  )

  flag_lem : Returns (Flag m.total_cells) (for_range m.total_cells 0 (Check.check_cell m) true)
  flag_lem =
      Returns-for_range Flag (Check.check_cell m) m.total_cells
        (λ i b h flag.
          subst (Returns (Flag (i + 1)))
            (sym (check_cell_lem i b h ∙ ap ok (and_regroup b _ _ _ _))) (Flag-step i b flag))
        m.total_cells 0 true (omega arith) (λ _ c lt. absurd (omega arith), λ _. refl)

  all_ok→IsCompatible : ((c : ℕ) → c < m.total_cells → all_ok c ≡ true) → IsCompatible m
  all_ok→IsCompatible h = record {
    sideways =
        λ c lt e. let t : right_ok c ≡ true = ground (arith, h c lt) in same→≡ _ _ (rw e at t);
    downwards = λ c lt. let t : bottom_ok c ≡ true = ground (arith, h c lt) in same→≡ _ _ t;
  }

  left_ok_lem : IsCompatible m → (c : ℕ) → c < m.total_cells → left_ok c ≡ true
  left_ok_lem k c lt = elim (Bool-cases (Grid.is_left_edge m c)) [
    | inl e ↦ rw e
    | inr e ↦
        let (lt', back_again, inner) = left-right m f.grid c lt e in
        let agree = k.sideways (c - 1) lt' inner in rw e (≡→same _ _ (sym (rw back_again at agree)))
  ]

  right_ok_lem : IsCompatible m → (c : ℕ) → c < m.total_cells → right_ok c ≡ true
  right_ok_lem k c lt = elim (Bool-cases (Grid.is_right_edge m c)) [
    | inl e ↦ rw e
    | inr e ↦ rw e (≡→same _ _ (k.sideways c lt e))
  ]

  top_ok_lem : IsCompatible m → (c : ℕ) → c < m.total_cells → top_ok c ≡ true
  top_ok_lem k c lt =
      let agree = k.downwards (Grid.neighbour_top m c) (neighbour_top-lt m f.grid c lt) in
      ≡→same _ _ (sym (rw (neighbour_bottom-neighbour_top m f.grid c lt) at agree))

  IsCompatible→all_ok : IsCompatible m → (c : ℕ) → c < m.total_cells → all_ok c ≡ true
  IsCompatible→all_ok k c lt = ground (
    arith,
    left_ok_lem k c lt,
    right_ok_lem k c lt,
    top_ok_lem k c lt,
    ≡→same _ _ (k.downwards c lt),
  )

  -- `checkEdgeCompatibility` returns, and says whether the cells agree on their walls.
  pub check_edge_compatibility_decides :
      (b : Bool) × (Check.check_edge_compatibility m ≡ ok b) × ((b ≡ true) ↔ IsCompatible m)
  unfolding Check.check_edge_compatibility
  check_edge_compatibility_decides =
      let (b, e, flag) = Returns-value (Flag m.total_cells) _ flag_lem in
      (b, e, (λ t. all_ok→IsCompatible (flag.0 t), λ k. flag.1 (IsCompatible→all_ok k)))
