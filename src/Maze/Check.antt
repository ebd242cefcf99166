-- ===== src/Maze/Check.antt =====
-- Validation and loading (MZ.cpp): `checkMZ`, `checkEdgeCompatibility`, `checkOneEntrance`,
-- `checkOneExit`, `checkStuff` and `initializeCLMatrix`. What they write to the debugger is left
-- out.
pub mod Compatible
pub mod Matrix
use package.test.Prelude.{ℕ, ◌+◌, ◌-◌, ◌*◌, ◌%◌, ◌^◌, Bool, true, false, ◌&&◌, not}
use package.test.Prelude.{List, [], ◌∷◌, ◌++◌}
use package.test.Prelude.Tests.{◌==◌, if◌then◌else◌, same}
use package.test.Prelude.Lists.{length}
use package.test.Prelude.Int.{at_int}
use package.test.Prelude.Results.{Result, ok, err, ◌>>=◌, at, for_range, bad_index}
use package.test.Cell
use package.test.Cell.{Cell}
use package.test.Maze.Grid
use package.test.Maze.State.{Maze}

unfoldable pub check_mz : Maze → Bool
check_mz m =
    if length m.mz_string == 0
    then false
    else if not (length m.mz_string == m.width * m.height)
    then false
    else true

-- `mzString.GetAt(i)`.
abbrev pub get_at : List ℕ → ℕ → Result ℕ
get_at s i = elim (at s i) [ ok c ↦ ok c | err _ ↦ err bad_index ]

-- The character of the string is cut to a `char`.
unfoldable pub push_cell : Maze → ℕ → List Cell → Result (List Cell)
push_cell m i acc = do c ← get_at m.mz_string i; ok (acc ++ Cell.new (c % 2 ^ 8) ∷ [])

unfoldable pub initialize_cl_matrix : Maze → Result Maze
unfolding push_cell for_range
initialize_cl_matrix m = do
  cells ← for_range m.total_cells 0 (push_cell m) []
  ok (record m { cl_matrix = cells })

-- `m_CLMatrix.at(i).hasLeftWall() == m_CLMatrix.at(neighBourLeft(i)).hasRightWall()`, and so on.
unfoldable pub left_compatible : Maze → ℕ → Result Bool
left_compatible m i = do
  cl ← at m.cl_matrix i
  nb ← at_int m.cl_matrix (Grid.neighbour_left m i)
  ok (same (Cell.has_left_wall cl) (Cell.has_right_wall nb))

unfoldable pub right_compatible : Maze → ℕ → Result Bool
right_compatible m i = do
  cl ← at m.cl_matrix i
  nb ← at_int m.cl_matrix (Grid.neighbour_right m i)
  ok (same (Cell.has_right_wall cl) (Cell.has_left_wall nb))

unfoldable pub top_compatible : Maze → ℕ → Result Bool
top_compatible m i = do
  cl ← at m.cl_matrix i
  nb ← at m.cl_matrix (Grid.neighbour_top m i)
  ok (same (Cell.has_top_wall cl) (Cell.has_bottom_wall nb))

unfoldable pub bottom_compatible : Maze → ℕ → Result Bool
bottom_compatible m i = do
  cl ← at m.cl_matrix i
  nb ← at m.cl_matrix (Grid.neighbour_bottom m i)
  ok (same (Cell.has_bottom_wall cl) (Cell.has_top_wall nb))

-- The body of the loop: `bEdgesCompatible &= …`, four times.
unfoldable pub check_cell : Maze → ℕ → Bool → Result Bool
unfolding left_compatible right_compatible top_compatible bottom_compatible
check_cell m i compatible = do
  l ← if not (Grid.is_left_edge m i) then left_compatible m i else ok true
  r ← if not (Grid.is_right_edge m i) then right_compatible m i else ok true
  t ← top_compatible m i
  b ← bottom_compatible m i
  ok (compatible && l && r && t && b)

unfoldable pub check_edge_compatibility : Maze → Result Bool
unfolding check_cell for_range
check_edge_compatibility m = for_range m.total_cells 0 (check_cell m) true

-- `checkStuff`: the checks of the entrance and the exit are commented out in the source.
unfoldable pub check_stuff : Maze → Result Bool
unfolding check_edge_compatibility
check_stuff m = do
  compatible ← check_edge_compatibility m
  if not compatible then ok false else ok true

-- The two loops step by the width from the last or the first column, so they take one round for
-- each of the `m_totalCells / m_width` rows.
unfoldable pub count_entrances : Maze → ℕ → ℕ → Result ℕ
count_entrances m k n = do
  cl ← at m.cl_matrix (m.width - 1 + k * m.width)
  ok (n + (if Cell.has_right_wall cl then 0 else 1))

unfoldable pub check_one_entrance : Maze → Result Bool
unfolding count_entrances for_range
check_one_entrance m = do n ← for_range m.height 0 (count_entrances m) 0; ok (n == 1)

unfoldable pub count_exits : Maze → ℕ → ℕ → Result ℕ
count_exits m k n = do
  cl ← at m.cl_matrix (k * m.width)
  ok (n + (if Cell.has_left_wall cl then 0 else 1))

unfoldable pub check_one_exit : Maze → Result Bool
unfolding count_exits for_range
check_one_exit m = do n ← for_range m.height 0 (count_exits m) 0; ok (n == 1)
