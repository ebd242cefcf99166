-- ===== src/Maze/Grid.antt =====
-- Cells by index, row by row: neighbours, edges and rows (MZ.cpp, `neighBourBottom` to
-- `isLeftOf`). Rows wrap round: above the first row stands the last.
pub mod Laws
use package.test.Prelude.{ℕ, ◌+◌, ◌-◌, ◌*◌, ◌/◌, ◌%◌, Bool, ◌&&◌}
use package.test.Prelude.Tests.{leb, ◌==◌, if◌then◌else◌}
use package.test.Prelude.Int.{ℤ, pos, negsuc}
use package.test.Maze.State.{Maze}

unfoldable pub is_left_edge : Maze → ℕ → Bool
is_left_edge m cl = cl % m.width == 0

unfoldable pub is_right_edge : Maze → ℕ → Bool
is_right_edge m cl = (cl + 1) % m.width == 0

-- `cl >= m_totalCells - m_width`, where the difference may be negative.
unfoldable pub is_bottom_row : Maze → ℕ → Bool
is_bottom_row m cl = leb m.total_cells (cl + m.width)

unfoldable pub get_row_number : Maze → ℕ → ℕ
get_row_number m cl = cl / m.width

unfoldable pub neighbour_bottom : Maze → ℕ → ℕ
neighbour_bottom m cl = (cl + m.width) % m.total_cells

unfoldable pub neighbour_top : Maze → ℕ → ℕ
neighbour_top m cl = (cl + m.total_cells - m.width) % m.total_cells

unfoldable pub neighbour_right : Maze → ℕ → ℤ
unfolding is_right_edge
neighbour_right m cl = if is_right_edge m cl then negsuc 0 else pos (cl + 1)

unfoldable pub neighbour_left : Maze → ℕ → ℤ
unfolding is_left_edge
neighbour_left m cl = if is_left_edge m cl then negsuc 0 else pos (cl - 1)

unfoldable pub is_left_of : Maze → ℕ → ℕ → Bool
unfolding get_row_number
is_left_of m cell1 cell2 = get_row_number m cell1 == get_row_number m cell2 && cell1 + 1 == cell2
