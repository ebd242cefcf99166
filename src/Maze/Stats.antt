-- ===== src/Maze/Stats.antt =====
-- `MZ::calculateMazeAndRouteStats` (MZ.cpp).
pub mod Histogram
use package.test.Prelude.{ℕ, ◌+◌, List, [], ◌∷◌}
use package.test.Prelude.Tests.{ltb, if◌then◌else◌}
use package.test.Prelude.Lists.{length, set, tabulate}
use package.test.Prelude.Results.{Result, ok, ◌>>=◌, at}
use package.test.Maze.Grid.{get_row_number, is_left_of}
use package.test.Maze.State.{Maze}

-- `m_vRowHistogram.at(getRowNumber(cell))++` for each cell of the route.
unfoldable pub fill_histogram : Maze → List ℕ → List ℕ → Result (List ℕ)
fill_histogram m [] histogram = ok histogram
fill_histogram m (cell ∷ route) histogram =
    let row = get_row_number m cell in
    at histogram row >>= λ n. fill_histogram m route (set histogram row (n + 1))

unfoldable pub count_used : List ℕ → ℕ
count_used [] = 0
count_used (n ∷ ns) = (if ltb 0 n then 1 else 0) + count_used ns

-- The steps of the route from a cell to the one on its right.
unfoldable pub count_opposing : Maze → List ℕ → ℕ
count_opposing m [] = 0
count_opposing m (a ∷ []) = 0
count_opposing m (a ∷ b ∷ route) =
    (if is_left_of m a b then 1 else 0) + count_opposing m (b ∷ route)

unfoldable pub calculate_maze_and_route_stats : Maze → Result Maze
unfolding fill_histogram count_used count_opposing
calculate_maze_and_route_stats m = do
  histogram ← fill_histogram m m.best_route (tabulate m.height 0 (λ _. 0))
  let rows = count_used histogram
  ok (record m {
    row_histogram = histogram;
    rows_utilized = rows;
    n_opposing_steps = count_opposing m m.best_route;
    best_route_coverage = record { part = length m.best_route; whole = m.total_cells };
    best_route_rows_utilized = record { part = rows; whole = m.height };
  })
