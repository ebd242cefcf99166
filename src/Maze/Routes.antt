-- ===== src/Maze/Routes.antt =====
-- `MZ::updateRoutes` (MZ.cpp): a breadth-first search from the entrance that keeps whole routes.
pub mod Passage
mod Marks
mod Invariant
mod Side
pub mod Faults
mod Scan
mod Rounds
pub mod Correct
pub mod Ways
use package.test.Prelude.{ℕ, zero, suc, ◌+◌, Bool, true, false, not, ◌&&◌, ◌||◌, List, [], ◌∷◌}
use package.test.Prelude.{◌++◌, foldr}
use package.test.Prelude.Tests.{◌==◌, if◌then◌else◌}
use package.test.Prelude.Lists.{set, erase_at, tabulate}
use package.test.Prelude.Int.{ℤ, pos, negsuc, at_int}
use package.test.Prelude.Results.{Result, ok, err, ◌>>=◌, at, back, out_of_range, no_fuel}
use package.test.Cell
use package.test.Maze.Grid.{neighbour_top, neighbour_right, neighbour_bottom, neighbour_left}
use package.test.Maze.State.{Maze}

-- The variables of the search: three fields of the class, `bBestRouteFound`, `bErase` and `bEr`.
pub record Search : Type 0 where
  pub routes : List (List ℕ)
  pub visited : List Bool
  pub best_route : List ℕ
  pub best_route_found : Bool
  pub erase : List ℕ
  pub erased : Bool

-- `m_vVisited.at(nb) = true` and what comes with it, for the route with index `i`.
unfoldable pub extend : Maze → ℕ → List ℕ → ℕ → Search → Search
extend m i route nb s =
    let route' = route ++ nb ∷ [] in
    let first = not s.best_route_found && nb == m.exit in
    record {
      routes = s.routes ++ route' ∷ [];
      visited = set s.visited nb true;
      best_route = if first then route' else s.best_route;
      best_route_found = s.best_route_found || first;
      erase = if s.erased then s.erase else s.erase ++ i ∷ [];
      erased = true;
    }

-- One of the four blocks of the loop, behind its test of the wall.
unfoldable pub try_neighbour : Maze → ℕ → List ℕ → ℤ → Search → Result Search
unfolding extend
try_neighbour m i route (negsuc n) s = err out_of_range
try_neighbour m i route (pos nb) s = do
  seen ← at s.visited nb
  if seen then ok s else ok (extend m i route nb s)

-- The body of the `for` loop, for the route with index `i`.
unfoldable pub scan_route : Maze → ℕ → List ℕ → Search → Result Search
unfolding try_neighbour
scan_route m i route s = do
  current ← back route
  cl ← at m.cl_matrix current
  s ←
      if not (Cell.has_top_wall cl)
      then try_neighbour m i route (pos (neighbour_top m current)) s
      else ok s
  s ←
      if not (Cell.has_right_wall cl) && not (current == m.entrance)
      then try_neighbour m i route (neighbour_right m current) s
      else ok s
  s ←
      if not (Cell.has_bottom_wall cl)
      then try_neighbour m i route (pos (neighbour_bottom m current)) s
      else ok s
  if not (Cell.has_left_wall cl) && not (current == m.exit)
      then try_neighbour m i route (neighbour_left m current) s
      else ok s

-- The `for` loop. It reads `m_vRoutes.at(i)` below the number of routes at its start, and only
-- appends, so the routes that it reads are those of the start, here the list.
unfoldable pub scan_routes : Maze → ℕ → List (List ℕ) → Search → Result Search
unfolding scan_route
scan_routes m i [] s = ok s
scan_routes m i (route ∷ rest) s =
    scan_route m i route (record s { erased = false }) >>= scan_routes m (i + 1) rest

-- The erasures, the last index first.
unfoldable pub erase_routes : List ℕ → List (List ℕ) → List (List ℕ)
erase_routes indices routes = foldr (λ i rs. erase_at rs i) routes indices

-- One round of `while (true)`, up to the test that leaves the loop.
unfoldable pub round : Maze → Search → Result Search
unfolding scan_routes erase_routes
round m s = do
  s' ← scan_routes m 0 s.routes (record s { erase = [] })
  ok (record s' { routes = erase_routes s'.erase s'.routes })

-- `while (true)`: it ends when a round erases nothing.
unfoldable pub search_loop : Maze → ℕ → Search → Result Search
unfolding round
search_loop m zero s = err no_fuel
search_loop m (suc fuel) s =
    round m s >>= λ s'. elim s'.erase [ [] ↦ ok s' | _ ∷ _ ↦ search_loop m fuel s' ]

abbrev pub count_true : List Bool → ℕ
count_true [] = 0
count_true (b ∷ bs) = (if b then 1 else 0) + count_true bs

unfoldable pub start : Maze → Search
start m = record {
  routes = (m.entrance ∷ []) ∷ [];
  visited = tabulate m.total_cells 0 (λ i. i == m.entrance);
  best_route = [];
  best_route_found = false;
  erase = [];
  erased = false;
}

-- The count of the visited cells, behind the loop, and the fields that the search leaves.
abbrev finish : Maze → Search → Maze
finish m s =
    let n = count_true s.visited in
    record m {
      routes = s.routes;
      visited = s.visited;
      best_route = s.best_route;
      n_visited = n;
      all_cells_reachable = n == m.total_cells;
    }

-- Each round but the last visits a cell, so one more round than there are cells is enough.
unfoldable pub update_routes : Maze → Result Maze
unfolding search_loop start
update_routes m = do s ← search_loop m (m.total_cells + 1) (start m); ok (finish m s)
