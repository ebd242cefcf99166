-- ===== src/Maze/Print.antt =====
-- The listings (MZ.cpp): `printWallCount`, `printIntersections`, `printVisual`,
-- `printRoutesAndStats` and `printMZString`, as the text that they write.
pub mod Shows
pub mod Posts
use test.Prelude.{ℕ, ◌+◌, ◌-◌, ◌*◌, ◌%◌, Bool, List, [], ◌∷◌, ◌++◌}
use test.Prelude.Tests.{◌==◌, if◌then◌else◌}
use test.Prelude.Lists.{length}
use test.Prelude.Text.{text, decimal, decimal_int}
use test.Prelude.Results.{Result, ok, ◌>>=◌, at, for_range}
use test.Maze.State.{Maze, Percentage}

abbrev new_line : List ℕ
new_line = 10 ∷ []

unfoldable pub print_count : Maze → ℕ → List ℕ → Result (List ℕ)
unfolding decimal
print_count m i out = do
  n ← at m.cl_wall_count i
  let line = out ++ decimal n
  ok (if i % m.width == m.width - 1 then line ++ new_line else line)

unfoldable pub print_wall_count : Maze → Result (List ℕ)
unfolding print_count for_range
print_wall_count m = do
  out ← for_range m.total_cells 0 (print_count m) []
  ok (new_line ++ text "Wall Count:" ++ new_line ++ out)

unfoldable pub print_intersection_row : Maze → ℕ → List ℕ → Result (List ℕ)
unfolding decimal for_range
print_intersection_row m y out = do
  line ←
      for_range (m.width + 1) 0
        (λ x line. at m.cl_intersections (x + y * (m.width + 1)) >>= λ n. ok (line ++ decimal n)) []
  ok (out ++ line ++ new_line)

unfoldable pub print_intersections : Maze → Result (List ℕ)
unfolding print_intersection_row for_range
print_intersections m =
    for_range m.height 0 (print_intersection_row m) (new_line ++ text "Intersections:" ++ new_line)

-- `currChar` where the entry is set: a floor in the odd columns, a side wall in the even ones.
abbrev pub wall_char : ℕ → ℕ
wall_char x = if x % 2 == 1 then b'_' else b'|'

unfoldable pub print_visual_char : Maze → ℕ → ℕ → List ℕ → Result (List ℕ)
print_visual_char m y x line = do
  b ← at m.cl_matrix_visual (y * m.width_visual + x)
  ok (line ++ (if b then wall_char x else b' ') ∷ [])

unfoldable pub print_visual_row : Maze → ℕ → List ℕ → Result (List ℕ)
unfolding print_visual_char for_range
print_visual_row m y out = do
  line ← for_range m.width_visual 0 (print_visual_char m y) []
  ok (out ++ line ++ new_line)

-- With `doubly` the picture is written once more, without its first row.
unfoldable pub print_visual : Maze → Bool → Result (List ℕ)
unfolding print_visual_row for_range
print_visual m doubly = do
  out ← for_range m.height_visual 0 (print_visual_row m) []
  if doubly then for_range (m.height_visual - 1) 1 (print_visual_row m) out else ok out

unfoldable pub print_numbers : List ℕ → List ℕ
unfolding decimal
print_numbers [] = []
print_numbers (n ∷ ns) = decimal n ++ b' ' ∷ print_numbers ns

unfoldable pub print_routes : List (List ℕ) → List ℕ
unfolding print_numbers
print_routes [] = []
print_routes (route ∷ routes) = print_numbers route ++ new_line ++ print_routes routes

abbrev tabs : List ℕ
tabs = 9 ∷ 9 ∷ []

abbrev truth : Bool → ℕ
truth b = if b then 1 else 0

-- `percent` is the format `%2.2f` of a percentage.
unfoldable pub print_routes_and_stats : (Percentage → List ℕ) → Maze → List ℕ
unfolding print_routes print_numbers decimal decimal_int
print_routes_and_stats percent m =
    new_line
    ++ text "Routes:"
    ++ new_line
    ++ print_routes m.routes
    ++ new_line
    ++ text "m_entrance: "
    ++ decimal m.entrance
    ++ tabs
    ++ 9 ∷ []
    ++ text "m_exit: "
    ++ decimal m.exit
    ++ new_line
    ++ text "m_nVisited: "
    ++ decimal m.n_visited
    ++ b'/' ∷ []
    ++ decimal m.total_cells
    ++ tabs
    ++ text "m_bAllCellsReachable: "
    ++ decimal (truth m.all_cells_reachable)
    ++ tabs
    ++ text "m_nWalls: "
    ++ decimal_int m.n_walls
    ++ tabs
    ++ text "m_minIntersections: "
    ++ decimal m.min_intersections
    ++ new_line
    ++ new_line
    ++ text "Best Route:"
    ++ new_line
    ++ print_numbers m.best_route
    ++ new_line
    ++ text "Best Route Length: "
    ++ decimal (length m.best_route)
    ++ text " / "
    ++ decimal m.total_cells
    ++ text " = "
    ++ percent m.best_route_coverage
    ++ text " %"
    ++ new_line
    ++ text "Rows utilized: "
    ++ decimal m.rows_utilized
    ++ text " / "
    ++ decimal m.height
    ++ text " = "
    ++ percent m.best_route_rows_utilized
    ++ text " %"
    ++ new_line
    ++ text "m_nOpposingSteps: "
    ++ decimal m.n_opposing_steps
    ++ new_line
    ++ print_problems m.intersection_problems
  where
    print_problems : List ℕ → List ℕ
    print_problems [] = text "No Intersection problems at all" ++ new_line
    print_problems (p ∷ ps) =
        text "Intersection problems at: " ++ new_line ++ print_numbers (p ∷ ps) ++ new_line

-- What goes to the console. The program is built for Unicode, where `std::cout` has no operator for
-- the characters of a CString and writes the address of its buffer: `address` is that text.
unfoldable pub print_mz_string : List ℕ → List ℕ
print_mz_string address =
    new_line ++ text "MazeString:" ++ new_line ++ address ++ new_line ++ new_line
