-- ===== src/Tests/Loading.antt =====
-- The theorems on loading, on the views and on the border of a maze at concrete inputs.
use test.Prelude.{ℕ, ◌<◌, ◌||◌, ◌≡◌, refl, true, false, zero, suc, [], ◌∷◌, arith}
use test.Prelude.Text.{text}
use test.Prelude.Tests.{◌==◌}
use test.Prelude.Lists.{tabulate, ◌∈◌}
use test.Prelude.Results.{ok, err, out_of_range}
use test.Cell
use test.Cell.{Cell, Drawn}
use test.Maze.Grid
use test.Maze.Routes.Passage.{IsSearchable}
use test.Maze.Check
use test.Maze.Check.Compatible.{IsFull, IsCompatible, cell, check_edge_compatibility_decides}
use test.Maze.Load.Faults.{EntersLeft, set_mz_fault}
use test.Prelude.{sym, ◌∙◌}
use test.Prelude.Results.{ok_injective}
use test.Maze.Visual
use test.Maze.State.{Maze}
use test.Maze.Visual.Pixels.{Draws, update_visual-Draws}
use test.Maze.Visual.Intersections.{IsPictured}
use test.Maze.Visual.Problems.{CountsPosts, update_intersections-CountsPosts}
use test.Maze.Stats
use test.Maze.Stats.Histogram.{Measures, calculate_maze_and_route_stats-Measures}
use test.Maze.Load
use test.Maze.Generate
use test.Cell.Walls.{Walls, of_walls}
use test.Maze.Generate.Border.Entrance.{AreFreeRight, Encloses, add_random_entrance-Encloses}
use test.Maze.Load.{Loaded}
use test.Maze.Load.Accepts.{loaded, Accepts, set_mz-Accepts}
use test.Maze.Load.Shift.{Shifts, shift_down-Shifts}
use test.Tests.{raw, small, small-IsGrid, small-IsFull, small_right, small_left}

loaded-IsSearchable : IsSearchable (loaded raw 2 2 1 2 (text "1004"))
unfolding Load.assign Cell.new Grid.is_right_edge Grid.is_left_edge
loaded-IsSearchable = record {
  grid = record { total = refl; wide = omega arith; high = omega arith };
  cells = refl;
  inside = omega arith;
  right_closed = small_right;
  left_closed = small_left;
}

set_mz-Accepts_example :
    (r : Loaded) × (Load.set_mz raw 2 2 1 2 (text "1004") ≡ ok r)
    × Accepts raw 2 2 1 2 (text "1004") r
set_mz-Accepts_example =
    set_mz-Accepts raw 2 2 1 2 (text "1004") refl (omega arith) (omega arith) (omega arith)
      loaded-IsSearchable

update_visual-Draws_example : (m' : Maze) × (Visual.update_visual small ≡ ok m') × Draws small m'
update_visual-Draws_example =
    update_visual-Draws small small-IsFull refl refl (omega arith) (omega arith)

-- The picture of `small`.
abbrev pictured : Maze
pictured = record small { cl_matrix_visual = tabulate 15 0 (λ i. i == 5 || i == 14) }

pictured-IsPictured : IsPictured pictured
pictured-IsPictured = record { columns = refl; lines = refl; entries = refl }

update_intersections-CountsPosts_example :
    (m' : Maze) × (Visual.update_intersections pictured ≡ ok m') × CountsPosts pictured m'
update_intersections-CountsPosts_example =
    update_intersections-CountsPosts pictured pictured-IsPictured

abbrev routed : Maze
routed = record small { best_route = 1 ∷ 3 ∷ 2 ∷ [] }

routed_inside : (c : ℕ) → c ∈ routed.best_route → c < routed.total_cells
routed_inside c q = ground arith

calculate_maze_and_route_stats-Measures_example :
    (m' : Maze) × (Stats.calculate_maze_and_route_stats routed ≡ ok m') × Measures routed m'
calculate_maze_and_route_stats-Measures_example =
    calculate_maze_and_route_stats-Measures routed
      (record { total = refl; wide = omega arith; high = omega arith }) routed_inside

-- A maze of 2 by 2 cells whose way in is on the left edge.
abbrev entered : Maze
entered = loaded raw 2 2 2 1 (text "8020")

entered-IsFull : IsFull entered
unfolding Load.assign
entered-IsFull = record {
  grid = record { total = refl; wide = omega arith; high = omega arith };
  cells = refl;
}

entered_agrees : Check.check_edge_compatibility entered ≡ ok true
unfolding Check.check_edge_compatibility Grid.is_left_edge Grid.is_right_edge Grid.neighbour_right
    Grid.neighbour_top Grid.neighbour_bottom Grid.neighbour_left Cell.has_right_wall Cell.new
    Cell.has_left_wall Cell.has_top_wall Cell.has_bottom_wall Grid.is_bottom_row Grid.get_row_number
    Load.assign
entered_agrees = refl

entered-IsCompatible : IsCompatible entered
entered-IsCompatible =
    let (b, run, decides) = check_edge_compatibility_decides entered entered-IsFull in
    decides.0 (ok_injective b true (sym run ∙ entered_agrees))

entered-EntersLeft : EntersLeft entered
unfolding Load.assign Grid.is_left_edge Cell.has_left_wall Cell.new
entered-EntersLeft = record {
  inside = omega arith;
  edge = refl;
  no_wall = refl;
  other = omega arith;
}

set_mz_fault_example : Load.set_mz raw 2 2 2 1 (text "8020") ≡ err out_of_range
set_mz_fault_example =
    set_mz_fault raw 2 2 2 1 (text "8020") refl (omega arith) (omega arith) entered-IsFull.grid
      entered-IsCompatible entered-EntersLeft

shift_down-Shifts_example : Shifts small 5 (Load.shift_down small 5)
shift_down-Shifts_example = shift_down-Shifts small 5 small-IsGrid refl

abbrev no_walls : Walls
no_walls = record { top = false; right = false; bottom = false; left = false }

abbrev blank : Cell.Cell
blank = record { char = b'0'; human_char = b'0' }

-- Four cells without walls.
abbrev bare : Maze
bare = record small { cl_matrix = blank ∷ blank ∷ blank ∷ blank ∷ [] }

bare-IsFull : IsFull bare
bare-IsFull = record {
  grid = record { total = refl; wide = omega arith; high = omega arith };
  cells = refl;
}

bare-AreFreeRight : AreFreeRight bare
unfolding of_walls
bare-AreFreeRight c h column = (no_walls, (at_cell c h, refl))
  where
    at_cell : (c : ℕ) → c < 4 → cell bare c ≡ blank
    at_cell zero h = refl
    at_cell (suc zero) h = refl
    at_cell (suc (suc zero)) h = refl
    at_cell (suc (suc (suc zero))) h = refl
    at_cell (suc (suc (suc (suc c)))) h = absurd (omega arith)

add_random_entrance-Encloses_example :
    (m' : Maze) × (Generate.add_random_entrance (record { maze = bare; draws = 7 ∷ 4 ∷ [] })
      ≡ ok (record { maze = m'; draws = 4 ∷ [] }))
    × Encloses bare 7 m'
add_random_entrance-Encloses_example =
    add_random_entrance-Encloses bare 7 bare-IsFull (4 ∷ []) bare-AreFreeRight
