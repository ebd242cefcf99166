-- ===== src/Tests.antt =====
-- Runs of the model on small inputs, and the theorems applied at concrete inputs.
mod Loading
mod Generating
mod Library
mod Server
mod Storing
mod Fixed
mod Tables
use test.Prelude.{
  ℕ, zero, suc, ◌+◌, ◌<◌, ◌||◌, inl, inr, some, none, ◌≡◌, ◌↔◌, refl, Bool, true, false, List, [],
  ◌∷◌, map, arith,
}
use test.Prelude.Text.{text}
use test.Prelude.Int.{pos}
use test.Prelude.Tests.{◌==◌}
use test.Prelude.Lists.{tabulate, ◌∈◌}
use test.Prelude.Results.{Result, ok, err, at, ◌>>=◌, out_of_range}
use test.Cell
use test.Cell.{Cell, Drawn}
use test.Cell.Walls.{Walls, of_walls, put, change_wall_lem}
use test.Cell.Encoding.{decode, new-of_walls}
use test.Cell.Random.{Adds, add_random_wall-Adds, add_random_wall_returns}
use test.Mysql.Dump
use test.Mysql.Dump.{Datum}
use test.Mysql.Dump.Layout.{IsCountable, sizes, AllInside, place_end, place-AllInside}
use test.Maze.Grid
use test.Maze.Grid.Laws.{IsGrid, IsPlaced, neighbours_lem}
use test.Maze.Routes
use test.Maze.Routes.Passage.{IsSearchable}
use test.Maze.Routes.Correct.{Explores, update_routes-Explores}
use test.Maze.Check
use test.Maze.Check.Compatible.{IsFull, cell, IsCompatible, check_edge_compatibility_decides}
use test.Maze.Check.Matrix.{read_cell, update_mz_string-initialize_cl_matrix}
use test.Maze.Visual
use test.Maze.State.{Maze}
use test.Maze.Visual.Pixels.{Draws, update_visual-Draws}
use test.Maze.Visual.Intersections.{IsPictured}
use test.Maze.Visual.Problems.{CountsPosts, update_intersections-CountsPosts}
use test.Maze.Stats
use test.Maze.Stats.Histogram.{Measures, calculate_maze_and_route_stats-Measures}
use test.Maze.Routes.Faults.{update_routes_fault}
use test.Maze.Load
use test.Maze.Load.{Loaded}
use test.Maze.Load.Accepts.{loaded, Accepts, set_mz-Accepts, set_mz_refuses}
use test.Maze.Generate

-- An object with all numbers zero.
abbrev pub raw : Maze
raw = record {
  mz_string = [];
  width = 0;
  height = 0;
  total_cells = 0;
  width_visual = 0;
  height_visual = 0;
  n_tries = 0;
  n_walls = pos 0;
  n_max_walls = 0;
  entrance = 0;
  exit = 0;
  min_intersections = 0;
  n_visited = 0;
  rows_utilized = 0;
  n_opposing_steps = 0;
  all_cells_reachable = false;
  best_route_coverage = record { part = 0; whole = 0 };
  best_route_rows_utilized = record { part = 0; whole = 0 };
  cl_matrix = [];
  cl_matrix_visual = [];
  cl_intersections = [];
  cl_wall_count = [];
  routes = [];
  visited = [];
  best_route = [];
  row_histogram = [];
  intersection_problems = [];
}

-- Two by two cells: the way in at cell 1, the way out at cell 2, and no wall between cells.
abbrev pub small : Maze
small = record raw {
  width = 2;
  height = 2;
  total_cells = 4;
  width_visual = 5;
  height_visual = 3;
  entrance = 1;
  exit = 2;
  mz_string = text "1004";
  cl_matrix =
      record { char = b'1'; human_char = b'1' }
      ∷ record { char = b'0'; human_char = b'0' }
      ∷ record { char = b'0'; human_char = b'0' }
      ∷ record { char = b'4'; human_char = b'4' }
      ∷ [];
}

pub small-IsGrid : IsGrid small
small-IsGrid = record { total = refl; wide = omega arith; high = omega arith }

pub small-IsFull : IsFull small
small-IsFull = record { grid = small-IsGrid; cells = refl }

pub small_right :
    (c : ℕ) (cl : Cell)
    → at small.cl_matrix c ≡ ok cl
    → Grid.is_right_edge small c ≡ true
    → Cell.has_right_wall cl ≡ false
    → c ≡ small.entrance
unfolding Grid.is_right_edge Cell.has_right_wall
small_right zero cl e edge open_side = cc
small_right (suc zero) cl e edge open_side = refl
small_right (suc (suc zero)) cl e edge open_side = cc
small_right (suc (suc (suc zero))) cl e edge open_side = ground arith
small_right (suc (suc (suc (suc c)))) cl e edge open_side = cc

pub small_left :
    (c : ℕ) (cl : Cell)
    → at small.cl_matrix c ≡ ok cl
    → Grid.is_left_edge small c ≡ true
    → Cell.has_left_wall cl ≡ false
    → c ≡ small.exit
unfolding Grid.is_left_edge Cell.has_left_wall
small_left zero cl e edge open_side = ground arith
small_left (suc zero) cl e edge open_side = cc
small_left (suc (suc zero)) cl e edge open_side = refl
small_left (suc (suc (suc zero))) cl e edge open_side = cc
small_left (suc (suc (suc (suc c)))) cl e edge open_side = cc

small-IsSearchable : IsSearchable small
small-IsSearchable = record {
  grid = small-IsGrid;
  cells = refl;
  inside = omega arith;
  right_closed = small_right;
  left_closed = small_left;
}

update_routes-Explores_example :
    (m' : Maze) × (Routes.update_routes small ≡ ok m') × Explores small m'
update_routes-Explores_example = update_routes-Explores small small-IsSearchable

check_edge_compatibility_decides_example :
    (b : Bool) × (Check.check_edge_compatibility small ≡ ok b) × ((b ≡ true) ↔ IsCompatible small)
check_edge_compatibility_decides_example = check_edge_compatibility_decides small small-IsFull

neighbours_lem_example : IsPlaced small 1 1
neighbours_lem_example = neighbours_lem small small-IsGrid 1 1 (omega arith) (omega arith)

update_mz_string-initialize_cl_matrix_example :
    (Check.initialize_cl_matrix small >>= Visual.update_mz_string)
    ≡ ok (record small { cl_matrix = map read_cell small.mz_string })
update_mz_string-initialize_cl_matrix_example =
    update_mz_string-initialize_cl_matrix small refl (omega arith)

abbrev right_and_left : Walls
right_and_left = record { top = false; right = true; bottom = false; left = true }

change_wall_lem_example :
    (Cell.add_wall_at_side (of_walls right_and_left) 2 ≡ of_walls (put right_and_left 2 true))
    × (Cell.remove_wall_at (Cell.add_wall_at_side (of_walls right_and_left) 2) 2
        ≡ of_walls right_and_left)
    × (Cell.get_number_of_walls (Cell.add_wall_at_side (of_walls right_and_left) 2)
        ≡ Cell.get_number_of_walls (of_walls right_and_left) + 1)
change_wall_lem_example = change_wall_lem right_and_left 2 (omega arith) refl

new-of_walls_example : Cell.new b'd' ≡ of_walls (decode b'd')
new-of_walls_example = new-of_walls b'd' (inr (omega arith, omega arith))

-- The draws 1 and 3 name walls that stand.
drawn_top : Drawn
drawn_top = record { side = 0; cell = of_walls (put right_and_left 0 true); draws = 2 ∷ [] }

add_random_wall_run :
    Cell.add_random_wall (of_walls right_and_left) (1 ∷ 3 ∷ 4 ∷ 2 ∷ []) ≡ ok drawn_top
unfolding Cell.add_random_wall of_walls drawn_top
add_random_wall_run = refl

add_random_wall-Adds_example : Adds right_and_left drawn_top
add_random_wall-Adds_example =
    add_random_wall-Adds right_and_left (1 ∷ 3 ∷ 4 ∷ 2 ∷ []) drawn_top add_random_wall_run

add_random_wall_returns_example :
    (r : Drawn) × (Cell.add_random_wall (of_walls right_and_left) (1 ∷ 3 ∷ 4 ∷ []) ≡ ok r)
    × Adds right_and_left r
add_random_wall_returns_example =
    add_random_wall_returns right_and_left (1 ∷ 3 ∷ 4 ∷ []) 4 (inr (inr (inl refl))) refl

-- Two fields and one row.
abbrev names : List Datum
names =
    record { bytes = some (text "id"); size = 2 }
    ∷ record { bytes = some (text "x"); size = 1 }
    ∷ []

abbrev rows : List (List Datum)
rows = (record { bytes = some (text "17"); size = 2 } ∷ record { bytes = none; size = 0 } ∷ []) ∷ []

names-IsCountable : IsCountable names rows
unfolding Dump.size_of_items Dump.size_of_rows
names-IsCountable = omega arith

place_end_example : (Dump.place 0 names rows).end ≡ Dump.dump_size (sizes names) (map sizes rows)
place_end_example = place_end 0 names rows (refl, tt) names-IsCountable

place-AllInside_example :
    AllInside 20 (Dump.dump_size (sizes names) (map sizes rows)) (Dump.place 0 names rows).writes
place-AllInside_example = place-AllInside 0 names rows (refl, tt) names-IsCountable

-- The maze of `MZHandler::Go`.
abbrev sample_string : List ℕ
sample_string = text "3675dd9a26369cd9a6345ddd5126555d9062653e9e3cd1aa611a8a4590c7"

sample_run : Result Load.Loaded
unfolding Load.set_mz
sample_run = Load.set_mz raw 5 12 49 35 sample_string

small_game : Result Generate.Game
unfolding Generate.generate_mz
small_game = Generate.generate_mz raw 3 3 (
    1 ∷ 2 ∷ 4 ∷ 0 ∷ 3 ∷ 1 ∷ 7 ∷ 2 ∷ 8 ∷ 0 ∷ 5 ∷ 1 ∷ 6 ∷ 3 ∷ 2 ∷ 2 ∷ 1 ∷ 0 ∷ 3 ∷ 1 ∷ 4 ∷ 0 ∷ 5 ∷ 3
    ∷ 3 ∷ 2 ∷ 6 ∷ 1 ∷ 7 ∷ 2 ∷ 0 ∷ 0 ∷ 1 ∷ 1 ∷ 4 ∷ 3 ∷ [])
