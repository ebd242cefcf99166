-- ===== src/Maze/State.antt =====
-- The fields of MZ (Test00/MZ.h) and the getters (Test00/MZ.cpp).
-- Sizes, cell indices and counters are numbers: a negative width, height, entrance or exit is
-- outside the model, and so is a product that overflows an `int`. `m_nWalls`, which is counted
-- down, is an integer. A `float` is the expression that the code evaluates, with the two integers
-- in it.
use test.Prelude.{ℕ, Bool, List, []}
use test.Prelude.Int.{ℤ}
use test.Cell.{Cell}

-- `((float) part / (float) whole) * 100.f`.
pub record Percentage : Type 0 where
  pub part : ℕ
  pub whole : ℕ

pub record Maze : Type 0 where
  pub mz_string : List ℕ
  pub width : ℕ
  pub height : ℕ
  pub total_cells : ℕ
  pub width_visual : ℕ
  pub height_visual : ℕ
  pub n_tries : ℕ
  pub n_walls : ℤ
  pub n_max_walls : ℕ
  pub entrance : ℕ
  pub exit : ℕ
  pub min_intersections : ℕ
  pub n_visited : ℕ
  pub rows_utilized : ℕ
  pub n_opposing_steps : ℕ
  pub all_cells_reachable : Bool
  pub best_route_coverage : Percentage
  pub best_route_rows_utilized : Percentage
  pub cl_matrix : List Cell
  pub cl_matrix_visual : List Bool
  pub cl_intersections : List ℕ
  pub cl_wall_count : List ℕ
  pub routes : List (List ℕ)
  pub visited : List Bool
  pub best_route : List ℕ
  pub row_histogram : List ℕ
  pub intersection_problems : List ℕ

-- The constructor: `raw` is what the memory holds, of which it leaves most numbers as they are.
unfoldable pub construct : Maze → Maze
construct raw = record raw {
  mz_string = [];
  width = 0;
  width_visual = 0;
  height = 0;
  height_visual = 0;
  total_cells = 0;
  cl_matrix = [];
  cl_matrix_visual = [];
  cl_intersections = [];
  cl_wall_count = [];
  routes = [];
  visited = [];
  best_route = [];
  row_histogram = [];
  intersection_problems = [];
}

abbrev pub get_mz_string : Maze → List ℕ
get_mz_string m = m.mz_string

abbrev pub get_entrance : Maze → ℕ
get_entrance m = m.entrance

abbrev pub get_exit : Maze → ℕ
get_exit m = m.exit

abbrev pub get_route_coverage : Maze → Percentage
get_route_coverage m = m.best_route_coverage

abbrev pub get_row_utilization : Maze → Percentage
get_row_utilization m = m.best_route_rows_utilized

abbrev pub get_min_intersections : Maze → ℕ
get_min_intersections m = m.min_intersections

abbrev pub get_opposing_steps : Maze → ℕ
get_opposing_steps m = m.n_opposing_steps

abbrev pub get_width : Maze → ℕ
get_width m = m.width

abbrev pub get_height : Maze → ℕ
get_height m = m.height
