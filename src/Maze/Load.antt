-- ===== src/Maze/Load.antt =====
-- `MZ::setMZ`, `MZ::updateVectors` and `MZ::shiftDown` (MZ.cpp), composed of the other methods.
pub mod Frames
pub mod Vectors
pub mod Stages
pub mod Accepts
pub mod Faults
pub mod Shift
use package.test.Prelude.{ℕ, zero, suc, ◌+◌, ◌-◌, ◌*◌, ◌%◌, Bool, true, false, not, List, [], ◌∷◌}
use package.test.Prelude.{◌++◌}
use package.test.Prelude.Tests.{if◌then◌else◌}
use package.test.Prelude.Results.{Result, ok, ◌>>=◌}
use package.test.Maze.State.{Maze}
use package.test.Maze.Visual.{
  update_visual, update_intersections, update_wall_count, update_mz_string,
}
use package.test.Maze.Routes.{update_routes}
use package.test.Maze.Check.{check_mz, check_stuff, initialize_cl_matrix}
use package.test.Maze.Stats.{calculate_maze_and_route_stats}

-- With `bVerbose` the method also prints, which is left out.
unfoldable pub update_vectors : Maze → Result Maze
unfolding update_visual update_intersections update_wall_count update_mz_string update_routes
update_vectors m = do
  m ← update_visual m
  m ← update_intersections m
  m ← update_wall_count m
  m ← update_routes m
  update_mz_string m

-- The result of `setMZ`, and the object that it leaves.
pub record Loaded : Type 0 where
  pub accepted : Bool
  pub maze : Maze

-- The assignments at the start of `setMZ`.
unfoldable pub assign : Maze → ℕ → ℕ → ℕ → ℕ → List ℕ → Maze
assign m width height entrance exit s = record m {
  width = width;
  height = height;
  entrance = entrance;
  exit = exit;
  total_cells = width * height;
  width_visual = width * 2 + 1;
  height_visual = height + 1;
  mz_string = s;
  all_cells_reachable = false;
}

-- What `setMZ` does behind its two checks.
unfoldable pub complete : Maze → Result Loaded
unfolding update_vectors calculate_maze_and_route_stats
complete m = do
  m ← update_vectors m
  m ← calculate_maze_and_route_stats m
  ok (record { accepted = true; maze = m })

unfoldable pub load_cells : Maze → Result Loaded
unfolding initialize_cl_matrix check_stuff complete
load_cells m = do
  m ← initialize_cl_matrix m
  compatible ← check_stuff m
  if not compatible then ok (record { accepted = false; maze = m }) else complete m

unfoldable pub set_mz : Maze → ℕ → ℕ → ℕ → ℕ → List ℕ → Result Loaded
unfolding check_mz load_cells assign
set_mz raw width height entrance exit s =
    let m = assign raw width height entrance exit s in
    if not (check_mz m) then ok (record { accepted = false; maze = m }) else load_cells m

module _ {ℓ} {A : Type ℓ} where
  -- `s.Mid(i)` and `s.Left(i)`.
  abbrev pub drop : ℕ → List A → List A
  drop zero xs = xs
  drop (suc n) [] = []
  drop (suc n) (x ∷ xs) = drop n xs

  abbrev pub take : ℕ → List A → List A
  take zero xs = []
  take (suc n) [] = []
  take (suc n) (x ∷ xs) = x ∷ take n xs

-- The last rows of the string move to its front, and the entrance and the exit move along.
-- `CString::Mid`, and `CString::Delete` as the string that is left.
abbrev pub mid : List ℕ → ℕ → ℕ → List ℕ
mid s first count = take count (drop first s)

abbrev pub delete : List ℕ → ℕ → ℕ → List ℕ
delete s first count = take first s ++ drop (first + count) s

unfoldable pub shift_down : Maze → ℕ → Maze
shift_down m offset =
    let n = offset % m.height * m.width in
    let last_rows = mid m.mz_string (m.total_cells - n) n in
    record m {
      mz_string = last_rows ++ delete m.mz_string (m.total_cells - n) n;
      entrance = (m.entrance + n) % m.total_cells;
      exit = (m.exit + n) % m.total_cells;
    }
