-- ===== src/Maze/Generate.antt =====
-- The generator (MZ.cpp): `generateMZ` and the methods that change walls. The results of `rand()`
-- are a list, from which each call takes the first.
pub mod Border
mod Shape
mod Sides
mod Pairs
mod Walled
mod Mirror
mod Settle
pub mod Build
pub mod Rounds
mod Opened
mod Blank
mod Bordered
mod Bare
mod Gaps
mod Passages
mod Fill
mod Detour
pub mod LayOut
pub mod Filling
pub mod Whole
pub mod Reload
use package.test.Prelude.{ℕ, ◌+◌, ◌-◌, ◌*◌, ◌/◌, ◌%◌, Bool, true, false, ◌&&◌, ◌||◌, not}
use package.test.Prelude.{List, [], ◌∷◌, ◌++◌}
use package.test.Prelude.Tests.{ltb, ◌==◌, if◌then◌else◌}
use package.test.Prelude.Lists.{length, set, tabulate}
use package.test.Prelude.Int.{ℤ, pos, negsuc, increment, decrement}
use package.test.Prelude.Results.{Result, ok, err, ◌>>=◌, at, for_range, no_draw, uninitialised}
use package.test.Cell
use package.test.Cell.{Cell, Drawn}
use package.test.Maze.Grid.{is_left_edge, is_right_edge}
use package.test.Maze.State.{Maze}
use package.test.Maze.Check.{initialize_cl_matrix}
use package.test.Maze.Load.{update_vectors}
use package.test.Maze.Stats.{calculate_maze_and_route_stats}

-- A maze and the draws that are left.
pub record Game : Type 0 where
  pub maze : Maze
  pub draws : List ℕ

-- `rand()`.
abbrev pub rand {ℓ} : {A : Type ℓ} → List ℕ → (ℕ → List ℕ → Result A) → Result A
rand [] k = err no_draw
rand (d ∷ draws) k = k d draws

-- `m_CLMatrix.at(i)` changed in place.
abbrev pub modify : List Cell → ℕ → (Cell → Cell) → Result (List Cell)
modify cells i f = at cells i >>= λ cl. ok (set cells i (f cl))

abbrev pub add_side : ℕ → Cell → Cell
add_side s cl = Cell.add_wall_at_side cl s

abbrev pub remove_side : ℕ → Cell → Cell
remove_side s cl = Cell.remove_wall_at cl s

-- A wall of the border, unless the cell is `r`: the body of the loops below.
unfoldable pub close_border : ℕ → ℕ → ℕ → Maze → Result Maze
close_border side r i m =
    if i == r
    then ok m
    else modify m.cl_matrix i (add_side side) >>= λ cells.
        ok (record m { cl_matrix = cells; n_walls = increment m.n_walls })

-- The loop steps by the width from the last column: one round for each row.
unfoldable pub add_random_entrance : Game → Result Game
unfolding close_border for_range
add_random_entrance g = rand g.draws λ d draws. do
  let m = g.maze
  let r = d % m.height * m.width + (m.width - 1)
  m ←
      for_range m.height 0 (λ k. close_border 1 r (m.width - 1 + k * m.width))
        (record m { entrance = r })
  ok (record { maze = m; draws = draws })

unfoldable pub add_random_exit : Game → Result Game
unfolding close_border for_range
add_random_exit g = rand g.draws λ d draws. do
  let m = g.maze
  let r = d % m.height * m.width
  m ← for_range m.height 0 (λ k. close_border 3 r (k * m.width)) (record m { exit = r })
  ok (record { maze = m; draws = draws })

-- `neighBour` in `addRandomWall` and `removeWallAt`: -1 where no branch sets it.
unfoldable pub wall_neighbour : Maze → ℕ → ℤ → ℤ
wall_neighbour m cell (negsuc n) = negsuc 0
wall_neighbour m cell (pos side) =
    if side == 0
    then pos ((cell + m.total_cells - m.width) % m.total_cells)
    else if not ((cell + 1) % m.width == 0) && side == 1
    then pos (cell + 1)
    else if side == 2
    then pos ((cell + m.width) % m.total_cells)
    else if not (cell % m.width == 0) && side == 3
    then pos (cell - 1)
    else negsuc 0

-- `(side + 2) % 4`.
abbrev pub mirrored : ℕ → ℕ
mirrored side = (side + 2) % 4

-- Without a neighbour the code goes on with a variable that it has not set.
unfoldable pub remove_wall_at : Maze → ℕ → ℤ → Result Maze
unfolding wall_neighbour update_vectors
remove_wall_at m cell (negsuc n) = err uninitialised
remove_wall_at m cell (pos side) = elim (wall_neighbour m cell (pos side)) [
  | negsuc _ ↦ err uninitialised
  | pos nb ↦ do
    cells ← modify m.cl_matrix cell (remove_side side)
    cells ← modify cells nb (remove_side (mirrored side))
    update_vectors (record m { cl_matrix = cells; n_walls = decrement m.n_walls })
]

-- What `addRandomWall` returns and sets, and the game that it leaves.
pub record Attempt : Type 0 where
  pub succeeded : Bool
  pub cell : ℕ
  pub side : ℤ
  pub game : Game

-- The neighbour takes the mirrored wall, unless it has too many walls then: the block behind
-- `if (neighBour >= 0)`.
unfoldable pub mirror_wall : Maze → ℕ → ℕ → ℕ → Result (Bool × Maze)
mirror_wall m r side nb = do
  cells ← modify m.cl_matrix nb (add_side (mirrored side))
  cl ← at cells nb
  if ltb m.n_max_walls (Cell.get_number_of_walls cl)
      then (do
        cells ← modify cells r (remove_side side)
        cells ← modify cells nb (remove_side (mirrored side))
        ok (false, record m { cl_matrix = cells; n_walls = decrement m.n_walls }))
      else ok (true, record m { cl_matrix = cells })

-- The end of `addRandomWall`, from the choice of the neighbour on.
unfoldable pub settle_wall : Maze → ℕ → ℤ → List ℕ → Result Attempt
unfolding wall_neighbour mirror_wall update_vectors
settle_wall m r (negsuc n) draws = do
  m ← update_vectors m
  ok (record {
    succeeded = false;
    cell = r;
    side = negsuc 0;
    game = record { maze = m; draws = draws };
  })
settle_wall m r (pos side) draws = do
  (succeeded, m) ← elim (wall_neighbour m r (pos side)) [
    | negsuc _ ↦ ok (false, m)
    | pos nb ↦ mirror_wall m r side nb
  ]
  m ← update_vectors m
  ok (record {
    succeeded = succeeded;
    cell = r;
    side = pos side;
    game = record { maze = m; draws = draws };
  })

-- The wall on the side `side` of `r`, which `cl` has now: refused at the border.
unfoldable pub place_wall : Maze → ℕ → Drawn → Result Attempt
unfolding settle_wall
place_wall m r d =
    let restored = set m.cl_matrix r (Cell.remove_wall_at d.cell d.side) in
    if (is_right_edge m r && d.side == 1) || (is_left_edge m r && d.side == 3)
    then ok (record {
      succeeded = false;
      cell = r;
      side = pos d.side;
      game = record { maze = record m { cl_matrix = restored }; draws = d.draws };
    })
    else settle_wall
        (record m { cl_matrix = set m.cl_matrix r d.cell; n_walls = increment m.n_walls }) r
        (pos d.side) d.draws

unfoldable pub add_random_wall : Game → Result Attempt
unfolding place_wall settle_wall Cell.add_random_wall Cell.get_number_of_walls
add_random_wall g = rand g.draws λ d draws. do
  let m = g.maze
  let r = d % m.total_cells
  cl ← at m.cl_matrix r
  if ltb (Cell.get_number_of_walls cl) m.n_max_walls
      then Cell.add_random_wall cl draws >>= place_wall m r
      else settle_wall m r (negsuc 0) draws

-- The body of the three loops of `generateMZ`.
unfoldable pub try_wall : ℕ → Game → Result Game
unfolding add_random_wall remove_wall_at
try_wall i g = do
  a ← add_random_wall g
  if not a.game.maze.all_cells_reachable
      then (do
        m ← remove_wall_at a.game.maze a.cell a.side
        ok (record { maze = m; draws = a.game.draws }))
      else ok a.game

-- One of the three loops, after `m_nMaxWalls = limit`.
unfoldable pub try_walls : ℕ → Game → Result Game
unfolding try_wall for_range
try_walls limit g =
    for_range g.maze.n_tries 0 try_wall (record g { maze = record g.maze { n_max_walls = limit } })

unfoldable pub fill_wallless_cell : List ℕ → ℕ → List Cell → Result (List Cell)
fill_wallless_cell problems i cells = do
  p ← at problems i
  cells ← modify cells p (add_side 1)
  modify cells (p + 1) (add_side 3)

unfoldable pub fill_wallless_cells : Maze → Result Maze
unfolding fill_wallless_cell update_vectors for_range
fill_wallless_cells m = do
  let problems = m.intersection_problems
  cells ← for_range (length problems) 0 (fill_wallless_cell problems) m.cl_matrix
  update_vectors (record m { cl_matrix = cells })

-- `mzString.Append(_T("0"))` for each cell, behind what the string holds already.
unfoldable pub begin : Maze → ℕ → ℕ → Maze
begin m width height =
    let total = width * height in
    record m {
      width = width;
      height = height;
      total_cells = total;
      width_visual = width * 2 + 1;
      height_visual = height + 1;
      n_walls = pos 0;
      mz_string = m.mz_string ++ tabulate total 0 (λ _. b'0');
      all_cells_reachable = false;
    }

-- The open maze with its border.
unfoldable pub lay_out : Maze → List ℕ → Result Game
unfolding initialize_cl_matrix add_random_entrance add_random_exit update_vectors
lay_out m draws = do
  m ← initialize_cl_matrix m
  g ← add_random_entrance (record { maze = m; draws = draws })
  g ← add_random_exit g
  m ← update_vectors g.maze
  ok (record { maze = record m { n_tries = m.total_cells / 2 }; draws = g.draws })

unfoldable pub generate_mz : Maze → ℕ → ℕ → List ℕ → Result Game
unfolding begin lay_out try_walls fill_wallless_cells calculate_maze_and_route_stats
generate_mz m width height draws = do
  g ← lay_out (begin m width height) draws
  g ← try_walls 1 g
  g ← try_walls 2 g
  g ← try_walls 3 g
  m ← if g.maze.min_intersections == 0 then fill_wallless_cells g.maze else ok g.maze
  m ← calculate_maze_and_route_stats m
  ok (record { maze = m; draws = g.draws })
