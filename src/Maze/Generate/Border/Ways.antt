-- ===== src/Maze/Generate/Border/Ways.antt =====
-- `addRandomEntrance` and `addRandomExit`: the way in and the way out.
use test.Prelude.{ℕ, ◌+◌, ◌-◌, ◌*◌, ◌%◌, ◌≤◌, ◌<◌, ◌≡◌, refl}
use test.Prelude.{arith, List, ◌∷◌}
use test.Prelude.Results.{ok, Returns-value}
use native.Mathlib.Nat.{mul-le-mul_right}
use test.Maze.State.{Maze}
use test.Maze.Grid.Laws.{IsGrid}
use test.Maze.Check.Compatible.{IsFull}
use test.Maze.Generate
use test.Maze.Generate.{Game, add_side}
use test.Maze.Generate.Border.{Closes, all_rows}

-- The entrance or the exit in the row that the draw `d` names.
abbrev pub way_at : Maze → ℕ → ℕ → ℕ
way_at m x d = d % m.height * m.width + x

way_at-lt : (m : Maze) (x d : ℕ) → IsGrid m → x < m.width → way_at m x d < m.total_cells
way_at-lt m x d g h =
    let below : d % m.height + 1 ≤ m.height = omega (arith, g.high) in
    omega (arith, g.total, mul-le-mul_right m.width below)

-- On a full matrix, addRandomEntrance takes one draw and returns; the entrance is the last cell of
-- the row that the draw names, modulo the height, and a cell of the maze, addWallAtSide for the
-- right side has been applied to each other cell of the last column, which adds the wall to a cell
-- without it, and no other cell and no field but these and the count of the
-- walls changes.
pub add_random_entrance-Closes :
    (m : Maze) (d : ℕ) (draws : List ℕ)
    → IsFull m
    → (m' : Maze) × (Generate.add_random_entrance (record { maze = m; draws = d ∷ draws })
        ≡ ok (record { maze = m'; draws = draws }))
      × (way_at m (m.width - 1) d < m.total_cells)
      × Closes 1
          (m.width - 1)
          (way_at m (m.width - 1) d)
          m.height
          (record m { entrance = way_at m (m.width - 1) d })
          m'
unfolding Generate.add_random_entrance
add_random_entrance-Closes m d draws f =
    let x = m.width - 1 in
    let r = way_at m x d in
    let inside : x < m.width = omega (arith, f.grid.wide) in
    let opened : Maze = record m { entrance = r } in
    let full : IsFull opened = record {
      grid = record { total = f.grid.total; wide = f.grid.wide; high = f.grid.high };
      cells = f.cells;
    } in
    let (m', run, closes) =
      Returns-value (Closes 1 x r m.height opened) _
        (all_rows 1 x r opened full inside (λ k. x + k * m.width) (λ k. refl)) in
    (m', rw run, way_at-lt m x d f.grid inside, closes)

-- On a full matrix, addRandomExit takes one draw and returns; the exit is the first cell of the row
-- that the draw names, modulo the height, and a cell of the maze, addWallAtSide for the left
-- side has been applied to each other cell of the first column, and no other cell and no field but these and the count of the walls
-- changes.
pub add_random_exit-Closes :
    (m : Maze) (d : ℕ) (draws : List ℕ)
    → IsFull m
    → (m' : Maze) × (Generate.add_random_exit (record { maze = m; draws = d ∷ draws })
        ≡ ok (record { maze = m'; draws = draws }))
      × (d % m.height * m.width < m.total_cells)
      × Closes 3 0 (d % m.height * m.width) m.height (record m { exit = d % m.height * m.width }) m'
unfolding Generate.add_random_exit
add_random_exit-Closes m d draws f =
    let r = d % m.height * m.width in
    let opened : Maze = record m { exit = r } in
    let full : IsFull opened = record {
      grid = record { total = f.grid.total; wide = f.grid.wide; high = f.grid.high };
      cells = f.cells;
    } in
    let (m', run, closes) =
      Returns-value (Closes 3 0 r m.height opened) _
        (all_rows 3 0 r opened full f.grid.wide (λ k. k * m.width) (λ k. omega arith)) in
    let lt : r < m.total_cells = omega (arith, way_at-lt m 0 d f.grid f.grid.wide) in
    (m', rw run, lt, closes)
