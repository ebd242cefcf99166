-- ===== src/Tests/Generating.antt =====
-- The theorems on the generator applied at a small maze.
use test.Prelude.{ℕ, zero, suc, ◌/◌, ◌≡◌, refl, arith, List, [], ◌∷◌, ◌++◌, true, Bool, false}
use test.Prelude.Results.{Result, ok, err, Plays, Returns}
use test.Prelude.Draws.{NamesAll, Feeds}
use native.Mathlib.Nat.{mod-eq_of_lt}
use test.Cell
use test.Maze.Grid
use test.Maze.State.{Maze}
use test.Maze.Generate
use test.Maze.Generate.{Game}
use test.Maze.Generate.Build.{IsBuilt, Built}
use test.Maze.Generate.Rounds.{try_walls-Built}
use test.Maze.Generate.LayOut.{lay_out-IsBuilt}
use test.Maze.Generate.Filling.{fill_wallless_cells-Built}
use test.Maze.Generate.Whole.{IsGenerated, generate_mz-Generated, generate_mz-Returns}
use test.Maze.Generate.Reload.{Reloads, reload, set_mz-generate_mz}
use test.Tests.{raw}

abbrev some_draws : List ℕ
some_draws = 5 ∷ 2 ∷ 3 ∷ 0 ∷ 1 ∷ 2 ∷ 3 ∷ 0 ∷ 4 ∷ 3 ∷ 1 ∷ 2 ∷ 0 ∷ 1 ∷ 3 ∷ 2 ∷ 1 ∷ 0 ∷ []

abbrev draws : List ℕ
draws = some_draws ++ some_draws ++ some_draws

returned : Result Game → Bool
returned (ok g) = true
returned (err e) = false

-- The draws are enough.
generates : returned (Generate.generate_mz raw 3 2 draws) ≡ true
unfolding Generate.generate_mz returned Cell.new Grid.is_bottom_row Grid.is_right_edge
    Cell.add_wall_at_side Grid.neighbour_top Grid.neighbour_bottom Grid.neighbour_left
    Grid.neighbour_right Cell.remove_wall_at Grid.get_row_number
generates = refl

-- Parts of a draw and one for each side.
pub blocks : ℕ → List ℕ
blocks zero = []
blocks (suc n) = 7 ∷ 0 ∷ 1 ∷ 2 ∷ 3 ∷ blocks n

blocks-NamesAll : NamesAll (0 ∷ 1 ∷ 2 ∷ 3 ∷ [])
blocks-NamesAll s h = (s, ground arith, mod-eq_of_lt h)

pub blocks-Feeds : (n : ℕ) → Feeds n (blocks n)
unfolding blocks
blocks-Feeds zero = tt
blocks-Feeds (suc n) = (7, 0 ∷ 1 ∷ 2 ∷ 3 ∷ [], blocks n, refl, blocks-NamesAll, blocks-Feeds n)

abbrev Start : Type 0
Start =
    (g : Game) × (Generate.lay_out (Generate.begin raw 3 2) (1 ∷ 0 ∷ draws) ≡ ok g)
    × (g.draws ≡ draws)
    × IsBuilt 3 2 g.maze
    × (g.maze.n_tries ≡ g.maze.total_cells / 2)

lay_out-IsBuilt_example : Start
lay_out-IsBuilt_example =
    lay_out-IsBuilt raw 3 2 refl (omega arith) (omega arith) (omega arith) (omega arith) 1 0 draws

-- The maze of 3 by 2 cells before the loops.
abbrev start : Start
start =
    lay_out-IsBuilt raw 3 2 refl (omega arith) (omega arith) (omega arith) (omega arith) 1 0 draws

try_walls-Built_example : Plays (Built 3 2) (Generate.try_walls 2 start.0)
try_walls-Built_example = try_walls-Built 3 2 2 start.0 (omega arith) start.3

fill_wallless_cells-Built_example :
    (m' : Maze) × (Generate.fill_wallless_cells start.0.maze ≡ ok m') × IsBuilt 3 2 m'
fill_wallless_cells-Built_example = fill_wallless_cells-Built start.0.maze 3 2 start.3

generate_mz-Generated_example : Plays (IsGenerated 3 2) (Generate.generate_mz raw 3 2 draws)
generate_mz-Generated_example =
    generate_mz-Generated 3 2 raw draws refl (omega arith) (omega arith) (omega arith) (omega arith)

generate_mz-Returns_example :
    Returns (IsGenerated 3 2) (Generate.generate_mz raw 3 2 (1 ∷ 0 ∷ blocks 9))
generate_mz-Returns_example =
    generate_mz-Returns 3 2 raw 1 0 (blocks 9) refl (omega arith) (omega arith) (omega arith)
      (omega arith) (blocks-Feeds 9)

set_mz-generate_mz_example :
    Returns
      (λ g. Reloads g.maze (reload raw 3 2 g))
      (Generate.generate_mz raw 3 2 (1 ∷ 0 ∷ blocks 9))
set_mz-generate_mz_example =
    set_mz-generate_mz raw 3 2 raw 1 0 (blocks 9) refl (omega arith) (omega arith) (omega arith)
      (omega arith) (blocks-Feeds 9)
