-- ===== src/Maze/Visual/Pixels.antt =====
-- `updateVisual`: the vector that its second loop fills from the array.
use test.Prelude.{ℕ, ◌+◌, ◌*◌, ◌≤◌, ◌<◌, ◌≡◌, ◌↔◌, refl, arith}
use test.Prelude.{Bool, true, List, [], ◌++◌}
use test.Prelude.Tests.{lt→ltb}
use test.Prelude.Lists.{length, tabulate}
use test.Prelude.Results.{ok, at, for_range}
use test.Prelude.Tables.{table, length-table, at-table, for_range-tabulate, for_range-table}
use test.Maze.State.{Maze}
use test.Maze.Check.Compatible.{IsFull}
use test.Maze.Visual
use test.Maze.Visual.{Picture}
use test.Maze.Visual.Picture.{IsDrawn, picture_lem}

read_row :
    (v : Picture) (y w : ℕ) (acc : List Bool)
    → y < 100
    → w ≤ 100
    → for_range w 0 (Visual.read_picture v y) acc ≡ ok (acc ++ tabulate w 0 (λ x. v x y))
unfolding Visual.read_picture
read_row v y w acc hy hw =
    for_range-tabulate (λ x. v x y) (Visual.read_picture v y) 100
      (λ x acc hx. rw (lt→ltb x 100 hx, lt→ltb y 100 hy) refl) w 0 acc (omega arith)

read_rows :
    (v : Picture) (w n : ℕ)
    → n ≤ 100
    → w ≤ 100
    → for_range n 0 (λ y. for_range w 0 (Visual.read_picture v y)) [] ≡ ok (table v w n 0)
read_rows v w n hn hw =
    for_range-table v w (λ y. for_range w 0 (Visual.read_picture v y)) 100
      (λ y acc hy. read_row v y w acc hy hw) n 0 [] (omega arith)

-- What `update_visual` does to `m`: an entry for each column `x` and line `y` of the picture, set
-- exactly if some cell has a wall there.
pub record Draws (m m' : Maze) : Type 0 where
  pub frame : m' ≡ record m { cl_matrix_visual = m'.cl_matrix_visual }
  pub size : length m'.cl_matrix_visual ≡ m.height_visual * m.width_visual
  pub entries :
      (x y : ℕ)
      → x < m.width_visual
      → y < m.height_visual
      → (b : Bool) × (at m'.cl_matrix_visual (y * m.width_visual + x) ≡ ok b)
        × ((b ≡ true) ↔ ((c : ℕ) × (c < m.total_cells) × IsDrawn m c x y))

-- For a full matrix of less than 50 columns and less than 100 rows, whose picture has one line
-- more than rows and one column more than twice the columns, updateVisual stays inside its array,
-- and the entry for a place of the picture is set exactly if a cell has a wall there: the top wall
-- of each cell, the bottom walls of the last row, the left wall of each cell and the right walls of
-- the right edge. No other field changes.
pub update_visual-Draws :
    (m : Maze)
    → IsFull m
    → m.width_visual ≡ m.width * 2 + 1
    → m.height_visual ≡ m.height + 1
    → m.width < 50
    → m.height < 100
    → (m' : Maze) × (Visual.update_visual m ≡ ok m') × Draws m m'
unfolding Visual.update_visual
update_visual-Draws m f ew eh wide high =
    let (v, e, shows) = picture_lem m f (omega arith) high in
    let run = read_rows v m.width_visual m.height_visual (omega arith) (omega arith) in
    (
      _,
      rw (e, run),
      record {
        frame = refl;
        size = length-table v m.width_visual m.height_visual 0;
        entries = λ x y hx hy. (
          v x y,
          at-table v m.width_visual m.height_visual 0 x y y hx hy (omega arith),
          shows x y,
        );
      },
    )
