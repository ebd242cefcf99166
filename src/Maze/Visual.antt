-- ===== src/Maze/Visual.antt =====
-- The views of the matrix (MZ.cpp): `updateVisual`, `updateIntersections`, `updateWallCount` and
-- `updateMZString`.
pub mod Picture
pub mod Pixels
pub mod Intersections
pub mod Posts
pub mod Problems
use package.test.Prelude.{ℕ, ◌+◌, ◌-◌, ◌*◌, ◌/◌, ◌%◌, min, Bool, true, false, ◌&&◌, not}
use package.test.Prelude.{List, [], ◌∷◌, ◌++◌}
use package.test.Prelude.Tests.{ltb, leb, ◌==◌, if◌then◌else◌}
use package.test.Prelude.Lists.{length}
use package.test.Prelude.Results.{Result, ok, err, ◌>>=◌, at, for_range, array_overflow}
use package.test.Cell
use package.test.Cell.{Cell}
use package.test.Maze.Grid.{is_bottom_row, is_right_edge}
use package.test.Maze.State.{Maze}

-- `BIG_NUMBER`.
abbrev pub big_number : ℕ
big_number = 100

-- `int visual[BIG_NUMBER][BIG_NUMBER]`, of which each entry is 0 or 1, by its two indices.
abbrev pub Picture : Type 0
Picture = ℕ → ℕ → Bool

abbrev pub blank : Picture
blank x y = false

-- `visual[x][y] = 1`.
unfoldable pub mark : ℕ → ℕ → Picture → Result Picture
mark x y v =
    if ltb x big_number && ltb y big_number
    then ok (λ a b. if a == x && b == y then true else v a b)
    else err array_overflow

abbrev pub mark_if : Bool → ℕ → ℕ → Picture → Result Picture
mark_if b x y v = if b then mark x y v else ok v

-- The body of the first loop of `updateVisual`.
unfoldable pub draw_cell : Maze → ℕ → Picture → Result Picture
unfolding mark
draw_cell m i v = do
  cl ← at m.cl_matrix i
  let x_odd = (2 * i + 1) % (m.width * 2)
  let x_even = 2 * i % (m.width * 2)
  let y = i / m.width
  v ← mark_if (Cell.has_top_wall cl) x_odd y v
  v ← mark_if (is_bottom_row m i && Cell.has_bottom_wall cl) x_odd (y + 1) v
  v ← mark_if (Cell.has_left_wall cl) x_even (y + 1) v
  mark_if (is_right_edge m i && Cell.has_right_wall cl) (x_even + 2) (y + 1) v

-- `m_CLMatrixVisual.push_back(visual[x][y] == 1)`.
unfoldable pub read_picture : Picture → ℕ → ℕ → List Bool → Result (List Bool)
read_picture v y x acc =
    if ltb x big_number && ltb y big_number then ok (acc ++ v x y ∷ []) else err array_overflow

unfoldable pub update_visual : Maze → Result Maze
unfolding draw_cell read_picture for_range
update_visual m = do
  v ← for_range m.total_cells 0 (draw_cell m) blank
  bs ← for_range m.height_visual 0 (λ y. for_range m.width_visual 0 (read_picture v y)) []
  ok (record m { cl_matrix_visual = bs })

-- The entry for one cell.
unfoldable pub wall_count : Cell → ℕ
wall_count cl =
    (if Cell.has_top_wall cl then 1 else 0)
    + (if Cell.has_right_wall cl then 1 else 0)
    + (if Cell.has_bottom_wall cl then 1 else 0)
    + (if Cell.has_left_wall cl then 1 else 0)

unfoldable pub push_wall_count : Maze → ℕ → List ℕ → Result (List ℕ)
unfolding wall_count
push_wall_count m i acc = do cl ← at m.cl_matrix i; ok (acc ++ wall_count cl ∷ [])

unfoldable pub update_wall_count : Maze → Result Maze
unfolding push_wall_count for_range
update_wall_count m = do
  counts ← for_range m.total_cells 0 (push_wall_count m) []
  ok (record m { cl_wall_count = counts })

-- The `wchar_t` of a `char`, which has a sign: that of a byte from 128 on has the high byte 255.
abbrev pub widen : ℕ → ℕ
widen c = if ltb c 128 then c else c + 65_280

abbrev pub wide_char : Cell → ℕ
wide_char cl = widen (Cell.get_human_readable_char cl)

unfoldable pub push_char : Maze → ℕ → List ℕ → Result (List ℕ)
push_char m i acc = do cl ← at m.cl_matrix i; ok (acc ++ wide_char cl ∷ [])

unfoldable pub update_mz_string : Maze → Result Maze
unfolding push_char for_range
update_mz_string m = do
  chars ← for_range m.total_cells 0 (push_char m) []
  ok (record m { mz_string = chars })

abbrev one_if : Bool → ℕ
one_if b = if b then 1 else 0

-- `m_CLIntersections` and `m_minIntersections` while they are computed.
pub record Counts : Type 0 where
  pub intersections : List ℕ
  pub least : ℕ

-- What one post counts: the walls to its left and right, below, above in the first row only (the
-- entry of its own place is the wall above it elsewhere), and at its place.
unfoldable pub count_walls : Maze → ℕ → ℕ → Result ℕ
count_walls m y x = do
  let total = m.height_visual * m.width_visual
  let index = 2 * x + y * m.width_visual
  left ← if not (x == 0) then at m.cl_matrix_visual (index - 1) else ok false
  right ← if not (x == m.width) then at m.cl_matrix_visual (index + 1) else ok false
  bottom ← at m.cl_matrix_visual ((index + m.width_visual) % total)
  top ←
      if y == 0 then at m.cl_matrix_visual ((index + total - m.width_visual) % total) else ok false
  here ← at m.cl_matrix_visual index
  ok (one_if left + one_if right + one_if bottom + one_if top + one_if here)

unfoldable pub push_intersection : Maze → ℕ → ℕ → Counts → Result Counts
unfolding count_walls
push_intersection m y x c = do
  n ← count_walls m y x
  ok (record { intersections = c.intersections ++ n ∷ []; least = min c.least n })

-- `cellID` for the post with index `i`, pushed if it is not negative:
-- `((i / (w + 1)) - 1) * w + ((i % (w + 1)) - 1)` is the sum below less `w + 1`.
unfoldable pub push_problem : Maze → List ℕ → ℕ → List ℕ → Result (List ℕ)
push_problem m intersections i acc = do
  n ← at intersections i
  let sum = i / (m.width + 1) * m.width + i % (m.width + 1)
  ok (if n == 0 && leb (m.width + 1) sum then acc ++ (sum - (m.width + 1)) ∷ [] else acc)

unfoldable pub update_intersections : Maze → Result Maze
unfolding push_intersection push_problem for_range
update_intersections m = do
  c ←
      for_range m.height 0 (λ y. for_range (m.width + 1) 0 (push_intersection m y))
        (record { intersections = []; least = 5 })
  problems ← for_range (length c.intersections) 0 (push_problem m c.intersections) []
  ok (record m {
    cl_intersections = c.intersections;
    min_intersections = c.least;
    intersection_problems = problems;
  })
