-- ===== src/Maze/Generate/Walled.antt =====
-- The matrix of a maze under construction: shaped by its walls, matched, and closed at the border.
use test.Prelude.{ℕ, ◌+◌, ◌<◌, ◌≡◌, ◌∙◌, sym, ap, arith, true, false, List}
use test.Prelude.Results.{ok_injective, ok, at, lt_of_at}
use test.Cell
use test.Cell.{Cell}
use test.Cell.Walls.{
  of_walls, has_top_wall-of_walls, has_right_wall-of_walls, has_bottom_wall-of_walls,
  has_left_wall-of_walls,
}
use test.Maze.State.{Maze}
use test.Maze.Grid
use test.Maze.Grid.Laws.{IsGrid, neighbour_bottom-lt, right-lt}
use test.Maze.Check.Compatible.{IsCompatible}
use test.Maze.Routes.Passage.{IsSearchable}
use test.Maze.Load.Frames.{IsSameGrid}
use test.Prelude.Int.{ℤ}
use test.Maze.Generate.{wall_neighbour}
use test.Maze.Generate.Shape.{Sides, IsShaped, walls_of, at-shape}
use test.Maze.Generate.Sides.{Beyond, Beyond-right_inner, Beyond-bottom}
use test.Maze.Generate.Pairs.{IsMatched, put_pair, IsMatched-put_pair}

pub record IsWalled (m : Maze) (has : Sides) : Type 0 where
  pub grid : IsGrid m
  pub shaped : IsShaped m.total_cells has m.cl_matrix
  pub matched : IsMatched m has
  pub inside : m.entrance < m.total_cells
  pub exit_inside : m.exit < m.total_cells
  pub entrance_right : Grid.is_right_edge m m.entrance ≡ true
  pub exit_left : Grid.is_left_edge m m.exit ≡ true
  pub right_closed :
      (c : ℕ) → c < m.total_cells → Grid.is_right_edge m c ≡ true → has c 1 ≡ false → c ≡ m.entrance
  pub left_closed :
      (c : ℕ) → c < m.total_cells → Grid.is_left_edge m c ≡ true → has c 3 ≡ false → c ≡ m.exit

module _ (m : Maze) (has : Sides) (w : IsWalled m has) where
  open w use {grid, shaped, matched, inside, right_closed, left_closed}

  pub read_lt : (c : ℕ) (cl : Cell) → at m.cl_matrix c ≡ ok cl → c < m.total_cells
  read_lt c cl e = omega (arith, lt_of_at m.cl_matrix c e, shaped.size)

  pub read_eq : (c : ℕ) (cl : Cell) → at m.cl_matrix c ≡ ok cl → cl ≡ of_walls (walls_of has c)
  read_eq c cl e =
      ok_injective cl _ (sym e ∙ at-shape m.total_cells has m.cl_matrix shaped c (read_lt c cl e))

  pub IsWalled-IsSearchable : IsSearchable m
  IsWalled-IsSearchable = record {
    grid = grid;
    cells = shaped.size;
    inside = inside;
    right_closed = λ c cl e edge no_wall. right_closed c (read_lt c cl e) edge (
        sym (has_right_wall-of_walls (walls_of has c))
        ∙ ap Cell.has_right_wall (sym (read_eq c cl e))
        ∙ no_wall);
    left_closed = λ c cl e edge no_wall. left_closed c (read_lt c cl e) edge (
        sym (has_left_wall-of_walls (walls_of has c))
        ∙ ap Cell.has_left_wall (sym (read_eq c cl e))
        ∙ no_wall);
  }

  pub IsWalled-IsCompatible : IsCompatible m
  IsWalled-IsCompatible = record {
    sideways = λ c lt inner.
        ap Cell.has_right_wall (shaped.shape c lt)
        ∙ has_right_wall-of_walls (walls_of has c)
        ∙ matched c 1 (c + 1) lt (omega arith) (Beyond-right_inner m c inner)
        ∙ sym (has_left_wall-of_walls (walls_of has (c + 1)))
        ∙ ap Cell.has_left_wall (sym (shaped.shape (c + 1) (right-lt m grid c lt inner)));
    downwards = λ c lt.
        let nb = Grid.neighbour_bottom m c in
        ap Cell.has_bottom_wall (shaped.shape c lt)
        ∙ has_bottom_wall-of_walls (walls_of has c)
        ∙ matched c 2 nb lt (omega arith) (Beyond-bottom m c)
        ∙ sym (has_top_wall-of_walls (walls_of has nb))
        ∙ ap Cell.has_top_wall (sym (shaped.shape nb (neighbour_bottom-lt m grid c lt)));
  }

-- The same grid has the same walls.
pub IsWalled-same : (m m' : Maze) (has : Sides) → IsSameGrid m m' → IsWalled m has → IsWalled m' has
unfolding wall_neighbour Grid.is_right_edge Grid.is_left_edge
IsWalled-same m m' has same w = record {
  grid = record {
    total = rw (same.2, same.0, same.1) w.grid.total;
    wide = rw same.0 w.grid.wide;
    high = rw same.1 w.grid.high;
  };
  shaped = rw (same.2, same.5) w.shaped;
  matched = rw (same.2, same.0) w.matched;
  inside = rw (same.2, same.3) w.inside;
  exit_inside = rw (same.2, same.4) w.exit_inside;
  entrance_right = rw (same.0, same.3) w.entrance_right;
  exit_left = rw (same.0, same.4) w.exit_left;
  right_closed = rw (same.2, same.0, same.3) w.right_closed;
  left_closed = rw (same.2, same.0, same.4) w.left_closed;
}

-- A wall more stays one, so the border stays closed.
stands : (c s nb d t : ℕ) (has : Sides) → put_pair c s nb true has d t ≡ false → has d t ≡ false
stands c s nb d t has e = ground arith

abbrev pub with_cells : List Cell → ℤ → Maze → Maze
with_cells cells n m = record m { cl_matrix = cells; n_walls = n }

-- A wall more between two cells.
pub IsWalled-put_pair :
    (m : Maze) (has : Sides) (w : IsWalled m has) (c s nb : ℕ)
    → c < m.total_cells
    → s < 4
    → Beyond m c s nb
    → (cells : List Cell) (n : ℤ) → IsShaped m.total_cells (put_pair c s nb true has) cells
    → IsWalled (with_cells cells n m) (put_pair c s nb true has)
unfolding wall_neighbour Grid.is_right_edge Grid.is_left_edge
IsWalled-put_pair m has w c s nb hc hs across cells n shaped = record {
  grid = record { total = w.grid.total; wide = w.grid.wide; high = w.grid.high };
  shaped = shaped;
  matched = IsMatched-put_pair m w.grid c s nb hc hs across has true w.matched;
  inside = w.inside;
  exit_inside = w.exit_inside;
  entrance_right = w.entrance_right;
  exit_left = w.exit_left;
  right_closed = λ d hd edge e. w.right_closed d hd edge (stands c s nb d 1 has e);
  left_closed = λ d hd edge e. w.left_closed d hd edge (stands c s nb d 3 has e);
}
