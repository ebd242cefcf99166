-- ===== src/Maze/Generate/Reload.antt =====
-- A maze that `generateMZ` has made, given to `setMZ`.
use test.Prelude.{
  ℕ, suc, ◌*◌, ◌/◌, ◌^◌, ◌<◌, ◌≡◌, ◌∙◌, refl, sym, ap, arith, true, List, [], ◌∷◌, map, subst,
}
use test.Prelude.Lists.{length, get_or, length-map}
use test.Prelude.Ascii.{AreAscii}
use test.Prelude.Results.{Result, ok, Returns, Returns-weaken}
use test.Prelude.Draws.{Feeds}
use native.Mathlib.Nat.{mod-eq_of_lt}
use test.Cell
use test.Cell.{Cell}
use test.Cell.Walls.{Walls, of_walls}
use test.Cell.Encoding.{new-get_human_readable_char}
use test.Maze.Visual
use test.Maze.State.{Maze}
use test.Maze.Grid
use test.Maze.Check.Compatible.{IsCompatible}
use test.Maze.Check.Matrix.{read_cell}
use test.Maze.Load
use test.Maze.Load.{Loaded}
use test.Maze.Load.Frames.{IsSameGrid, IsSearchable-same, Reach-same}
use test.Maze.Load.Vectors.{Updates-verdict}
use test.Maze.Load.Accepts.{loaded, set_mz-Accepts}
use test.Maze.Generate
use test.Maze.Generate.{Game}
use test.Maze.Generate.Shape.{Sides, IsShaped, walls_of, none_there}
use test.Maze.Generate.Whole.{IsGenerated, generate_mz-Returns}

-- Each cell is a set of walls.
abbrev AreWalls : List Cell → Type 0
AreWalls cells = (c : ℕ) → c < length cells → (w : Walls) × (get_or cells c none_there ≡ of_walls w)

shaped-AreWalls : (n : ℕ) (has : Sides) (cells : List Cell) → IsShaped n has cells → AreWalls cells
shaped-AreWalls n has cells shaped c h =
    (walls_of has c, shaped.shape c (omega (arith, shaped.size)))

is_ascii : (w : Walls) → (of_walls w).human_char < 2 ^ 7
unfolding of_walls
is_ascii w = ground arith

widen-ascii : (c : ℕ) → c < 2 ^ 7 → Visual.widen c ≡ c
widen-ascii c h = ground arith

read_again : (w : Walls) → read_cell (Visual.wide_char (of_walls w)) ≡ of_walls w
read_again w =
    ap read_cell (widen-ascii _ (is_ascii w))
    ∙ ap Cell.new (mod-eq_of_lt (omega (arith, is_ascii w)))
    ∙ new-get_human_readable_char w

-- The characters of such cells are ASCII, and read again they give the cells.
reads_again :
    (cells : List Cell)
    → AreWalls cells
    → AreAscii (map Visual.wide_char cells) × (map read_cell (map Visual.wide_char cells) ≡ cells)
reads_again [] h = (tt, refl)
reads_again (cl ∷ cells) h =
    let (w, e) = h 0 (omega arith) in
    let (bytes, same) = reads_again cells (λ c lt. h (suc c) (omega arith)) in
    let byte : Visual.wide_char cl < 2 ^ 7 =
      subst (λ cl. Visual.wide_char cl < 2 ^ 7) (sym e)
        (subst (λ c. c < 2 ^ 7) (sym (widen-ascii _ (is_ascii w))) (is_ascii w)) in
    let again : read_cell (Visual.wide_char cl) ≡ cl =
      ap (λ cl. read_cell (Visual.wide_char cl)) e ∙ read_again w ∙ sym e in
    (
      (byte, bytes),
      (let both : read_cell (Visual.wide_char cl) ∷ map read_cell (map Visual.wide_char cells)
              ≡ cl ∷ cells =
            cc in
          both),
    )

IsCompatible-same : (m m' : Maze) → IsSameGrid m m' → IsCompatible m → IsCompatible m'
unfolding Grid.is_right_edge Grid.neighbour_bottom
IsCompatible-same m m' same c = record {
  sideways = rw (same.2, same.0, same.5) c.sideways;
  downwards = rw (same.2, same.0, same.5) c.downwards;
}

-- What `set_mz` does with the string, the sizes and the ways of the maze `m`: it accepts, with the
-- same cells, the same string and the flag set.
pub record Reloads (m : Maze) (r : Result Loaded) : Type 0 where
  pub result : Loaded
  pub run : r ≡ ok result
  pub accepted : result.accepted ≡ true
  pub cells : result.maze.cl_matrix ≡ m.cl_matrix
  pub string : result.maze.mz_string ≡ m.mz_string
  pub flag : result.maze.all_cells_reachable ≡ true

module _ (other : Maze) (columns rows : ℕ) where
  -- `set_mz` on `other`, with what the maze of `g` tells of itself.
  abbrev pub reload : Game → Result Loaded
  reload g =
      Load.set_mz other g.maze.width g.maze.height g.maze.entrance g.maze.exit g.maze.mz_string

  reloads :
      (g : Game)
      → columns < 50
      → rows < 100
      → IsGenerated columns rows g
      → Reloads g.maze (reload g)
  unfolding Load.assign
  reloads g narrow low gen =
      let m = g.maze in
      let (has, shaped) = gen.cells in
      let (bytes, again) =
        reads_again m.cl_matrix (shaped-AreWalls m.total_cells has m.cl_matrix shaped) in
      let grid = gen.searchable.grid in
      let size : length m.mz_string ≡ m.width * m.height =
        ap length gen.string ∙ length-map Visual.wide_char m.cl_matrix ∙ shaped.size ∙ grid.total in
      let l = loaded other m.width m.height m.entrance m.exit m.mz_string in
      let same : IsSameGrid m l = (
        refl,
        refl,
        sym grid.total,
        refl,
        refl,
        ap (map read_cell) gen.string ∙ again,
        sym gen.small.columns,
        sym gen.small.lines,
      ) in
      let (r, run, a) =
        set_mz-Accepts other m.width m.height m.entrance m.exit m.mz_string size
          (subst AreAscii (sym gen.string) bytes) (omega (arith, gen.width))
          (omega (arith, gen.height)) (IsSearchable-same m l same gen.searchable) in
      let accepted = a.verdict.1 (IsCompatible-same m l same gen.compatible) in
      let stages = a.stages accepted in
      record {
        result = r;
        run = run;
        accepted = accepted;
        cells = stages.cells ∙ same.5;
        string = stages.string;
        flag =
            ap (λ m. m.all_cells_reachable) stages.measures.frame
            ∙ (Updates-verdict stages.updates).1
                (λ d lt. Reach-same m l same (gen.reached d (subst (λ n. d < n) same.2 lt)));
      }

  -- For a new object, less than 50 columns and 100 rows, of each at least one, and draws of
  -- which, behind the first two, there are, for each of the tries of the three loops, one and
  -- then some that name each of the four sides, generateMZ returns a maze, and setMZ, called on
  -- any object with the width, the height, the entrance, the exit and the string of this maze,
  -- returns and accepts; the object has then the cells and the string of the maze, and the flag
  -- that all cells can be reached.
  pub set_mz-generate_mz :
      (raw : Maze) (d e : ℕ) (draws : List ℕ)
      → raw.mz_string ≡ []
      → 0 < columns
      → columns < 50
      → 0 < rows
      → rows < 100
      → Feeds (3 * (columns * rows / 2)) draws
      → Returns
          (λ g. Reloads g.maze (reload g))
          (Generate.generate_mz raw columns rows (d ∷ e ∷ draws))
  set_mz-generate_mz raw d e draws new wide narrow high low f =
      Returns-weaken (IsGenerated columns rows) (λ g. Reloads g.maze (reload g)) _
        (λ g. reloads g narrow low)
        (generate_mz-Returns columns rows raw d e draws new wide narrow high low f)
