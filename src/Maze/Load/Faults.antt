-- ===== src/Maze/Load/Faults.antt =====
-- The exception of `setMZ` on a maze with a way in that it does not expect.
use test.Prelude.{ℕ, ◌*◌, ◌<◌, ◌≡◌, ◌≢◌, ◌∙◌, refl, ap, arith, true, false, List}
use test.Prelude.Lists.{length, length-map}
use test.Prelude.Results.{ok, err, out_of_range}
use test.Cell
use test.Maze.State.{Maze}
use test.Maze.Grid
use test.Maze.Grid.Laws.{IsGrid}
use test.Maze.Check
use test.Maze.Check.Compatible.{IsFull, IsCompatible, cell, check_edge_compatibility_decides}
use test.Maze.Check.Matrix.{read_cell, update_wall_count_lem}
use test.Maze.Routes
use test.Maze.Routes.Faults.{update_routes_fault}
use test.Maze.Load
use test.Maze.Load.Frames.{IsSameGrid, frame-IsSameGrid, unchanged, IsSameGrid-trans, IsSmall}
use test.Maze.Load.Vectors.{viewed, with_counts}
use test.Maze.Load.Accepts.{loaded, set_mz_lem, initialize_lem}

-- The entrance is a cell on the left edge that is open there, and not the exit.
pub record EntersLeft (m : Maze) : Type 0 where
  pub inside : m.entrance < m.total_cells
  pub edge : Grid.is_left_edge m m.entrance ≡ true
  pub no_wall : Cell.has_left_wall (cell m m.entrance) ≡ false
  pub other : m.entrance ≢ m.exit

IsFull-same : (m m' : Maze) → IsSameGrid m m' → IsFull m → IsFull m'
IsFull-same m m' same f = record {
  grid = record {
    total = rw (same.2, same.0, same.1) f.grid.total;
    wide = rw same.0 f.grid.wide;
    high = rw same.1 f.grid.high;
  };
  cells = rw (same.5, same.2) f.cells;
}

EntersLeft-same : (m m' : Maze) → IsSameGrid m m' → EntersLeft m → EntersLeft m'
unfolding Grid.is_left_edge
EntersLeft-same m m' same k = record {
  inside = rw (same.3, same.2) k.inside;
  edge = rw (same.3, same.0) k.edge;
  no_wall = rw (same.3, same.5) k.no_wall;
  other = rw (same.3, same.4) k.other;
}

routes_fault : (m : Maze) → IsFull m → EntersLeft m → Routes.update_routes m ≡ err out_of_range
routes_fault m f k = update_routes_fault m f k.inside k.edge k.no_wall k.other

vectors_fault :
    (m : Maze) → IsFull m → IsSmall m → EntersLeft m → Load.update_vectors m ≡ err out_of_range
unfolding Load.update_vectors
vectors_fault m f small k =
    let (drawn, posted, run1, d, run2, p) = viewed m f small in
    let same : IsSameGrid m posted =
      IsSameGrid-trans m drawn posted (frame-IsSameGrid m drawn _ d.frame (unchanged m))
        (frame-IsSameGrid drawn posted _ p.frame (unchanged drawn)) in
    let f' = IsFull-same m posted same f in
    let k' = EntersLeft-same m posted same k in
    let counted = IsFull-same posted (with_counts posted) (unchanged posted) f' in
    rw
      (
        run1,
        run2,
        update_wall_count_lem posted f'.cells,
        routes_fault (with_counts posted) counted
            (EntersLeft-same posted (with_counts posted) (unchanged posted) k'),
      )
      refl

module _ (raw : Maze) (width height entrance exit : ℕ) (s : List ℕ) where
  -- setMZ, given a string with one character for each of the cells of a grid of less than 50 columns
  -- and less than 100 rows, in which neighbours agree on the wall between them, raises the exception
  -- of `vector::at` when the entrance is a cell on the left edge that is open there and is not the
  -- exit.
  pub set_mz_fault :
      length s ≡ width * height
      → width < 50
      → height < 100
      → IsGrid (loaded raw width height entrance exit s)
      → IsCompatible (loaded raw width height entrance exit s)
      → EntersLeft (loaded raw width height entrance exit s)
      → Load.set_mz raw width height entrance exit s ≡ err out_of_range
  unfolding Load.load_cells Check.check_stuff Load.complete Load.assign
  set_mz_fault e narrow low grid agrees k =
      let m = loaded raw width height entrance exit s in
      let full : IsFull m = record { grid = grid; cells = length-map read_cell s ∙ e } in
      let (b, run, decides) = check_edge_compatibility_decides m full in
      let checked : Check.check_edge_compatibility m ≡ ok true = run ∙ ap ok (decides.1 agrees) in
      let small : IsSmall m = record { columns = refl; lines = refl; narrow = narrow; low = low } in
      set_mz_lem raw width height entrance exit s e (λ z. omega (arith, k.inside))
      ∙ rw
          (initialize_lem raw width height entrance exit s e, checked, vectors_fault m full small k)
          refl
