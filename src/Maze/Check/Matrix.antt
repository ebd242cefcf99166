-- ===== src/Maze/Check/Matrix.antt =====
-- `initializeCLMatrix` and the views that are one entry for each cell, as maps over the vectors.
use test.Prelude.{ℕ, ◌%◌, ◌^◌, ◌<◌, arith, ◌≡◌, refl, sym, ap, ◌∙◌, List, [], ◌∷◌, ◌++◌, map}
use test.Prelude.Lists.{length, length-map}
use test.Prelude.Ascii.{AreAscii}
use test.Prelude.Results.{ok, at, ◌>>=◌}
use test.Prelude.Loops.{for_range-eq-map}
use test.Cell
use test.Cell.{Cell}
use test.Maze.State.{Maze}
use test.Maze.Check
use test.Maze.Visual

-- The cell for a character of the string.
abbrev pub read_cell : ℕ → Cell
read_cell c = Cell.new (c % 2 ^ 8)

-- `initializeCLMatrix` makes a cell of each character.
pub initialize_cl_matrix_lem :
    (m : Maze)
    → length m.mz_string ≡ m.total_cells
    → Check.initialize_cl_matrix m ≡ ok (record m { cl_matrix = map read_cell m.mz_string })
unfolding Check.initialize_cl_matrix
initialize_cl_matrix_lem m e =
    rw (for_range-eq-map m.mz_string read_cell (Check.push_cell m) pushes m.total_cells (sym e))
  where
    pushes :
        (i c : ℕ) (acc : List Cell)
        → at m.mz_string i ≡ ok c
        → Check.push_cell m i acc ≡ ok (acc ++ read_cell c ∷ [])
    pushes i c acc h = rw (h, Check.push_cell, Check.get_at)

-- `updateMZString` writes the readable character of each cell.
pub update_mz_string_lem :
    (m : Maze)
    → length m.cl_matrix ≡ m.total_cells
    → Visual.update_mz_string m ≡ ok (record m { mz_string = map Visual.wide_char m.cl_matrix })
unfolding Visual.update_mz_string
update_mz_string_lem m e = rw (
    for_range-eq-map m.cl_matrix Visual.wide_char (Visual.push_char m) pushes m.total_cells (sym e))
  where
    pushes :
        (i : ℕ) (cl : Cell) (acc : List ℕ)
        → at m.cl_matrix i ≡ ok cl
        → Visual.push_char m i acc ≡ ok (acc ++ Visual.wide_char cl ∷ [])
    pushes i cl acc h = rw h

-- `updateWallCount` counts the walls of each cell.
pub update_wall_count_lem :
    (m : Maze)
    → length m.cl_matrix ≡ m.total_cells
    → Visual.update_wall_count m
      ≡ ok (record m { cl_wall_count = map Visual.wall_count m.cl_matrix })
unfolding Visual.update_wall_count
update_wall_count_lem m e = rw (
    for_range-eq-map m.cl_matrix Visual.wall_count (Visual.push_wall_count m) pushes m.total_cells
      (sym e))
  where
    pushes :
        (i : ℕ) (cl : Cell) (acc : List ℕ)
        → at m.cl_matrix i ≡ ok cl
        → Visual.push_wall_count m i acc ≡ ok (acc ++ Visual.wall_count cl ∷ [])
    pushes i cl acc h = rw h

cons_eq : {a b : ℕ} {s t : List ℕ} → a ≡ b → s ≡ t → a ∷ s ≡ b ∷ t
cons_eq p q = cc

widen-read : (c : ℕ) → c < 2 ^ 7 → Visual.widen (c % 2 ^ 8) ≡ c
widen-read c h = ground arith

pub map-human-read : (s : List ℕ) → AreAscii s → map Visual.wide_char (map read_cell s) ≡ s
unfolding Cell.new
map-human-read [] h = refl
map-human-read (c ∷ s) h = cons_eq (widen-read c h.0) (map-human-read s h.1)

-- Loading a string of ASCII characters, one for each cell, and writing it again gives the string,
-- whatever its characters mean.
pub update_mz_string-initialize_cl_matrix :
    (m : Maze)
    → length m.mz_string ≡ m.total_cells
    → AreAscii m.mz_string
    → (Check.initialize_cl_matrix m >>= Visual.update_mz_string)
      ≡ ok (record m { cl_matrix = map read_cell m.mz_string })
update_mz_string-initialize_cl_matrix m e h = rw (initialize_cl_matrix_lem m e) (
    update_mz_string_lem _ (length-map read_cell m.mz_string ∙ e)
    ∙ ap (λ s. ok (record m { cl_matrix = map read_cell m.mz_string; mz_string = s }))
        (map-human-read m.mz_string h))
