-- ===== src/Maze/Load/Accepts.antt =====
-- `setMZ` as a whole: what it refuses, and what it leaves when it accepts.
use test.Prelude.{ℕ, ◌*◌, ◌<◌, ◌≡◌, ◌≢◌, ◌⊎◌, ◌↔◌, ◌∙◌, refl, sym, inl, inr, arith}
use test.Prelude.{true, false, false≢true, not, List, map}
use test.Prelude.Tests.{Bool-cases, ◌==◌, if◌then◌else◌}
use test.Prelude.Lists.{length}
use test.Prelude.Ascii.{AreAscii}
use test.Prelude.Results.{ok}
use test.Maze.State.{Maze}
use test.Maze.Routes.Passage.{IsSearchable}
use test.Maze.Check
use test.Maze.Check.Compatible.{IsFull, IsCompatible, check_edge_compatibility_decides}
use test.Maze.Check.Matrix.{read_cell, initialize_cl_matrix_lem, map-human-read}
use test.Maze.Load
use test.Maze.Load.{Loaded}
use test.Maze.Load.Stages.{Stages, complete-Stages}

refused :
    (n w h : ℕ)
    → (n ≡ 0) ⊎ (n ≢ w * h)
    → (if n == 0 then false else if not (n == w * h) then false else true) ≡ false
refused n w h why = ground arith

passed :
    (n w h : ℕ)
    → n ≢ 0
    → n ≡ w * h
    → (if n == 0 then false else if not (n == w * h) then false else true) ≡ true
passed n w h some_cell e = ground arith

-- setMZ refuses a string that is empty or has not one character for each cell; it has assigned the
-- arguments then, and nothing else.
pub set_mz_refuses :
    (raw : Maze) (width height entrance exit : ℕ) (s : List ℕ)
    → (length s ≡ 0) ⊎ (length s ≢ width * height)
    → Load.set_mz raw width height entrance exit s
      ≡ ok (record { accepted = false; maze = Load.assign raw width height entrance exit s })
unfolding Load.set_mz Check.check_mz
set_mz_refuses raw width height entrance exit s h = rw (refused (length s) width height h)

module _ (raw : Maze) (width height entrance exit : ℕ) (s : List ℕ) where
  -- The object with the arguments and the cells of the string.
  abbrev pub loaded : Maze
  loaded = record (Load.assign raw width height entrance exit s) { cl_matrix = map read_cell s }

  -- The result of `set_mz` for a string of the right length.
  pub record Accepts (r : Loaded) : Type 0 where
    pub verdict : (r.accepted ≡ true) ↔ IsCompatible loaded
    pub stages : r.accepted ≡ true → Stages loaded r.maze
    pub unfinished : r.accepted ≡ false → r.maze ≡ loaded

  length_ne_zero : length s ≡ width * height → IsSearchable loaded → length s ≢ 0
  unfolding Load.assign
  length_ne_zero e valid z = omega (arith, valid.inside)

  pub set_mz_lem :
      length s ≡ width * height
      → length s ≢ 0
      → Load.set_mz raw width height entrance exit s
        ≡ Load.load_cells (Load.assign raw width height entrance exit s)
  unfolding Load.set_mz Check.check_mz
  set_mz_lem e some_cell = rw (passed (length s) width height some_cell e)

  pub initialize_lem :
      length s ≡ width * height
      → Check.initialize_cl_matrix (Load.assign raw width height entrance exit s) ≡ ok loaded
  unfolding Load.assign
  initialize_lem e = initialize_cl_matrix_lem _ e

  completed :
      AreAscii s
      → width < 50
      → height < 100
      → IsSearchable loaded
      → (m' : Maze) × (Load.complete loaded ≡ ok (record { accepted = true; maze = m' }))
        × Stages loaded m'
  unfolding Load.assign
  completed bytes narrow low valid =
      complete-Stages loaded valid
        (record { columns = refl; lines = refl; narrow = narrow; low = low })
        (map-human-read s bytes)

  load_cells-Accepts :
      length s ≡ width * height
      → AreAscii s
      → width < 50
      → height < 100
      → IsSearchable loaded
      → (r : Loaded) × (Load.load_cells (Load.assign raw width height entrance exit s) ≡ ok r)
        × Accepts r
  unfolding Load.load_cells Check.check_stuff
  load_cells-Accepts e bytes narrow low valid =
      let full : IsFull loaded = record { grid = valid.grid; cells = valid.cells } in
      let (b, run, decides) = check_edge_compatibility_decides loaded full in
      elim (Bool-cases b) [
        | inl yes_b ↦
            let (m', run', stages) = completed bytes narrow low valid in
            (
              record { accepted = true; maze = m' },
              rw (initialize_lem e, run, yes_b, run'),
              record {
                verdict = (λ _. decides.0 yes_b, λ _. refl);
                stages = λ _. stages;
                unfinished = λ z. absurd (false≢true (sym z));
              },
            )
        | inr no_b ↦ (
          record { accepted = false; maze = loaded },
          rw (initialize_lem e, run, no_b),
          record {
            verdict =
                (λ z. absurd (false≢true z), λ k. absurd (false≢true (sym no_b ∙ decides.1 k)));
            stages = λ z. absurd (false≢true z);
            unfinished = λ _. refl;
          },
        )
      ]

  -- setMZ, given a string of ASCII characters, one for each of the cells of a grid of less than
  -- 50 columns and less than 100 rows whose left and right borders are closed but for the entrance
  -- and the exit, returns. It accepts exactly if neighbours agree on the wall between them; then the
  -- object has gone through all its stages, from the picture to the statistics, and keeps the cells
  -- and the string. If it does not accept, the object has the arguments and the cells only.
  pub set_mz-Accepts :
      length s ≡ width * height
      → AreAscii s
      → width < 50
      → height < 100
      → IsSearchable loaded
      → (r : Loaded) × (Load.set_mz raw width height entrance exit s ≡ ok r) × Accepts r
  set_mz-Accepts e bytes narrow low valid =
      let (r, run, h) = load_cells-Accepts e bytes narrow low valid in
      let some_cell = length_ne_zero e valid in (r, set_mz_lem e some_cell ∙ run, h)
