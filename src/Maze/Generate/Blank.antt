-- ===== src/Maze/Generate/Blank.antt =====
-- The matrix before the border: cells without walls.
use test.Prelude.{ℕ, zero, suc, ◌+◌, ◌<◌, ◌≡◌, ◌∙◌, refl, arith, false, List, map}
use test.Prelude.Lists.{get_or, tabulate, length-tabulate, length-map}
use test.Cell
use test.Cell.{Cell}
use test.Cell.Walls.{of_walls}
use test.Maze.Check.Matrix.{read_cell}
use test.Maze.Generate.Shape.{IsShaped, walls_of, none_there}

blank-of_walls : read_cell b'0' ≡ of_walls (walls_of (λ c s. false) 0)
unfolding Cell.new of_walls
blank-of_walls = refl

blanks_lem :
    (n i c : ℕ)
    → c < n
    → get_or (map read_cell (tabulate n i (λ j. b'0'))) c none_there ≡ read_cell b'0'
blanks_lem zero i c h = absurd (omega arith)
blanks_lem (suc n) i zero h = refl
blanks_lem (suc n) i (suc c) h = blanks_lem n (i + 1) c (omega arith)

-- The matrix before the border.
abbrev pub blanks : ℕ → List Cell
blanks n = map read_cell (tabulate n 0 (λ j. b'0'))

pub blanks-IsShaped : (n : ℕ) → IsShaped n (λ c s. false) (blanks n)
blanks-IsShaped n = record {
  size = length-map read_cell (tabulate n 0 (λ j. b'0')) ∙ length-tabulate n 0 (λ j. b'0');
  shape = λ c h. blanks_lem n 0 c h ∙ blank-of_walls;
}
