-- ===== src/Tests/Fixed.antt =====
-- The theorems on the listings and on the program as it is compiled, applied at concrete inputs.
use test.Prelude.{ℕ, ◌≡◌, refl, arith, true, false, List, [], ◌∷◌, ◌++◌}
use test.Prelude.Text.{text}
use test.Prelude.Results.{ok}
use test.Maze.State.{Maze, Percentage}
use test.Maze.Print
use test.Maze.Print.Shows.{Shows, print_visual-Shows}
use test.Handler.Main
use test.Handler.Main.Prints.{Prints}
use test.Tests.{raw}

-- A picture of two lines and three columns.
abbrev pictured : Maze
pictured = record raw {
  width_visual = 3;
  height_visual = 2;
  cl_matrix_visual = false ∷ true ∷ false ∷ true ∷ true ∷ true ∷ [];
}

shown :
    Print.print_visual pictured true
    ≡ ok (text " _ " ++ 10 ∷ text "|_|" ++ 10 ∷ text "|_|" ++ 10 ∷ [])
unfolding Print.print_visual
shown = refl

print_visual-Shows_example :
    (t : List ℕ) × (Print.print_visual pictured true ≡ ok t) × Shows pictured true t
print_visual-Shows_example = print_visual-Shows pictured refl (omega arith) true

abbrev percent : Percentage → List ℕ
percent p = text "50.00"

abbrev address : List ℕ
address = text "00A71FE8"
