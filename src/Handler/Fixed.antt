-- ===== src/Handler/Fixed.antt =====
-- `MZHandler::Go` with `GENERATE_NEW` 0, as it is compiled (MZHandler.cpp).
use test.Prelude.{ℕ, true, List, [], ◌++◌}
use test.Prelude.Tests.{if◌then◌else◌}
use test.Prelude.Results.{Result, ok, ◌>>=◌}
use test.Maze.State.{Maze, Percentage, construct}
use test.Maze.Load
use test.Maze.Print
use test.Handler.Constants.{width, height, mz_string}

-- The result of `Go`, and the texts that it writes to the debugger and to the console.
pub record Run : Type 0 where
  pub result : ℕ
  pub debugger : List ℕ
  pub console : List ℕ

-- The two texts of the listings.
pub record Listings : Type 0 where
  pub debugger : List ℕ
  pub console : List ℕ

-- The four listings. `percent` is the format `%2.2f` of a percentage, `address` what `std::cout`
-- writes for the buffer of the string.
unfoldable pub print_all : (Percentage → List ℕ) → List ℕ → Maze → Result Listings
unfolding Print.print_mz_string Print.print_visual Print.print_intersections
    Print.print_routes_and_stats
print_all percent address m = do
  picture ← Print.print_visual m true
  posts ← Print.print_intersections m
  ok (record {
    debugger = picture ++ posts ++ Print.print_routes_and_stats percent m;
    console = Print.print_mz_string address;
  })

-- The result is 0 if the maze is refused and 1 if it is printed.
unfoldable pub go_fixed : (Percentage → List ℕ) → List ℕ → Maze → Result Run
unfolding Load.set_mz print_all construct
go_fixed percent address raw = do
  l ← Load.set_mz (construct raw) width height 49 35 mz_string
  if l.accepted
      then (do
        t ← print_all percent address l.maze
        ok (record { result = 1; debugger = t.debugger; console = t.console }))
      else ok (record { result = 0; debugger = []; console = [] })
