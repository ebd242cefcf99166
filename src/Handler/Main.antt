-- ===== src/Handler/Main.antt =====
-- `_tmain` (Test00/Test00.cpp). The seed of `rand()`, which is the time, decides on the draws, and
-- this variant of `Go` takes none.
pub mod Prints
use test.Prelude.{ℕ, Bool, true, false, List, [], ◌∷◌, ◌++◌}
use test.Prelude.Tests.{◌==◌, if◌then◌else◌}
use test.Prelude.Text.{text}
use test.Prelude.Results.{Result, ok, ◌>>=◌}
use test.Maze.State.{Maze, Percentage}
use test.Handler.Fixed.{Run, go_fixed}

-- What the program has written to the debugger and to the console when it ends or waits for a line.
pub record Exit : Type 0 where
  pub debugger : List ℕ
  pub console : List ℕ
  pub waits : Bool

unfoldable pub main : (Percentage → List ℕ) → List ℕ → Maze → Result Exit
unfolding go_fixed
main percent address raw = do
  r ← go_fixed percent address raw
  ok (
      if r.result == 0
      then record { debugger = r.debugger; console = r.console; waits = false }
      else record {
        debugger = r.debugger;
        console = r.console ++ text "Hit <Enter> to exit" ++ 10 ∷ [];
        waits = true;
      })
