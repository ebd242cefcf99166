-- ===== src/Handler/Main/Prints.antt =====
-- The program as it is compiled: the fixed maze is accepted, and its listings are written.
use test.Prelude.{ℕ, ◌≡◌, true, List, ◌++◌}
use test.Prelude.Text.{text}
use test.Prelude.Results.{ok}
use test.Cell
use test.Maze.State.{Maze, Percentage, construct}
use test.Maze.Grid
use test.Maze.Check
use test.Maze.Routes.Ways
use test.Maze.Load
use test.Maze.Load.Stages.{Stages}
use test.Maze.Load.Accepts.{loaded, Accepts}
use test.Maze.Print
use test.Maze.Print.Shows.{Shows}
use test.Handler.Constants.{width, height, mz_string}
use test.Handler.Fixed
use test.Handler.Main
use test.Handler.Main.{Exit}

-- The object with the fixed maze, where `raw` is what the memory held.
abbrev pub fixed : Maze → Maze
fixed raw = loaded (construct raw) width height 49 35 mz_string

module _ (raw : Maze) where
  -- The object once `setMZ` has accepted the fixed maze.
  record Ready : Type 0 where
    maze : Maze
    loads :
        Load.set_mz (construct raw) width height 49 35 mz_string
        ≡ ok (record { accepted = true; maze = maze })
    stages : Stages (fixed raw) maze

  -- What the program writes, and that it waits for a line.
  pub record Prints (percent : Percentage → List ℕ) (address : List ℕ) (e : Exit) : Type 0 where
    pub maze : Maze
    pub loads :
        Load.set_mz (construct raw) width height 49 35 mz_string
        ≡ ok (record { accepted = true; maze = maze })
    pub stages : Stages (fixed raw) maze
    pub picture : List ℕ
    pub posts : List ℕ
    pub shows : Shows maze true picture
    pub counts : Print.print_intersections maze ≡ ok posts
    pub debugger : e.debugger ≡ picture ++ posts ++ Print.print_routes_and_stats percent maze
    pub console : e.console ≡ text "\nMazeString:\n" ++ address ++ text "\n\nHit <Enter> to exit\n"
    pub waits : e.waits ≡ true
