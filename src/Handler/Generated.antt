-- ===== src/Handler/Generated.antt =====
-- `MZHandler::Go` with `GENERATE_NEW` 1 (MZHandler.cpp): mazes are generated, and the better ones
-- stored. What it prints is left out.
pub mod Stores
pub mod Whole
use test.Prelude.{ℕ, zero, suc, ◌+◌, Bool, true, false, List, ◌++◌}
use test.Prelude.Tests.{ltb, if◌then◌else◌}
use test.Prelude.Text.{text, decimal}
use Prim.Native.String.{String}
use test.Prelude.Results.{ok, err}
use test.Maze.State.{Maze, Percentage, construct}
use test.Maze.Generate
use test.Maze.Generate.{Game}
use test.Mysql.Client.{Client, Text}
use test.Mysql.Session.{
  State, M, Outcome, returned, thrown, invalid, no_fuel, pure, ◌>>=◌, ◌>>◌, get, put, fail,
}
use test.Mysql.Settings.{set_connection_string_wide}
use test.Mysql.Connection
use test.Mysql.Query.{query_without_result_wide}
use test.Handler.Constants.{width, height, minimal_route_coverage, generate_how_many}

-- The floating-point part: the format `%2.2f` of a percentage, and `percentage > n`.
pub record Floats : Type 0 where
  pub percent : Percentage → Text
  pub above : Percentage → ℕ → Bool

abbrev comma : Text
comma = text ", "

-- The argument of `SetConnectionString`.
abbrev pub settings : String
settings =
    "Server=127.0.0.1;Port=3306;User=root;PWD=zeelandbrug;connecttimeout=5;readtimeout=20;writetimeout=20;charset=utf8"

-- `insertStr`: the literal goes on in the next line of the source, with the tabs before it.
unfoldable pub insert_statement : Floats → Maze → Text
unfolding decimal
insert_statement f m =
    text "insert into zmz.mz (datetimeid, mzstring, width, height, the_entrance, the_exit, "
    ++ text "route_coverage, row_utilization, min_intersections, opposing_steps) "
    ++ text "\t\t\t\t\t\t\t\t\t\t\t"
    ++ text "values (now(), '"
    ++ m.mz_string
    ++ text "', "
    ++ decimal m.width
    ++ comma
    ++ decimal m.height
    ++ comma
    ++ decimal m.entrance
    ++ comma
    ++ decimal m.exit
    ++ comma
    ++ f.percent m.best_route_coverage
    ++ comma
    ++ f.percent m.best_route_rows_utilized
    ++ comma
    ++ decimal m.min_intersections
    ++ comma
    ++ decimal m.n_opposing_steps
    ++ text ");"

module _ (c : Client) (f : Floats) where
  -- `try { … nInserted++; } catch (XMySQL_Exception &e) { … }`: what an exception leaves behind
  -- stays, and the counter does too.
  abbrev pub catch_insert : ℕ → M c ℕ → M c ℕ
  catch_insert n m s = caught (m s)
    where
      caught : Outcome ℕ × State c → Outcome ℕ × State c
      caught (returned r, s') = (returned (n + 1), s')
      caught (thrown e, s') = (returned n, s')
      caught (invalid, s') = (invalid, s')
      caught (no_fuel, s') = (no_fuel, s')

  -- The tests of one iteration, on a generated maze: the new count of insertions.
  unfoldable pub store_maze : ℕ → Bool → Maze → ℕ → M c ℕ
  unfolding insert_statement query_without_result_wide
  store_maze fuel connected m n =
      if connected
      then (if ltb 0 m.min_intersections
          then (if f.above m.best_route_coverage minimal_route_coverage
              then catch_insert n (query_without_result_wide c fuel (insert_statement f m) true)
              else pure n)
          else pure n)
      else pure n

  -- The loop, with `left` iterations to go. `raw` is what the memory of a new MZ holds.
  unfoldable pub generate_all : ℕ → (ℕ → Maze) → Bool → ℕ → List ℕ → ℕ → M c ℕ
  unfolding Generate.generate_mz store_maze construct
  generate_all fuel raw connected zero draws n = pure n
  generate_all fuel raw connected (suc left) draws n =
      elim (Generate.generate_mz (construct (raw left)) width height draws) [
        | err _ ↦ fail
        | ok g ↦ store_maze fuel connected g.maze n >>= λ n'.
            generate_all fuel raw connected left g.draws n'
      ]

  -- The variant as a whole; the count of the insertions is only printed.
  unfoldable pub go_generated : ℕ → (ℕ → Maze) → List ℕ → M c ℕ
  unfolding generate_all set_connection_string_wide Connection.construct Connection.open_connection
  go_generated fuel raw draws = do
    Connection.construct c
    o ← get
    put (set_connection_string_wide c (text settings) o)
    r ← Connection.open_connection c false
    _ ← generate_all fuel raw (ltb 0 r) generate_how_many draws 0
    pure 1
