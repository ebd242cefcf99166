-- ===== src/Lib.antt =====
-- A verification library for Test00, a program that checks and generates mazes and stores them in a
-- MySQL database.
--
-- The program's parts. `CL` (Test00/CL.cpp) is one cell, whose four walls are the bits of a
-- character. `MZ` (Test00/MZ.cpp) is a maze: a matrix of cells, row by row, whose rows wrap round,
-- with an entrance on the right border and an exit on the left one. It loads a maze from a string
-- (`setMZ`) or generates one (`generateMZ`), searches it breadth first (`updateRoutes`), and derives
-- a picture, counts and statistics. `XMySQL` (Test00/xmysql.cpp) wraps the MySQL client library, and
-- `RTimer` (Test00/rtimer.cpp) times its calls. `MZHandler` (Test00/MZHandler.cpp) puts them
-- together: it loads one fixed maze, or generates mazes and stores the better ones.
--
-- The files. `Cell` models CL, with its laws in `Cell/Encoding`, `Cell/Walls` and `Cell/Random`.
-- `Maze/State` holds the fields of MZ, `Maze/Grid` the index arithmetic, `Maze/Routes` the search,
-- `Maze/Visual` the views, `Maze/Check` validation and loading, `Maze/Stats` the statistics,
-- `Maze/Load` setMZ and updateVectors, `Maze/Generate` the generator and `Maze/Print` the listings;
-- laws stand in child modules. Those of `Maze/Generate` describe a matrix by its walls: `Shape`,
-- `Sides`, `Pairs` and `Walled` are the walls and what they must satisfy, `Mirror`, `Settle`,
-- `Build` and `Rounds` the loops, `Border` with `Ways` and `Entrance`, `Blank`, `Bordered`, `Opened` and `LayOut` the
-- start, `Bare`, `Gaps`, `Passages`, `Fill`, `Detour` and `Filling` the walls at bare posts, and
-- `Whole` and `Reload` all together. `Mysql/Client` is the interface of the client library,
-- `Mysql/Session` the fields of XMySQL and RTimer and the monad of the methods, and
-- `Mysql/Settings`, `Mysql/Connection`, `Mysql/Query`, `Mysql/Fields` and `Mysql/Dump` the
-- methods.
-- `Mysql/Names`, `Mysql/Pairs` and `Mysql/Life` are laws of the fields, of connection strings and of
-- the count of the objects, and `Mysql/Timer` is RTimer on its own. `Mysql/Server` and `Mysql/Link`
-- say what the class relies on: a server that plays its replies one after another, and the handles
-- of connections; `Mysql/Source` adds the tables that answer queries. `Mysql/Drain` takes the loop of
-- QueryWithoutResult through the replies of such a server, `Mysql/Opening` OpenConnection and
-- CheckConnection through their branches, and `Mysql/Reading` Query and NextRow through a table.
-- `Handler` models MZHandler: `Fixed` and `Generated` are its two variants, `Generated/Stores` and
-- `Generated/Whole` what the second stores, and `Main` is the entry point (Test00/Test00.cpp) with
-- the first, which is the one compiled. `Tests` runs the model and applies the theorems.
--
-- The correspondence. A method is a function from the object's fields to its result and the new
-- fields. Names are those of the source in lower case with underscores, without the prefix `m_`.
-- Code that can raise an exception or leave an array returns a `Result` or, over the database, an
-- `Outcome`. Sizes, indices and counters are natural numbers: a negative width, height, entrance or
-- exit, and an `int` that overflows outside DumpResult, are outside the model; `-1` for a neighbour
-- that does not exist and the count of walls are integers. A `char` is a byte, a character of a
-- CString a number of 16 bits, since the program is built for Unicode. The results of `rand()` are a list. A
-- `float` is kept as the expression that computes it.
--
-- Bounds and fuel. A counted loop recurs on its rounds. `while (true)` in `updateRoutes` has one
-- round more than there are cells, and `Maze/Routes/Correct` shows that this is enough.
-- `SetConnectionString` has a round for each byte. The loops over the results and rows of a server,
-- which decides when they end, take their fuel as an argument; more of it than there are replies
-- behind the first, or rows, is enough. `CL::addRandomWall` draws until it names a free side;
-- `Prelude/Draws` says which draws are enough for the generator.
--
-- Not modelled: messages to the debugger and the console but for the listings of MZ and the last line
-- of the program, the line that it reads at the end, the address that the console shows for a CString
-- (a parameter), floating-point arithmetic, and the client
-- library itself (Test00/mysql), whose functions are parameters.
pub mod Prelude
pub mod Cell
pub mod Maze
pub mod Mysql
pub mod Handler
mod Tests
