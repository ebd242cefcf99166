-- ===== src/Handler/Generated/Stores.antt =====
-- What `MZHandler::Go` stores: the mazes that it generates, and those of them that are above the
-- bounds.
pub mod Iteration
pub mod Loop
use test.Prelude.{
  ℕ, zero, suc, ◌+◌, ◌*◌, ◌/◌, ◌≤◌, ◌≡◌, ◌∙◌, refl, sym, ap, subst, inl, inr, arith, Bool, true,
  false, ◌&&◌, List, [], ◌∷◌, ◌++◌, Option, none, some, append-nil, append_assoc,
}
use test.Prelude.Tests.{ltb, if◌then◌else◌, Bool-cases}
use test.Prelude.Lists.{length, length-append}
use test.Prelude.Results.{Result, ok, err, Returns-value}
use test.Prelude.Draws.{Feeds, Feeds-two}
use test.Maze.Generate.Whole.{IsGenerated, generate_mz-Feeds}
use test.Maze.State.{Maze, construct}
use test.Maze.Generate
use test.Maze.Generate.{Game}
use test.Mysql.Client.{Client, Text}
use test.Mysql.Session.{State, M, Outcome, returned, thrown, pure, ◌>>=◌}
use test.Mysql.Methods.{Throws}
use test.Mysql.Query
use test.Mysql.Server.{Server, Script, size}
use test.Mysql.Drain.{Verdict, finished, broken, unstored, verdict, Says}
use test.Mysql.Drain.Asks.{Replies, Shorter, query_without_result-Asks}
use test.Handler.Constants.{width, height, minimal_route_coverage}
use test.Handler.Generated
use test.Handler.Generated.{Floats}

-- The mazes that the loop generates, one after another; it ends early if the draws are used up.
pub games : (ℕ → Maze) → ℕ → List ℕ → List Game
games raw zero draws = []
games raw (suc left) draws = elim (Generate.generate_mz (construct (raw left)) width height draws) [
  | err _ ↦ []
  | ok g ↦ g ∷ games raw left g.draws
]

-- The bounds: no post without a wall, and a route that covers more than 40 % of the maze.
abbrev pub is_worth : Floats → Maze → Bool
is_worth f m = ltb 0 m.min_intersections && f.above m.best_route_coverage minimal_route_coverage

-- The statements that store the mazes above the bounds, if there is a connection.
pub statements : Client → Floats → Bool → List Game → List Text
statements c f false gs = []
statements c f true [] = []
statements c f true (g ∷ gs) =
    let rest = statements c f true gs in
    if is_worth f g.maze then c.to_utf8 (Generated.insert_statement f g.maze) ∷ rest else rest

-- How the count goes on after `k` statements: by at most one for each.
abbrev pub Tally : ℕ → ℕ → ℕ → Type 0
Tally n k n' = (n ≤ n') × (n' ≤ n + k)

-- So many mazes, each as `generate_mz` should leave it.
abbrev pub AreGenerated : ℕ → List Game → Type 0
AreGenerated zero [] = Unit {0}
AreGenerated zero (g ∷ gs) = ⊥
AreGenerated (suc n) [] = ⊥
AreGenerated (suc n) (g ∷ gs) = IsGenerated width height g × AreGenerated n gs

-- What the loop makes of the end of the query.
abbrev pub Counts : ℕ → Outcome ℕ → ℕ → Type 0
Counts n (returned k) n' = n' ≡ n + 1
Counts n (thrown e) n' = n' ≡ n
Counts n Outcome.invalid n' = ⊥
Counts n Outcome.no_fuel n' = ⊥

abbrev pub Settled : ℕ → Outcome ℕ → Type 0
Settled n r = (n' : ℕ) × Counts n r n' × Tally n 1 n'

settled_by : (n : ℕ) (g : Verdict) (r : Outcome ℕ) → Says true g r → Settled n r
settled_by n g (returned k) h = (n + 1, refl, (omega arith, omega arith))
settled_by n g (thrown e) h = (n, refl, (omega arith, omega arith))
settled_by n finished Outcome.invalid h = cc
settled_by n broken Outcome.invalid h = absurd h
settled_by n unstored Outcome.invalid h = absurd h
settled_by n finished Outcome.no_fuel h = cc
settled_by n broken Outcome.no_fuel h = absurd h
settled_by n unstored Outcome.no_fuel h = absurd h

refused_by : (n : ℕ) (place : Text) (r : Outcome ℕ) → Throws place r → Settled n r
refused_by n place (returned k) h = absurd h
refused_by n place (thrown e) h = (n, refl, (omega arith, omega arith))
refused_by n place Outcome.invalid h = absurd h
refused_by n place Outcome.no_fuel h = absurd h

pub settled : (n : ℕ) (a : Option Script) (r : Outcome ℕ) → Replies true a r → Settled n r
settled n none r e = refused_by n _ r e
settled n (some t) r e = settled_by n (verdict t) r e
