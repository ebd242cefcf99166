-- ===== src/Maze/Generate/Rounds.antt =====
-- The loops of `generateMZ`: a wall that cuts cells off is taken back.
use test.Prelude.{ℕ, ◌≡◌, ◌∙◌, refl, sym, ap, inl, inr, Bool}
use test.Prelude.{subst, not, suc, ◌≤◌, ◌+◌, arith}
use test.Prelude.Tests.{if◌then◌else◌, Bool-cases}
use test.Prelude.Results.{
  Result, ok, ◌>>=◌, Plays, PlaysOr, PlaysOr-intro, PlaysOr->>=, PlaysOr-weaken, PlaysOr-for_range,
}
use test.Maze.State.{Maze}
use test.Maze.Load.Frames.{unchanged}
use test.Maze.Load.Vectors.{Updates-limits}
use test.Maze.Generate
use test.Maze.Generate.{Game, Attempt, wall_neighbour, mirrored, modify, remove_side}
use test.Maze.Generate.Walled.{with_cells}
use test.Prelude.Draws.{Supplied}
use test.Maze.Generate.Build.{
  IsBuilt, Built, IsBuilt-again, IsBuilt-same, take_back, IsBuilt-added, SameLimits,
}
use test.Maze.Generate.Settle.{
  Attempted, refused, kept, added, add_random_wall-Attempted, AttemptLeft,
}

module _ (columns rows : ℕ) (X : Type 0) where
  -- A maze that is built, with the limits of a loop and the draws of `n` rounds.
  pub record IsReady (limit tries n : ℕ) (g : Game) : Type 0 where
    pub built : IsBuilt columns rows g.maze
    pub limited : g.maze.n_max_walls ≡ limit
    pub counted : g.maze.n_tries ≡ tries
    pub supplied : Supplied X n g.draws

  -- The end of `try_wall`, for the flag `reachable`.
  abbrev end_of_try : Bool → Attempt → Result Game
  end_of_try reachable a =
      if not reachable
      then (do
        m ← Generate.remove_wall_at a.game.maze a.cell a.side
        ok (record { maze = m; draws = a.game.draws }))
      else ok a.game

  module _ (limit tries n : ℕ) where
    abbrev Next : Game → Type 0
    Next g = IsReady limit tries n g

    -- An attempt on `m` left a maze that is built.
    kept-IsReady :
        (m : Maze) (a : Attempt)
        → m.n_max_walls ≡ limit
        → m.n_tries ≡ tries
        → Supplied X n a.game.draws
        → IsBuilt columns rows a.game.maze
        → SameLimits columns rows m a.game.maze
        → PlaysOr X Next (end_of_try a.game.maze.all_cells_reachable a)
    kept-IsReady m a el et f b (l, t) =
        subst (λ r. PlaysOr X Next (end_of_try r a)) (sym b.flag)
          (record { built = b; limited = l ∙ el; counted = t ∙ et; supplied = f })

    end_of_try-IsReady :
        (m : Maze) (b : IsBuilt columns rows m) (a : Attempt)
        → m.n_max_walls ≡ limit
        → m.n_tries ≡ tries
        → Attempted m b.has a
        → Supplied X n a.game.draws
        → PlaysOr X Next (end_of_try a.game.maze.all_cells_reachable a)
    end_of_try-IsReady m b a el et (refused e) f =
        kept-IsReady m a el et f (subst (IsBuilt columns rows) (sym e) b)
          (ap (λ m. m.n_max_walls) e, ap (λ m. m.n_tries) e)
    end_of_try-IsReady m b a el et (kept n u) f =
        kept-IsReady m a el et f
          (IsBuilt-again columns rows m (with_cells m.cl_matrix n m) a.game.maze b (unchanged m) u)
          (Updates-limits u)
    end_of_try-IsReady m b a el et (added c s nb cells n hc hs across free both ec es u) f =
        elim (Bool-cases a.game.maze.all_cells_reachable) [
          | inl flag ↦
              kept-IsReady m a el et f
                (IsBuilt-added columns rows m b c s nb hc hs across free cells n both a.game.maze u
                  flag)
                (Updates-limits u)
          | inr cut ↦
              let (m2, run, b2, (l, t)) =
                take_back columns rows m b c s nb hc hs across free cells n both a.game.maze u in
              subst (λ r. PlaysOr X Next (end_of_try r a)) (sym cut)
                (PlaysOr-intro X Next _ (record { maze = m2; draws = a.game.draws })
                  (rw (ec, es, run))
                  (record { built = b2; limited = l ∙ el; counted = t ∙ et; supplied = f }))
        ]

    try_wall-IsReady :
        (i : ℕ) (g : Game)
        → limit ≤ 4
        → IsReady limit tries (suc n) g
        → PlaysOr X Next (Generate.try_wall i g)
    unfolding Generate.try_wall
    try_wall-IsReady i g le r =
        let b = r.built in
        let max : g.maze.n_max_walls ≤ 4 = subst (λ k. k ≤ 4) (sym r.limited) le in
        PlaysOr->>= X (AttemptLeft g.maze b.has b.walled b.small max X n) Next _
          (λ a. end_of_try a.game.maze.all_cells_reachable a)
          (add_random_wall-Attempted g.maze b.has b.walled b.small max X n g.draws r.supplied)
          (λ a (attempted, f). end_of_try-IsReady g.maze b a r.limited r.counted attempted f)

  -- A loop uses the draws of its rounds.
  pub try_walls-IsReady :
      (limit tries rest : ℕ) (g : Game)
      → limit ≤ 4
      → IsBuilt columns rows g.maze
      → g.maze.n_tries ≡ tries
      → Supplied X (tries + rest) g.draws
      → PlaysOr X (IsReady limit tries rest) (Generate.try_walls limit g)
  unfolding Generate.try_walls
  try_walls-IsReady limit tries rest g le b e f =
      let limited : Maze = record g.maze { n_max_walls = limit } in
      let start : Game = record g { maze = limited } in
      let step_eq : (k : ℕ) → suc k + rest ≡ suc (k + rest) = λ k. omega arith in
      let end_eq : 0 + rest ≡ rest = omega arith in
      PlaysOr-weaken X (IsReady limit tries (0 + rest)) (IsReady limit tries rest) _
        (λ g r. subst (λ k. IsReady limit tries k g) end_eq r)
        (PlaysOr-for_range X (λ k g. IsReady limit tries (k + rest) g) Generate.try_wall
          (λ k i g r.
            try_wall-IsReady limit tries (k + rest) i g le
              (subst (λ j. IsReady limit tries j g) (step_eq k) r))
          g.maze.n_tries 0 start
          (record {
            built =
                IsBuilt-same columns rows g.maze limited (unchanged g.maze) refl refl refl refl refl
                  b;
            limited = refl;
            counted = e;
            supplied = subst (λ t. Supplied X (t + rest) g.draws) (sym e) f;
          }))

-- One of the three loops of generateMZ, for a limit of at most four walls, on a maze that is
-- built, returns or uses up the draws, and raises nothing. If it returns, the maze is built and
-- has the same size: neighbours agree on their walls, the border is closed but for the entrance
-- and the exit, all cells can be reached, and the views are those of the grid.
pub try_walls-Built :
    (columns rows limit : ℕ) (g : Game)
    → limit ≤ 4
    → Built columns rows g
    → Plays (Built columns rows) (Generate.try_walls limit g)
try_walls-Built columns rows limit g le b =
    PlaysOr-weaken (Unit {0}) (IsReady columns rows (Unit {0}) limit g.maze.n_tries 0)
      (Built columns rows) _ (λ g r. r.built)
      (try_walls-IsReady columns rows (Unit {0}) limit g.maze.n_tries 0 g le b refl (inl tt))
