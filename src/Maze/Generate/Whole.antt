-- ===== src/Maze/Generate/Whole.antt =====
-- `generateMZ` as a whole.
use test.Prelude.{
  ◌+◌, ◌*◌, ◌/◌, ◌∷◌, ◌∙◌, refl, sym, subst, inl, inr, arith, ℕ, ◌<◌, ◌≡◌, ap, Bool, true, false,
  List, [], map,
}
use test.Prelude.Tests.{◌==◌, if◌then◌else◌}
use test.Prelude.Results.{
  Result, ok, ◌>>=◌, Plays, PlaysOr, PlaysOr-intro, PlaysOr->>=, PlaysOr-Returns, Returns,
  PlaysOr-weaken, Returns-weaken,
}
use test.Maze.Visual
use test.Maze.State.{Maze}
use test.Maze.Grid
use test.Maze.Check.Compatible.{IsCompatible}
use test.Maze.Routes.Passage.{IsSearchable, Reach}
use test.Maze.Stats
use test.Maze.Stats.Histogram.{Measures, calculate_maze_and_route_stats-Measures}
use test.Maze.Load.Frames.{frame-IsSameGrid, unchanged, IsSmall}
use test.Maze.Generate
use test.Maze.Generate.{Game}
use test.Maze.Generate.Shape.{Sides, IsShaped}
use test.Maze.Generate.Walled.{IsWalled-IsSearchable, IsWalled-IsCompatible}
use test.Prelude.Draws.{Supplied, Feeds}
use test.Maze.Generate.Build.{IsBuilt, IsBuilt-same, Built}
use test.Maze.Generate.Rounds.{IsReady, try_walls-IsReady}
use test.Maze.Generate.LayOut.{lay_out-Built, lay_out-IsBuilt}
use test.Maze.Generate.Filling.{fill_wallless_cells-Built}

-- What `generate_mz` leaves: a maze of the size asked for, open at the entrance on the right and the
-- exit on the left only, in which neighbours agree on their walls, all cells can be reached and the
-- flag says so, with the string of its cells and the statistics of its best route.
pub record IsGenerated (columns rows : ℕ) (g : Game) : Type 0 where
  pub width : g.maze.width ≡ columns
  pub height : g.maze.height ≡ rows
  pub searchable : IsSearchable g.maze
  pub compatible : IsCompatible g.maze
  pub entrance_right : Grid.is_right_edge g.maze g.maze.entrance ≡ true
  pub exit_left : Grid.is_left_edge g.maze g.maze.exit ≡ true
  pub exit_inside : g.maze.exit < g.maze.total_cells
  pub reached : (d : ℕ) → d < g.maze.total_cells → Reach g.maze d
  pub flag : g.maze.all_cells_reachable ≡ true
  pub string : g.maze.mz_string ≡ map Visual.wide_char g.maze.cl_matrix
  pub cells : (has : Sides) × IsShaped g.maze.total_cells has g.maze.cl_matrix
  pub small : IsSmall g.maze
  pub before : Maze
  pub measures : Measures before g.maze

module _ (columns rows : ℕ) where
  IsBuilt-IsGenerated :
      (m before : Maze) (draws : List ℕ)
      → IsBuilt columns rows m
      → Measures before m
      → IsGenerated columns rows (record { maze = m; draws = draws })
  IsBuilt-IsGenerated m before draws b s = record {
    width = b.size.0;
    height = b.size.1;
    searchable = IsWalled-IsSearchable m b.has b.walled;
    compatible = IsWalled-IsCompatible m b.has b.walled;
    entrance_right = b.walled.entrance_right;
    exit_left = b.walled.exit_left;
    exit_inside = b.walled.exit_inside;
    reached = b.reached;
    flag = b.flag;
    string = b.string;
    cells = (b.has, b.walled.shaped);
    small = b.small;
    before = before;
    measures = s;
  }

  module _ (X : Type 0) where
    filled_or_not :
        (m : Maze) (none : Bool)
        → IsBuilt columns rows m
        → PlaysOr X (IsBuilt columns rows) (if none then Generate.fill_wallless_cells m else ok m)
    filled_or_not m true b =
        let (m', run, b') = fill_wallless_cells-Built m columns rows b in
        PlaysOr-intro X (IsBuilt columns rows) _ m' run b'
    filled_or_not m false b = b

    -- What `generate_mz` leaves, and draws for `k` rounds more.
    abbrev pub Leaves : ℕ → Game → Type 0
    Leaves k g = IsGenerated columns rows g × Supplied X k g.draws

    measured :
        (m : Maze) (draws : List ℕ) (k : ℕ)
        → IsBuilt columns rows m
        → Supplied X k draws
        → PlaysOr X (Leaves k) (
            Stats.calculate_maze_and_route_stats m >>= λ m. ok (record { maze = m; draws = draws }))
    measured m draws k b f =
        let (m', run, s) = calculate_maze_and_route_stats-Measures m b.walled.grid b.inside in
        PlaysOr-intro X (Leaves k) _ (record { maze = m'; draws = draws }) (rw run)
          (
            IsBuilt-IsGenerated m' m draws
                (IsBuilt-same columns rows m m' (frame-IsSameGrid m m' _ s.frame (unchanged m))
                  (ap (λ m. m.all_cells_reachable) s.frame) (ap (λ m. m.best_route) s.frame)
                  (ap (λ m. m.mz_string) s.frame) (ap (λ m. m.intersection_problems) s.frame)
                  (ap (λ m. m.min_intersections) s.frame) b)
                s,
            f,
          )

    -- What follows the start.
    abbrev finish : Game → Result Game
    finish g = Generate.try_walls 1 g >>= λ g. Generate.try_walls 2 g >>= λ g.
        Generate.try_walls 3 g >>= λ g.
        (if g.maze.min_intersections == 0 then Generate.fill_wallless_cells g.maze else ok g.maze)
        >>= λ m. Stats.calculate_maze_and_route_stats m >>= λ m.
            ok (record { maze = m; draws = g.draws })

    finish-Leaves :
        (t k : ℕ) (g : Game)
        → IsBuilt columns rows g.maze
        → g.maze.n_tries ≡ t
        → Supplied X (t + (t + (t + k))) g.draws
        → PlaysOr X (Leaves k) (finish g)
    finish-Leaves t k g b e f =
        let Q = Leaves k in
        let R = IsReady columns rows X in
        PlaysOr->>= X (R 1 t (t + (t + k))) Q _ _
          (try_walls-IsReady columns rows X 1 t (t + (t + k)) g (omega arith) b e f)
          (λ g r.
            PlaysOr->>= X (R 2 t (t + k)) Q _ _
              (try_walls-IsReady columns rows X 2 t (t + k) g (omega arith) r.built r.counted
                r.supplied)
              (λ g r.
                PlaysOr->>= X (R 3 t k) Q _ _
                  (try_walls-IsReady columns rows X 3 t k g (omega arith) r.built r.counted
                    r.supplied)
                  (λ g r.
                    PlaysOr->>= X (IsBuilt columns rows) Q _ _
                      (filled_or_not g.maze (g.maze.min_intersections == 0) r.built)
                      (λ m b. measured m g.draws k b r.supplied))))

  -- For a new object and less than 50 columns and 100 rows, of each at least one, generateMZ
  -- returns or uses up the draws, and raises nothing. If it returns, the maze has this size and
  -- a cell for each index; its right border is closed but for the entrance, a cell at the right
  -- edge, its left border but for the exit, a cell at the left edge; neighbours agree on the
  -- wall between them; all cells can be reached from the entrance, and the flag says so; the
  -- string is that of the cells, the sizes of the picture are those of the maze, and the
  -- statistics are those of its best route.
  pub generate_mz-Generated :
      (raw : Maze) (draws : List ℕ)
      → raw.mz_string ≡ []
      → 0 < columns
      → columns < 50
      → 0 < rows
      → rows < 100
      → Plays (IsGenerated columns rows) (Generate.generate_mz raw columns rows draws)
  unfolding Generate.generate_mz
  generate_mz-Generated raw draws new wide narrow high low =
      PlaysOr->>= (Unit {0}) (Built columns rows) (IsGenerated columns rows) _ _
        (lay_out-Built raw columns rows draws new wide narrow high low)
        (λ g b.
          PlaysOr-weaken (Unit {0}) (Leaves (Unit {0}) 0) (IsGenerated columns rows) _ (λ g h. h.0)
            (finish-Leaves (Unit {0}) g.maze.n_tries 0 g b refl (inl tt)))

  fed_still : (k : ℕ) (g : Game) → Leaves ⊥ k g → IsGenerated columns rows g × Feeds k g.draws
  fed_still k g (h, inl none) = absurd none
  fed_still k g (h, inr f) = (h, f)

  -- With draws for `k` rounds more, these are left.
  pub generate_mz-Feeds :
      (raw : Maze) (d e k : ℕ) (draws : List ℕ)
      → raw.mz_string ≡ []
      → 0 < columns
      → columns < 50
      → 0 < rows
      → rows < 100
      → Feeds (3 * (columns * rows / 2) + k) draws
      → Returns
          (λ g. IsGenerated columns rows g × Feeds k g.draws)
          (Generate.generate_mz raw columns rows (d ∷ e ∷ draws))
  unfolding Generate.generate_mz
  generate_mz-Feeds raw d e k draws new wide narrow high low f =
      let (g, run, left_over, b, tries) =
        lay_out-IsBuilt raw columns rows new wide narrow high low d e draws in
      let t = columns * rows / 2 in
      let total : g.maze.total_cells ≡ columns * rows =
        b.walled.grid.total ∙ (rw (b.size.0, b.size.1) refl) in
      let counted : g.maze.n_tries ≡ t = tries ∙ ap (λ n. n / 2) total in
      let rounds : 3 * t + k ≡ t + (t + (t + k)) = omega arith in
      let fed : Feeds (t + (t + (t + k))) g.draws =
        subst (Feeds _) (sym left_over) (subst (λ n. Feeds n draws) rounds f) in
      Returns-weaken (Leaves ⊥ k) (λ g. IsGenerated columns rows g × Feeds k g.draws) _
        (fed_still k)
        (PlaysOr-Returns (Leaves ⊥ k) _ (rw run (finish-Leaves ⊥ t k g b counted (inr fed))))

  -- For a new object and less than 50 columns and 100 rows, of each at least one, generateMZ
  -- returns, when behind its first two draws there are, for each of the tries of its three
  -- loops, a draw and then some that name each of the four sides; the maze then has this size,
  -- its borders are closed but for the entrance and the exit, neighbours agree on their walls,
  -- all cells can be reached, and the flag, the string and the statistics are right.
  pub generate_mz-Returns :
      (raw : Maze) (d e : ℕ) (draws : List ℕ)
      → raw.mz_string ≡ []
      → 0 < columns
      → columns < 50
      → 0 < rows
      → rows < 100
      → Feeds (3 * (columns * rows / 2)) draws
      → Returns (IsGenerated columns rows) (Generate.generate_mz raw columns rows (d ∷ e ∷ draws))
  generate_mz-Returns raw d e draws new wide narrow high low f =
      let none_more : 3 * (columns * rows / 2) ≡ 3 * (columns * rows / 2) + 0 = omega arith in
      Returns-weaken (λ g. IsGenerated columns rows g × Feeds 0 g.draws) (IsGenerated columns rows)
        _ (λ g h. h.0)
        (generate_mz-Feeds raw d e 0 draws new wide narrow high low
          (subst (λ n. Feeds n draws) none_more f))
