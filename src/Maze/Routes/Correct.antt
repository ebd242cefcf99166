-- ===== src/Maze/Routes/Correct.antt =====
-- `updateRoutes` returns, its flags are the reachable cells, and its best route leads to the exit.
use test.Prelude.{ℕ, ◌+◌, ◌<◌, ◌≡◌, ◌≢◌, ◌↔◌, refl, sym, ◌∙◌, ◌⊎◌, inl, inr, ⊎_elim, arith}
use test.Prelude.{true, []}
use test.Prelude.Tests.{Bool-cases, ==→≡, ≡→==}
use test.Prelude.Results.{ok, Returns-value}
use test.Maze.State.{Maze}
use test.Maze.Routes.Invariant.{IsShortest}
use test.Maze.Routes
use test.Maze.Routes.{Search}
use test.Maze.Routes.Passage.{Route, Reach, IsMarked, IsSearchable, Reach-Route}
use test.Maze.Routes.Marks.{count_true-full, count_true_all}
use test.Maze.Routes.Rounds.{Done, Ready-start, search_loop-Done, Done-Reach}

-- What `update_routes` does to `m`: the flags are those of the cells that can be reached, the
-- verdict says whether these are all cells, and the best route leads from the entrance to the exit
-- if the exit is another cell that can be reached, and is empty if not.
pub record Explores (m m' : Maze) : Type 0 where
  pub frame : m' ≡ record m {
    routes = m'.routes;
    visited = m'.visited;
    best_route = m'.best_route;
    n_visited = m'.n_visited;
    all_cells_reachable = m'.all_cells_reachable;
  }
  pub marks : (d : ℕ) → IsMarked m'.visited d ↔ Reach m d
  pub counted : m'.n_visited ≡ Routes.count_true m'.visited
  pub verdict : (m'.all_cells_reachable ≡ true) ↔ ((d : ℕ) → d < m.total_cells → Reach m d)
  pub best : Reach m m.exit → m.exit ≢ m.entrance → Route m m'.best_route m.exit
  pub shortest : Reach m m.exit → m.exit ≢ m.entrance → IsShortest m m'.best_route m.exit
  pub no_best : ¬ Reach m m.exit ⊎ (m.exit ≡ m.entrance) → m'.best_route ≡ []

module _ (m : Maze) (valid : IsSearchable m) (s : Search) (done : Done m valid s) where
  open done use {ready, closed}

  all_marked :
      ((d : ℕ) → d < m.total_cells → IsMarked s.visited d)
      → Routes.count_true s.visited ≡ m.total_cells
  all_marked h = count_true_all s.visited (λ c lt. h c (omega (arith, ready.size))) ∙ ready.size

  IsMarked-all :
      Routes.count_true s.visited ≡ m.total_cells
      → (d : ℕ) → d < m.total_cells
      → IsMarked s.visited d
  IsMarked-all e d lt = count_true-full s.visited d (e ∙ sym ready.size) (omega (arith, ready.size))

  best_lem : Reach m m.exit → m.exit ≢ m.entrance → Route m s.best_route m.exit
  best_lem r ne = elim (Bool-cases s.best_route_found) [
    | inl found ↦ (ready.best found).0
    | inr missing ↦ absurd (ne ((ready.none_yet missing).1 (Done-Reach m valid s done m.exit r)))
  ]

  shortest_lem : Reach m m.exit → m.exit ≢ m.entrance → IsShortest m s.best_route m.exit
  shortest_lem r ne = elim (Bool-cases s.best_route_found) [
    | inl found ↦ ready.shortest found
    | inr missing ↦ absurd (ne ((ready.none_yet missing).1 (Done-Reach m valid s done m.exit r)))
  ]

  no_best_lem : ¬ Reach m m.exit ⊎ (m.exit ≡ m.entrance) → s.best_route ≡ []
  no_best_lem why = elim (Bool-cases s.best_route_found) [
    | inl found ↦
        absurd (⊎_elim (λ far. far (Reach-Route (ready.best found).0)) (ready.best found).1 why)
    | inr missing ↦ (ready.none_yet missing).0
  ]

  Explores-finish : Explores m (Routes.finish m s)
  Explores-finish = record {
    frame = refl;
    marks = λ d. (ready.reached d, Done-Reach m valid s done d);
    counted = refl;
    verdict = (
      λ e d lt. ready.reached d (IsMarked-all (==→≡ _ m.total_cells e) d lt),
      λ h. ≡→== _ m.total_cells (all_marked (λ d lt. Done-Reach m valid s done d (h d lt))),
    );
    best = best_lem;
    shortest = shortest_lem;
    no_best = no_best_lem;
  }

-- On a maze whose border is open at the entrance and the exit only, updateRoutes returns within
-- one round more than there are cells; its flags are exactly the cells that can be reached from
-- the entrance, its verdict holds exactly if these are all cells, its best route is a route from
-- the entrance to the exit, and none has fewer cells, if the exit is another cell that can be
-- reached and is empty if not, and no other field changes.
pub update_routes-Explores :
    (m : Maze) → IsSearchable m → (m' : Maze) × (Routes.update_routes m ≡ ok m') × Explores m m'
unfolding Routes.update_routes
update_routes-Explores m valid =
    let fuel = m.total_cells + 1 in
    let run =
      Returns-value (Done m valid) (Routes.search_loop m fuel (Routes.start m))
        (search_loop-Done m valid fuel 1 (Routes.start m) (Ready-start m valid) (omega arith)) in
    (Routes.finish m run.0, rw run.1, Explores-finish m valid run.0 run.2)
