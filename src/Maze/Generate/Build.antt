-- ===== src/Maze/Generate/Build.antt =====
-- A maze under construction: the facts that the loops of `generateMZ` keep.
use test.Prelude.{ℕ, ◌<◌, ◌≡◌, ◌∙◌, refl, sym, ap, true, false, List, map}
use test.Prelude.{subst}
use test.Prelude.Lists.{◌∈◌}
use test.Prelude.Int.{ℤ, pos, decrement}
use test.Prelude.Results.{ok}
use test.Cell.{Cell}
use test.Maze.Visual
use test.Maze.State.{Maze}
use test.Maze.Routes.Passage.{Reach}
use test.Maze.Load
use test.Maze.Load.Frames.{IsSameGrid, IsSameGrid-trans, IsSmall, IsSmall-same, Reach-same}
use test.Maze.Load.Vectors.{
  Updates-limits, Updates, update_vectors-Updates, Updates-IsSameGrid, Updates-inside,
  Updates-verdict, Updates-string,
}
use test.Maze.Generate
use test.Maze.Generate.{Game, Attempt, wall_neighbour, mirrored, modify, remove_side}
use test.Maze.Generate.Shape.{Sides, IsShaped}
use test.Maze.Generate.Sides.{Beyond}
use test.Maze.Generate.Pairs.{put_pair}
use test.Maze.Generate.Walled.{
  IsWalled, with_cells, IsWalled-same, IsWalled-put_pair, IsWalled-IsSearchable,
}
use test.Maze.Generate.Mirror.{take_pair}
use test.Maze.Generate.Settle.{IsSmall-with_cells, across_same}

-- The views are those of the grid: `updateVectors` has made them of a maze with this grid.
pub record IsCurrent (m : Maze) : Type 0 where
  pub before : Maze
  pub after : Maze
  pub updates : Updates before after
  pub same : IsSameGrid before m
  pub problems : m.intersection_problems ≡ after.intersection_problems
  pub least : m.min_intersections ≡ after.min_intersections

-- A maze of this size under construction.
pub record IsBuilt (columns rows : ℕ) (m : Maze) : Type 0 where
  pub has : Sides
  pub size : (m.width ≡ columns) × (m.height ≡ rows)
  pub walled : IsWalled m has
  pub small : IsSmall m
  pub flag : m.all_cells_reachable ≡ true
  pub reached : (d : ℕ) → d < m.total_cells → Reach m d
  pub inside : (d : ℕ) → d ∈ m.best_route → d < m.total_cells
  pub string : m.mz_string ≡ map Visual.wide_char m.cl_matrix
  pub current : IsCurrent m

abbrev pub AllReached : Maze → Type 0
AllReached m = (d : ℕ) → d < m.total_cells → Reach m d

AllReached-same : (m m' : Maze) → IsSameGrid m m' → AllReached m → AllReached m'
AllReached-same m m' same all d lt = Reach-same m m' same (all d (subst (λ n. d < n) same.2 lt))

module _ (columns rows : ℕ) where
  -- After `updateVectors`, with the flag set.
  pub IsBuilt-Updates :
      (m m' : Maze) (has : Sides)
      → IsWalled m has
      → IsSmall m
      → (m.width ≡ columns) × (m.height ≡ rows)
      → Updates m m'
      → m'.all_cells_reachable ≡ true
      → IsBuilt columns rows m'
  IsBuilt-Updates m m' has w small (wide, high) u flag =
      let same = Updates-IsSameGrid u in
      record {
        has = has;
        size = (same.0 ∙ wide, same.1 ∙ high);
        walled = IsWalled-same m m' has same w;
        small = IsSmall-same m m' same small;
        flag = flag;
        reached = AllReached-same m m' same ((Updates-verdict u).0 flag);
        inside = λ d q.
            subst (λ n. d < n) (sym same.2) (Updates-inside u (IsWalled-IsSearchable m has w) d q);
        string = Updates-string u ∙ ap (map Visual.wide_char) (sym same.5);
        current = record {
          before = m;
          after = m';
          updates = u;
          same = same;
          problems = refl;
          least = refl;
        };
      }

  -- On the grid of a maze that is built, `updateVectors` leaves one that is built.
  pub IsBuilt-again :
      (m m1 m' : Maze)
      → IsBuilt columns rows m
      → IsSameGrid m m1
      → Updates m1 m'
      → IsBuilt columns rows m'
  IsBuilt-again m m1 m' b same u =
      IsBuilt-Updates m1 m' b.has (IsWalled-same m m1 b.has same b.walled)
        (IsSmall-same m m1 same b.small) (same.0 ∙ b.size.0, same.1 ∙ b.size.1) u
        ((Updates-verdict u).1 (AllReached-same m m1 same b.reached))

  abbrev pub Built : Game → Type 0
  Built g = IsBuilt columns rows g.maze

  Beyond-same : (m m' : Maze) (c s nb : ℕ) → IsSameGrid m m' → Beyond m c s nb → Beyond m' c s nb
  unfolding wall_neighbour
  Beyond-same m m' c s nb same e = rw (same.2, same.0) e

  remove_lem :
      (m m2 : Maze) (c s nb : ℕ) (cells1 cells2 : List Cell)
      → Beyond m c s nb
      → modify m.cl_matrix c (remove_side s) ≡ ok cells1
      → modify cells1 nb (remove_side (mirrored s)) ≡ ok cells2
      → Load.update_vectors (with_cells cells2 (decrement m.n_walls) m) ≡ ok m2
      → Generate.remove_wall_at m c (pos s) ≡ ok m2
  unfolding Generate.remove_wall_at
  remove_lem m m2 c s nb cells1 cells2 e0 e1 e2 e3 = rw (e0, Generate.remove_wall_at, e1, e2, e3)

  abbrev pub SameLimits : Maze → Maze → Type 0
  SameLimits m m' = (m'.n_max_walls ≡ m.n_max_walls) × (m'.n_tries ≡ m.n_tries)

  module _ (m : Maze) (b : IsBuilt columns rows m) (c s nb : ℕ) (hc : c < m.total_cells)
      (hs : s < 4) (across : Beyond m c s nb) (free : b.has c s ≡ false) (cells : List Cell) (n : ℤ)
      (both : IsShaped m.total_cells (put_pair c s nb true b.has) cells) where
    -- `removeWallAt` takes the new wall back.
    pub take_back :
        (m' : Maze)
        → Updates (with_cells cells n m) m'
        → (m2 : Maze) × (Generate.remove_wall_at m' c (pos s) ≡ ok m2)
          × IsBuilt columns rows m2
          × SameLimits m m2
    take_back m' u =
        let same = Updates-IsSameGrid u in
        let (cells1, e1, e2) = take_pair m b.has b.walled c s nb hc hs across cells free both in
        let old : Maze = with_cells m.cl_matrix (decrement m'.n_walls) m' in
        let same_old : IsSameGrid m old =
          (same.0, same.1, same.2, same.3, same.4, refl, same.6, same.7) in
        let (m2, run, u2) =
          update_vectors-Updates old
            (IsWalled-IsSearchable old b.has (IsWalled-same m old b.has same_old b.walled))
            (IsSmall-same m old same_old b.small) in
        (
          m2,
          remove_lem m' m2 c s nb cells1 m.cl_matrix
              (Beyond-same (with_cells cells n m) m' c s nb same
                (across_same m cells n c s nb across))
              (ap (λ l. modify l c (remove_side s)) same.5 ∙ e1) e2 run,
          IsBuilt-again m old m2 b same_old u2,
          (
            (Updates-limits u2).0 ∙ (Updates-limits u).0,
            (Updates-limits u2).1 ∙ (Updates-limits u).1,
          ),
        )

    pub IsBuilt-added :
        (m' : Maze)
        → Updates (with_cells cells n m) m'
        → m'.all_cells_reachable ≡ true
        → IsBuilt columns rows m'
    IsBuilt-added m' u flag =
        IsBuilt-Updates (with_cells cells n m) m' (put_pair c s nb true b.has)
          (IsWalled-put_pair m b.has b.walled c s nb hc hs across cells n both)
          (IsSmall-with_cells m cells n b.small) b.size u flag

  -- Fields that have nothing to do with it can change.
  pub IsBuilt-same :
      (m m' : Maze)
      → IsSameGrid m m'
      → m'.all_cells_reachable ≡ m.all_cells_reachable
      → m'.best_route ≡ m.best_route
      → m'.mz_string ≡ m.mz_string
      → m'.intersection_problems ≡ m.intersection_problems
      → m'.min_intersections ≡ m.min_intersections
      → IsBuilt columns rows m
      → IsBuilt columns rows m'
  IsBuilt-same m m' same flag best string problems least b = record {
    has = b.has;
    size = (same.0 ∙ b.size.0, same.1 ∙ b.size.1);
    walled = IsWalled-same m m' b.has same b.walled;
    small = IsSmall-same m m' same b.small;
    flag = flag ∙ b.flag;
    reached = AllReached-same m m' same b.reached;
    inside =
        λ d q. subst (λ n. d < n) (sym same.2) (b.inside d (subst (λ route. d ∈ route) best q));
    string = string ∙ b.string ∙ ap (map Visual.wide_char) (sym same.5);
    current = record {
      before = b.current.before;
      after = b.current.after;
      updates = b.current.updates;
      same = IsSameGrid-trans b.current.before m m' b.current.same same;
      problems = problems ∙ b.current.problems;
      least = least ∙ b.current.least;
    };
  }
