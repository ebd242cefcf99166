-- ===== src/Maze/Load/Vectors.antt =====
-- `updateVectors`: the views of the matrix, the search and the string, one after another.
use test.Prelude.{ℕ, ◌+◌, ◌*◌, ◌<◌, ◌≡◌, ◌↔◌, ◌∙◌, refl, sym, subst, ap, true, map}
use test.Prelude.Lists.{◌∈◌}
use test.Prelude.Results.{ok}
use test.Maze.State.{Maze}
use test.Maze.Visual
use test.Maze.Visual.Pixels.{Draws, update_visual-Draws}
use test.Maze.Visual.Intersections.{IsPictured}
use test.Maze.Visual.Problems.{CountsPosts, update_intersections-CountsPosts}
use test.Maze.Routes
use test.Maze.Routes.Passage.{IsSearchable, Reach}
use test.Maze.Routes.Correct.{Explores, update_routes-Explores}
use test.Maze.Check.Compatible.{IsFull}
use test.Maze.Check.Matrix.{update_wall_count_lem, update_mz_string_lem}
use test.Maze.Load
use test.Maze.Load.Frames.{
  IsSameGrid, frame-IsSameGrid, unchanged, IsSameGrid-trans, IsSameGrid-sym, IsSearchable-same,
  Reach-same, IsSmall, best_route_inside,
}

abbrev pub with_counts : Maze → Maze
with_counts posted = record posted { cl_wall_count = map Visual.wall_count posted.cl_matrix }

abbrev pub with_string : Maze → Maze
with_string m = record m { mz_string = map Visual.wide_char m.cl_matrix }

-- The object between the steps of `update_vectors`: the picture, the posts, the search, and at
-- last the string.
pub record Updates (m m' : Maze) : Type 0 where
  pub drawn : Maze
  pub draws : Draws m drawn
  pub posted : Maze
  pub posts : CountsPosts drawn posted
  pub explored : Maze
  pub explores : Explores (with_counts posted) explored
  pub written : m' ≡ with_string explored

vectors_lem :
    (m drawn posted explored : Maze)
    → Visual.update_visual m ≡ ok drawn
    → Visual.update_intersections drawn ≡ ok posted
    → Visual.update_wall_count posted ≡ ok (with_counts posted)
    → Routes.update_routes (with_counts posted) ≡ ok explored
    → Visual.update_mz_string explored ≡ ok (with_string explored)
    → Load.update_vectors m ≡ ok (with_string explored)
unfolding Load.update_vectors
vectors_lem m drawn posted explored e1 e2 e3 e4 e5 = rw (e1, e2, e3, e4, e5)

module _ {m m' : Maze} (u : Updates m m') where
  open u use {drawn, draws, posted, posts, explored, explores, written}

  posted-IsSameGrid : IsSameGrid m posted
  posted-IsSameGrid =
      IsSameGrid-trans m drawn posted (frame-IsSameGrid m drawn _ draws.frame (unchanged m))
        (frame-IsSameGrid drawn posted _ posts.frame (unchanged drawn))

  -- The grid stays.
  pub Updates-IsSameGrid : IsSameGrid m m'
  Updates-IsSameGrid = frame-IsSameGrid m m' _ written (
      IsSameGrid-trans m posted explored posted-IsSameGrid
        (frame-IsSameGrid posted explored _ explores.frame (unchanged posted)))

  -- The limits of the generator stay.
  pub Updates-limits : (m'.n_max_walls ≡ m.n_max_walls) × (m'.n_tries ≡ m.n_tries)
  Updates-limits = (
    ap (λ m. m.n_max_walls) written
        ∙ ap (λ m. m.n_max_walls) explores.frame
        ∙ ap (λ m. m.n_max_walls) posts.frame
        ∙ ap (λ m. m.n_max_walls) draws.frame,
    ap (λ m. m.n_tries) written
        ∙ ap (λ m. m.n_tries) explores.frame
        ∙ ap (λ m. m.n_tries) posts.frame
        ∙ ap (λ m. m.n_tries) draws.frame,
  )

  -- The string is that of the cells.
  pub Updates-string : m'.mz_string ≡ map Visual.wide_char m.cl_matrix
  Updates-string =
      ap (λ m. m.mz_string) written
      ∙ ap (map Visual.wide_char) (sym (ap (λ m. m.cl_matrix) written) ∙ Updates-IsSameGrid.5)

  module _ (valid : IsSearchable m) where
    posted-IsSearchable : IsSearchable (with_counts posted)
    posted-IsSearchable = IsSearchable-same m (with_counts posted) posted-IsSameGrid valid

    -- The best route is one of cells.
    pub Updates-inside : (d : ℕ) → d ∈ m'.best_route → d < m.total_cells
    Updates-inside d q =
        let lt =
          best_route_inside (with_counts posted) posted-IsSearchable explored explores d
            (subst (λ r. d ∈ r) (ap (λ m. m.best_route) written) q) in
        subst (λ n. d < n) posted-IsSameGrid.2 lt

  -- The verdict is that of the grid.
  pub Updates-verdict : (m'.all_cells_reachable ≡ true) ↔ ((d : ℕ) → d < m.total_cells → Reach m d)
  Updates-verdict =
      let same_flag = ap (λ m. m.all_cells_reachable) written in
      let same_total = posted-IsSameGrid.2 in
      (
        λ e d lt. Reach-same posted m (IsSameGrid-sym m posted posted-IsSameGrid) (
            Reach-same (with_counts posted) posted (unchanged posted)
              (explores.verdict.0 (sym same_flag ∙ e) d (subst (λ n. d < n) (sym same_total) lt))),
        λ all.
            same_flag
            ∙ explores.verdict.1 (λ d lt.
              Reach-same m (with_counts posted) posted-IsSameGrid
                (all d (subst (λ n. d < n) same_total lt))),
      )

-- The picture and the posts of a full matrix.
pub viewed :
    (m : Maze)
    → IsFull m
    → IsSmall m
    → (drawn : Maze) × (posted : Maze) × (Visual.update_visual m ≡ ok drawn)
      × Draws m drawn
      × (Visual.update_intersections drawn ≡ ok posted)
      × CountsPosts drawn posted
viewed m full small =
    let (drawn, run1, d) =
      update_visual-Draws m full small.columns small.lines small.narrow small.low in
    let pictured : IsPictured drawn = record {
      columns =
          ap (λ m. m.width_visual) d.frame
          ∙ small.columns
          ∙ ap (λ m. m.width * 2 + 1) (sym d.frame);
      lines =
          ap (λ m. m.height_visual) d.frame ∙ small.lines ∙ ap (λ m. m.height + 1) (sym d.frame);
      entries = d.size ∙ ap (λ m. m.height_visual * m.width_visual) (sym d.frame);
    } in
    let (posted, run2, p) = update_intersections-CountsPosts drawn pictured in
    (drawn, posted, run1, d, run2, p)

module _ (m : Maze) (valid : IsSearchable m) (small : IsSmall m) where
  from_posts :
      (drawn posted : Maze)
      → Visual.update_visual m ≡ ok drawn
      → Draws m drawn
      → Visual.update_intersections drawn ≡ ok posted
      → CountsPosts drawn posted
      → (m' : Maze) × (Load.update_vectors m ≡ ok m') × Updates m m'
  from_posts drawn posted run1 d run2 p =
      let same : IsSameGrid m posted =
        IsSameGrid-trans m drawn posted (frame-IsSameGrid m drawn _ d.frame (unchanged m))
          (frame-IsSameGrid drawn posted _ p.frame (unchanged drawn)) in
      let valid2 = IsSearchable-same m posted same valid in
      let valid3 = IsSearchable-same posted (with_counts posted) (unchanged posted) valid2 in
      let (explored, run4, x) = update_routes-Explores (with_counts posted) valid3 in
      let valid4 =
        IsSearchable-same posted explored
          (frame-IsSameGrid posted explored _ x.frame (unchanged posted)) valid2 in
      (
        with_string explored,
        vectors_lem m drawn posted explored run1 run2 (update_wall_count_lem posted valid2.cells)
            run4 (update_mz_string_lem explored valid4.cells),
        record {
          drawn = drawn;
          draws = d;
          posted = posted;
          posts = p;
          explored = explored;
          explores = x;
          written = refl;
        },
      )

  -- On a searchable maze whose picture fits the array `updateVectors` returns.
  pub update_vectors-Updates : (m' : Maze) × (Load.update_vectors m ≡ ok m') × Updates m m'
  update_vectors-Updates =
      let full : IsFull m = record { grid = valid.grid; cells = valid.cells } in
      let (drawn, posted, run1, d, run2, p) = viewed m full small in
      from_posts drawn posted run1 d run2 p
