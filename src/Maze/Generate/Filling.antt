-- ===== src/Maze/Generate/Filling.antt =====
-- `fillWalllessCells` on a maze that is built.
use test.Prelude.{
  ℕ, ◌<◌, ◌≡◌, ◌≢◌, ◌∙◌, ◌⊎◌, refl, sym, ap, inl, inr, arith, false, subst, List, ⊎_elim,
}
use test.Prelude.Lists.{◌∈◌}
use test.Prelude.Results.{ok, at}
use test.Maze.State.{Maze}
use test.Maze.Grid
use test.Maze.Grid.Laws.{IsGrid, cell_at-lt, neighbours_lem}
use test.Maze.Visual.Pixels.{Draws}
use test.Maze.Visual.Problems.{CountsPosts}
use test.Maze.Load.Frames.{IsSameGrid, IsSameGrid-sym, IsSmall, IsSmall-same}
use test.Maze.Load.Vectors.{update_vectors-Updates, Updates-verdict}
use test.Maze.Generate
use test.Maze.Generate.Shape.{Sides}
use test.Maze.Generate.Walled.{IsWalled, IsWalled-same, IsWalled-IsSearchable, with_cells}
use test.Maze.Generate.Gaps.{IsGap, problem_IsGap, problems_distinct}
use test.Maze.Generate.Fill.{IsFixable, fill_all}
use test.Maze.Generate.Detour.{Reach-filled}
use test.Maze.Generate.Build.{IsBuilt, IsBuilt-Updates}

IsGap-same :
    (m m' : Maze) (has : Sides) (k c : ℕ) → IsSameGrid m m' → IsGap m has k c → IsGap m' has k c
IsGap-same m m' has k c same g = record {
  x = g.x;
  row = g.row;
  inner = rw same.0 g.inner;
  low = rw same.1 g.low;
  post = rw same.0 g.post;
  place = rw same.0 g.place;
  free = g.free;
  free_below = rw same.0 g.free_below;
  down_left = rw same.0 g.down_left;
  down_right = rw same.0 g.down_right;
}

gap-IsFixable :
    (m : Maze) (has : Sides) (problems : List ℕ)
    → IsGrid m
    → ((c : ℕ) → c ∈ problems → (k : ℕ) × IsGap m has k c)
    → ((i j a b : ℕ) → i < j → at problems i ≡ ok a → at problems j ≡ ok b → b ≢ a)
    → IsFixable m has problems
gap-IsFixable m has problems grid gaps apart = record {
  inside = λ c q.
      let (k, g) = gaps c q in
      let lt : g.x < m.width = omega (arith, g.inner) in
      let hr : g.row < m.height = omega (arith, g.low) in
      (
        subst (λ c. c < m.total_cells) (sym g.place) (cell_at-lt m grid g.x g.row lt hr),
        ap (Grid.is_right_edge m) g.place
            ∙ (neighbours_lem m grid g.x g.row lt hr).right_edge
            ∙ (ground (arith, g.inner)),
        g.free,
      );
  distinct = apart;
}

module _ (m : Maze) (columns rows : ℕ) (b : IsBuilt columns rows m) where
  open b.current use {before, after, updates, same}

  before-IsWalled : IsWalled before b.has
  before-IsWalled = IsWalled-same m before b.has (IsSameGrid-sym before m same) b.walled

  before-IsSmall : IsSmall before
  before-IsSmall = IsSmall-same m before (IsSameGrid-sym before m same) b.small

  drawn_before : Draws before (record before { cl_matrix_visual = updates.drawn.cl_matrix_visual })
  drawn_before = subst (Draws before) updates.draws.frame updates.draws

  posted_before :
      CountsPosts
        (record before { cl_matrix_visual = updates.drawn.cl_matrix_visual })
        updates.posted
  posted_before = subst (λ n. CountsPosts n updates.posted) updates.draws.frame updates.posts

  problems_eq : m.intersection_problems ≡ updates.posted.intersection_problems
  problems_eq =
      b.current.problems
      ∙ ap (λ m. m.intersection_problems) updates.written
      ∙ ap (λ m. m.intersection_problems) updates.explores.frame

  gaps : (c : ℕ) → c ∈ m.intersection_problems → (k : ℕ) × IsGap m b.has k c
  gaps c q =
      let (k, g) =
        problem_IsGap before b.has before-IsWalled before-IsSmall _ drawn_before updates.posted
          posted_before c (subst (λ l. c ∈ l) problems_eq q) in
      (k, IsGap-same before m b.has k c same g)

  apart :
      (i j a c : ℕ)
      → i < j
      → at m.intersection_problems i ≡ ok a
      → at m.intersection_problems j ≡ ok c
      → c ≢ a
  apart i j a c lt ei ej =
      problems_distinct before b.has before-IsWalled before-IsSmall _ drawn_before updates.posted
        posted_before i j a c lt (ap (λ l. at l i) (sym problems_eq) ∙ ei)
        (ap (λ l. at l j) (sym problems_eq) ∙ ej)

  -- On a maze that is built fillWalllessCells returns and leaves one that is built, of the same
  -- size: the walls that it adds keep the neighbours in agreement and cut no cell off.
  pub fill_wallless_cells-Built :
      (m' : Maze) × (Generate.fill_wallless_cells m ≡ ok m') × IsBuilt columns rows m'
  unfolding Generate.fill_wallless_cells
  fill_wallless_cells-Built =
      let problems = m.intersection_problems in
      let fixable = gap-IsFixable m b.has problems b.walled.grid gaps apart in
      let (cells, run, f) = fill_all m b.has problems fixable b.walled in
      let n : Maze = with_cells cells m.n_walls m in
      let small : IsSmall n = record {
        columns = b.small.columns;
        lines = b.small.lines;
        narrow = b.small.narrow;
        low = b.small.low;
      } in
      let (m', run', u) =
        update_vectors-Updates n (IsWalled-IsSearchable n f.more f.walled) small in
      let beside : (c : ℕ)
          → b.has c 1 ≡ false
          → (f.more c 1 ≡ false) ⊎ ((k : ℕ) × IsGap m b.has k c) =
        λ c e. ⊎_elim inl (λ q. inr (gaps c q)) (f.beside c e) in
      (
        m',
        rw (run, run') refl,
        IsBuilt-Updates columns rows n m' f.more f.walled small b.size u (
            (Updates-verdict u).1 (λ d lt.
              Reach-filled m b.has b.walled cells f.more f.walled f.top f.bottom beside
                (b.reached d lt))),
      )
