-- ===== src/Maze/Load/Stages.antt =====
-- `setMZ` behind its checks: the stages of the object.
use test.Prelude.{ℕ, ◌<◌, ◌≡◌, ◌∙◌, sym, subst, ap, true, map}
use test.Prelude.Lists.{◌∈◌}
use test.Prelude.Results.{ok}
use test.Maze.Visual
use test.Maze.State.{Maze}
use test.Maze.Routes.Passage.{IsSearchable}
use test.Maze.Stats
use test.Maze.Stats.Histogram.{Measures, calculate_maze_and_route_stats-Measures}
use test.Maze.Load
use test.Maze.Load.Frames.{IsSmall, IsSearchable-same}
use test.Maze.Load.Vectors.{
  Updates, Updates-IsSameGrid, Updates-inside, Updates-string, update_vectors-Updates,
}

-- The object between the steps of `setMZ`, from the loaded matrix on: the views and the search, and
-- the statistics. The cells and the string stay.
pub record Stages (m m' : Maze) : Type 0 where
  pub updated : Maze
  pub updates : Updates m updated
  pub measures : Measures updated m'
  pub cells : m'.cl_matrix ≡ m.cl_matrix
  pub string : m'.mz_string ≡ m.mz_string

-- The string spells the matrix.
abbrev pub IsSpelled : Maze → Type 0
IsSpelled m = map Visual.wide_char m.cl_matrix ≡ m.mz_string

complete_lem :
    (m updated m' : Maze)
    → Load.update_vectors m ≡ ok updated
    → Stats.calculate_maze_and_route_stats updated ≡ ok m'
    → Load.complete m ≡ ok (record { accepted = true; maze = m' })
unfolding Load.complete
complete_lem m updated m' e1 e2 = rw (e1, e2)

module _ (m : Maze) (valid : IsSearchable m) (small : IsSmall m) (spelled : IsSpelled m) where
  from_vectors :
      (updated : Maze)
      → Load.update_vectors m ≡ ok updated
      → Updates m updated
      → (m' : Maze) × (Load.complete m ≡ ok (record { accepted = true; maze = m' })) × Stages m m'
  from_vectors updated run u =
      let same = Updates-IsSameGrid u in
      let inside : (d : ℕ) → d ∈ updated.best_route → d < updated.total_cells =
        λ d q. subst (λ n. d < n) (sym same.2) (Updates-inside u valid d q) in
      let (m', run', s) =
        calculate_maze_and_route_stats-Measures updated
          (IsSearchable-same m updated same valid).grid inside in
      (
        m',
        complete_lem m updated m' run run',
        record {
          updated = updated;
          updates = u;
          measures = s;
          cells = ap (λ m. m.cl_matrix) s.frame ∙ same.5;
          string = ap (λ m. m.mz_string) s.frame ∙ Updates-string u ∙ spelled;
        },
      )

  pub complete-Stages :
      (m' : Maze) × (Load.complete m ≡ ok (record { accepted = true; maze = m' })) × Stages m m'
  complete-Stages =
      let (updated, run, u) = update_vectors-Updates m valid small in from_vectors updated run u
