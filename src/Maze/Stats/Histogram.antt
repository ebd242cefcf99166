-- ===== src/Maze/Stats/Histogram.antt =====
-- What `calculateMazeAndRouteStats` computes.
use test.Prelude.{ℕ, zero, suc, ◌+◌, ◌/◌, ◌≤◌, ◌<◌, ◌≡◌, ◌≢◌, refl, ap, ◌∙◌, arith}
use test.Prelude.{◌-◌, Bool, not, ◌&&◌}
use test.Prelude.{inl, inr, List, [], ◌∷◌}
use test.Prelude.Tests.{◌==◌, if◌then◌else◌}
use test.Prelude.Lists.{get_or, length, set, tabulate, length-tabulate, ◌∈◌}
use test.Prelude.Results.{ok}
use test.Prelude.Loops.{at-tabulate}
use test.Maze.State.{Maze}
use test.Maze.Grid
use test.Maze.Grid.Laws.{IsGrid}
use test.Maze.Stats
use native.Mathlib.Nat.{div-lt_iff_lt-mul}

-- The cells of the route that lie in a row.
abbrev pub cells_in_row : Maze → ℕ → List ℕ → ℕ
cells_in_row m row [] = 0
cells_in_row m row (cell ∷ route) =
    (if row == cell / m.width then 1 else 0) + cells_in_row m row route

tabulate-congr : {f g : ℕ → ℕ} (n i : ℕ) → ((k : ℕ) → f k ≡ g k) → tabulate n i f ≡ tabulate n i g
tabulate-congr zero i h = refl
tabulate-congr (suc n) i h = let rest = tabulate-congr n (i + 1) h in let first = h i in cc

-- Behind the entry that counts one more, nothing changes.
tabulate_above :
    (n i r : ℕ) (f : ℕ → ℕ)
    → r < i
    → tabulate n i f ≡ tabulate n i (λ k. f k + (if k == r then 1 else 0))
tabulate_above zero i r f h = refl
tabulate_above (suc n) i r f h =
    let rest = tabulate_above n (i + 1) r f (omega arith) in
    let first : f i ≡ f i + (if i == r then 1 else 0) = ground arith in cc

set-tabulate :
    (n i k r : ℕ) (f : ℕ → ℕ)
    → r ≡ i + k
    → set (tabulate n i f) k (f r + 1) ≡ tabulate n i (λ j. f j + (if j == r then 1 else 0))
set-tabulate zero i k r f e = refl
set-tabulate (suc n) i zero r f e =
    let rest = tabulate_above n (i + 1) r f (omega arith) in
    let e' : r ≡ i = omega arith in
    let first : f r + 1 ≡ f i + (if i == r then 1 else 0) = rw e' (ground arith) in cc
set-tabulate (suc n) i (suc k) r f e =
    let rest = set-tabulate n (i + 1) k r f (omega arith) in
    let first : f i ≡ f i + (if i == r then 1 else 0) = ground arith in cc

module _ (m : Maze) (g : IsGrid m) where
  row-lt : (c : ℕ) → c < m.total_cells → c / m.width < m.height
  row-lt c h = (div-lt_iff_lt-mul g.wide).1 (omega (arith, g.total))

  fill_histogram_lem :
      (f : ℕ → ℕ) (route : List ℕ)
      → ((c : ℕ) → c ∈ route → c < m.total_cells)
      → Stats.fill_histogram m route (tabulate m.height 0 f)
        ≡ ok (tabulate m.height 0 (λ r. f r + cells_in_row m r route))
  unfolding Stats.fill_histogram Grid.get_row_number
  fill_histogram_lem f [] h = ap ok (tabulate-congr m.height 0 (λ k. omega arith))
  fill_histogram_lem f (c ∷ route) h =
      let row = c / m.width in
      let lt = row-lt c (h c (inl refl)) in
      rw
        (
          at-tabulate m.height 0 row row f lt (omega arith),
          set-tabulate m.height 0 row row f (omega arith),
        )
        (fill_histogram_lem (λ j. f j + (if j == row then 1 else 0)) route (λ d q. h d (inr q))
          ∙ ap ok (tabulate-congr m.height 0 (λ k. omega arith)))

count_used-le : (ns : List ℕ) → Stats.count_used ns ≤ length ns
unfolding Stats.count_used
count_used-le [] = omega arith
count_used-le (n ∷ ns) = ground (arith, count_used-le ns)

count_opposing-lt :
    (m : Maze) (route : List ℕ) → route ≢ [] → Stats.count_opposing m route < length route
unfolding Stats.count_opposing
count_opposing-lt m [] ne = absurd (ne refl)
count_opposing-lt m (a ∷ []) ne = omega arith
count_opposing-lt m (a ∷ b ∷ route) ne = ground (arith, count_opposing-lt m (b ∷ route) (λ e. cc))

-- The `k` below `n` for which a test holds.
unfoldable pub count_below : ℕ → (ℕ → Bool) → ℕ
count_below zero test = 0
count_below (suc n) test =
    let rest = count_below n (λ k. test (suc k)) in (if test 0 then 1 else 0) + rest

count_below-congr :
    (n : ℕ) (f g : ℕ → Bool) → ((k : ℕ) → f k ≡ g k) → count_below n f ≡ count_below n g
unfolding count_below
count_below-congr zero f g h = refl
count_below-congr (suc n) f g h =
    let rest = count_below-congr n (λ k. f (suc k)) (λ k. g (suc k)) (λ k. h (suc k)) in
    rw (h 0, rest) refl

-- A number is in use if it is not 0.
abbrev pub is_used : ℕ → Bool
is_used n = not (n == 0)

count_used-tabulate :
    (n i : ℕ) (f : ℕ → ℕ)
    → Stats.count_used (tabulate n i f) ≡ count_below n (λ k. is_used (f (i + k)))
unfolding Stats.count_used count_below
count_used-tabulate zero i f = refl
count_used-tabulate (suc n) i f =
    let rest : Stats.count_used (tabulate n (i + 1) f)
        ≡ count_below n (λ k. is_used (f (i + suc k))) =
      count_used-tabulate n (i + 1) f
      ∙ count_below-congr n _ _
          (λ k. let e : i + 1 + k ≡ i + suc k = omega arith in ap (λ j. is_used (f j)) e) in
    let here : i + 0 ≡ i = omega arith in rw (rest, here) (ground arith)

-- The cell behind place `k` of the route is the next one of the same row.
abbrev pub goes_right : Maze → List ℕ → ℕ → Bool
goes_right m route k =
    get_or route (suc k) 0 == get_or route k 0 + 1
    && get_or route (suc k) 0 / m.width == get_or route k 0 / m.width

is_left_of_lem :
    (m : Maze) (a b : ℕ) → Grid.is_left_of m a b ≡ (b == a + 1 && b / m.width == a / m.width)
unfolding Grid.is_left_of Grid.get_row_number
is_left_of_lem m a b = ground arith

count_opposing-cons :
    (m : Maze) (a : ℕ) (route : List ℕ)
    → Stats.count_opposing m (a ∷ route) ≡ count_below (length route) (goes_right m (a ∷ route))
unfolding Stats.count_opposing count_below
count_opposing-cons m a [] = refl
count_opposing-cons m a (b ∷ route) = rw (count_opposing-cons m b route, is_left_of_lem m a b) refl

count_opposing_lem :
    (m : Maze) (route : List ℕ)
    → Stats.count_opposing m route ≡ count_below (length route - 1) (goes_right m route)
unfolding Stats.count_opposing count_below
count_opposing_lem m [] = refl
count_opposing_lem m (a ∷ route) =
    let e : length route ≡ suc (length route) - 1 = omega arith in
    count_opposing-cons m a route ∙ ap (λ n. count_below n (goes_right m (a ∷ route))) e

-- What `calculate_maze_and_route_stats` does to `m`: the cells of the best route in each row, the
-- rows that have one, and the steps to the right, of which there are fewer than cells.
pub record Measures (m m' : Maze) : Type 0 where
  pub frame : m' ≡ record m {
    row_histogram = m'.row_histogram;
    rows_utilized = m'.rows_utilized;
    n_opposing_steps = m'.n_opposing_steps;
    best_route_coverage = record { part = length m.best_route; whole = m.total_cells };
    best_route_rows_utilized = record { part = m'.rows_utilized; whole = m.height };
  }
  pub histogram : m'.row_histogram ≡ tabulate m.height 0 (λ r. cells_in_row m r m.best_route)
  pub used : m'.rows_utilized ≡ count_below m.height (λ r. is_used (cells_in_row m r m.best_route))
  pub used-le : m'.rows_utilized ≤ m.height
  pub opposing :
      m'.n_opposing_steps ≡ count_below (length m.best_route - 1) (goes_right m m.best_route)
  pub opposing-lt : m.best_route ≢ [] → m'.n_opposing_steps < length m.best_route

-- For a grid and a best route of cells of the grid, calculateMazeAndRouteStats returns; entry r of
-- the histogram is the number of the route's cells in row r, the utilized rows are those with a
-- cell of the route and at most all rows, the opposing steps are the places of the route at which
-- the next cell is the one to the right in the same row, fewer than cells if the route is not empty,
-- and no field but the statistics changes.
pub calculate_maze_and_route_stats-Measures :
    (m : Maze)
    → IsGrid m
    → ((c : ℕ) → c ∈ m.best_route → c < m.total_cells)
    → (m' : Maze) × (Stats.calculate_maze_and_route_stats m ≡ ok m') × Measures m m'
unfolding Stats.calculate_maze_and_route_stats
calculate_maze_and_route_stats-Measures m g h =
    let e : Stats.fill_histogram m m.best_route (tabulate m.height 0 (λ _. 0))
        ≡ ok (tabulate m.height 0 (λ r. cells_in_row m r m.best_route)) =
      fill_histogram_lem m g (λ _. 0) m.best_route h
      ∙ ap ok (tabulate-congr m.height 0 (λ k. omega arith)) in
    (
      _,
      rw e,
      record {
        frame = refl;
        histogram = refl;
        used =
            count_used-tabulate m.height 0 (λ r. cells_in_row m r m.best_route)
            ∙ count_below-congr m.height _ _ (λ k.
              let e : 0 + k ≡ k = omega arith in
              ap (λ r. is_used (cells_in_row m r m.best_route)) e);
        opposing = count_opposing_lem m m.best_route;
        used-le =
            let counts = tabulate m.height 0 (λ r. cells_in_row m r m.best_route) in
            omega (
              arith,
              count_used-le counts,
              length-tabulate m.height 0 (λ r. cells_in_row m r m.best_route),
            );
        opposing-lt = count_opposing-lt m m.best_route;
      },
    )
