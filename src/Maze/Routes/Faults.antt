-- ===== src/Maze/Routes/Faults.antt =====
-- The exception of `updateRoutes` when the way in is not on the right edge.
use test.Prelude.{ℕ, zero, suc, ◌+◌, ◌<◌, ◌≡◌, ◌≢◌, refl, ◌∙◌, inl, inr, arith}
use test.Prelude.{true, false, not, ◌&&◌, Bool, List, [], ◌∷◌}
use test.Prelude.Tests.{Bool-cases, ◌==◌, ≡→==, if◌then◌else◌}
use test.Prelude.Lists.{length, length-set, length-tabulate}
use test.Prelude.Int.{pos}
use test.Prelude.Results.{ok, err, at-lt, Returns, Returns-value, out_of_range}
use test.Cell
use test.Cell.{Cell}
use test.Maze.State.{Maze}
use test.Maze.Grid
use test.Maze.Grid.Laws.{neighbour_top-lt, neighbour_bottom-lt}
use test.Maze.Check.Compatible.{IsFull, cell, at-cell}
use test.Maze.Routes
use test.Maze.Routes.{Search}

Bool_and_false : (b : Bool) → (b && false) ≡ false
Bool_and_false true = refl
Bool_and_false false = refl

abbrev IsSized : Maze → Search → Type 0
IsSized m s = length s.visited ≡ m.total_cells

try_neighbour-IsSized :
    (m : Maze) (i : ℕ) (route : List ℕ) (nb : ℕ) (s : Search)
    → nb < m.total_cells
    → IsSized m s
    → Returns (IsSized m) (Routes.try_neighbour m i route (pos nb) s)
unfolding Routes.try_neighbour Routes.extend
try_neighbour-IsSized m i route nb s lt size =
    let (seen, e) = at-lt s.visited nb (omega (arith, size)) in
    elim (Bool-cases seen) [
      | inl yes_seen ↦ rw (e, yes_seen) size
      | inr new_cell ↦ rw (e, new_cell) (length-set s.visited nb true ∙ size)
    ]

try_if :
    (m : Maze) (i : ℕ) (route : List ℕ) (open_side : Bool) (nb : ℕ) (s : Search)
    → nb < m.total_cells
    → IsSized m s
    → (s' : Search) × ((if open_side then Routes.try_neighbour m i route (pos nb) s else ok s)
        ≡ ok s')
      × IsSized m s'
try_if m i route true nb s lt size =
    Returns-value _ _ (try_neighbour-IsSized m i route nb s lt size)
try_if m i route false nb s lt size = (s, refl, size)

module _ (m : Maze) (f : IsFull m) (inside : m.entrance < m.total_cells)
    (edge : Grid.is_left_edge m m.entrance ≡ true)
    (no_wall : Cell.has_left_wall (cell m m.entrance) ≡ false) (other : m.entrance ≢ m.exit) where
  scan_entrance :
      (s : Search) → IsSized m s → Routes.scan_route m 0 (m.entrance ∷ []) s ≡ err out_of_range
  unfolding Routes.scan_route Routes.try_neighbour Grid.neighbour_left
  scan_entrance s size =
      let c = m.entrance in
      let own : (c == c) ≡ true = ≡→== c c refl in
      let not_exit : (c == m.exit) ≡ false = ground arith in
      let (s1, e1, z1) =
        try_if m 0 (c ∷ []) (not (Cell.has_top_wall (cell m c))) (Grid.neighbour_top m c) s
          (neighbour_top-lt m f.grid c inside) size in
      let (s2, e2, z2) =
        try_if m 0 (c ∷ []) (not (Cell.has_bottom_wall (cell m c))) (Grid.neighbour_bottom m c) s1
          (neighbour_bottom-lt m f.grid c inside) z1 in
      rw (
        at-cell m f c inside,
        e1,
        own,
        Bool_and_false (not (Cell.has_right_wall (cell m c))),
        e2,
        no_wall,
        not_exit,
        edge,
      )

  search_loop_fault :
      (fuel : ℕ) → 0 < fuel → Routes.search_loop m fuel (Routes.start m) ≡ err out_of_range
  unfolding Routes.search_loop Routes.start
  search_loop_fault zero h = absurd (omega arith)
  search_loop_fault (suc fuel) h = rw (
      scan_entrance (record (Routes.start m) { erase = []; erased = false })
        (length-tabulate m.total_cells 0 (λ i. i == m.entrance)))

  -- In a full matrix, when the entrance is a cell on the left edge without a wall on its left and is
  -- not the exit, updateRoutes raises the exception of `vector::at`.
  pub update_routes_fault : Routes.update_routes m ≡ err out_of_range
  unfolding Routes.update_routes
  update_routes_fault = rw (search_loop_fault (m.total_cells + 1) (omega arith))
