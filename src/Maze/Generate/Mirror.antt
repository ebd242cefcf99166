-- ===== src/Maze/Generate/Mirror.antt =====
-- The other side of a new wall: it is put there too, or both sides are taken back.
use test.Prelude.{ℕ, ◌<◌, ◌≡◌, ◌∙◌, ◌⊎◌, sym, inl, inr, arith, Bool, true, false, List}
use test.Prelude.Tests.{ltb, Bool-cases}
use test.Prelude.Int.{ℤ, decrement}
use test.Prelude.Results.{ok}
use test.Cell
use test.Cell.{Cell}
use test.Cell.Walls.{of_walls}
use test.Maze.State.{Maze}
use test.Maze.Generate
use test.Maze.Generate.{mirrored, add_side, remove_side, modify}
use test.Maze.Generate.Shape.{
  Sides, IsShaped, walls_of, put_side, at-shape, modify-add_side, modify-remove_side, cells-eq,
}
use test.Maze.Generate.Sides.{Beyond, mirror}
use test.Maze.Generate.Pairs.{put_pair, mirrored-lt, mirrored-ne}
use test.Maze.Generate.Walled.{IsWalled, with_cells}

undone :
    (has : Sides) (c s nb d t : ℕ)
    → has c s ≡ false
    → has nb (mirrored s) ≡ false
    → put_side nb (mirrored s) false (put_side c s false (put_pair c s nb true has)) d t ≡ has d t
undone has c s nb d t free free_there = ground arith

module _ (m : Maze) (has : Sides) (w : IsWalled m has) (c s nb : ℕ) (hc : c < m.total_cells)
    (hs : s < 4) (across : Beyond m c s nb) where
  open w use {grid, shaped, matched}

  nb-lt : nb < m.total_cells
  nb-lt = (mirror m grid c hc s nb hs across).0

  other_side : (b : Bool) → put_side c s b has nb (mirrored s) ≡ has nb (mirrored s)
  other_side b = let ne = mirrored-ne s hs in ground arith

  -- The wall is taken from both sides.
  pub take_pair :
      (cells : List Cell)
      → has c s ≡ false
      → IsShaped m.total_cells (put_pair c s nb true has) cells
      → (cells1 : List Cell) × (modify cells c (remove_side s) ≡ ok cells1)
        × (modify cells1 nb (remove_side (mirrored s)) ≡ ok m.cl_matrix)
  take_pair cells free both =
      let ne = mirrored-ne s hs in
      let free_there : has nb (mirrored s) ≡ false = sym (matched c s nb hc hs across) ∙ free in
      let there : put_pair c s nb true has c s ≡ true = ground arith in
      let (cells1, e1, shaped1) = modify-remove_side m.total_cells _ cells both c s hc hs there in
      let there' : put_side c s false (put_pair c s nb true has) nb (mirrored s) ≡ true =
        ground arith in
      let (cells2, e2, shaped2) =
        modify-remove_side m.total_cells _ cells1 shaped1 nb (mirrored s) nb-lt (mirrored-lt s)
          there' in
      let back_again : cells2 ≡ m.cl_matrix =
        cells-eq m.total_cells has m.cl_matrix shaped _ cells2 shaped2
          (λ d t hd ht. undone has c s nb d t free free_there) in
      (cells1, e1, rw (← back_again) e2)

  -- The wall on the other side: it is put there too, or both are taken back.
  pub mirror_wall_cases :
      (cells1 : List Cell) (n : ℤ)
      → has c s ≡ false
      → IsShaped m.total_cells (put_side c s true has) cells1
      → ((n' : ℤ) × (Generate.mirror_wall (with_cells cells1 n m) c s nb
            ≡ ok (false, with_cells m.cl_matrix n' m)))
        ⊎ ((cells : List Cell) × (Generate.mirror_wall (with_cells cells1 n m) c s nb
              ≡ ok (true, with_cells cells n m))
            × IsShaped m.total_cells (put_pair c s nb true has) cells)
  unfolding Generate.mirror_wall
  mirror_wall_cases cells1 n free one =
      let free_there : put_side c s true has nb (mirrored s) ≡ false =
        other_side true ∙ sym (matched c s nb hc hs across) ∙ free in
      let (cells, e, both) =
        modify-add_side m.total_cells _ cells1 one nb (mirrored s) nb-lt (mirrored-lt s)
          free_there in
      let seen = at-shape m.total_cells _ cells both nb nb-lt in
      let many =
        ltb m.n_max_walls
          (Cell.get_number_of_walls (of_walls (walls_of (put_pair c s nb true has) nb))) in
      elim (Bool-cases many) [
        | inl too_many ↦
            let (cells2, e1, e2) = take_pair cells free both in
            inl (decrement n, rw (e, seen, too_many, e1, e2))
        | inr few ↦ inr (cells, rw (e, seen, few), both)
      ]
