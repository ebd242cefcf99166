-- ===== src/Maze/Generate/Border.antt =====
-- The loop of `addRandomEntrance` and of `addRandomExit`: the walls of a column.
pub mod Ways
pub mod Entrance
use test.Prelude.{
  ℕ, zero, suc, ◌+◌, ◌-◌, ◌*◌, ◌/◌, ◌%◌, ◌≤◌, ◌<◌, ◌≡◌, ◌≢◌, ◌∙◌, refl, sym, ap, subst,
}
use test.Prelude.{inl, inr, arith, Bool, false, not, ◌&&◌, List, [], ◌∷◌}
use test.Prelude.Tests.{ltb, ◌==◌, if◌then◌else◌, Bool-cases, ==→≡, ==→≢}
use test.Prelude.Lists.{length, set, length-set, get_or-set_self, get_or-set_ne}
use test.Prelude.Results.{ok, at-get_or, Returns, Returns-value, Returns-for_range, for_range}
use native.Mathlib.Nat.{add-mul-mod_self_right, div-add-mod', mod-eq_of_lt, mul-le-mul_right}
use test.Prelude.Int.{ℤ, increment}
use test.Cell.{Cell}
use test.Maze.State.{Maze}
use test.Maze.Grid.Laws.{IsGrid}
use test.Maze.Check.Compatible.{IsFull, cell}
use test.Maze.Generate
use test.Maze.Generate.{Game, add_side}

abbrev with_cells : List Cell → ℤ → Maze → Maze
with_cells cells n m = record m { cl_matrix = cells; n_walls = n }

-- The walls on the side `side` of the cells of column `x`, but not of the cell `r`, in the rows below
-- `rows`; `m'` is `m` with these walls.
pub record Closes (side x r rows : ℕ) (m m' : Maze) : Type 0 where
  pub frame : m' ≡ record m { cl_matrix = m'.cl_matrix; n_walls = m'.n_walls }
  pub size : length m'.cl_matrix ≡ length m.cl_matrix
  pub cells :
      (c : ℕ)
      → cell m' c ≡ (
          if c % m.width == x && ltb (c / m.width) rows && not (c == r)
          then add_side side (cell m c)
          else cell m c)

module _ (side x r : ℕ) (m : Maze) (f : IsFull m) (inside : x < m.width) where
  open f use {grid}

  place-lt : (k : ℕ) → k < m.height → x + k * m.width < m.total_cells
  place-lt k h = omega (arith, grid.total, mul-le-mul_right m.width h)

  place_mod : (k : ℕ) → (x + k * m.width) % m.width ≡ x
  place_mod k = add-mul-mod_self_right x k m.width ∙ mod-eq_of_lt inside

  place_div : (k : ℕ) → (x + k * m.width) / m.width ≡ k
  place_div k = grind arith

  -- Whether the cell `c` has its wall after the rows below `rows`.
  abbrev is_closed : ℕ → ℕ → Bool
  is_closed rows c = c % m.width == x && ltb (c / m.width) rows && not (c == r)

  own_row : (k : ℕ) → is_closed (k + 1) (x + k * m.width) ≡ not (x + k * m.width == r)
  own_row k = ground (arith, place_mod k, place_div k)

  own_row_before : (k : ℕ) → is_closed k (x + k * m.width) ≡ false
  own_row_before k = ground (arith, place_div k)

  other_row : (k c : ℕ) → c ≢ x + k * m.width → is_closed (k + 1) c ≡ is_closed k c
  other_row k c ne =
      let same_row : c / m.width ≡ k → c / m.width * m.width ≡ k * m.width =
        ap (λ (t : ℕ). t * m.width) in
      ground (arith, div-add-mod' c m.width, same_row)

  abbrev closed_cell : ℕ → ℕ → Cell
  closed_cell rows c = if is_closed rows c then add_side side (cell m c) else cell m c

  own_cell :
      (k : ℕ) (old new : Cell)
      → old ≡ closed_cell k (x + k * m.width)
      → new ≡ (if x + k * m.width == r then old else add_side side old)
      → new ≡ closed_cell (k + 1) (x + k * m.width)
  own_cell k old new e here =
      let p = x + k * m.width in
      let was : old ≡ cell m p =
        e ∙ ap (λ b. if b then add_side side (cell m p) else cell m p) (own_row_before k) in
      elim (Bool-cases (p == r)) [
        | inl er ↦ rw (here, own_row k, er) was
        | inr er ↦ rw (here, own_row k, er) (ap (add_side side) was)
      ]

  cells_after :
      (k : ℕ) (cells cells' : ℕ → Cell)
      → ((c : ℕ) → cells c ≡ closed_cell k c)
      → cells' (x + k * m.width) ≡ (
          if x + k * m.width == r
          then cells (x + k * m.width)
          else add_side side (cells (x + k * m.width)))
      → ((c : ℕ) → c ≢ x + k * m.width → cells' c ≡ cells c)
      → (c : ℕ) → cells' c ≡ closed_cell (k + 1) c
  cells_after k cells cells' old here elsewhere c = elim (Bool-cases (c == x + k * m.width)) [
    | inl e ↦
        subst (λ c. cells' c ≡ closed_cell (k + 1) c) (sym (==→≡ c (x + k * m.width) e))
          (own_cell k _ _ (old (x + k * m.width)) here)
    | inr e ↦
        let ne = ==→≢ c (x + k * m.width) e in
        elsewhere c ne
        ∙ old c
        ∙ ap (λ b. if b then add_side side (cell m c) else cell m c) (sym (other_row k c ne))
  ]

  close_one :
      (k : ℕ) (m' : Maze)
      → k < m.height
      → Closes side x r k m m'
      → Returns (Closes side x r (k + 1) m) (Generate.close_border side r (x + k * m.width) m')
  unfolding Generate.close_border
  close_one k m' hk h =
      let p = x + k * m.width in
      let lt : p < length m'.cl_matrix = omega (arith, h.size, f.cells, place-lt k hk) in
      elim (Bool-cases (p == r)) [
        | inl er ↦ rw er (record {
          frame = h.frame;
          size = h.size;
          cells = cells_after k (cell m') (cell m') h.cells (rw er refl) (λ c ne. refl);
        })
        | inr er ↦
            rw (er, at-get_or m'.cl_matrix p (record { char = b'0'; human_char = b'0' }) lt)
              (record {
                frame =
                    ap
                      (with_cells (set m'.cl_matrix p (add_side side (cell m' p)))
                        (increment m'.n_walls))
                      h.frame;
                size = length-set m'.cl_matrix p _ ∙ h.size;
                cells =
                    cells_after k (cell m')
                      (cell
                        (record m' { cl_matrix = set m'.cl_matrix p (add_side side (cell m' p)) }))
                      h.cells (rw er (get_or-set_self m'.cl_matrix p _ _ lt))
                      (λ c ne. get_or-set_ne m'.cl_matrix p c _ _ ne);
              })
      ]

  pub all_rows :
      (position : ℕ → ℕ)
      → ((k : ℕ) → position k ≡ x + k * m.width)
      → Returns
          (Closes side x r m.height m)
          (for_range m.height 0 (λ k. Generate.close_border side r (position k)) m)
  all_rows position places =
      Returns-for_range (λ k. Closes side x r k m) (λ k. Generate.close_border side r (position k))
        m.height (λ k m' hk h. rw (places k) (close_one k m' hk h)) m.height 0 m (omega arith)
        (record {
          frame = refl;
          size = refl;
          cells = λ c.
              let none : is_closed 0 c ≡ false = ground arith in
              ap (λ b. if b then add_side side (cell m c) else cell m c) (sym none);
        })
