-- ===== src/Maze/Generate/Border/Entrance.antt =====
-- `addRandomEntrance` on a maze whose last column has no walls on its right.
use test.Prelude.{ℕ, ◌-◌, ◌/◌, ◌%◌, ◌<◌, ◌≡◌, ◌≢◌, ◌∙◌, refl, sym, ap, arith}
use test.Prelude.{Bool, true, false, not, ◌&&◌, List, ◌∷◌}
use test.Prelude.Tests.{ltb, ◌==◌, if◌then◌else◌}
use test.Prelude.Results.{ok}
use native.Mathlib.Nat.{div-lt_iff_lt-mul, mod-eq_of_lt, mul-add-mod_self_right}
use test.Cell
use test.Cell.Walls.{Walls, of_walls, put, add_wall_at_side-of_walls, has_right_wall-of_walls}
use test.Maze.State.{Maze}
use test.Maze.Check.Compatible.{IsFull, cell}
use test.Maze.Generate
use test.Maze.Generate.{add_side}
use test.Maze.Generate.Border.Ways.{way_at, add_random_entrance-Closes}

-- The cell has some walls, but none on its right.
abbrev pub IsFreeRight : Maze → ℕ → Walls → Type 0
IsFreeRight m c w = (cell m c ≡ of_walls w) × (w.right ≡ false)

abbrev pub AreFreeRight : Maze → Type 0
AreFreeRight m =
    (c : ℕ) → c < m.total_cells → c % m.width ≡ m.width - 1 → (w : Walls) × IsFreeRight m c w

-- What `add_random_entrance` makes of `m` with the draw `d`.
pub record Encloses (m : Maze) (d : ℕ) (m' : Maze) : Type 0 where
  pub frame :
      m' ≡ record m { entrance = m'.entrance; cl_matrix = m'.cl_matrix; n_walls = m'.n_walls }
  pub inside : m'.entrance < m.total_cells
  pub place : (m'.entrance % m.width ≡ m.width - 1) × (m'.entrance / m.width ≡ d % m.height)
  pub way_in : Cell.has_right_wall (cell m' m'.entrance) ≡ false
  pub closed :
      (c : ℕ)
      → c < m.total_cells
      → c % m.width ≡ m.width - 1
      → c ≢ m'.entrance
      → Cell.has_right_wall (cell m' c) ≡ true
  pub others : (c : ℕ) → (c % m.width ≢ m.width - 1) → cell m' c ≡ cell m c

right_added :
    (cl : Cell.Cell) (w : Walls)
    → cl ≡ of_walls w
    → w.right ≡ false
    → Cell.has_right_wall (add_side 1 cl) ≡ true
right_added cl w e free =
    ap (λ cl. Cell.has_right_wall (add_side 1 cl)) e
    ∙ ap Cell.has_right_wall (add_wall_at_side-of_walls w 1 (omega arith) free)
    ∙ has_right_wall-of_walls (put w 1 true)

-- What becomes of a cell: of the entrance `r`, of another cell of the last column, and of one of
-- another column.
module _ (m : Maze) (r : ℕ) where
  abbrev is_walled : ℕ → Bool
  is_walled c = c % m.width == m.width - 1 && ltb (c / m.width) m.height && not (c == r)

  abbrev after : ℕ → Cell.Cell
  after c = if is_walled c then add_side 1 (cell m c) else cell m c

  entrance_kept : after r ≡ cell m r
  entrance_kept = let e : is_walled r ≡ false = ground arith in rw e refl

  wall_added :
      (c : ℕ)
      → c % m.width ≡ m.width - 1
      → c / m.width < m.height
      → c ≢ r
      → after c ≡ add_side 1 (cell m c)
  wall_added c column low other = let e : is_walled c ≡ true = ground arith in rw e refl

  column_kept : (c : ℕ) → c % m.width ≢ m.width - 1 → after c ≡ cell m c
  column_kept c column = let e : is_walled c ≡ false = ground arith in rw e refl

module _ (m : Maze) (d : ℕ) (f : IsFull m) where
  way_column : way_at m (m.width - 1) d % m.width ≡ m.width - 1
  way_column =
      mul-add-mod_self_right (d % m.height) m.width (m.width - 1)
      ∙ mod-eq_of_lt (omega (arith, f.grid.wide))

  way_row : way_at m (m.width - 1) d / m.width ≡ d % m.height
  way_row = grind (arith, f.grid.wide)

  -- On a full matrix whose last column has sets of walls without the right one, addRandomEntrance
  -- takes one draw and returns; the entrance is a cell of the last column, in the row that the draw
  -- names, modulo the height, and has no wall on its right; each other cell of the last column has
  -- one; no cell of another column changes, and no field but the entrance, the matrix and the count
  -- of the walls.
  pub add_random_entrance-Encloses :
      (draws : List ℕ)
      → AreFreeRight m
      → (m' : Maze) × (Generate.add_random_entrance (record { maze = m; draws = d ∷ draws })
          ≡ ok (record { maze = m'; draws = draws }))
        × Encloses m d m'
  add_random_entrance-Encloses draws free =
      let r = way_at m (m.width - 1) d in
      let (m', run, lt, closes) = add_random_entrance-Closes m d draws f in
      let here : m'.entrance ≡ r = ap (λ m. m.entrance) closes.frame in
      let (w, (e, no_wall)) = free r lt way_column in
      (
        m',
        run,
        record {
          frame =
              closes.frame
              ∙ ap (λ r. record m { entrance = r; cl_matrix = m'.cl_matrix; n_walls = m'.n_walls })
                  (sym here);
          inside = rw here lt;
          place = (rw here way_column, rw here way_row);
          way_in =
              ap (λ c. Cell.has_right_wall (cell m' c)) here
              ∙ ap Cell.has_right_wall (closes.cells r ∙ entrance_kept m r)
              ∙ ap Cell.has_right_wall e
              ∙ has_right_wall-of_walls w
              ∙ no_wall;
          closed = λ c hc column other.
              let (v, (k, free_right)) = free c hc column in
              let low : c / m.width < m.height =
                (div-lt_iff_lt-mul f.grid.wide).1 (omega (arith, f.grid.total)) in
              ap Cell.has_right_wall
                (closes.cells c ∙ wall_added m r c column low (λ k. other (k ∙ sym here)))
              ∙ right_added (cell m c) v k free_right;
          others = λ c column. closes.cells c ∙ column_kept m r c column;
        },
      )
