-- ===== src/Maze/Generate/Settle.antt =====
-- One call of `addRandomWall`: either the grid stays, or it has a wall more between two cells.
use test.Prelude.{◌%◌, suc, ◌≤◌, ◌++◌, ⊎_elim, ◌⊎◌, subst}
use test.Prelude.{ℕ, ◌<◌, ◌≡◌, ◌∙◌, refl, sym, ap, inl, inr, arith, Bool, true, false, List, []}
use test.Prelude.{◌∷◌}
use test.Prelude.Tests.{ltb, Bool-cases}
use test.Prelude.Lists.{set}
use test.Prelude.Int.{ℤ, pos, negsuc, increment}
use test.Prelude.Results.{ok, PlaysOr, PlaysOr-intro, PlaysOr->>=}
use test.Prelude.Draws.{NamesAll, Feeds, Feeds-append, Supplied}
use test.Cell
use test.Cell.{Cell, Drawn}
use test.Cell.Walls.{
  count, get_number_of_walls-of_walls, Walls, of_walls, put, remove_wall_at-of_walls,
  wall_at-put_self,
}
use test.Cell.Random.{Adds, Leaves, add_random_wall-Leaves}
use test.Maze.State.{Maze}
use test.Maze.Load
use test.Maze.Load.Frames.{unchanged, IsSmall}
use test.Maze.Load.Vectors.{Updates, update_vectors-Updates}
use test.Maze.Generate
use test.Maze.Generate.{Game, Attempt, mirrored, wall_neighbour}
use test.Maze.Generate.Shape.{
  Sides, IsShaped, IsShaped-set, walls_of, walls_of_at, put_side, at-shape, cells-eq,
}
use test.Maze.Generate.Sides.{Beyond, beyond, is_outside}
use test.Maze.Generate.Pairs.{put_pair}
use test.Maze.Generate.Walled.{
  IsWalled, with_cells, IsWalled-same, IsWalled-put_pair, IsWalled-IsSearchable,
}
use test.Maze.Generate.Mirror.{mirror_wall_cases}

-- What `add_random_wall` does to `m`: a wall at the border is taken back at once; or the views are
-- made anew, of the same grid or of that with a wall more between two cells.
pub data Attempted (m : Maze) (has : Sides) (a : Attempt) : Type 0 where
  refused : a.game.maze ≡ m → Attempted m has a
  kept : (n : ℤ) → Updates (with_cells m.cl_matrix n m) a.game.maze → Attempted m has a
  added :
      (c s nb : ℕ) (cells : List Cell) (n : ℤ)
      → c < m.total_cells
      → s < 4
      → Beyond m c s nb
      → has c s ≡ false
      → IsShaped m.total_cells (put_pair c s nb true has) cells
      → a.cell ≡ c
      → a.side ≡ pos s
      → Updates (with_cells cells n m) a.game.maze
      → Attempted m has a

pub across_same :
    (m : Maze) (cells : List Cell) (n : ℤ) (c s nb : ℕ)
    → Beyond m c s nb
    → Beyond (with_cells cells n m) c s nb
unfolding wall_neighbour
across_same m cells n c s nb e = e

pub IsSmall-with_cells :
    (m : Maze) (cells : List Cell) (n : ℤ) → IsSmall m → IsSmall (with_cells cells n m)
IsSmall-with_cells m cells n small = record {
  columns = small.columns;
  lines = small.lines;
  narrow = small.narrow;
  low = small.low;
}

module _ (m : Maze) (has : Sides) (w : IsWalled m has) (small : IsSmall m) (X : Type 0)
    (D : List ℕ → Type 0) where
  update_kept :
      (n : ℤ)
      → (m' : Maze) × (Load.update_vectors (with_cells m.cl_matrix n m) ≡ ok m')
        × Updates (with_cells m.cl_matrix n m) m'
  update_kept n =
      update_vectors-Updates (with_cells m.cl_matrix n m)
        (IsWalled-IsSearchable _ has (IsWalled-same m _ has (unchanged m) w))
        (IsSmall-with_cells m m.cl_matrix n small)

  -- What a call leaves, with the draws.
  abbrev Left : Attempt → Type 0
  Left a = Attempted m has a × D a.game.draws

  abbrev settled : Maze → Bool → ℕ → ℤ → List ℕ → Attempt
  settled m' b c side draws = record {
    succeeded = b;
    cell = c;
    side = side;
    game = record { maze = m'; draws = draws };
  }

  settle_nothing :
      (c : ℕ) (draws : List ℕ)
      → D draws
      → PlaysOr X Left (Generate.settle_wall m c (negsuc 0) draws)
  unfolding Generate.settle_wall
  settle_nothing c draws left_over =
      let (m', run, u) = update_kept m.n_walls in
      PlaysOr-intro X Left _ (settled m' false c (negsuc 0) draws) (rw run)
        (kept m.n_walls u, left_over)

  module _ (c s nb : ℕ) (hc : c < m.total_cells) (hs : s < 4) (across : Beyond m c s nb)
      (free : has c s ≡ false) where
    settle_lem :
        (cells1 : List Cell) (n : ℤ) (b : Bool) (m2 m' : Maze) (draws : List ℕ)
        → Generate.mirror_wall (with_cells cells1 n m) c s nb ≡ ok (b, m2)
        → Load.update_vectors m2 ≡ ok m'
        → Generate.settle_wall (with_cells cells1 n m) c (pos s) draws
          ≡ ok (settled m' b c (pos s) draws)
    unfolding Generate.settle_wall
    settle_lem cells1 n b m2 m' draws e1 e2 = rw (across_same m cells1 n c s nb across, e1, e2)

    settle_wall-Attempted :
        (cells1 : List Cell) (n : ℤ) (draws : List ℕ)
        → IsShaped m.total_cells (put_side c s true has) cells1
        → D draws
        → PlaysOr X Left (Generate.settle_wall (with_cells cells1 n m) c (pos s) draws)
    settle_wall-Attempted cells1 n draws one left_over =
        elim (mirror_wall_cases m has w c s nb hc hs across cells1 n free one) [
          | inl (n', e) ↦
              let (m', run, u) = update_kept n' in
              PlaysOr-intro X Left _ (settled m' false c (pos s) draws)
                (settle_lem cells1 n false _ m' draws e run) (kept n' u, left_over)
          | inr (cells, e, both) ↦
              let walled = IsWalled-put_pair m has w c s nb hc hs across cells n both in
              let (m', run, u) =
                update_vectors-Updates (with_cells cells n m) (IsWalled-IsSearchable _ _ walled)
                  (IsSmall-with_cells m cells n small) in
              PlaysOr-intro X Left _ (settled m' true c (pos s) draws)
                (settle_lem cells1 n true _ m' draws e run)
                (added c s nb cells n hc hs across free both refl refl u, left_over)
        ]

put-put : (w : Walls) (s : ℕ) → put (put w s true) s false ≡ put w s false
put-put w s = ground arith

same_side : (has : Sides) (c s d t : ℕ) → has c s ≡ false → put_side c s false has d t ≡ has d t
same_side has c s d t free = ground arith

module _ (m : Maze) (has : Sides) (w : IsWalled m has) (small : IsSmall m) (c : ℕ)
    (hc : c < m.total_cells) where
  open w use {shaped}

  restored_lem :
      (d : Drawn)
      → Adds (walls_of has c) d
      → set m.cl_matrix c (Cell.remove_wall_at d.cell d.side) ≡ m.cl_matrix
  restored_lem d a =
      let free : has c d.side ≡ false = sym (walls_of_at has c d.side a.side-lt) ∙ a.free in
      let e : Cell.remove_wall_at d.cell d.side ≡ of_walls (put (walls_of has c) d.side false) =
        ap (λ cl. Cell.remove_wall_at cl d.side) a.added
        ∙ remove_wall_at-of_walls (put (walls_of has c) d.side true) d.side a.side-lt
            (wall_at-put_self (walls_of has c) d.side true a.side-lt)
        ∙ ap of_walls (put-put (walls_of has c) d.side) in
      cells-eq m.total_cells has m.cl_matrix shaped _ _
        (IsShaped-set m.total_cells has m.cl_matrix shaped c d.side false _ hc a.side-lt e)
        (λ b t _ _. same_side has c d.side b t free)

  place_wall-Attempted :
      (X : Type 0) (D : List ℕ → Type 0) (d : Drawn)
      → Adds (walls_of has c) d
      → D d.draws
      → PlaysOr X (λ a. Attempted m has a × D a.game.draws) (Generate.place_wall m c d)
  unfolding Generate.place_wall
  place_wall-Attempted X D d a left_over =
      let free : has c d.side ≡ false = sym (walls_of_at has c d.side a.side-lt) ∙ a.free in
      elim (Bool-cases (is_outside m c d.side)) [
        | inl outside ↦
            rw outside
              (refused (ap (λ cells. record m { cl_matrix = cells }) (restored_lem d a)), left_over)
        | inr inside ↦
            let (nb, across) = beyond m c d.side a.side-lt inside in
            rw inside (
              settle_wall-Attempted m has w small X D c d.side nb hc a.side-lt across free
                (set m.cl_matrix c d.cell) (increment m.n_walls) d.draws
                (IsShaped-set m.total_cells has m.cl_matrix shaped c d.side true _ hc a.side-lt
                  a.added)
                left_over)
      ]

-- On a maze under construction `addRandomWall` does what `Attempted` says, and takes the draws of
-- one round.
module _ (m : Maze) (has : Sides) (w : IsWalled m has) (small : IsSmall m)
    (limited : m.n_max_walls ≤ 4) (X : Type 0) (n : ℕ) where
  abbrev pub AttemptLeft : Attempt → Type 0
  AttemptLeft a = Attempted m has a × Supplied X n a.game.draws

  drawn-Attempted :
      (d : ℕ) (used rest : List ℕ)
      → (X ⊎ (NamesAll used × Feeds n rest))
      → PlaysOr X AttemptLeft
          (Generate.add_random_wall (record { maze = m; draws = d ∷ (used ++ rest) }))
  unfolding Generate.add_random_wall
  drawn-Attempted d used rest f =
      let c = d % m.total_cells in
      let hc : c < m.total_cells = omega (arith, w.inside) in
      let read = at-shape m.total_cells has m.cl_matrix w.shaped c hc in
      let walls = walls_of has c in
      elim (Bool-cases (ltb (Cell.get_number_of_walls (of_walls walls)) m.n_max_walls)) [
        | inl few ↦
            let below : count walls < 4 = ground (arith, get_number_of_walls-of_walls walls) in
            rw (read, few)
              (PlaysOr->>= X (Leaves X n walls) AttemptLeft _ (Generate.place_wall m c)
                (add_random_wall-Leaves X n walls used rest below f)
                (λ r (a, left_over).
                  place_wall-Attempted m has w small c hc X (Supplied X n) r a left_over))
        | inr many ↦
            rw (read, many)
              (settle_nothing m has w small X (Supplied X n) c (used ++ rest)
                (⊎_elim inl (λ (_, f). inr (Feeds-append n used rest f)) f))
      ]

  pub add_random_wall-Attempted :
      (draws : List ℕ)
      → Supplied X (suc n) draws
      → PlaysOr X AttemptLeft (Generate.add_random_wall (record { maze = m; draws = draws }))
  unfolding Generate.add_random_wall
  add_random_wall-Attempted [] (inl x) = x
  add_random_wall-Attempted (d ∷ draws) (inl x) = drawn-Attempted d [] draws (inl x)
  add_random_wall-Attempted draws (inr (d, used, rest, e, names, f)) =
      subst (λ l. PlaysOr X AttemptLeft (Generate.add_random_wall (record { maze = m; draws = l })))
        (sym e) (drawn-Attempted d used rest (inr (names, f)))
