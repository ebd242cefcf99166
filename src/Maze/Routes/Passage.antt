-- ===== src/Maze/Routes/Passage.antt =====
-- What the search explores: the passages between cells, and the routes along them.
use test.Prelude.{ℕ, Bool, ◌<◌, ◌≡◌, ◌≢◌, false, List, [], ◌∷◌, ◌++◌, true}
use test.Prelude.Lists.{length, get_or}
use test.Prelude.Int.{pos}
use test.Prelude.Results.{ok, at}
use test.Cell
use test.Cell.{Cell}
use test.Maze.State.{Maze}
use test.Maze.Grid
use test.Maze.Grid.Laws.{IsGrid}

-- From `c` to `d` stands no wall on the side of `c`. The way out to the right of the entrance and
-- to the left of the exit is no passage.
pub data Passage (m : Maze) (c d : ℕ) : Type 0 where
  up :
      (cl : Cell)
      → at m.cl_matrix c ≡ ok cl
      → Cell.has_top_wall cl ≡ false
      → d ≡ Grid.neighbour_top m c
      → Passage m c d
  right :
      (cl : Cell)
      → at m.cl_matrix c ≡ ok cl
      → Cell.has_right_wall cl ≡ false
      → c ≢ m.entrance
      → Grid.neighbour_right m c ≡ pos d
      → Passage m c d
  down :
      (cl : Cell)
      → at m.cl_matrix c ≡ ok cl
      → Cell.has_bottom_wall cl ≡ false
      → d ≡ Grid.neighbour_bottom m c
      → Passage m c d
  left :
      (cl : Cell)
      → at m.cl_matrix c ≡ ok cl
      → Cell.has_left_wall cl ≡ false
      → c ≢ m.exit
      → Grid.neighbour_left m c ≡ pos d
      → Passage m c d

-- `route` leads from the entrance along passages to `c`, its last cell.
pub data Route (m : Maze) : List ℕ → ℕ → Type 0 where
  begin : {route : List ℕ} {c : ℕ} → route ≡ m.entrance ∷ [] → c ≡ m.entrance → Route m route c
  go :
      {route longer : List ℕ} {c d : ℕ}
      → Route m route c
      → Passage m c d
      → longer ≡ route ++ d ∷ []
      → Route m longer d

-- The cells that some walk from the entrance reaches.
pub data Reach (m : Maze) : ℕ → Type 0 where
  here : {c : ℕ} → c ≡ m.entrance → Reach m c
  step : {c d : ℕ} → Reach m c → Passage m c d → Reach m d

pub Reach-Route : {m : Maze} {route : List ℕ} {c : ℕ} → Route m route c → Reach m c
Reach-Route (begin _ e) = here e
Reach-Route (go r p _) = step (Reach-Route r) p

-- The mazes on which the search raises no exception: there is a cell for each index, the entrance
-- is a cell, and the walls of the two edges are open at the entrance and the exit only.
pub record IsSearchable (m : Maze) : Type 0 where
  pub grid : IsGrid m
  pub cells : length m.cl_matrix ≡ m.total_cells
  pub inside : m.entrance < m.total_cells
  pub right_closed :
      (c : ℕ) (cl : Cell)
      → at m.cl_matrix c ≡ ok cl
      → Grid.is_right_edge m c ≡ true
      → Cell.has_right_wall cl ≡ false
      → c ≡ m.entrance
  pub left_closed :
      (c : ℕ) (cl : Cell)
      → at m.cl_matrix c ≡ ok cl
      → Grid.is_left_edge m c ≡ true
      → Cell.has_left_wall cl ≡ false
      → c ≡ m.exit

-- The flag of cell `c`.
abbrev pub IsMarked : List Bool → ℕ → Type 0
IsMarked visited c = get_or visited c false ≡ true
