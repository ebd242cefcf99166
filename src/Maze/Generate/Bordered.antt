-- ===== src/Maze/Generate/Bordered.antt =====
-- A maze with a border and no wall inside.
use test.Prelude.{
  ℕ, ◌-◌, ◌/◌, ◌%◌, ◌<◌, ◌≡◌, ◌∙◌, sym, ap, inl, inr, arith, Bool, true, false, not, ◌&&◌,
}
use test.Prelude.Tests.{ltb, ◌==◌, if◌then◌else◌, Bool-cases}
use native.Mathlib.Nat.{div-lt_iff_lt-mul}
use test.Cell.Walls.{of_walls, put, add_wall_at_side-of_walls}
use test.Maze.State.{Maze}
use test.Maze.Grid
use test.Maze.Grid.Laws.{IsGrid, right_edge_column}
use test.Maze.Check.Compatible.{cell}
use test.Maze.Generate.{add_side, mirrored}
use test.Maze.Generate.Shape.{Sides, IsShaped, walls_of, walls_of_at}
use test.Maze.Generate.Sides.{is_outside, mirror}
use test.Maze.Generate.Pairs.{IsMatched, mirrored-lt}
use test.Maze.Generate.Walled.{IsWalled}
use test.Maze.Generate.Border.{Closes}

-- The walls on the side `side` of the cells `q`.
abbrev pub column : ℕ → (ℕ → Bool) → Sides
column side q c s = s == side && q c

abbrev pub both : Sides → Sides → Sides
both has more c s = if more c s then true else has c s

walls_of_closed :
    (has : Sides) (side : ℕ) (q : ℕ → Bool) (c : ℕ)
    → side < 4
    → q c ≡ true
    → walls_of (both has (column side q)) c ≡ put (walls_of has c) side true
walls_of_closed has side q c h e = ground arith

walls_of_open :
    (has : Sides) (side : ℕ) (q : ℕ → Bool) (c : ℕ)
    → q c ≡ false
    → walls_of (both has (column side q)) c ≡ walls_of has c
walls_of_open has side q c e = ground arith

-- The cells of column `x` of a grid of width `w`, but not the cell `r`.
abbrev pub closed_at : ℕ → ℕ → ℕ → ℕ → Bool
closed_at w x r c = c % w == x && not (c == r)

below_height : (m : Maze) (c : ℕ) → IsGrid m → c < m.total_cells → ltb (c / m.width) m.height ≡ true
below_height m c g h =
    let hy : c / m.width < m.height = (div-lt_iff_lt-mul g.wide).1 (omega (arith, g.total)) in
    ground arith

in_column : (a low b : Bool) → low ≡ true → (a && low && b) ≡ (a && b)
in_column a low b e = ground arith

Closes-cell :
    (m m' : Maze) (side x r c w : ℕ)
    → IsGrid m
    → m.width ≡ w
    → c < m.total_cells
    → Closes side x r m.height m m'
    → cell m' c ≡ (if closed_at w x r c then add_side side (cell m c) else cell m c)
Closes-cell m m' side x r c w g e h closes =
    closes.cells c
    ∙ ap (λ q. if q then add_side side (cell m c) else cell m c)
        (in_column (c % m.width == x) _ (not (c == r)) (below_height m c g h)
          ∙ ap (λ n. closed_at n x r c) e)

-- What the loop over a column does to the shape.
pub Closes-IsShaped :
    (m m' : Maze) (side x r w : ℕ) (has : Sides)
    → IsGrid m
    → m.width ≡ w
    → side < 4
    → ((c : ℕ) → has c side ≡ false)
    → IsShaped m.total_cells has m.cl_matrix
    → Closes side x r m.height m m'
    → IsShaped m.total_cells (both has (column side (closed_at w x r))) m'.cl_matrix
Closes-IsShaped m m' side x r w has g e hs free shaped closes = record {
  size = closes.size ∙ shaped.size;
  shape = λ c hc.
      let after = Closes-cell m m' side x r c w g e hc closes in
      elim (Bool-cases (closed_at w x r c)) [
        | inl closed ↦
            (rw closed at after)
            ∙ ap (add_side side) (shaped.shape c hc)
            ∙ add_wall_at_side-of_walls (walls_of has c) side hs
                (walls_of_at has c side hs ∙ free c)
            ∙ ap of_walls (sym (walls_of_closed has side (closed_at w x r) c hs closed))
        | inr open_side ↦
            (rw open_side at after)
            ∙ shaped.shape c hc
            ∙ ap of_walls (sym (walls_of_open has side (closed_at w x r) c open_side))
      ];
}

-- The border with its two ways, and no wall inside.
abbrev pub bordered : ℕ → ℕ → ℕ → Sides
bordered w r1 r2 =
    both (both (λ c s. false) (column 1 (closed_at w (w - 1) r1))) (column 3 (closed_at w 0 r2))

module _ (m : Maze) (g : IsGrid m) where
  pub bordered-bare :
      (r1 r2 c s : ℕ) → is_outside m c s ≡ false → bordered m.width r1 r2 c s ≡ false
  unfolding Grid.is_left_edge
  bordered-bare r1 r2 c s inside = ground (arith, right_edge_column m c g)

  bordered-IsMatched : (r1 r2 : ℕ) → IsMatched m (bordered m.width r1 r2)
  bordered-IsMatched r1 r2 c s nb hc hs across =
      let (hn, back_again, inside) = mirror m g c hc s nb hs across in
      let (_, _, inside') = mirror m g nb hn (mirrored s) c (mirrored-lt s) back_again in
      bordered-bare r1 r2 c s inside ∙ sym (bordered-bare r1 r2 nb (mirrored s) inside')

  pub bordered-IsWalled :
      m.entrance < m.total_cells
      → m.exit < m.total_cells
      → m.entrance % m.width ≡ m.width - 1
      → m.exit % m.width ≡ 0
      → IsShaped m.total_cells (bordered m.width m.entrance m.exit) m.cl_matrix
      → IsWalled m (bordered m.width m.entrance m.exit)
  unfolding Grid.is_left_edge
  bordered-IsWalled hn hx column_n column_x shaped = record {
    grid = g;
    shaped = shaped;
    matched = bordered-IsMatched m.entrance m.exit;
    inside = hn;
    exit_inside = hx;
    entrance_right = ground (arith, right_edge_column m m.entrance g);
    exit_left = ground arith;
    right_closed = λ c hc edge e. ground (arith, right_edge_column m c g);
    left_closed = λ c hc edge e. ground (arith);
  }
