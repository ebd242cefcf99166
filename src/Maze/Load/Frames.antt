-- ===== src/Maze/Load/Frames.antt =====
-- Facts that `updateVectors` needs of the fields that its steps leave alone.
use test.Prelude.{ℕ, ◌+◌, ◌*◌, ◌-◌, ◌<◌, ◌≡◌, ◌∙◌, refl, sym, subst, ap, inl, inr, arith}
use test.Prelude.{false, false≢true, List, [], ◌∷◌}
use test.Prelude.Tests.{Bool-cases, ==→≡, ==→≢, ◌==◌}
use test.Prelude.Lists.{get_or, ◌∈◌, mem-append}
use test.Prelude.Int.{pos_injective, negsuc-ne-pos}
use test.Prelude.Results.{ok, at}
use test.Cell.{Cell}
use test.Maze.State.{Maze}
use test.Maze.Grid
use test.Maze.Grid.Laws.{neighbour_top-lt, neighbour_bottom-lt, right-lt}
use test.Maze.Routes.Passage.{
  Passage, up, right, down, left, Route, begin, go, Reach, here, step, IsSearchable,
}
use test.Maze.Routes.Correct.{Explores}

-- Two mazes with the same sizes, cells and ways in and out.
abbrev pub IsSameGrid : Maze → Maze → Type 0
IsSameGrid m m' =
    (m'.width ≡ m.width)
    × (m'.height ≡ m.height)
    × (m'.total_cells ≡ m.total_cells)
    × (m'.entrance ≡ m.entrance)
    × (m'.exit ≡ m.exit)
    × (m'.cl_matrix ≡ m.cl_matrix)
    × (m'.width_visual ≡ m.width_visual)
    × (m'.height_visual ≡ m.height_visual)

-- `n` is `m` with other fields changed.
pub frame-IsSameGrid : (m m' n : Maze) → m' ≡ n → IsSameGrid m n → IsSameGrid m m'
frame-IsSameGrid m m' n e s = subst (IsSameGrid m) (sym e) s

pub unchanged : (m : Maze) → IsSameGrid m m
unchanged m = (refl, refl, refl, refl, refl, refl, refl, refl)

pub IsSameGrid-trans : (m m' m'' : Maze) → IsSameGrid m m' → IsSameGrid m' m'' → IsSameGrid m m''
IsSameGrid-trans m m' m'' (w, h, t, n, x, c, v, l) (w', h', t', n', x', c', v', l') =
    (w' ∙ w, h' ∙ h, t' ∙ t, n' ∙ n, x' ∙ x, c' ∙ c, v' ∙ v, l' ∙ l)

pub IsSameGrid-sym : (m m' : Maze) → IsSameGrid m m' → IsSameGrid m' m
IsSameGrid-sym m m' (w, h, t, n, x, c, v, l) =
    (sym w, sym h, sym t, sym n, sym x, sym c, sym v, sym l)

pub IsSearchable-same : (m m' : Maze) → IsSameGrid m m' → IsSearchable m → IsSearchable m'
unfolding Grid.is_right_edge Grid.is_left_edge
IsSearchable-same m m' (width, height, total, entrance, exit, cells, _, _) v = record {
  grid = record {
    total = rw (total, width, height) v.grid.total;
    wide = rw width v.grid.wide;
    high = rw height v.grid.high;
  };
  cells = rw (cells, total) v.cells;
  inside = rw (entrance, total) v.inside;
  right_closed = rw (cells, width, entrance) v.right_closed;
  left_closed = rw (cells, width, exit) v.left_closed;
}

module _ (m m' : Maze) (same : IsSameGrid m m') where
  abbrev cells_at : (c : ℕ) {cl : Cell} → at m.cl_matrix c ≡ ok cl → at m'.cl_matrix c ≡ ok cl
  cells_at c e = ap (λ l. at l c) same.5 ∙ e

  pub Passage-same : {c d : ℕ} → Passage m c d → Passage m' c d
  unfolding Grid.neighbour_top Grid.neighbour_right Grid.neighbour_bottom Grid.neighbour_left
  Passage-same {c = c} (up cl e w p) = up cl (cells_at c e) w (rw (same.2, same.0) p)
  Passage-same {c = c} (right cl e w n p) = right cl (cells_at c e) w (rw same.3 n) (rw same.0 p)
  Passage-same {c = c} (down cl e w p) = down cl (cells_at c e) w (rw (same.2, same.0) p)
  Passage-same {c = c} (left cl e w n p) = left cl (cells_at c e) w (rw same.4 n) (rw same.0 p)

  pub Reach-same : {d : ℕ} → Reach m d → Reach m' d
  Reach-same (here e) = here (e ∙ sym same.3)
  Reach-same (step r p) = step (Reach-same r) (Passage-same p)

-- The sizes for which the picture fits its array.
pub record IsSmall (m : Maze) : Type 0 where
  pub columns : m.width_visual ≡ m.width * 2 + 1
  pub lines : m.height_visual ≡ m.height + 1
  pub narrow : m.width < 50
  pub low : m.height < 100

pub IsSmall-same : (m m' : Maze) → IsSameGrid m m' → IsSmall m → IsSmall m'
IsSmall-same m m' same s = record {
  columns = same.6 ∙ s.columns ∙ ap (λ (n : ℕ). n * 2 + 1) (sym same.0);
  lines = same.7 ∙ s.lines ∙ ap (λ (n : ℕ). n + 1) (sym same.1);
  narrow = rw same.0 s.narrow;
  low = rw same.1 s.low;
}

module _ (m : Maze) (valid : IsSearchable m) where
  Passage-lt : (c d : ℕ) → c < m.total_cells → Passage m c d → d < m.total_cells
  unfolding Grid.neighbour_right Grid.neighbour_left
  Passage-lt c d h (up cl _ _ e) =
      subst (λ d. d < m.total_cells) (sym e) (neighbour_top-lt m valid.grid c h)
  Passage-lt c d h (down cl _ _ e) =
      subst (λ d. d < m.total_cells) (sym e) (neighbour_bottom-lt m valid.grid c h)
  Passage-lt c d h (right cl _ _ _ e) = elim (Bool-cases (Grid.is_right_edge m c)) [
    | inl edge ↦ absurd (negsuc-ne-pos 0 d (rw edge at e))
    | inr inner ↦
        subst (λ d. d < m.total_cells) (pos_injective (c + 1) d (rw inner at e))
          (right-lt m valid.grid c h inner)
  ]
  Passage-lt c d h (left cl _ _ _ e) = elim (Bool-cases (Grid.is_left_edge m c)) [
    | inl edge ↦ absurd (negsuc-ne-pos 0 d (rw edge at e))
    | inr inner ↦
        subst (λ d. d < m.total_cells) (pos_injective (c - 1) d (rw inner at e)) (omega arith)
  ]

  Route-inside :
      (route : List ℕ) (c : ℕ)
      → Route m route c
      → (c < m.total_cells) × ((d : ℕ) → d ∈ route → d < m.total_cells)
  Route-inside route c (begin e e') = (
    omega (arith, valid.inside),
    λ d q. elim (subst (λ r. d ∈ r) e q) [
      | inl first ↦ omega (arith, valid.inside)
      | inr none ↦ absurd none
    ],
  )
  Route-inside route d (go {route = shorter} {c = c} r p e) =
      let (lt, all) = Route-inside shorter c r in
      let lt' = Passage-lt c d lt p in
      (
        lt',
        λ b q. elim (mem-append b shorter (d ∷ []) (subst (λ r. b ∈ r) e q)) [
          | inl old ↦ all b old
          | inr (inl now) ↦ omega arith
          | inr (inr none) ↦ absurd none
        ],
      )

  -- The cells of the best route that a search leaves are cells of the grid.
  pub best_route_inside :
      (m' : Maze) → Explores m m' → (d : ℕ) → d ∈ m'.best_route → d < m.total_cells
  best_route_inside m' x d q = elim (Bool-cases (get_or m'.visited m.exit false)) [
    | inl seen ↦ elim (Bool-cases (m.exit == m.entrance)) [
      | inl e ↦ absurd (subst (λ r. d ∈ r) (x.no_best (inr (==→≡ m.exit m.entrance e))) q)
      | inr ne ↦
          (Route-inside m'.best_route m.exit
              (x.best ((x.marks m.exit).0 seen) (==→≢ m.exit m.entrance ne))).1
            d q
    ]
    | inr far ↦
        let none = x.no_best (inl (λ r. false≢true (sym far ∙ (x.marks m.exit).1 r))) in
        absurd (subst (λ r. d ∈ r) none q)
  ]
