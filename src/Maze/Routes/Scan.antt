-- ===== src/Maze/Routes/Scan.antt =====
-- One round of the search: no exception on a searchable maze, and the invariant at its end.
use test.Prelude.{ℕ, ◌+◌, ◌-◌, ◌≤◌, ◌<◌, ◌≡◌, ◌≢◌, refl, ap, sym, subst, ◌∙◌, inl, inr, arith}
use test.Prelude.{Bool, true, false, false≢true, not, ◌&&◌, List, [], ◌∷◌}
use test.Prelude.Tests.{Bool-cases, ◌==◌}
use test.Prelude.Lists.{length}
use test.Prelude.Int.{ℤ, pos}
use test.Prelude.Results.{
  ok_injective, ok, at, at-lt, lt_of_at, back, Returns, Returns-weaken, Returns->>=,
}
use test.Cell
use test.Cell.{Cell}
use test.Maze.State.{Maze}
use test.Maze.Grid
use test.Maze.Grid.Laws.{neighbour_top-lt, neighbour_bottom-lt, right-lt}
use test.Maze.Routes
use test.Maze.Routes.{Search}
use test.Maze.Routes.Passage.{Passage, up, right, down, left, Route, IsSearchable}
use test.Maze.Routes.Marks.{IsMarked-lt, IsRising-mono}
use test.Maze.Routes.Side.{Tried, try_side, back-Route}
use test.Maze.Routes.Invariant.{Inv, IsClosed}

module _ (m : Maze) (level k : ℕ) (snap : List (List ℕ)) (i : ℕ) (rest : List (List ℕ))
    (route : List ℕ) (c : ℕ) (along : Route m route c) (short_route : length route ≤ level) where
  abbrev TriedHere : Bool → ℤ → Search → Search → Type 0
  TriedHere = Tried m level k snap i rest route c along short_route

  module _ (valid : IsSearchable m) (cl : Cell) (read : at m.cl_matrix c ≡ ok cl) where
    in_grid : c < m.total_cells
    in_grid = rw (sym valid.cells) (lt_of_at m.cl_matrix c read)

    leads_up :
        not (Cell.has_top_wall cl) ≡ true
        → (nb : ℕ) × (pos (Grid.neighbour_top m c) ≡ pos nb) × Passage m c nb × (nb < m.total_cells)
    leads_up open_side = (
      Grid.neighbour_top m c,
      refl,
      up cl read (ground arith) refl,
      neighbour_top-lt m valid.grid c in_grid,
    )

    leads_down :
        not (Cell.has_bottom_wall cl) ≡ true
        → (nb : ℕ) × (pos (Grid.neighbour_bottom m c) ≡ pos nb)
          × Passage m c nb
          × (nb < m.total_cells)
    leads_down open_side = (
      Grid.neighbour_bottom m c,
      refl,
      down cl read (ground arith) refl,
      neighbour_bottom-lt m valid.grid c in_grid,
    )

    leads_right :
        not (Cell.has_right_wall cl) && not (c == m.entrance) ≡ true
        → (nb : ℕ) × (Grid.neighbour_right m c ≡ pos nb) × Passage m c nb × (nb < m.total_cells)
    unfolding Grid.neighbour_right
    leads_right open_side =
        let no_wall : Cell.has_right_wall cl ≡ false = ground arith in
        let not_entrance : c ≢ m.entrance = ground arith in
        elim (Bool-cases (Grid.is_right_edge m c)) [
          | inl edge ↦ absurd (not_entrance (valid.right_closed c cl read edge no_wall))
          | inr inner ↦
              let e : Grid.neighbour_right m c ≡ pos (c + 1) = rw inner in
              (
                c + 1,
                e,
                right cl read no_wall not_entrance e,
                right-lt m valid.grid c in_grid inner,
              )
        ]

    leads_left :
        not (Cell.has_left_wall cl) && not (c == m.exit) ≡ true
        → (nb : ℕ) × (Grid.neighbour_left m c ≡ pos nb) × Passage m c nb × (nb < m.total_cells)
    unfolding Grid.neighbour_left
    leads_left open_side =
        let no_wall : Cell.has_left_wall cl ≡ false = ground arith in
        let not_exit : c ≢ m.exit = ground arith in
        elim (Bool-cases (Grid.is_left_edge m c)) [
          | inl edge ↦ absurd (not_exit (valid.left_closed c cl read edge no_wall))
          | inr inner ↦
              let e : Grid.neighbour_left m c ≡ pos (c - 1) = rw inner in
              (c - 1, e, left cl read no_wall not_exit e, omega (arith, in_grid))
        ]

    -- After the four blocks every passage from `c` leads to a visited cell.
    record Scanned (s' : Search) : Type 0 where
      inv : Inv m level k snap i rest s'
      closed : IsClosed m s'.visited c

    abbrev TriedTop : Search → Search → Type 0
    TriedTop = TriedHere (not (Cell.has_top_wall cl)) (pos (Grid.neighbour_top m c))

    abbrev TriedRight : Search → Search → Type 0
    TriedRight =
        TriedHere (not (Cell.has_right_wall cl) && not (c == m.entrance)) (Grid.neighbour_right m c)

    abbrev TriedBottom : Search → Search → Type 0
    TriedBottom = TriedHere (not (Cell.has_bottom_wall cl)) (pos (Grid.neighbour_bottom m c))

    abbrev TriedLeft : Search → Search → Type 0
    TriedLeft =
        TriedHere (not (Cell.has_left_wall cl) && not (c == m.exit)) (Grid.neighbour_left m c)

    closed_after :
        {s s1 s2 s3 s4 : Search}
        → TriedTop s s1
        → TriedRight s1 s2
        → TriedBottom s2 s3
        → TriedLeft s3 s4
        → Scanned s4
    closed_after {s4 = s4} t1 t2 t3 t4 = record { inv = t4.inv; closed = closed }
      where
        same_cell : (cl' : Cell) → at m.cl_matrix c ≡ ok cl' → cl' ≡ cl
        same_cell cl' e = ok_injective cl' cl (sym e ∙ read)

        closed : IsClosed m s4.visited c
        closed d (up cl' e open_side at_d) = t4.grows d (
            t3.grows d
              (t2.grows d (t1.seen d (ground (arith, same_cell cl' e)) (ap pos (sym at_d)))))
        closed d (right cl' e open_side other at_d) =
            t4.grows d (t3.grows d (t2.seen d (ground (arith, same_cell cl' e)) at_d))
        closed d (down cl' e open_side at_d) =
            t4.grows d (t3.seen d (ground (arith, same_cell cl' e)) (ap pos (sym at_d)))
        closed d (left cl' e open_side other at_d) =
            t4.seen d (ground (arith, same_cell cl' e)) at_d

    scan_route-Scanned :
        (s : Search) → Inv m level k snap i rest s → Returns Scanned (Routes.scan_route m i route s)
    unfolding Routes.scan_route
    scan_route-Scanned s inv =
        rw (back-Route along, read)
          (Returns->>= (TriedTop s) Scanned _ _
            (try_side m level k snap i rest route c along short_route _ _ s inv leads_up)
            λ s1 t1.
              Returns->>= (TriedRight s1) Scanned _ _
                (try_side m level k snap i rest route c along short_route _ _ s1 t1.inv leads_right)
                λ s2 t2.
                  Returns->>= (TriedBottom s2) Scanned _ _
                    (try_side m level k snap i rest route c along short_route _ _ s2 t2.inv
                      leads_down)
                    λ s3 t3.
                      Returns-weaken (TriedLeft s3) Scanned _ (λ s4 t4. closed_after t1 t2 t3 t4)
                        (try_side m level k snap i rest route c along short_route _ _ s3 t3.inv
                          leads_left))

module _ (m : Maze) (level k : ℕ) (snap : List (List ℕ)) (valid : IsSearchable m) where
  -- The next route of the `for` loop.
  Inv-next :
      (i : ℕ) (rest : List (List ℕ)) (route : List ℕ) (c : ℕ) (s : Search)
      → Route m route c
      → IsClosed m s.visited c
      → Inv m level k snap i (route ∷ rest) s
      → Inv m level k snap (i + 1) rest (record s { erased = false })
  Inv-next i rest route c s along closed inv = record {
    new = inv.new;
    size = inv.size;
    split = inv.split;
    within = λ r q. inv.within r (inr q);
    waiting = inv.waiting;
    reached = inv.reached;
    cover = λ d h. elim (inv.cover d h) [
      | inl shut ↦ inl shut
      | inr (r, inl (inl e), p) ↦
          inl (subst (IsClosed m s.visited) (same_end r c d along e p) closed)
      | inr (r, inl (inr q), p) ↦ inr (r, inl q, p)
      | inr (r, inr n, p) ↦ inr (r, inr n, p)
    ];
    entered = inv.entered;
    best = inv.best;
    none_yet = inv.none_yet;
    count = inv.count;
    idle = inv.idle;
    active = inv.active;
    flag = λ e. absurd (false≢true e);
    short = inv.short;
    short_new = inv.short_new;
    shortest = inv.shortest;
    near = λ d r p le.
        let (h, w) = inv.near d r p le in
        (
          h,
          elim w [
            | inl shut ↦ inl shut
            | inr (t, inl e, q) ↦
                inl (subst (IsClosed m s.visited) (same_end t c d along e q) closed)
            | inr (t, inr q, q') ↦ inr (t, q, q')
          ],
        );
    rising = elim (Bool-cases s.erased) [
      | inl e ↦ rw e at inv.rising
      | inr e ↦ IsRising-mono 0 i s.erase (rw e at inv.rising)
    ];
  }
    where
      same_end : (r : List ℕ) (c d : ℕ) → Route m route c → r ≡ route → Route m r d → c ≡ d
      same_end r c d p e q = ok_injective c d (sym (back-Route p) ∙ sym (ap back e) ∙ back-Route q)

  pub scan_routes-Inv :
      (i j : ℕ) (rest : List (List ℕ)) (s : Search)
      → i + length rest ≡ j
      → Inv m level k snap i rest (record s { erased = false })
      → Returns
          (λ s'. Inv m level k snap j [] (record s' { erased = false }))
          (Routes.scan_routes m i rest s)
  unfolding Routes.scan_routes
  scan_routes-Inv i j [] s e inv =
      subst (λ n. Inv m level k snap n [] (record s { erased = false })) (omega arith) inv
  scan_routes-Inv i j (route ∷ rest) s e inv =
      let (c, along, marked) = inv.waiting route (inl (inv.within route (inl refl))) in
      let short_route = inv.short route (inv.within route (inl refl)) in
      let (cl, read) =
        at-lt m.cl_matrix c
          (omega (arith, valid.cells, inv.size, IsMarked-lt s.visited c marked)) in
      Returns->>= (Scanned m level k snap i (route ∷ rest) route c along short_route valid cl read)
        (λ s'. Inv m level k snap j [] (record s' { erased = false })) _ _
        (scan_route-Scanned m level k snap i (route ∷ rest) route c along short_route valid cl read
          (record s { erased = false }) inv)
        (λ s' t.
          scan_routes-Inv (i + 1) j rest s' (omega arith)
            (Inv-next i rest route c s' along t.closed t.inv))
