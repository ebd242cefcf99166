-- ===== src/Maze/Generate/LayOut.antt =====
-- The start of `generateMZ`: the open maze with its border.
use test.Prelude.{
  ℕ, ◌+◌, ◌-◌, ◌*◌, ◌/◌, ◌%◌, ◌<◌, ◌≡◌, ◌∙◌, refl, sym, ap, arith, false, subst, List, [], ◌∷◌, map,
}
use test.Prelude.Lists.{length, tabulate, length-tabulate}
use test.Prelude.Results.{ok, Plays, PlaysOr-intro}
use native.Mathlib.Nat.{mul-add-mod_self_right, mod-eq_of_lt, mul-mod_left}
use test.Maze.State.{Maze}
use test.Maze.Grid.Laws.{IsGrid}
use test.Maze.Check
use test.Maze.Check.Compatible.{IsFull}
use test.Maze.Check.Matrix.{read_cell, initialize_cl_matrix_lem}
use test.Maze.Load.Frames.{IsSmall, unchanged}
use test.Maze.Load.Vectors.{update_vectors-Updates, Updates-verdict}
use test.Maze.Load
use test.Maze.Generate
use test.Maze.Generate.{Game, add_side, mirrored}
use test.Maze.Generate.Shape.{IsShaped}
use test.Maze.Generate.Walled.{IsWalled, IsWalled-IsSearchable}
use test.Maze.Generate.Border.{Closes}
use test.Maze.Generate.Border.Ways.{add_random_entrance-Closes, add_random_exit-Closes}
use test.Maze.Generate.Opened.{all_reached}
use test.Maze.Generate.Bordered.{
  bordered, bordered-bare, bordered-IsWalled, Closes-IsShaped, both, column, closed_at,
}
use test.Maze.Generate.Blank.{blanks, blanks-IsShaped}
use test.Maze.Generate.Build.{IsBuilt, Built, IsBuilt-Updates, IsBuilt-same}

module _ (raw : Maze) (w h : ℕ) (new : raw.mz_string ≡ []) (wide : 0 < w) (narrow : w < 50)
    (high : 0 < h) (low : h < 100) where
  abbrev begun : Maze
  begun = Generate.begin raw w h

  abbrev filled : Maze
  filled = record begun { cl_matrix = blanks (w * h) }

  begun_string : begun.mz_string ≡ tabulate (w * h) 0 (λ j. b'0')
  unfolding Generate.begin
  begun_string = rw new refl

  begun_total : begun.total_cells ≡ w * h
  unfolding Generate.begin
  begun_total = refl

  initialize_begun : Check.initialize_cl_matrix begun ≡ ok filled
  initialize_begun =
      initialize_cl_matrix_lem begun
        (ap length begun_string ∙ length-tabulate (w * h) 0 (λ j. b'0') ∙ sym begun_total)
      ∙ ap (λ s. ok (record begun { cl_matrix = map read_cell s })) begun_string

  full : IsFull filled
  unfolding Generate.begin
  full = record {
    grid = record { total = refl; wide = wide; high = high };
    cells = (blanks-IsShaped (w * h)).size;
  }

  -- The sizes that `generateMZ` sets.
  abbrev IsSized : Maze → Type 0
  IsSized m =
      (m.width ≡ w)
      × (m.height ≡ h)
      × (m.total_cells ≡ w * h)
      × (m.width_visual ≡ w * 2 + 1)
      × (m.height_visual ≡ h + 1)

  filled-IsSized : IsSized filled
  unfolding Generate.begin
  filled-IsSized = (refl, refl, refl, refl, refl)

  module _ (m : Maze) (sized : IsSized m) where
    IsSized-IsGrid : IsGrid m
    IsSized-IsGrid = record {
      total = sized.2 ∙ rw (sized.0, sized.1) refl;
      wide = rw sized.0 wide;
      high = rw sized.1 high;
    }

    IsSized-IsSmall : IsSmall m
    IsSized-IsSmall = record {
      columns = sized.3 ∙ rw sized.0 refl;
      lines = sized.4 ∙ rw sized.1 refl;
      narrow = rw sized.0 narrow;
      low = rw sized.1 low;
    }

    -- With such a border `updateVectors` leaves a maze that is built.
    updated-IsBuilt :
        (r1 r2 : ℕ)
        → m.entrance ≡ r1
        → m.exit ≡ r2
        → r1 < w * h
        → r2 < w * h
        → r1 % w ≡ w - 1
        → r2 % w ≡ 0
        → IsShaped (w * h) (bordered w r1 r2) m.cl_matrix
        → (m' : Maze) × (Load.update_vectors m ≡ ok m') × IsBuilt w h m'
    updated-IsBuilt r1 r2 e1 e2 h1 h2 c1 c2 shaped =
        let g = IsSized-IsGrid in
        let walled : IsWalled m (bordered m.width m.entrance m.exit) =
          bordered-IsWalled m g (rw (e1, sized.2) h1) (rw (e2, sized.2) h2) (rw (e1, sized.0) c1)
            (rw (e2, sized.0) c2) (rw (sized.2, sized.0, e1, e2) shaped) in
        let (m', run, u) =
          update_vectors-Updates m (IsWalled-IsSearchable m _ walled) IsSized-IsSmall in
        (
          m',
          run,
          IsBuilt-Updates w h m m' _ walled IsSized-IsSmall (sized.0, sized.1) u
              ((Updates-verdict u).1
                (all_reached m _ walled (λ c s hc hs. bordered-bare m g m.entrance m.exit c s))),
        )

  module _ (d : ℕ) (m1 : Maze)
      (c1 : Closes 1
        (w - 1)
        (d % h * w + (w - 1))
        h
        (record filled { entrance = d % h * w + (w - 1) })
        m1) where
    sized1 : IsSized m1
    sized1 = subst IsSized (sym c1.frame) filled-IsSized

    shaped1 :
        IsShaped
          (w * h)
          (both (λ c s. false) (column 1 (closed_at w (w - 1) (d % h * w + (w - 1)))))
          m1.cl_matrix
    unfolding Generate.begin
    shaped1 =
        Closes-IsShaped (record filled { entrance = d % h * w + (w - 1) }) m1 1 (w - 1) _ w
          (λ c s. false) (record { total = refl; wide = wide; high = high }) refl (omega arith)
          (λ c. refl) (blanks-IsShaped (w * h)) c1

    full1 : IsFull m1
    full1 = record { grid = IsSized-IsGrid m1 sized1; cells = shaped1.size ∙ sym sized1.2 }

    module _ (e : ℕ) (m2 : Maze)
        (c2 : Closes 3 0
          (e % m1.height * m1.width)
          m1.height
          (record m1 { exit = e % m1.height * m1.width })
          m2) where
      abbrev r2 : ℕ
      r2 = e % m1.height * m1.width

      sized2 : IsSized m2
      sized2 = subst IsSized (sym c2.frame) sized1

      shaped2 : IsShaped (w * h) (bordered w (d % h * w + (w - 1)) r2) m2.cl_matrix
      shaped2 =
          let g = IsSized-IsGrid m1 sized1 in
          subst (λ n. IsShaped n (bordered w (d % h * w + (w - 1)) r2) m2.cl_matrix) sized1.2
            (Closes-IsShaped (record m1 { exit = r2 }) m2 3 0 r2 w _
              (record { total = g.total; wide = g.wide; high = g.high }) sized1.0 (omega arith)
              (λ c. refl) (rw sized1.2 shaped1) c2)

      updated2 :
          d % h * w + (w - 1) < w * h
          → r2 < m1.total_cells
          → (m' : Maze) × (Load.update_vectors m2 ≡ ok m') × IsBuilt w h m'
      unfolding Generate.begin
      updated2 lt1 lt2 =
          let g = IsSized-IsGrid m1 sized1 in
          updated-IsBuilt m2 sized2 (d % h * w + (w - 1)) r2
            (ap (λ m. m.entrance) c2.frame ∙ ap (λ m. m.entrance) c1.frame)
            (ap (λ m. m.exit) c2.frame) lt1 (subst (λ n. r2 < n) sized1.2 lt2)
            (mul-add-mod_self_right (d % h) w (w - 1) ∙ mod-eq_of_lt (omega arith))
            (ap (λ n. r2 % n) (sym sized1.0) ∙ mul-mod_left (e % m1.height) m1.width) shaped2

  -- For a new object and less than 50 columns and 100 rows, of each at least one, the part of
  -- generateMZ before its loops takes two draws and returns; the maze is built and has this
  -- size, and the tries are half as many as its cells.
  pub lay_out-IsBuilt :
      (d e : ℕ) (draws : List ℕ)
      → (g : Game) × (Generate.lay_out begun (d ∷ e ∷ draws) ≡ ok g)
        × (g.draws ≡ draws)
        × IsBuilt w h g.maze
        × (g.maze.n_tries ≡ g.maze.total_cells / 2)
  unfolding Generate.lay_out Generate.begin
  lay_out-IsBuilt d e draws =
      let (m1, run1, lt1, c1) = add_random_entrance-Closes filled d (e ∷ draws) full in
      let (m2, run2, lt2, c2) = add_random_exit-Closes m1 e draws (full1 d m1 c1) in
      let (m3, run3, b) = updated2 d m1 c1 e m2 c2 lt1 lt2 in
      (
        record { maze = record m3 { n_tries = m3.total_cells / 2 }; draws = draws },
        rw (initialize_begun, run1, run2, run3) refl,
        refl,
        IsBuilt-same w h m3 _ (unchanged m3) refl refl refl refl refl b,
        refl,
      )

-- With any draws.
pub lay_out-Built :
    (raw : Maze) (w h : ℕ) (draws : List ℕ)
    → raw.mz_string ≡ []
    → 0 < w
    → w < 50
    → 0 < h
    → h < 100
    → Plays (Built w h) (Generate.lay_out (Generate.begin raw w h) draws)
unfolding Generate.lay_out
lay_out-Built raw w h [] new wide narrow high low =
    rw (initialize_begun raw w h new wide narrow high low, Generate.add_random_entrance) tt
lay_out-Built raw w h (d ∷ []) new wide narrow high low =
    let (m1, run1, lt1, c1) =
      add_random_entrance-Closes (filled raw w h new wide narrow high low) d []
        (full raw w h new wide narrow high low) in
    rw (initialize_begun raw w h new wide narrow high low, run1, Generate.add_random_exit) tt
lay_out-Built raw w h (d ∷ e ∷ draws) new wide narrow high low =
    let (g, run, _, b, _) = lay_out-IsBuilt raw w h new wide narrow high low d e draws in
    PlaysOr-intro (Unit {0}) (Built w h) _ g run b
