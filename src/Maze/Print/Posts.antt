-- ===== src/Maze/Print/Posts.antt =====
-- `printIntersections` (MZ.cpp), and the views of a loaded maze that the listings read.
use test.Prelude.{ℕ, ◌+◌, ◌*◌, ◌≤◌, ◌<◌, ◌≡◌, ◌∙◌, refl, sym, ap, arith, List, [], ◌++◌}
use native.Mathlib.Nat.{mul-le-mul_right}
use test.Prelude.Lists.{length}
use test.Prelude.Results.{
  ok, at-lt, Returns, Returns-intro, Returns-value, Returns-for_range, Returns->>=,
}
use test.Prelude.Text.{decimal}
use test.Maze.State.{Maze}
use test.Maze.Print
use test.Maze.Load.Frames.{IsSameGrid, frame-IsSameGrid, unchanged, IsSameGrid-trans, IsSmall}
use test.Maze.Load.Vectors.{Updates-IsSameGrid}
use test.Maze.Load.Stages.{Stages}

abbrev Any : {A : Type 0} → A → Type 0
Any a = Unit {0}

module _ (m : Maze) (full : length m.cl_intersections ≡ m.height * (m.width + 1)) where
  row-Returns :
      (y : ℕ) (out : List ℕ) → y < m.height → Returns Any (Print.print_intersection_row m y out)
  unfolding Print.print_intersection_row
  row-Returns y out hy =
      let w = m.width + 1 in
      let le : (y + 1) * w ≤ m.height * w = mul-le-mul_right w (omega arith) in
      Returns->>= Any Any _ _
        (Returns-for_range (λ _ _. Unit {0}) _ w
          (λ x line hx _.
            let (n, e) = at-lt m.cl_intersections (x + y * w) (omega arith) in
            Returns-intro Any _ (line ++ decimal n) (rw e refl) tt)
          w 0 [] (omega arith) tt)
        (λ line _. tt)

  pub print_intersections_returns : (t : List ℕ) × (Print.print_intersections m ≡ ok t)
  unfolding Print.print_intersections
  print_intersections_returns =
      let (t, e, _) = Returns-value Any _ (
        Returns-for_range (λ _ _. Unit {0}) (Print.print_intersection_row m) m.height
          (λ y out hy _. row-Returns y out hy) m.height 0 _ (omega arith) tt) in
      (t, e)

-- The views of a maze that `set_mz` has accepted.
pub record HasViews (m : Maze) : Type 0 where
  pub high : 0 < m.height_visual
  pub picture : length m.cl_matrix_visual ≡ m.height_visual * m.width_visual
  pub posts : length m.cl_intersections ≡ m.height * (m.width + 1)

pub Stages-HasViews : (m m' : Maze) → IsSmall m → Stages m m' → HasViews m'
Stages-HasViews m m' small st =
    let u = st.updates in
    let k = u.draws in
    let measured = frame-IsSameGrid st.updated m' _ st.measures.frame (unchanged st.updated) in
    let same : IsSameGrid m m' = IsSameGrid-trans m st.updated m' (Updates-IsSameGrid u) measured in
    let drawn_same : IsSameGrid m u.drawn = frame-IsSameGrid m u.drawn _ k.frame (unchanged m) in
    record {
      high = omega (arith, same.7, small.lines);
      picture =
          ap (λ m. length m.cl_matrix_visual) st.measures.frame
          ∙ ap (λ m. length m.cl_matrix_visual) u.written
          ∙ ap (λ m. length m.cl_matrix_visual) u.explores.frame
          ∙ ap (λ m. length m.cl_matrix_visual) u.posts.frame
          ∙ k.size
          ∙ ap (λ h. h * m.width_visual) (sym same.7)
          ∙ ap (λ w. m'.height_visual * w) (sym same.6);
      posts =
          ap (λ m. length m.cl_intersections) st.measures.frame
          ∙ ap (λ m. length m.cl_intersections) u.written
          ∙ ap (λ m. length m.cl_intersections) u.explores.frame
          ∙ u.posts.size
          ∙ ap (λ h. h * (u.drawn.width + 1)) (drawn_same.1 ∙ sym same.1)
          ∙ ap (λ w. m'.height * (w + 1)) (drawn_same.0 ∙ sym same.0);
    }
