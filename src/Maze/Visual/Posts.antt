-- ===== src/Maze/Visual/Posts.antt =====
-- What a post of `updateIntersections` counts, by the columns and lines of the picture.
use test.Prelude.{ℕ, ◌+◌, ◌-◌, ◌*◌, ◌%◌, ◌<◌, ◌≡◌, ◌≢◌, ◌∙◌, refl, ap, arith}
use test.Prelude.{Bool, true, false, not, ◌&&◌}
use test.Prelude.Tests.{◌==◌, if◌then◌else◌}
use test.Prelude.Lists.{length, get_or}
use test.Prelude.Results.{ok, at, at-get_or}
use test.Maze.State.{Maze}
use test.Maze.Visual
use test.Maze.Visual.Intersections.{IsPictured, index-lt, below_lem}
use native.Mathlib.Nat.{mod-eq_of_lt}

-- The picture, by column and line.
abbrev pub pixel : Maze → ℕ → ℕ → Bool
pixel m x y = get_or m.cl_matrix_visual (y * m.width_visual + x) false

abbrev one : Bool → ℕ
one b = if b then 1 else 0

-- The walls at the post `x` of the line `y`: to its left and to its right, but not over the border;
-- below; in the first line that of the last line of the picture; and that at its own place.
unfoldable pub walls_at : Maze → ℕ → ℕ → ℕ
walls_at m x y =
    one (not (x == 0) && pixel m (2 * x - 1) y)
    + one (not (x == m.width) && pixel m (2 * x + 1) y)
    + one (pixel m (2 * x) (y + 1))
    + one (y == 0 && pixel m (2 * x) m.height)
    + one (pixel m (2 * x) y)

module _ (m : Maze) (p : IsPictured m) where
  pixel_lem :
      (i x y : ℕ)
      → i ≡ y * m.width_visual + x
      → i < length m.cl_matrix_visual
      → at m.cl_matrix_visual i ≡ ok (pixel m x y)
  pixel_lem i x y e h =
      at-get_or m.cl_matrix_visual i false h ∙ ap (λ i. ok (get_or m.cl_matrix_visual i false)) e

  -- A test that keeps a read from happening.
  read_lem :
      (b v : Bool) (i : ℕ)
      → (b ≡ true → at m.cl_matrix_visual i ≡ ok v)
      → (if b then at m.cl_matrix_visual i else ok false) ≡ ok (b && v)
  read_lem true v i h = h refl
  read_lem false v i h = refl

  pub count_walls-walls_at :
      (y x : ℕ) → y < m.height → x < m.width + 1 → Visual.count_walls m y x ≡ ok (walls_at m x y)
  unfolding Visual.count_walls walls_at
  count_walls-walls_at y x hy hx =
      let wv = m.width_visual in
      let total = m.height_visual * wv in
      let index = 2 * x + y * wv in
      let here-lt : index < total = index-lt m p y (2 * x) hy (omega (arith, p.columns)) in
      let below-lt : index + wv < total = below_lem m p y (2 * x) hy (omega (arith, p.columns)) in
      let same : (index + wv) % total ≡ index + wv = mod-eq_of_lt below-lt in
      let left =
        read_lem (not (x == 0)) (pixel m (2 * x - 1) y) (index - 1)
          (λ e. pixel_lem (index - 1) (2 * x - 1) y (ground arith) (omega (arith, p.entries))) in
      let right = read_lem (not (x == m.width)) (pixel m (2 * x + 1) y) (index + 1) (λ e.
        let inner : x ≢ m.width = ground arith in
        pixel_lem (index + 1) (2 * x + 1) y (omega arith)
          (omega (arith, p.entries, index-lt m p y (2 * x + 1) hy (omega (arith, p.columns))))) in
      let bottom =
        pixel_lem ((index + wv) % total) (2 * x) (y + 1) (same ∙ omega arith)
          (omega (arith, p.entries)) in
      let top = read_lem (y == 0) (pixel m (2 * x) m.height) ((index + total - wv) % total) (λ e.
        let first : y ≡ 0 = ground arith in
        let all : total ≡ m.height * wv + wv = ap (λ h. h * wv) p.lines ∙ omega arith in
        let flat : y * wv ≡ 0 = ap (λ y. y * wv) first ∙ omega arith in
        let last : index + total - wv ≡ m.height * wv + 2 * x = omega arith in
        let last-lt : index + total - wv < total = omega arith in
        pixel_lem _ (2 * x) m.height (mod-eq_of_lt last-lt ∙ last) (omega (arith, p.entries))) in
      let here = pixel_lem index (2 * x) y (omega arith) (omega (arith, p.entries)) in
      rw (left, right, bottom, top, here) refl
