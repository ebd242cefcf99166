-- ===== src/Maze/Generate/Gaps.antt =====
-- The posts without walls of a maze with a border: they stand inside, and no wall is on the right of
-- the cells that `m_vIntersectionProblems` has for them.
use test.Prelude.{
  ℕ, zero, suc, ◌+◌, ◌-◌, ◌*◌, ◌/◌, ◌%◌, ◌<◌, ◌≡◌, ◌≢◌, ◌∙◌, refl, sym, ap, inl, inr, arith, Bool,
  false, subst, List,
}
use test.Prelude.Tests.{◌==◌, Bool-cases}
use test.Prelude.Lists.{◌∈◌}
use test.Prelude.Results.{ok_injective, ok, at}
use native.Mathlib.Nat.{div-add-mod', div-lt_iff_lt-mul}
use test.Maze.State.{Maze}
use test.Maze.Grid
use test.Maze.Grid.Laws.{cell_at, cell_at-lt, cell_at_div, cell_at_mod, neighbours_lem}
use test.Maze.Visual.Pixels.{Draws}
use test.Maze.Visual.Intersections.{count_walls_lem}
use test.Maze.Visual.Problems.{CountsPosts}
use test.Maze.Load.Frames.{IsSmall}
use test.Maze.Generate.Shape.{Sides}
use test.Maze.Generate.Sides.{Beyond-right_inner, Beyond-bottom}
use test.Maze.Generate.Bare.{seen-IsPictured, no_left, no_right, no_top, not_left, not_right}
use test.Maze.Generate.Walled.{IsWalled}

-- The post with index `k` stands inside, down and to the right of the cell `c`, which has no wall
-- on its right.
pub record IsGap (m : Maze) (has : Sides) (k c : ℕ) : Type 0 where
  pub x : ℕ
  pub row : ℕ
  pub inner : x + 1 < m.width
  pub low : row + 1 < m.height
  pub post : k ≡ (row + 1) * (m.width + 1) + (x + 1)
  pub place : c ≡ cell_at m x row
  pub free : has c 1 ≡ false
  pub free_below : has (cell_at m x (row + 1)) 1 ≡ false
  pub down_left : has (cell_at m x row) 2 ≡ false
  pub down_right : has (cell_at m (x + 1) row) 2 ≡ false

module _ (m : Maze) (has : Sides) (w : IsWalled m has) (small : IsSmall m) (bits : List Bool)
    (d : Draws m (record m { cl_matrix_visual = bits })) where
  open w use {grid, shaped}

  module _ (posted : Maze) (p : CountsPosts (record m { cl_matrix_visual = bits }) posted) where
    -- The cell of a post without walls.
    abbrev IsBareAt : ℕ → ℕ → Type 0
    IsBareAt k c =
        (k < m.height * (m.width + 1))
        × (at posted.cl_intersections k ≡ ok 0)
        × (c + (m.width + 1) ≡ k / (m.width + 1) * m.width + k % (m.width + 1))

    line-lt : (k : ℕ) → k < m.height * (m.width + 1) → k / (m.width + 1) < m.height
    line-lt k hk = (div-lt_iff_lt-mul (omega arith)).1 hk

    -- The places that such a post leaves open: its own and the one below.
    abbrev IsOpen : ℕ → ℕ → Type 0
    IsOpen x y =
        (at bits (2 * x + y * m.width_visual) ≡ ok false)
        × (at bits (2 * x + (y + 1) * m.width_visual) ≡ ok false)
        × (x ≢ 0 → at bits (2 * x + y * m.width_visual - 1) ≡ ok false)
        × (x ≢ m.width → at bits (2 * x + y * m.width_visual + 1) ≡ ok false)

    post-IsOpen :
        (k x y : ℕ)
        → k % (m.width + 1) ≡ x
        → k / (m.width + 1) ≡ y
        → k < m.height * (m.width + 1)
        → at posted.cl_intersections k ≡ ok 0
        → IsOpen x y
    post-IsOpen k x y ex ey hk z =
        let hx : k % (m.width + 1) < m.width + 1 = omega arith in
        let (n, run, none) =
          count_walls_lem (record m { cl_matrix_visual = bits })
            (seen-IsPictured m has w small bits d) (k / (m.width + 1)) (k % (m.width + 1))
            (line-lt k hk) hx in
        subst (λ x. IsOpen x y) ex
          (subst (IsOpen (k % (m.width + 1))) ey
            (none (ok_injective n 0 (sym run ∙ sym (p.entries k hk) ∙ z))))

    inner_free :
        (x r : ℕ)
        → x + 1 < m.width
        → r < m.height
        → has (cell_at m (x + 1) r) 3 ≡ false
        → has (cell_at m x r) 1 ≡ false
    inner_free x r hx hr e =
        let lt : x < m.width = omega arith in
        let inner : Grid.is_right_edge m (cell_at m x r) ≡ false =
          (neighbours_lem m grid x r lt hr).right_edge ∙ (ground arith) in
        let next : cell_at m x r + 1 ≡ cell_at m (x + 1) r = omega arith in
        w.matched _ 1 _ (cell_at-lt m grid x r lt hr) (omega arith) (Beyond-right_inner m _ inner)
        ∙ ap (λ c. has c 3) next
        ∙ e

    inner_down :
        (x r : ℕ)
        → x < m.width
        → r + 1 < m.height
        → has (cell_at m x (r + 1)) 0 ≡ false
        → has (cell_at m x r) 2 ≡ false
    inner_down x r hx hr e =
        let placed = neighbours_lem m grid x r hx (omega arith) in
        let next : Grid.neighbour_bottom m (cell_at m x r) ≡ cell_at m x (r + 1) =
          placed.bottom ∙ ap (cell_at m x) (ground arith) in
        w.matched _ 2 _ (cell_at-lt m grid x r hx (omega arith)) (omega arith)
          (Beyond-bottom m (cell_at m x r))
        ∙ ap (λ c. has c 0) next
        ∙ e

    IsGap-at :
        (r x k c : ℕ)
        → k / (m.width + 1) ≡ r + 1
        → k % (m.width + 1) ≡ x
        → r + 1 < m.height
        → x < m.width + 1
        → IsBareAt k c
        → IsGap m has k c
    IsGap-at r zero k c ey ex hr hx (hk, z, e) =
        let (here_at, below, _, _) = post-IsOpen k 0 (r + 1) ex ey hk z in
        absurd (
          not_left m has w small bits d r hr
            (no_left m has w small bits d 0 r grid.wide (omega arith) here_at)
            (no_left m has w small bits d 0 (r + 1) grid.wide hr below))
    IsGap-at r (suc x) k c ey ex hr hx (hk, z, e) = elim (Bool-cases (x + 1 == m.width)) [
      | inl edge ↦
          let (here_at, below, _, _) =
            post-IsOpen k m.width (r + 1) (ex ∙ (ground arith)) ey hk z in
          absurd (
            not_right m has w small bits d r hr
              (no_right m has w small bits d r (omega arith) here_at)
              (no_right m has w small bits d (r + 1) hr below))
      | inr inner ↦
          let (here_at, below, beside, beside') =
            post-IsOpen k (x + 1) (r + 1) (ex ∙ (omega arith)) ey hk z in
          let lt : x + 1 < m.width = ground arith in
          let place : c ≡ cell_at m x r = omega (arith, ap (λ n. n * m.width) ey) in
          record {
            x = x;
            row = r;
            inner = lt;
            low = hr;
            post = omega (arith, div-add-mod' k (m.width + 1), ap (λ n. n * (m.width + 1)) ey);
            place = place;
            free_below =
                inner_free x (r + 1) lt hr
                  (no_left m has w small bits d (x + 1) (r + 1) lt hr below);
            down_left = inner_down x r (omega arith) hr (
                no_top m has w small bits d x (r + 1) (omega arith) hr
                  (ap (at bits) (omega arith) ∙ beside (omega arith)));
            down_right = inner_down (x + 1) r lt hr (
                no_top m has w small bits d (x + 1) (r + 1) lt hr
                  (ap (at bits) (omega arith) ∙ beside' (omega arith)));
            free =
                ap (λ c. has c 1) place
                ∙ inner_free x r lt (omega arith)
                    (no_left m has w small bits d (x + 1) r lt (omega arith) here_at);
          }
    ]

    IsGap-in_line :
        (y k c : ℕ) → k / (m.width + 1) ≡ y → y < m.height → IsBareAt k c → IsGap m has k c
    IsGap-in_line zero k c ey hy (hk, z, e) =
        let first : k / (m.width + 1) * m.width ≡ 0 * m.width = ap (λ n. n * m.width) ey in
        let hx : k % (m.width + 1) < m.width + 1 = omega arith in absurd (omega arith)
    IsGap-in_line (suc r) k c ey hy bare =
        IsGap-at r _ k c (ey ∙ (omega arith)) refl (omega arith) (omega arith) bare

    bare-IsGap : (k c : ℕ) → IsBareAt k c → IsGap m has k c
    bare-IsGap k c bare = IsGap-in_line _ k c refl (line-lt k bare.0) bare

    -- Two posts of the same cell are one.
    gap_unique : (k k' c : ℕ) → IsGap m has k c → IsGap m has k' c → k ≡ k'
    gap_unique k k' c a b =
        let column : a.x ≡ b.x =
          sym (cell_at_mod m grid a.x a.row (omega (arith, a.inner)) (omega (arith, a.low)))
          ∙ ap (λ c. c % m.width) (sym a.place ∙ b.place)
          ∙ cell_at_mod m grid b.x b.row (omega (arith, b.inner)) (omega (arith, b.low)) in
        let line : a.row ≡ b.row =
          sym (cell_at_div m grid a.x a.row (omega (arith, a.inner)) (omega (arith, a.low)))
          ∙ ap (λ c. c / m.width) (sym a.place ∙ b.place)
          ∙ cell_at_div m grid b.x b.row (omega (arith, b.inner)) (omega (arith, b.low)) in
        a.post
        ∙ ap (λ n. (n + 1) * (m.width + 1) + (a.x + 1)) line
        ∙ ap (λ n. (b.row + 1) * (m.width + 1) + (n + 1)) column
        ∙ sym b.post

    pub problem_IsGap : (c : ℕ) → c ∈ posted.intersection_problems → (k : ℕ) × IsGap m has k c
    problem_IsGap c q = let (k, hk, z, e) = (p.problems c).0 q in (k, bare-IsGap k c (hk, z, e))

    -- No problem stands twice.
    pub problems_distinct :
        (i j a b : ℕ)
        → i < j
        → at posted.intersection_problems i ≡ ok a
        → at posted.intersection_problems j ≡ ok b
        → b ≢ a
    problems_distinct i j a b lt ei ej same =
        let (k, k', less, below, z, z', e, e') = p.ordered i j a b lt ei ej in
        let g = bare-IsGap k a (omega arith, z, e) in
        let g' = bare-IsGap k' b (below, z', e') in
        absurd (omega (arith, gap_unique k k' a g (subst (IsGap m has k') same g')))
