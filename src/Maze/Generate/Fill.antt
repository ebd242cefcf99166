-- ===== src/Maze/Generate/Fill.antt =====
-- The loop of `fillWalllessCells`.
use test.Prelude.{
  ℕ, ◌+◌, ◌≤◌, ◌<◌, ◌≡◌, ◌≢◌, ◌∙◌, ◌⊎◌, refl, sym, inl, inr, arith, true, false, subst, List,
  ⊎_elim,
}
use test.Prelude.Tests.{◌==◌, Bool-cases}
use test.Prelude.Lists.{length, ◌∈◌}
use test.Prelude.Loops.{at-mem}
use test.Prelude.Results.{
  ok, at, at-lt, Returns, Returns-intro, Returns-value, Returns-for_range, for_range,
}
use test.Cell.{Cell}
use test.Maze.State.{Maze}
use test.Maze.Grid
use test.Maze.Generate
use test.Maze.Generate.{modify, add_side, mirrored}
use test.Maze.Generate.Shape.{Sides, put_side, modify-add_side}
use test.Maze.Generate.Sides.{Beyond, mirror, Beyond-right_inner}
use test.Maze.Generate.Pairs.{put_pair}
use test.Maze.Generate.Walled.{IsWalled, with_cells, IsWalled-put_pair}

-- Each of the problems is a cell off the right edge without a wall on its right, and none stands
-- twice.
pub record IsFixable (m : Maze) (has : Sides) (problems : List ℕ) : Type 0 where
  pub inside :
      (c : ℕ)
      → c ∈ problems
      → (c < m.total_cells) × (Grid.is_right_edge m c ≡ false) × (has c 1 ≡ false)
  pub distinct : (i j a b : ℕ) → i < j → at problems i ≡ ok a → at problems j ≡ ok b → b ≢ a

-- The walls after the problems below `i`.
pub record Filled (m : Maze) (has : Sides) (problems : List ℕ) (i : ℕ) (cells : List Cell)
    : Type 0 where
  pub more : Sides
  pub walled : IsWalled (with_cells cells m.n_walls m) more
  pub pending : (j a : ℕ) → i ≤ j → at problems j ≡ ok a → more a 1 ≡ false
  pub top : (c : ℕ) → more c 0 ≡ has c 0
  pub bottom : (c : ℕ) → more c 2 ≡ has c 2
  pub beside : (c : ℕ) → has c 1 ≡ false → (more c 1 ≡ false) ⊎ (c ∈ problems)

module _ (m : Maze) (has : Sides) (problems : List ℕ) (f : IsFixable m has problems) where
  fill_one :
      (i : ℕ) (cells : List Cell)
      → i < length problems
      → Filled m has problems i cells
      → Returns (Filled m has problems (i + 1)) (Generate.fill_wallless_cell problems i cells)
  unfolding Generate.fill_wallless_cell Grid.is_right_edge
  fill_one i cells h s =
      let n : Maze = with_cells cells m.n_walls m in
      let (p, found) = at-lt problems i h in
      let q = at-mem problems i p found in
      let (hp, inner, _) = f.inside p q in
      let across : Beyond n p 1 (p + 1) = Beyond-right_inner n p inner in
      let (hn, _, _) = mirror n s.walled.grid p hp 1 (p + 1) (omega arith) across in
      let free : s.more p 1 ≡ false = s.pending i p (omega arith) found in
      let (cells1, run1, shaped1) =
        modify-add_side n.total_cells s.more cells s.walled.shaped p 1 hp (omega arith) free in
      let other : put_side p 1 true s.more (p + 1) 3 ≡ false =
        (ground arith) ∙ sym (s.walled.matched p 1 (p + 1) hp (omega arith) across) ∙ free in
      let (cells2, run2, shaped2) =
        modify-add_side n.total_cells (put_side p 1 true s.more) cells1 shaped1 (p + 1) 3 hn
          (omega arith) other in
      Returns-intro (Filled m has problems (i + 1)) _ cells2 (rw (found, run1, run2) refl) (record {
        more = put_pair p 1 (p + 1) true s.more;
        walled =
            IsWalled-put_pair n s.more s.walled p 1 (p + 1) hp (omega arith) across cells2 m.n_walls
              shaped2;
        pending = λ j a later e.
            let ne : a ≢ p = f.distinct i j p a (omega arith) found e in
            let same = s.pending j a (omega arith) e in ground arith;
        top = λ c. (ground arith) ∙ s.top c;
        bottom = λ c. (ground arith) ∙ s.bottom c;
        beside = λ c e. elim (Bool-cases (c == p)) [
          | inl here_it ↦ inr (let same : p ≡ c = ground arith in subst (λ c. c ∈ problems) same q)
          | inr ne ↦ ⊎_elim (λ open_side. inl (ground arith)) inr (s.beside c e)
        ];
      })

  pub fill_all :
      IsWalled m has
      → (cells : List Cell) × (for_range
            (length problems)
            0
            (Generate.fill_wallless_cell problems)
            m.cl_matrix
          ≡ ok cells)
        × Filled m has problems (length problems) cells
  fill_all w = Returns-value (Filled m has problems (length problems)) _ (
      Returns-for_range (Filled m has problems) (Generate.fill_wallless_cell problems)
        (length problems) fill_one (length problems) 0 m.cl_matrix (omega arith)
        (record {
          more = has;
          walled = w;
          pending = λ j a _ e. (f.inside a (at-mem problems j a e)).2;
          top = λ c. refl;
          bottom = λ c. refl;
          beside = λ c e. inl e;
        }))
