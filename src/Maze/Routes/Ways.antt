-- ===== src/Maze/Routes/Ways.antt =====
-- A test of the border of a matrix: whether it is closed but for one cell.
use test.Prelude.{
  ℕ, zero, suc, ◌+◌, ◌≡◌, ◌∙◌, sym, ap, arith, Bool, true, false, ◌||◌, ◌&&◌, not, List, [], ◌∷◌,
}
use test.Prelude.Tests.{◌==◌, ==→≡}
use test.Prelude.Results.{ok, at, ok_injective}
use test.Cell.{Cell}

-- Each cell from `i` on has the wall, or stands elsewhere than at the edge, or is `only`.
unfoldable pub closed_but : (Cell → Bool) → (ℕ → Bool) → ℕ → List Cell → ℕ → Bool
closed_but has_wall edge only [] i = true
closed_but has_wall edge only (cl ∷ cls) i =
    (has_wall cl || not (edge i) || i == only) && closed_but has_wall edge only cls (i + 1)

only_there :
    (a b c : Bool) (rest : Bool)
    → ((a || not b || c) && rest) ≡ true
    → a ≡ false
    → b ≡ true
    → c ≡ true
only_there a b c rest h ha hb = ground arith

others : (a rest : Bool) → (a && rest) ≡ true → rest ≡ true
others a rest h = ground arith

pub closed_but_lem :
    (has_wall : Cell → Bool) (edge : ℕ → Bool) (only : ℕ) (cls : List Cell) (i k c : ℕ) (cl : Cell)
    → closed_but has_wall edge only cls i ≡ true
    → c ≡ i + k
    → at cls k ≡ ok cl
    → edge c ≡ true
    → has_wall cl ≡ false
    → c ≡ only
unfolding closed_but
closed_but_lem has_wall edge only [] i k c cl h e h' at_edge open_side = absurd_at h'
  where
    absurd_at : at [] k ≡ ok cl → c ≡ only
    absurd_at e = cc
closed_but_lem has_wall edge only (x ∷ cls) i zero c cl h e h' at_edge open_side =
    let here : c ≡ i = omega arith in
    let same : x ≡ cl = ok_injective x cl h' in
    here
    ∙ ==→≡ i only (
        only_there (has_wall x) (edge i) (i == only) _ h (ap has_wall same ∙ open_side)
          (ap edge (sym here) ∙ at_edge))
closed_but_lem has_wall edge only (x ∷ cls) i (suc k) c cl h e h' at_edge open_side =
    closed_but_lem has_wall edge only cls (i + 1) k c cl (others _ _ h) (omega arith) h' at_edge
      open_side
