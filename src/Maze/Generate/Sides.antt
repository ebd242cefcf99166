-- ===== src/Maze/Generate/Sides.antt =====
-- The sides of neighbours: a wall between two cells stands on a side of each.
use test.Prelude.{
  ℕ, zero, suc, ◌+◌, ◌-◌, ◌<◌, ◌≡◌, ◌∙◌, refl, sym, ap, inl, inr, arith, Bool, false,
}
use test.Prelude.{◌&&◌, ◌||◌, subst}
use test.Prelude.Tests.{◌==◌, if◌then◌else◌, Bool-cases}
use test.Prelude.Int.{pos_injective, negsuc-ne-pos, pos, negsuc}
use test.Maze.State.{Maze}
use test.Maze.Grid
use test.Maze.Grid.Laws.{
  IsGrid, neighbour_top-lt, neighbour_bottom-lt, right-lt, left-right, right-left,
  neighbour_top-neighbour_bottom, neighbour_bottom-neighbour_top,
}
use test.Maze.Generate.{wall_neighbour, mirrored}

-- The cell beyond the side `s` of `c` is `nb`.
abbrev pub Beyond : Maze → ℕ → ℕ → ℕ → Type 0
Beyond m c s nb = wall_neighbour m c (pos s) ≡ pos nb

-- Whether the side is on the left or right border.
abbrev pub is_outside : Maze → ℕ → ℕ → Bool
is_outside m c s = (Grid.is_right_edge m c && s == 1) || (Grid.is_left_edge m c && s == 3)

pub Beyond-unique : (m : Maze) (c s a b : ℕ) → Beyond m c s a → Beyond m c s b → a ≡ b
Beyond-unique m c s a b p q = pos_injective a b (sym p ∙ q)

module _ (m : Maze) (c : ℕ) where
  pub Beyond-top : Beyond m c 0 (Grid.neighbour_top m c)
  unfolding wall_neighbour Grid.neighbour_top
  Beyond-top = refl

  pub Beyond-bottom : Beyond m c 2 (Grid.neighbour_bottom m c)
  unfolding wall_neighbour Grid.neighbour_bottom
  Beyond-bottom = ground arith

  beyond_right :
      wall_neighbour m c (pos 1) ≡ (if Grid.is_right_edge m c then negsuc 0 else pos (c + 1))
  unfolding wall_neighbour Grid.is_right_edge
  beyond_right = ground arith

  beyond_left :
      wall_neighbour m c (pos 3) ≡ (if Grid.is_left_edge m c then negsuc 0 else pos (c - 1))
  unfolding wall_neighbour Grid.is_left_edge
  beyond_left = ground arith

  pub Beyond-right_inner : Grid.is_right_edge m c ≡ false → Beyond m c 1 (c + 1)
  Beyond-right_inner e = rw beyond_right (rw e)

  pub Beyond-left_inner : Grid.is_left_edge m c ≡ false → Beyond m c 3 (c - 1)
  Beyond-left_inner e = rw beyond_left (rw e)

  pub beyond : (s : ℕ) → s < 4 → is_outside m c s ≡ false → (nb : ℕ) × Beyond m c s nb
  beyond zero hs inside = (Grid.neighbour_top m c, Beyond-top)
  beyond (suc zero) hs inside = (c + 1, Beyond-right_inner (ground arith))
  beyond (suc (suc zero)) hs inside = (Grid.neighbour_bottom m c, Beyond-bottom)
  beyond (suc (suc (suc zero))) hs inside = (c - 1, Beyond-left_inner (ground arith))
  beyond (suc (suc (suc (suc s)))) hs inside = absurd (omega arith)

-- What there is to say of the cell beyond a side: it is a cell, and `c` lies beyond its mirrored side.
abbrev pub Mirrors : Maze → ℕ → ℕ → ℕ → Type 0
Mirrors m c s nb = (nb < m.total_cells) × Beyond m nb (mirrored s) c × (is_outside m c s ≡ false)

module _ (m : Maze) (g : IsGrid m) (c : ℕ) (h : c < m.total_cells) where
  mirror_top : Mirrors m c 0 (Grid.neighbour_top m c)
  mirror_top =
      let back_again = neighbour_bottom-neighbour_top m g c h in
      (
        neighbour_top-lt m g c h,
        Beyond-bottom m (Grid.neighbour_top m c) ∙ ap pos back_again,
        ground arith,
      )

  mirror_bottom : Mirrors m c 2 (Grid.neighbour_bottom m c)
  mirror_bottom =
      let back_again = neighbour_top-neighbour_bottom m g c h in
      (
        neighbour_bottom-lt m g c h,
        Beyond-top m (Grid.neighbour_bottom m c) ∙ ap pos back_again,
        ground arith,
      )

  mirror_right : Grid.is_right_edge m c ≡ false → Mirrors m c 1 (c + 1)
  mirror_right e = (
    right-lt m g c h e,
    Beyond-left_inner m (c + 1) (right-left m g c h e) ∙ ap pos (omega arith),
    ground arith,
  )

  mirror_left : Grid.is_left_edge m c ≡ false → Mirrors m c 3 (c - 1)
  mirror_left e =
      let (lt, back_again, inner) = left-right m g c h e in
      (lt, Beyond-right_inner m (c - 1) inner ∙ ap pos back_again, ground arith)

  pub mirror : (s nb : ℕ) → s < 4 → Beyond m c s nb → Mirrors m c s nb
  mirror zero nb hs e =
      subst (Mirrors m c 0) (Beyond-unique m c 0 _ nb (Beyond-top m c) e) mirror_top
  mirror (suc zero) nb hs e = elim (Bool-cases (Grid.is_right_edge m c)) [
    | inl edge ↦ absurd (negsuc-ne-pos 0 nb (rw edge at (sym (beyond_right m c) ∙ e)))
    | inr inner ↦
        subst (Mirrors m c 1) (Beyond-unique m c 1 _ nb (Beyond-right_inner m c inner) e)
          (mirror_right inner)
  ]
  mirror (suc (suc zero)) nb hs e =
      subst (Mirrors m c 2) (Beyond-unique m c 2 _ nb (Beyond-bottom m c) e) mirror_bottom
  mirror (suc (suc (suc zero))) nb hs e = elim (Bool-cases (Grid.is_left_edge m c)) [
    | inl edge ↦ absurd (negsuc-ne-pos 0 nb (rw edge at (sym (beyond_left m c) ∙ e)))
    | inr inner ↦
        subst (Mirrors m c 3) (Beyond-unique m c 3 _ nb (Beyond-left_inner m c inner) e)
          (mirror_left inner)
  ]
  mirror (suc (suc (suc (suc s)))) nb hs e = absurd (omega arith)
