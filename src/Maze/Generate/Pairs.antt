-- ===== src/Maze/Generate/Pairs.antt =====
-- The two sides of a wall between two cells, changed together.
use test.Prelude.{ℕ, ◌<◌, ◌≡◌, ◌≢◌, ◌∙◌, sym, ap, inl, inr, arith, Bool, ◌⊎◌}
use test.Prelude.{◌&&◌, ◌||◌, subst}
use test.Prelude.Tests.{◌==◌, Bool-cases}
use test.Maze.State.{Maze}
use test.Maze.Grid.Laws.{IsGrid}
use test.Maze.Generate.{mirrored}
use test.Maze.Generate.Shape.{Sides, put_side}
use test.Maze.Generate.Sides.{Beyond, Beyond-unique, mirror}

-- Neighbours agree on the wall between them.
abbrev pub IsMatched : Maze → Sides → Type 0
IsMatched m has =
    (c s nb : ℕ) → c < m.total_cells → s < 4 → Beyond m c s nb → has c s ≡ has nb (mirrored s)

pub mirrored-lt : (s : ℕ) → mirrored s < 4
mirrored-lt s = omega arith

mirrored-mirrored : (s : ℕ) → s < 4 → mirrored (mirrored s) ≡ s
mirrored-mirrored s h = omega arith

pub mirrored-ne : (s : ℕ) → s < 4 → mirrored s ≢ s
mirrored-ne s h = omega arith

-- The wall between `c` and `nb`, on the side `s` of `c`, set to `b`.
abbrev pub put_pair : ℕ → ℕ → ℕ → Bool → Sides → Sides
put_pair c s nb b has = put_side nb (mirrored s) b (put_side c s b has)

module _ (m : Maze) (g : IsGrid m) (c s nb : ℕ) (hc : c < m.total_cells) (hs : s < 4)
    (across : Beyond m c s nb) where
  abbrev InPair : ℕ → ℕ → Type 0
  InPair d t = (d ≡ c) × (t ≡ s) ⊎ (d ≡ nb) × (t ≡ mirrored s)

  InPair-mirror :
      (d t nd : ℕ)
      → d < m.total_cells
      → t < 4
      → Beyond m d t nd
      → InPair d t
      → InPair nd (mirrored t)
  InPair-mirror d t nd hd ht e (inl (ed, et)) = inr (
    Beyond-unique m c s nd nb (subst (λ d. Beyond m d s nd) ed (subst (λ t. Beyond m d t nd) et e))
        across,
    ap mirrored et,
  )
  InPair-mirror d t nd hd ht e (inr (ed, et)) = inl (
    Beyond-unique m nb (mirrored s) nd c
        (subst (λ d. Beyond m d (mirrored s) nd) ed (subst (λ t. Beyond m d t nd) et e))
        (mirror m g c hc s nb hs across).1,
    ap mirrored et ∙ mirrored-mirrored s hs,
  )

  put_pair-in : (has : Sides) (b : Bool) (d t : ℕ) → InPair d t → put_pair c s nb b has d t ≡ b
  put_pair-in has b d t h = ground arith

  put_pair-out :
      (has : Sides) (b : Bool) (d t : ℕ) → ¬ InPair d t → put_pair c s nb b has d t ≡ has d t
  put_pair-out has b d t h = ground arith

  in_pair : (d t : ℕ) → InPair d t ⊎ ¬ InPair d t
  in_pair d t = elim (Bool-cases ((d == c && t == s) || (d == nb && t == mirrored s))) [
    | inl e ↦ inl (ground arith)
    | inr e ↦ inr (λ i. ground arith)
  ]

  pub IsMatched-put_pair :
      (has : Sides) (b : Bool) → IsMatched m has → IsMatched m (put_pair c s nb b has)
  IsMatched-put_pair has b h d t nd hd ht e = elim (in_pair d t) [
    | inl i ↦
        put_pair-in has b d t i
        ∙ sym (put_pair-in has b nd (mirrored t) (InPair-mirror d t nd hd ht e i))
    | inr o ↦
        put_pair-out has b d t o
        ∙ h d t nd hd ht e
        ∙ sym (
            put_pair-out has b nd (mirrored t) (λ i.
              let (hnd, back_again, _) = mirror m g d hd t nd ht e in
              o (
                subst (InPair d) (mirrored-mirrored t ht)
                  (InPair-mirror nd (mirrored t) d hnd (mirrored-lt t) back_again i))))
  ]
