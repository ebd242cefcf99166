-- ===== src/Maze/Generate/Shape.antt =====
-- A matrix by its walls: which side of which cell has one, and one wall more or less.
use test.Prelude.{
  ℕ, zero, suc, subst, ◌<◌, ◌≡◌, ◌∙◌, refl, sym, ap, inl, inr, arith, Bool, true, false, ◌&&◌,
}
use test.Prelude.{List}
use test.Prelude.Tests.{◌==◌, if◌then◌else◌, Bool-cases, ==→≡, ==→≢}
use test.Prelude.Lists.{length, get_or, set, length-set, get_or-set_self, get_or-set_ne, get_or_ext}
use test.Prelude.Results.{ok, at, at-get_or}
use test.Cell.{Cell}
use test.Cell.Walls.{
  Walls, of_walls, wall_at, put, add_wall_at_side-of_walls, remove_wall_at-of_walls,
}
use test.Maze.Generate.{modify, add_side, remove_side}

-- Whether the cell has a wall on the side.
abbrev pub Sides : Type 0
Sides = ℕ → ℕ → Bool

abbrev pub walls_of : Sides → ℕ → Walls
walls_of has c = record { top = has c 0; right = has c 1; bottom = has c 2; left = has c 3 }

abbrev pub none_there : Cell
none_there = record { char = b'0'; human_char = b'0' }

-- The `n` cells have the walls `has`.
pub record IsShaped (n : ℕ) (has : Sides) (cells : List Cell) : Type 0 where
  pub size : length cells ≡ n
  pub shape : (c : ℕ) → c < n → get_or cells c none_there ≡ of_walls (walls_of has c)

-- The same but for one side.
abbrev pub put_side : ℕ → ℕ → Bool → Sides → Sides
put_side c s b has d t = if d == c && t == s then b else has d t

pub walls_of_at : (has : Sides) (c s : ℕ) → s < 4 → wall_at (walls_of has c) s ≡ has c s
walls_of_at has c zero h = refl
walls_of_at has c (suc zero) h = refl
walls_of_at has c (suc (suc zero)) h = refl
walls_of_at has c (suc (suc (suc zero))) h = refl
walls_of_at has c (suc (suc (suc (suc s)))) h = absurd (omega arith)

pub walls_of-put_side :
    (has : Sides) (c s : ℕ) (b : Bool)
    → s < 4
    → walls_of (put_side c s b has) c ≡ put (walls_of has c) s b
walls_of-put_side has c s b h = ground arith

walls_of_congr :
    (has has' : Sides) (c : ℕ)
    → ((s : ℕ) → s < 4 → has c s ≡ has' c s)
    → walls_of has c ≡ walls_of has' c
walls_of_congr has has' c h =
    let e0 = h 0 (omega arith) in
    let e1 = h 1 (omega arith) in let e2 = h 2 (omega arith) in let e3 = h 3 (omega arith) in cc

module _ (n : ℕ) (has : Sides) (cells : List Cell) (shaped : IsShaped n has cells) where
  pub IsShaped-set :
      (c s : ℕ) (b : Bool) (cl : Cell)
      → c < n
      → s < 4
      → cl ≡ of_walls (put (walls_of has c) s b)
      → IsShaped n (put_side c s b has) (set cells c cl)
  IsShaped-set c s b cl hc hs e = record {
    size = length-set cells c cl ∙ shaped.size;
    shape = λ d hd. elim (Bool-cases (d == c)) [
      | inl same ↦
          subst
            (λ d. get_or (set cells c cl) d none_there ≡ of_walls (walls_of (put_side c s b has) d))
            (sym (==→≡ d c same))
            (get_or-set_self cells c cl none_there (omega (arith, shaped.size))
              ∙ e
              ∙ ap of_walls (sym (walls_of-put_side has c s b hs)))
      | inr other ↦
          get_or-set_ne cells c d cl none_there (==→≢ d c other)
          ∙ shaped.shape d hd
          ∙ ap of_walls (rw other refl)
    ];
  }

  pub at-shape : (c : ℕ) → c < n → at cells c ≡ ok (of_walls (walls_of has c))
  at-shape c hc =
      at-get_or cells c none_there (omega (arith, shaped.size)) ∙ ap ok (shaped.shape c hc)

  -- A wall is added on a free side, or taken from one that has it.
  pub modify-add_side :
      (c s : ℕ)
      → c < n
      → s < 4
      → has c s ≡ false
      → (cells' : List Cell) × (modify cells c (add_side s) ≡ ok cells')
        × IsShaped n (put_side c s true has) cells'
  modify-add_side c s hc hs free = (
    set cells c (of_walls (put (walls_of has c) s true)),
    rw
        (
          at-shape c hc,
          add_wall_at_side-of_walls (walls_of has c) s hs (walls_of_at has c s hs ∙ free),
        )
        refl,
    IsShaped-set c s true _ hc hs refl,
  )

  pub modify-remove_side :
      (c s : ℕ)
      → c < n
      → s < 4
      → has c s ≡ true
      → (cells' : List Cell) × (modify cells c (remove_side s) ≡ ok cells')
        × IsShaped n (put_side c s false has) cells'
  modify-remove_side c s hc hs taken = (
    set cells c (of_walls (put (walls_of has c) s false)),
    rw
        (
          at-shape c hc,
          remove_wall_at-of_walls (walls_of has c) s hs (walls_of_at has c s hs ∙ taken),
        )
        refl,
    IsShaped-set c s false _ hc hs refl,
  )

  -- The walls determine the cells.
  pub cells-eq :
      (has' : Sides) (cells' : List Cell)
      → IsShaped n has' cells'
      → ((c s : ℕ) → c < n → s < 4 → has' c s ≡ has c s)
      → cells' ≡ cells
  cells-eq has' cells' shaped' h =
      get_or_ext cells' cells none_there (shaped'.size ∙ sym shaped.size) (λ c lt.
        let hc : c < n = omega (arith, shaped'.size) in
        shaped'.shape c hc
        ∙ ap of_walls (walls_of_congr has' has c (λ s hs. h c s hc hs))
        ∙ sym (shaped.shape c hc))
