-- ===== src/Cell/Walls.antt =====
-- The walls of a cell (CL.cpp): the sixteen characters '0' to '?' stand for the sets of walls.
use test.Prelude.{ap, sym, ◌∙◌, ℕ, ◌≤◌, ◌+◌, ◌*◌, ◌<◌, ◌≡◌, ◌≢◌, arith}
use test.Prelude.{Bool, true, false}
use test.Prelude.Tests.{◌==◌, if◌then◌else◌}
use test.Cell
use test.Cell.{Cell}

pub record Walls : Type 0 where
  pub top : Bool
  pub right : Bool
  pub bottom : Bool
  pub left : Bool

abbrev pub bit : Bool → ℕ
bit true = 1
bit false = 0

abbrev pub count : Walls → ℕ
count w = bit w.top + bit w.right + bit w.bottom + bit w.left

-- The cell with these walls: the bits 8, 4, 2, 1 over the character '0'.
unfoldable pub of_walls : Walls → Cell
unfolding Cell.internal_to_human_readable_char
of_walls w =
    let c = b'0' + 8 * bit w.top + 4 * bit w.right + 2 * bit w.bottom + bit w.left in
    record { char = c; human_char = Cell.internal_to_human_readable_char c }

abbrev pub wall_at : Walls → ℕ → Bool
wall_at w s =
    if s == 0 then w.top else if s == 1 then w.right else if s == 2 then w.bottom else w.left

abbrev pub put : Walls → ℕ → Bool → Walls
put w s b =
    if s == 0
    then record w { top = b }
    else if s == 1
    then record w { right = b }
    else if s == 2
    then record w { bottom = b }
    else record w { left = b }

pub has_top_wall-of_walls : (w : Walls) → Cell.has_top_wall (of_walls w) ≡ w.top
unfolding of_walls Cell.has_top_wall
has_top_wall-of_walls w = ground arith

pub has_right_wall-of_walls : (w : Walls) → Cell.has_right_wall (of_walls w) ≡ w.right
unfolding of_walls Cell.has_right_wall
has_right_wall-of_walls w = ground arith

pub has_bottom_wall-of_walls : (w : Walls) → Cell.has_bottom_wall (of_walls w) ≡ w.bottom
unfolding of_walls Cell.has_bottom_wall
has_bottom_wall-of_walls w = ground arith

pub has_left_wall-of_walls : (w : Walls) → Cell.has_left_wall (of_walls w) ≡ w.left
unfolding of_walls Cell.has_left_wall
has_left_wall-of_walls w = ground arith

pub get_number_of_walls-of_walls : (w : Walls) → Cell.get_number_of_walls (of_walls w) ≡ count w
unfolding of_walls Cell.get_number_of_walls
get_number_of_walls-of_walls w = ground arith

pub add_wall_at_side-of_walls :
    (w : Walls) (s : ℕ)
    → s < 4
    → wall_at w s ≡ false
    → Cell.add_wall_at_side (of_walls w) s ≡ of_walls (put w s true)
unfolding of_walls Cell.add_wall_at_side
add_wall_at_side-of_walls w s h e = ground arith

-- The characters of a set of walls lie between '0' and '?'.
pub of_walls_char : (w : Walls) → (b'0' ≤ (of_walls w).char) × ((of_walls w).char ≤ b'?')
unfolding of_walls
of_walls_char w = ground arith

pub remove_wall_at-of_walls :
    (w : Walls) (s : ℕ)
    → s < 4
    → wall_at w s ≡ true
    → Cell.remove_wall_at (of_walls w) s ≡ of_walls (put w s false)
unfolding of_walls Cell.remove_wall_at
remove_wall_at-of_walls w s h e = ground arith

-- A wall added where one stands carries into the next bit.
pub add_wall_at_side_twice :
    (w : Walls) (s : ℕ)
    → s < 4
    → wall_at w s ≡ true
    → Cell.add_wall_at_side (of_walls w) s ≢ of_walls w
unfolding of_walls Cell.add_wall_at_side
add_wall_at_side_twice w s h e = ground arith

pub has_wall_at-of_walls :
    (w : Walls) (s : ℕ) → s < 4 → Cell.has_wall_at (of_walls w) s ≡ wall_at w s
unfolding of_walls Cell.has_wall_at
has_wall_at-of_walls w s h = ground arith

pub wall_at-put_self : (w : Walls) (s : ℕ) (b : Bool) → s < 4 → wall_at (put w s b) s ≡ b
wall_at-put_self w s b h = ground arith

pub wall_at-put_ne :
    (w : Walls) (s t : ℕ) (b : Bool) → s < 4 → t < 4 → s ≢ t → wall_at (put w s b) t ≡ wall_at w t
wall_at-put_ne w s t b hs ht ne = ground arith

pub count-put :
    (w : Walls) (s : ℕ) → s < 4 → wall_at w s ≡ false → count (put w s true) ≡ count w + 1
count-put w s h e = ground arith

put-put : (w : Walls) (s : ℕ) → s < 4 → wall_at w s ≡ false → put (put w s true) s false ≡ w
put-put w s h e = ground arith

-- On a cell with a given set of walls and a free side: adding the wall gives the cell with that
-- wall more, which counts one wall more, and removing it gives the cell back.
pub change_wall_lem :
    (w : Walls) (s : ℕ)
    → s < 4
    → wall_at w s ≡ false
    → (Cell.add_wall_at_side (of_walls w) s ≡ of_walls (put w s true))
      × (Cell.remove_wall_at (Cell.add_wall_at_side (of_walls w) s) s ≡ of_walls w)
      × (Cell.get_number_of_walls (Cell.add_wall_at_side (of_walls w) s)
          ≡ Cell.get_number_of_walls (of_walls w) + 1)
change_wall_lem w s h e =
    let added = add_wall_at_side-of_walls w s h e in
    let removed = remove_wall_at-of_walls (put w s true) s h (wall_at-put_self w s true h) in
    (
      added,
      rw added (removed ∙ ap of_walls (put-put w s h e)),
      rw added (
          get_number_of_walls-of_walls (put w s true)
          ∙ count-put w s h e
          ∙ ap (λ (n : ℕ). n + 1) (sym (get_number_of_walls-of_walls w))),
    )
