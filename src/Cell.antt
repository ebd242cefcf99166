-- ===== src/Cell.antt =====
-- The class CL (Test00/CL.h and Test00/CL.cpp): one maze cell, its walls encoded in a character.
-- A `char` is its byte pattern, below 256: the sums of `addWallAtSide` and `removeWallAt` wrap, and
-- the comparisons, all between '0' and '?', mean the same for the pattern as for the signed value.
pub mod Encoding
pub mod Walls
pub mod Random
use package.test.Prelude.{ℕ, ◌+◌, ◌-◌, ◌%◌, ◌^◌, Bool, ◌&&◌, ◌||◌, List, [], ◌∷◌}
use package.test.Prelude.Tests.{leb, ◌==◌, if◌then◌else◌}
use package.test.Prelude.Results.{Result, ok, err, Fault, no_draw}

-- `m_char` and `m_1fchar`.
pub record Cell : Type 0 where
  pub char : ℕ
  pub human_char : ℕ

unfoldable pub internal_to_human_readable_char : ℕ → ℕ
internal_to_human_readable_char c =
    if c == b':'
    then b'a'
    else if c == b';'
    then b'b'
    else if c == b'<'
    then b'c'
    else if c == b'='
    then b'd'
    else if c == b'>'
    then b'e'
    else if c == b'?'
    then b'f'
    else c

unfoldable pub human_readable_to_internal_char : ℕ → ℕ
human_readable_to_internal_char c =
    if c == b'a'
    then b':'
    else if c == b'b'
    then b';'
    else if c == b'c'
    then b'<'
    else if c == b'd'
    then b'='
    else if c == b'e'
    then b'>'
    else if c == b'f'
    then b'?'
    else c

-- The constructor `CL::CL`.
unfoldable pub new : ℕ → Cell
unfolding human_readable_to_internal_char
new c = record { char = human_readable_to_internal_char c; human_char = c }

unfoldable pub has_top_wall : Cell → Bool
has_top_wall cl = leb b'8' cl.char && leb cl.char b'?'

unfoldable pub has_right_wall : Cell → Bool
has_right_wall cl = (leb b'4' cl.char && leb cl.char b'7') || (leb b'<' cl.char && leb cl.char b'?')

unfoldable pub has_bottom_wall : Cell → Bool
has_bottom_wall cl =
    cl.char == b'2'
    || cl.char == b'3'
    || cl.char == b'6'
    || cl.char == b'7'
    || cl.char == b':'
    || cl.char == b';'
    || cl.char == b'>'
    || cl.char == b'?'

unfoldable pub has_left_wall : Cell → Bool
has_left_wall cl =
    cl.char == b'1'
    || cl.char == b'3'
    || cl.char == b'5'
    || cl.char == b'7'
    || cl.char == b'9'
    || cl.char == b';'
    || cl.char == b'='
    || cl.char == b'?'

-- The assignment `m_1fchar = internalTohumanReadableChar(m_char)` after a change of `m_char`.
abbrev with_char : ℕ → Cell
with_char c = record { char = c; human_char = internal_to_human_readable_char c }

-- Sides are 0 top, 1 right, 2 bottom, 3 left; the `switch` ignores any other number.
unfoldable pub add_wall_at_side : Cell → ℕ → Cell
unfolding internal_to_human_readable_char
add_wall_at_side cl s =
    if s == 0
    then with_char ((cl.char + 8) % 2 ^ 8)
    else if s == 1
    then with_char ((cl.char + 4) % 2 ^ 8)
    else if s == 2
    then with_char ((cl.char + 2) % 2 ^ 8)
    else if s == 3
    then with_char ((cl.char + 1) % 2 ^ 8)
    else with_char cl.char

unfoldable pub remove_wall_at : Cell → ℕ → Cell
unfolding internal_to_human_readable_char
remove_wall_at cl s =
    if s == 0
    then with_char ((cl.char + 2 ^ 8 - 8) % 2 ^ 8)
    else if s == 1
    then with_char ((cl.char + 2 ^ 8 - 4) % 2 ^ 8)
    else if s == 2
    then with_char ((cl.char + 2 ^ 8 - 2) % 2 ^ 8)
    else if s == 3
    then with_char ((cl.char + 2 ^ 8 - 1) % 2 ^ 8)
    else with_char cl.char

unfoldable pub get_number_of_walls : Cell → ℕ
get_number_of_walls cl =
    let c = cl.char in
    if c == b'0'
    then 0
    else if c == b'1' || c == b'2' || c == b'4' || c == b'8'
    then 1
    else if c == b'3' || c == b'5' || c == b'6' || c == b'9' || c == b':' || c == b'<'
    then 2
    else if c == b'7' || c == b';' || c == b'=' || c == b'>'
    then 3
    else if c == b'?'
    then 4
    else 5

abbrev pub get_human_readable_char : Cell → ℕ
get_human_readable_char cl = cl.human_char

-- Whether `addRandomWall` draws again: the wall of side `r` stands already.
unfoldable pub has_wall_at : Cell → ℕ → Bool
unfolding has_top_wall has_right_wall has_bottom_wall has_left_wall
has_wall_at cl r =
    (r == 0 && has_top_wall cl)
    || (r == 1 && has_right_wall cl)
    || (r == 2 && has_bottom_wall cl)
    || (r == 3 && has_left_wall cl)

-- What `addRandomWall` leaves: the side it returns, the cell, and the draws not used.
pub record Drawn : Type 0 where
  pub side : ℕ
  pub cell : Cell
  pub draws : List ℕ

-- `addRandomWall`, with the results of `rand()` as a list: each call of itself takes the next one.
unfoldable pub add_random_wall : Cell → List ℕ → Result Drawn
unfolding has_wall_at internal_to_human_readable_char
add_random_wall cl [] = err no_draw
add_random_wall cl (d ∷ draws) =
    let again = add_random_wall cl draws in
    let r = d % 4 in
    if has_wall_at cl r
    then again
    else ok (record { side = r; cell = with_char ((cl.char + 2 ^ (3 - r)) % 2 ^ 8); draws = draws })
