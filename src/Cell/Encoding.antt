-- ===== src/Cell/Encoding.antt =====
-- The two spellings of a cell (CL.cpp): hexadecimal digits outside, '0' to '?' inside.
use test.Prelude.{ℕ, ◌≤◌, ◌≡◌, ◌⊎◌, ◌+◌, ◌-◌, ◌/◌, ◌%◌, arith}
use test.Prelude.Tests.{leb, ◌==◌, if◌then◌else◌}
use test.Cell
use test.Cell.Walls.{Walls, of_walls}

-- A hexadecimal digit in the spelling of the maze strings, '0' to '9' and 'a' to 'f'.
abbrev pub IsHexDigit : ℕ → Type 0
IsHexDigit c = (b'0' ≤ c) × (c ≤ b'9') ⊎ (b'a' ≤ c) × (c ≤ b'f')

-- The walls that a hexadecimal digit spells.
abbrev pub hex_value : ℕ → ℕ
hex_value c = if leb c b'9' then c - b'0' else c - b'a' + 10

abbrev pub decode : ℕ → Walls
decode c =
    let v = hex_value c in
    record {
      top = v / 8 % 2 == 1;
      right = v / 4 % 2 == 1;
      bottom = v / 2 % 2 == 1;
      left = v % 2 == 1;
    }

-- The constructor reads a hexadecimal digit as its four bits, and keeps it as the readable one.
pub new-of_walls : (c : ℕ) → IsHexDigit c → Cell.new c ≡ of_walls (decode c)
unfolding Cell.new of_walls
new-of_walls c h = ground arith

-- Printing a cell and constructing one from the character gives the cell back.
pub new-get_human_readable_char : (w : Walls) → Cell.new (of_walls w).human_char ≡ of_walls w
unfolding Cell.new of_walls
new-get_human_readable_char w = ground arith
