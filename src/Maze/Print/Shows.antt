-- ===== src/Maze/Print/Shows.antt =====
-- The picture that `printVisual` (MZ.cpp) writes, place by place.
use test.Prelude.{◌%◌}
use test.Prelude.{ℕ, suc, ◌+◌, ◌-◌, ◌*◌, ◌≤◌, ◌<◌, ◌≡◌, ◌∙◌, refl, sym, ap, arith}
use test.Prelude.{Bool, true, false, List, [], ◌∷◌, ◌++◌, append_assoc, append-nil}
use test.Prelude.Tests.{◌==◌, if◌then◌else◌, ≡→==}
use native.Mathlib.Nat.{mul-le-mul_right}
use test.Prelude.Lists.{length, length-append, get_or, tabulate}
use test.Prelude.Results.{ok, at, at-get_or, for_range, ◌>>=◌}
use test.Prelude.Loops.{at-append_left, at-append_right}
use test.Prelude.Tables.{
  table, length-table, at-table, for_range-tabulate, for_range-table, tabulate-snoc,
}
use test.Maze.State.{Maze}
use test.Maze.Print
use test.Maze.Print.{wall_char}

-- A bar in an even column and an underscore in an odd one.
abbrev pub wall_sign : ℕ → ℕ
wall_sign x = if x % 2 == 0 then b'|' else b'_'

wall_char_lem : (x : ℕ) → wall_char x ≡ wall_sign x
wall_char_lem x = ground arith

-- The sign of a place, and that of a place or of the end of its line.
abbrev pub sign : Maze → ℕ → ℕ → ℕ
sign m x y = if get_or m.cl_matrix_visual (y * m.width_visual + x) false then wall_sign x else b' '

glyph : Maze → ℕ → ℕ → ℕ
glyph m x y = if x == m.width_visual then 10 else sign m x y

glyph_inside : (m : Maze) (x y : ℕ) → x < m.width_visual → glyph m x y ≡ sign m x y
unfolding glyph
glyph_inside m x y h = let e : (x == m.width_visual) ≡ false = ground arith in rw e refl

glyph_end : (m : Maze) (y : ℕ) → glyph m m.width_visual y ≡ 10
unfolding glyph
glyph_end m y = rw (≡→== m.width_visual m.width_visual refl) refl

module _ (m : Maze) where
  -- The lines that are written.
  abbrev pub lines : Bool → ℕ
  lines true = m.height_visual + (m.height_visual - 1)
  lines false = m.height_visual

  -- The text of the picture: of line `y`, the sign of each place and the end of the line.
  pub record Shows (doubly : Bool) (t : List ℕ) : Type 0 where
    pub size : length t ≡ lines doubly * (m.width_visual + 1)
    pub signs :
        (x y : ℕ)
        → x < m.width_visual
        → y < m.height_visual
        → at t (y * (m.width_visual + 1) + x) ≡ ok (sign m x y)
    pub ends :
        (y : ℕ) → y < m.height_visual → at t (y * (m.width_visual + 1) + m.width_visual) ≡ ok 10
    pub below :
        (x y : ℕ)
        → x < m.width_visual
        → doubly ≡ true
        → y + 1 < m.height_visual
        → at t ((m.height_visual + y) * (m.width_visual + 1) + x) ≡ ok (sign m x (y + 1))

module _ (m : Maze) (full : length m.cl_matrix_visual ≡ m.height_visual * m.width_visual) where
  print_visual_char_lem :
      (y x : ℕ) (out : List ℕ)
      → y < m.height_visual
      → x < m.width_visual
      → Print.print_visual_char m y x out ≡ ok (out ++ sign m x y ∷ [])
  unfolding Print.print_visual_char
  print_visual_char_lem y x out hy hx =
      let le : (y + 1) * m.width_visual ≤ m.height_visual * m.width_visual =
        mul-le-mul_right m.width_visual (omega arith) in
      rw
        (at-get_or m.cl_matrix_visual (y * m.width_visual + x) false (omega arith), wall_char_lem x)
        refl

  print_visual_row_lem :
      (y : ℕ) (out : List ℕ)
      → y < m.height_visual
      → Print.print_visual_row m y out
        ≡ ok (out ++ tabulate (m.width_visual + 1) 0 (λ x. glyph m x y))
  unfolding Print.print_visual_row
  print_visual_row_lem y out hy =
      let wv = m.width_visual in
      let line : for_range wv 0 (Print.print_visual_char m y) []
          ≡ ok (tabulate wv 0 (λ x. sign m x y)) =
        for_range-tabulate (λ x. sign m x y) (Print.print_visual_char m y) wv
          (λ x acc hx. print_visual_char_lem y x acc hy hx) wv 0 [] (omega arith) in
      let one_more : suc wv ≡ wv + 1 = omega arith in
      let snoc : tabulate wv 0 (λ x. sign m x y) ++ 10 ∷ []
          ≡ tabulate (wv + 1) 0 (λ x. glyph m x y) =
        tabulate-snoc wv 0 wv (λ x. sign m x y) (λ x. glyph m x y) 10 (omega arith)
          (λ x hx. sym (glyph_inside m x y hx)) (glyph_end m y)
        ∙ ap (λ n. tabulate n 0 (λ x. glyph m x y)) one_more in
      ap (λ r. r >>= λ line. ok (out ++ line ++ 10 ∷ [])) line
      ∙ ap ok (append_assoc out _ (10 ∷ []))
      ∙ ap (λ l. ok (out ++ l)) snoc

  -- The text, as tables of signs: the whole picture, and once more without its first line.
  first : List ℕ
  first = table (glyph m) (m.width_visual + 1) m.height_visual 0

  again : Bool → List ℕ
  again true = table (glyph m) (m.width_visual + 1) (m.height_visual - 1) 1
  again false = []

  first_lem : for_range m.height_visual 0 (Print.print_visual_row m) [] ≡ ok first
  unfolding first
  first_lem =
      for_range-table (glyph m) (m.width_visual + 1) (Print.print_visual_row m) m.height_visual
        (λ y acc hy. print_visual_row_lem y acc hy) m.height_visual 0 [] (omega arith)

  print_visual_lem :
      (doubly : Bool)
      → 0 < m.height_visual
      → Print.print_visual m doubly ≡ ok (first ++ again doubly)
  unfolding Print.print_visual again
  print_visual_lem false high = rw first_lem (ap ok (sym (append-nil first)))
  print_visual_lem true high = rw first_lem (
      for_range-table (glyph m) (m.width_visual + 1) (Print.print_visual_row m) m.height_visual
        (λ y acc hy. print_visual_row_lem y acc hy) (m.height_visual - 1) 1 first (omega arith))

  size_lem :
      (doubly : Bool)
      → 0 < m.height_visual
      → length (first ++ again doubly) ≡ lines m doubly * (m.width_visual + 1)
  unfolding first again
  size_lem false high =
      ap length (append-nil first) ∙ length-table (glyph m) (m.width_visual + 1) m.height_visual 0
  size_lem true high =
      length-append first (again true)
      ∙ ap (λ n. n + length (again true))
          (length-table (glyph m) (m.width_visual + 1) m.height_visual 0)
      ∙ ap (λ n. m.height_visual * (m.width_visual + 1) + n)
          (length-table (glyph m) (m.width_visual + 1) (m.height_visual - 1) 1)
      ∙ both m.height_visual (m.height_visual - 1) (m.width_visual + 1)
    where
      both : (a b w : ℕ) → a * w + b * w ≡ (a + b) * w
      both a b w = omega arith

  in_first :
      (doubly : Bool) (x y : ℕ)
      → x < m.width_visual + 1
      → y < m.height_visual
      → at (first ++ again doubly) (y * (m.width_visual + 1) + x) ≡ ok (glyph m x y)
  unfolding first
  in_first doubly x y hx hy =
      let w = m.width_visual + 1 in
      let le : (y + 1) * w ≤ m.height_visual * w = mul-le-mul_right w (omega arith) in
      at-append_left first (again doubly) (y * w + x)
        (omega (arith, length-table (glyph m) w m.height_visual 0))
      ∙ at-table (glyph m) w m.height_visual 0 x y y hx hy (omega arith)

  in_again :
      (x y : ℕ)
      → x < m.width_visual + 1
      → y + 1 < m.height_visual
      → at (first ++ again true) ((m.height_visual + y) * (m.width_visual + 1) + x)
        ≡ ok (glyph m x (y + 1))
  unfolding first again
  in_again x y hx hy =
      let w = m.width_visual + 1 in
      let apart : (m.height_visual + y) * w + x ≡ m.height_visual * w + (y * w + x) = omega arith in
      at-append_right first (again true) (y * w + x) _
        (apart ∙ ap (λ n. n + (y * w + x)) (sym (length-table (glyph m) w m.height_visual 0)))
      ∙ at-table (glyph m) w (m.height_visual - 1) 1 x y (y + 1) hx (omega arith) (omega arith)

  -- printVisual of a maze whose picture has at least one line and an entry for each of its places
  -- returns and writes the lines of the picture, one after another, and if it is wanted doubly, all
  -- but the first once more below them. In each line stands for each place the sign of a wall, which
  -- is a bar in the even columns and an underscore in the odd ones, if the entry is set, and a blank
  -- if not; then the line ends.
  pub print_visual-Shows :
      0 < m.height_visual
      → (doubly : Bool) → (t : List ℕ) × (Print.print_visual m doubly ≡ ok t) × Shows m doubly t
  print_visual-Shows high doubly = (
    first ++ again doubly,
    print_visual_lem doubly high,
    record {
      size = size_lem doubly high;
      signs = λ x y hx hy. in_first doubly x y (omega arith) hy ∙ ap ok (glyph_inside m x y hx);
      ends = λ y hy. in_first doubly m.width_visual y (omega arith) hy ∙ ap ok (glyph_end m y);
      below = λ x y hx twice hy.
          rw twice (in_again x y (omega arith) hy ∙ ap ok (glyph_inside m x (y + 1) hx));
    },
  )
