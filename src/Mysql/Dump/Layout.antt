-- ===== src/Mysql/Dump/Layout.antt =====
-- The block of `DumpResult` has room for all that is stored in it, and is used up to its end.
use native.Mathlib.Nat.{mod-eq_of_lt}
use test.Prelude.{ℕ, ◌+◌, ◌*◌, ◌^◌, ◌≤◌, ◌<◌, ◌≡◌, ◌∙◌, sym, List, [], ◌∷◌, ◌++◌, map, arith}
use test.Prelude.Lists.{length}
use test.Mysql.Dump
use test.Mysql.Dump.{Datum, Write, word, copy, word_size}

abbrev pub sizes : List Datum → List ℕ
sizes = map (λ (d : Datum). d.size)

-- Each row has `n` values.
abbrev pub AreWide : ℕ → List (List Datum) → Type 0
AreWide n [] = Unit {0}
AreWide n (row ∷ rows) = (length row ≡ n) × AreWide n rows

-- The bytes that a store writes, with the zero behind a copy, lie between `lo` and `hi`.
abbrev pub IsInside : ℕ → ℕ → Write → Type 0
IsInside lo hi (word o v) = (lo ≤ o) × (o + word_size ≤ hi)
IsInside lo hi (copy o n b) = (lo ≤ o) × (o + n + 1 ≤ hi)

abbrev pub AllInside : ℕ → ℕ → List Write → Type 0
AllInside lo hi [] = Unit {0}
AllInside lo hi (w ∷ ws) = IsInside lo hi w × AllInside lo hi ws

AllInside-append :
    (lo hi : ℕ) (xs ys : List Write)
    → AllInside lo hi xs
    → AllInside lo hi ys
    → AllInside lo hi (xs ++ ys)
AllInside-append lo hi [] ys h k = k
AllInside-append lo hi (x ∷ xs) ys h k = (h.0, AllInside-append lo hi xs ys h.1 k)

place_items-end :
    (table offset : ℕ) (ds : List Datum)
    → (Dump.place_items table offset ds).end + length ds * word_size
      ≡ offset + Dump.size_of_items (sizes ds)
unfolding Dump.place_items Dump.size_of_items
place_items-end table offset [] = omega arith
place_items-end table offset (d ∷ ds) =
    omega (arith, place_items-end (table + word_size) (offset + (d.size + 1)) ds)

pub place_items-le :
    (table offset : ℕ) (ds : List Datum) → offset ≤ (Dump.place_items table offset ds).end
unfolding Dump.place_items
place_items-le table offset [] = omega arith
place_items-le table offset (d ∷ ds) =
    omega (arith, place_items-le (table + word_size) (offset + (d.size + 1)) ds)

place_items-AllInside :
    (lo hi table offset : ℕ) (ds : List Datum)
    → lo ≤ table
    → table + length ds * word_size ≤ offset
    → (Dump.place_items table offset ds).end ≤ hi
    → AllInside lo hi (Dump.place_items table offset ds).writes
unfolding Dump.place_items
place_items-AllInside lo hi table offset [] a b c = tt
place_items-AllInside lo hi table offset (d ∷ ds) a b c =
    let after = place_items-le (table + word_size) (offset + (d.size + 1)) ds in
    (
      omega arith,
      (
        omega arith,
        place_items-AllInside lo hi (table + word_size) (offset + (d.size + 1)) ds (omega arith)
            (omega arith) c,
      ),
    )

module _ (n : ℕ) where
  place_rows-end :
      (table offset : ℕ) (rows : List (List Datum))
      → AreWide n rows
      → (Dump.place_rows n table offset rows).end + length rows * word_size
        ≡ offset + Dump.size_of_rows (map sizes rows)
  unfolding Dump.place_rows Dump.size_of_rows
  place_rows-end table offset [] h = omega arith
  place_rows-end table offset (row ∷ rows) h = omega (
    arith,
    h.0,
    place_items-end offset (offset + n * word_size) row,
    place_rows-end (table + word_size) _ rows h.1,
  )

  pub place_rows-le :
      (table offset : ℕ) (rows : List (List Datum))
      → offset ≤ (Dump.place_rows n table offset rows).end
  unfolding Dump.place_rows
  place_rows-le table offset [] = omega arith
  place_rows-le table offset (row ∷ rows) = omega (
    arith,
    place_items-le offset (offset + n * word_size) row,
    place_rows-le (table + word_size) _ rows,
  )

  place_rows-AllInside :
      (lo hi table offset : ℕ) (rows : List (List Datum))
      → AreWide n rows
      → lo ≤ table
      → table + length rows * word_size ≤ offset
      → (Dump.place_rows n table offset rows).end ≤ hi
      → AllInside lo hi (Dump.place_rows n table offset rows).writes
  unfolding Dump.place_rows
  place_rows-AllInside lo hi table offset [] h a b c = tt
  place_rows-AllInside lo hi table offset (row ∷ rows) h a b c =
      let items = Dump.place_items offset (offset + n * word_size) row in
      let grown = place_items-le offset (offset + n * word_size) row in
      let after = place_rows-le (table + word_size) items.end rows in
      (
        (omega arith, omega arith),
        AllInside-append lo hi items.writes _
            (place_items-AllInside lo hi offset (offset + n * word_size) row (omega arith)
              (omega (arith, h.0)) (omega arith))
            (place_rows-AllInside lo hi (table + word_size) items.end rows h.1 (omega arith)
              (omega arith) c),
      )

-- The bytes that a result needs, as a number without bounds.
abbrev pub block_size : List Datum → List (List Datum) → ℕ
block_size names rows =
    5 * word_size + Dump.size_of_items (sizes names) + Dump.size_of_rows (map sizes rows)

-- An `int` can count the bytes.
abbrev pub IsCountable : List Datum → List (List Datum) → Type 0
IsCountable names rows = block_size names rows < 2 ^ 31

pub place-block_size :
    (size : ℕ) (names : List Datum) (rows : List (List Datum))
    → AreWide (length names) rows
    → (Dump.place size names rows).end ≡ block_size names rows
unfolding Dump.place
place-block_size size names rows h = omega (
  arith,
  place_items-end 20 (20 + length names * word_size) names,
  place_rows-end (length names) _ _ rows h,
)

-- With rows of as many values as there are fields, and a size below 2 ^ 31, the last store of
-- DumpResult ends exactly where the size that its first pass computes for the same lengths ends.
pub place_end :
    (size : ℕ) (names : List Datum) (rows : List (List Datum))
    → AreWide (length names) rows
    → IsCountable names rows
    → (Dump.place size names rows).end ≡ Dump.dump_size (sizes names) (map sizes rows)
unfolding Dump.dump_size
place_end size names rows h bound =
    place-block_size size names rows h ∙ sym (mod-eq_of_lt (omega (arith, bound)))

-- With rows of as many values as there are fields, and a size below 2 ^ 31, every store of the second
-- pass of DumpResult lies behind the header of five ints and inside the block of the size that the
-- first pass computes for the same lengths.
pub place-AllInside :
    (size : ℕ) (names : List Datum) (rows : List (List Datum))
    → AreWide (length names) rows
    → IsCountable names rows
    → AllInside 20
        (Dump.dump_size (sizes names) (map sizes rows))
        (Dump.place size names rows).writes
unfolding Dump.place
place-AllInside size names rows h bound =
    let header = 20 + length names * word_size in
    let fields = Dump.place_items 20 header names in
    let grown = place_items-le 20 header names in
    let start = fields.end + length rows * word_size in
    let after = place_rows-le (length names) fields.end start rows in
    let total = place_end size names rows h bound in
    AllInside-append 20 _ fields.writes _
      (place_items-AllInside 20 _ 20 header names (omega arith) (omega arith) (omega arith))
      (place_rows-AllInside (length names) 20 _ fields.end start rows h (omega arith) (omega arith)
        (omega arith))
