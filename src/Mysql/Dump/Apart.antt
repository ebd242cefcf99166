-- ===== src/Mysql/Dump/Apart.antt =====
-- The stores of `DumpResult` do not overlap.
use test.Prelude.{ℕ, ◌+◌, ◌*◌, ◌≤◌, ◌≡◌, ◌⊎◌, inl, inr, arith}
use test.Prelude.{List, [], ◌∷◌, ◌++◌}
use test.Prelude.Lists.{length}
use test.Mysql.Dump
use test.Mysql.Dump.{Datum, Write, word, copy, word_size, to_int}
use test.Mysql.Dump.Layout.{AreWide, place_items-le, place_rows-le}

-- The first byte that a store writes, and the one behind the last.
abbrev pub start : Write → ℕ
start (word o v) = o
start (copy o n b) = o

abbrev pub stop : Write → ℕ
stop (word o v) = o + word_size
stop (copy o n b) = o + n + 1

abbrev pub IsApart : Write → Write → Type 0
IsApart w w' = (stop w ≤ start w') ⊎ (stop w' ≤ start w)

abbrev pub ApartFrom : Write → List Write → Type 0
ApartFrom w [] = Unit {0}
ApartFrom w (x ∷ xs) = IsApart w x × ApartFrom w xs

-- No two of the stores have a byte in common.
abbrev pub AreApart : List Write → Type 0
AreApart [] = Unit {0}
AreApart (w ∷ ws) = ApartFrom w ws × AreApart ws

-- A store in a table below `t`, which begins at `lo`, or in the data from `o` to `hi`.
abbrev pub Lies : ℕ → ℕ → ℕ → ℕ → Write → Type 0
Lies lo t o hi w = ((lo ≤ start w) × (stop w ≤ t)) ⊎ ((o ≤ start w) × (stop w ≤ hi))

abbrev pub Each : (Write → Type 0) → List Write → Type 0
Each P [] = Unit {0}
Each P (w ∷ ws) = P w × Each P ws

Each-append : (P : Write → Type 0) (xs ys : List Write) → Each P xs → Each P ys → Each P (xs ++ ys)
Each-append P [] ys h k = k
Each-append P (x ∷ xs) ys h k = (h.0, Each-append P xs ys h.1 k)

Each-weaken :
    (P Q : Write → Type 0) (xs : List Write) → ((w : Write) → P w → Q w) → Each P xs → Each Q xs
Each-weaken P Q [] f h = tt
Each-weaken P Q (x ∷ xs) f h = (f x h.0, Each-weaken P Q xs f h.1)

Each-ApartFrom :
    (P : Write → Type 0) (w : Write) (ws : List Write)
    → ((x : Write) → P x → IsApart w x)
    → Each P ws
    → ApartFrom w ws
Each-ApartFrom P w [] f h = tt
Each-ApartFrom P w (x ∷ ws) f h = (f x h.0, Each-ApartFrom P w ws f h.1)

ApartFrom-append :
    (w : Write) (xs ys : List Write) → ApartFrom w xs → ApartFrom w ys → ApartFrom w (xs ++ ys)
ApartFrom-append w [] ys h k = k
ApartFrom-append w (x ∷ xs) ys h k = (h.0, ApartFrom-append w xs ys h.1 k)

pub AreApart-append :
    (P Q : Write → Type 0) (xs ys : List Write)
    → AreApart xs
    → AreApart ys
    → Each P xs
    → Each Q ys
    → ((x y : Write) → P x → Q y → IsApart x y)
    → AreApart (xs ++ ys)
AreApart-append P Q [] ys h k p q f = k
AreApart-append P Q (x ∷ xs) ys h k p q f = (
  ApartFrom-append x xs ys h.0 (Each-ApartFrom Q x ys (λ y. f x y p.0) q),
  AreApart-append P Q xs ys h.1 k p.1 q f,
)

pub place_items-Lies :
    (t hi table offset : ℕ) (ds : List Datum)
    → table + length ds * word_size ≤ t
    → (Dump.place_items table offset ds).end ≤ hi
    → Each (Lies table t offset hi) (Dump.place_items table offset ds).writes
unfolding Dump.place_items
place_items-Lies t hi table offset [] a b = tt
place_items-Lies t hi table offset (d ∷ ds) a b =
    let after = place_items-le (table + word_size) (offset + (d.size + 1)) ds in
    (
      inl (omega arith, omega arith),
      (
        inr (omega arith, omega arith),
        Each-weaken _ _ _
            (λ w h. elim h [
              | inl (p, q) ↦ inl (omega arith, q)
              | inr (p, q) ↦ inr (omega arith, q)
            ])
            (place_items-Lies t hi (table + word_size) (offset + (d.size + 1)) ds (omega arith) b),
      ),
    )

pub place_items-AreApart :
    (t table offset : ℕ) (ds : List Datum)
    → table + length ds * word_size ≤ t
    → t ≤ offset
    → AreApart (Dump.place_items table offset ds).writes
unfolding Dump.place_items
place_items-AreApart t table offset [] a b = tt
place_items-AreApart t table offset (d ∷ ds) a b =
    let rest = Dump.place_items (table + word_size) (offset + (d.size + 1)) ds in
    let lies =
      place_items-Lies t rest.end (table + word_size) (offset + (d.size + 1)) ds (omega arith)
        (omega arith) in
    (
      (
        inl (omega arith),
        Each-ApartFrom _ (word table (to_int offset)) rest.writes
            (λ x h. elim h [ inl (p, q) ↦ inl (omega arith) | inr (p, q) ↦ inl (omega arith) ])
            lies,
      ),
      (
        Each-ApartFrom _ (copy offset d.size d.bytes) rest.writes
            (λ x h. elim h [ inl (p, q) ↦ inr (omega arith) | inr (p, q) ↦ inl (omega arith) ])
            lies,
        place_items-AreApart t (table + word_size) (offset + (d.size + 1)) ds (omega arith)
            (omega arith),
      ),
    )

-- Everything that a row stores lies in one stretch.
abbrev Within : ℕ → ℕ → Write → Type 0
Within lo hi w = (lo ≤ start w) × (stop w ≤ hi)

module _ (n : ℕ) where
  items_Within :
      (offset : ℕ) (row : List Datum)
      → length row ≡ n
      → Each
          (Within offset (Dump.place_items offset (offset + n * word_size) row).end)
          (Dump.place_items offset (offset + n * word_size) row).writes
  items_Within offset row e =
      let items = Dump.place_items offset (offset + n * word_size) row in
      let grown = place_items-le offset (offset + n * word_size) row in
      Each-weaken _ _ _
        (λ w h. elim h [ inl (p, q) ↦ (p, omega arith) | inr (p, q) ↦ (omega arith, q) ])
        (place_items-Lies (offset + n * word_size) items.end offset (offset + n * word_size) row
          (omega arith) (omega arith))

  pub place_rows-Lies :
      (t hi table offset : ℕ) (rows : List (List Datum))
      → AreWide n rows
      → table + length rows * word_size ≤ t
      → (Dump.place_rows n table offset rows).end ≤ hi
      → Each (Lies table t offset hi) (Dump.place_rows n table offset rows).writes
  unfolding Dump.place_rows
  place_rows-Lies t hi table offset [] h a b = tt
  place_rows-Lies t hi table offset (row ∷ rows) h a b =
      let items = Dump.place_items offset (offset + n * word_size) row in
      let grown = place_items-le offset (offset + n * word_size) row in
      let after = place_rows-le n (table + word_size) items.end rows in
      (
        inl (omega arith, omega arith),
        Each-append _ items.writes _
            (Each-weaken _ _ _ (λ w p. inr (p.0, omega (arith, p.1))) (items_Within offset row h.0))
            (Each-weaken _ _ _
              (λ w h. elim h [
                | inl (p, q) ↦ inl (omega arith, q)
                | inr (p, q) ↦ inr (omega arith, q)
              ])
              (place_rows-Lies t hi (table + word_size) items.end rows h.1 (omega arith) b)),
      )

  pub place_rows-AreApart :
      (t table offset : ℕ) (rows : List (List Datum))
      → AreWide n rows
      → table + length rows * word_size ≤ t
      → t ≤ offset
      → AreApart (Dump.place_rows n table offset rows).writes
  unfolding Dump.place_rows
  place_rows-AreApart t table offset [] h a b = tt
  place_rows-AreApart t table offset (row ∷ rows) h a b =
      let items = Dump.place_items offset (offset + n * word_size) row in
      let rest = Dump.place_rows n (table + word_size) items.end rows in
      let grown = place_items-le offset (offset + n * word_size) row in
      let within = items_Within offset row h.0 in
      let lies =
        place_rows-Lies t rest.end (table + word_size) items.end rows h.1 (omega arith)
          (omega arith) in
      (
        ApartFrom-append (word table (to_int offset)) items.writes rest.writes
            (Each-ApartFrom _ (word table (to_int offset)) items.writes
              (λ x p. inl (omega (arith, p.0))) within)
            (Each-ApartFrom _ (word table (to_int offset)) rest.writes
              (λ x h. elim h [ inl (p, q) ↦ inl (omega arith) | inr (p, q) ↦ inl (omega arith) ])
              lies),
        AreApart-append _ _ items.writes rest.writes
            (place_items-AreApart (offset + n * word_size) offset (offset + n * word_size) row
              (omega (arith, h.0)) (omega arith))
            (place_rows-AreApart t (table + word_size) items.end rows h.1 (omega arith)
              (omega arith))
            within lies
            (λ x y p l. elim l [
              | inl (a', b') ↦ inr (omega (arith, p.0))
              | inr (a', b') ↦ inl (omega (arith, p.1))
            ]),
      )

-- The stores of the fields lie below those of the rows.
pub below_above :
    (header middle t top : ℕ) (x y : Write)
    → header ≤ middle
    → middle ≤ t
    → Lies 20 header header middle x
    → Lies middle t t top y
    → IsApart x y
below_above header middle t top x y le le' (inl (a, b)) (inl (c, d)) = inl (omega arith)
below_above header middle t top x y le le' (inl (a, b)) (inr (c, d)) = inl (omega arith)
below_above header middle t top x y le le' (inr (a, b)) (inl (c, d)) = inl (omega arith)
below_above header middle t top x y le le' (inr (a, b)) (inr (c, d)) = inl (omega arith)
