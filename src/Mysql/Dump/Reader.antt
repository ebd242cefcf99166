-- ===== src/Mysql/Dump/Reader.antt =====
-- The block of `DumpResult` for a reader: the offsets lead to each value.
use test.Prelude.{ℕ, ◌+◌, ◌*◌, ◌≡◌}
use test.Prelude.{some, List}
use test.Prelude.Lists.{get_elem?, ◌∈◌}
use test.Mysql.Dump
use test.Mysql.Dump.{Datum, Write, word, copy, word_size}
use test.Mysql.Dump.Apart.{AreApart}

-- The entry `j` of a table leads to the bytes of a value.
abbrev pub LeadsTo : ℕ → ℕ → Datum → List Write → Type 0
LeadsTo table j d ws =
    (o : ℕ) × (word (table + j * word_size) o ∈ ws) × (copy o d.size d.bytes ∈ ws)

-- The entry `i` of the table of rows leads to a table, whose entry `j` leads to the bytes.
abbrev pub RowLeadsTo : ℕ → ℕ → ℕ → Datum → List Write → Type 0
RowLeadsTo table i j d ws = (r : ℕ) × (word (table + i * word_size) r ∈ ws) × LeadsTo r j d ws

-- What a reader of the block relies on.
pub record IsReadable (names : List Datum) (rows : List (List Datum)) (b : Dump.Dump) : Type 0 where
  pub apart : AreApart b.writes
  pub fields : (j : ℕ) (d : Datum) → get_elem? names j ≡ some d → LeadsTo b.p_fields j d b.writes
  pub data_rows :
      (i j : ℕ) (row : List Datum) (d : Datum)
      → get_elem? rows i ≡ some row
      → get_elem? row j ≡ some d
      → RowLeadsTo b.p_rows i j d b.writes
