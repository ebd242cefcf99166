-- ===== src/Mysql/Dump.antt =====
-- `XMySQL::DumpResult` (Test00/xmysql.cpp): a result as one block of memory with offsets in it.
pub mod Layout
pub mod Apart
pub mod Reader
use package.test.Prelude.Tests.{ltb, if◌then◌else◌}
use package.test.Prelude.{
  ℕ, zero, suc, ◌+◌, ◌*◌, ◌%◌, ◌^◌, Option, none, some, List, [], ◌∷◌, ◌++◌, map,
}
use package.test.Prelude.Lists.{length, get_elem?}
use package.test.Mysql.Client.{Client, Text, Row}
use package.test.Mysql.Session.{
  Session, State, M, Outcome, invalid, pure, ◌>>=◌, ◌>>◌, get, call, run, ask, fail,
}

-- An `int` has four bytes.
abbrev pub word_size : ℕ
word_size = 4

-- `(int)` of a number of more bits, by the bit pattern of the `int`.
abbrev pub to_int : ℕ → ℕ
to_int n = n % 2 ^ 32

-- A value of the current row: what `sqlRow[j]` points to, and `l[j]`.
pub record Datum : Type 0 where
  pub bytes : Option Text
  pub size : ℕ

-- The size of the names, or values, with an offset and a zero byte for each.
unfoldable pub size_of_items : List ℕ → ℕ
size_of_items [] = 0
size_of_items (n ∷ ns) = word_size + (n + 1) + size_of_items ns

unfoldable pub size_of_rows : List (List ℕ) → ℕ
unfolding size_of_items
size_of_rows [] = 0
size_of_rows (row ∷ rows) = word_size + size_of_items row + size_of_rows rows

-- `iSize`, after both loops of the first pass: the additions wrap around, and so does their sum.
unfoldable pub dump_size : List ℕ → List (List ℕ) → ℕ
unfolding size_of_items size_of_rows
dump_size names rows = to_int (5 * word_size + size_of_items names + size_of_rows rows)

-- A store into the block: an `int`, or the `size` bytes that `memcpy` copies.
pub data Write : Type 0 where
  word : (offset value : ℕ) → Write
  copy : (offset size : ℕ) (bytes : Option Text) → Write

-- The stores of a loop and `pOffset - pBase` behind it.
pub record Placed : Type 0 where
  pub writes : List Write
  pub end : ℕ

-- The inner loops of the second pass: `table` is `pInteger`, and `offset` is `pOffset`.
unfoldable pub place_items : ℕ → ℕ → List Datum → Placed
place_items table offset [] = record { writes = []; end = offset }
place_items table offset (d ∷ ds) =
    let rest = place_items (table + word_size) (offset + (d.size + 1)) ds in
    record {
      writes = word table (to_int offset) ∷ copy offset d.size d.bytes ∷ rest.writes;
      end = rest.end;
    }

-- The loop over the rows: `table` is `pRow`.
unfoldable pub place_rows : ℕ → ℕ → ℕ → List (List Datum) → Placed
unfolding place_items
place_rows n_fields table offset [] = record { writes = []; end = offset }
place_rows n_fields table offset (row ∷ rows) =
    let items = place_items offset (offset + n_fields * word_size) row in
    let rest = place_rows n_fields (table + word_size) items.end rows in
    record { writes = word table (to_int offset) ∷ (items.writes ++ rest.writes); end = rest.end }

-- `XMySQL_Result`, with the stores behind it and the end of the last.
pub record Dump : Type 0 where
  pub size : ℕ
  pub n_fields : ℕ
  pub n_rows : ℕ
  pub p_fields : ℕ
  pub p_rows : ℕ
  pub writes : List Write
  pub end : ℕ

-- The second pass.
unfoldable pub place : ℕ → List Datum → List (List Datum) → Dump
unfolding place_items place_rows
place size names rows =
    let header = 5 * word_size in
    let fields = place_items header (header + length names * word_size) names in
    let data_rows =
      place_rows (length names) fields.end (fields.end + length rows * word_size) rows in
    record {
      size = size;
      n_fields = length names;
      n_rows = to_int (length rows);
      p_fields = to_int header;
      p_rows = to_int fields.end;
      writes = fields.writes ++ data_rows.writes;
      end = data_rows.end;
    }

module _ (c : Client) where
  -- `m_pFields[j].name` for each `j` below `n`.
  abbrev first_names : ℕ → List Text → M c (List Text)
  first_names zero names = pure []
  first_names (suc n) [] = fail
  first_names (suc n) (name ∷ names) = first_names n names >>= λ r. pure (name ∷ r)

  -- `l[j]` for each `j` below `n`.
  abbrev first_lengths : ℕ → List ℕ → M c (List ℕ)
  first_lengths zero ls = pure []
  first_lengths (suc n) [] = fail
  first_lengths (suc n) (l ∷ ls) = first_lengths n ls >>= λ r. pure (l ∷ r)

  abbrev first_data : ℕ → Row → List ℕ → M c (List Datum)
  first_data zero row ls = pure []
  first_data (suc n) (v ∷ row) (l ∷ ls) =
      first_data n row ls >>= λ r. pure (record { bytes = v; size = l } ∷ r)
  first_data (suc n) row ls = fail

  -- The rows of the first pass: only their lengths are read.
  unfoldable pub measure_rows : ℕ → ℕ → ℕ → M c (List (List ℕ))
  measure_rows p n_fields zero = pure []
  measure_rows p n_fields (suc n) = do
    _ ← call c (c.fetch_row p)
    ls ← ask c (c.fetch_lengths p)
    first ← first_lengths n_fields ls
    rest ← measure_rows p n_fields n
    pure (first ∷ rest)

  unfoldable pub fetch_rows : ℕ → ℕ → ℕ → M c (List (List Datum))
  fetch_rows p n_fields zero = pure []
  fetch_rows p n_fields (suc n) = do
    row ← call c (c.fetch_row p)
    ls ← ask c (c.fetch_lengths p)
    first ← elim row [ none ↦ fail | some values ↦ first_data n_fields values ls ]
    rest ← fetch_rows p n_fields n
    pure (first ∷ rest)

  abbrev names_of : Session → M c (List Text)
  names_of o = elim o.fields [
    | none ↦ elim o.n_fields [ zero ↦ pure [] | suc n ↦ fail ]
    | some names ↦ first_names o.n_fields names
  ]

  abbrev as_datum : Text → Datum
  as_datum t = record { bytes = some t; size = length t }

  -- `DumpResult` of an object that has a result. An array of a negative size is not allocated.
  unfoldable pub dump_result : M c Dump
  unfolding measure_rows fetch_rows dump_size place
  dump_result = get >>= λ o. elim o.result [
    | none ↦ fail
    | some p ↦ do
      names ← names_of o
      run c (c.data_seek p 0)
      lengths ← measure_rows p o.n_fields o.n_rows
      let size = dump_size (map length names) lengths
      if ltb size (2 ^ 31) then pure tt else fail
      run c (c.data_seek p 0)
      rows ← fetch_rows p o.n_fields o.n_rows
      pure (place size (map as_datum names) rows)
  ]
