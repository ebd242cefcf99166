-- ===== src/Mysql/Source.antt =====
-- What the class relies on when it reads the rows of a query: the interface of a connection that
-- answers queries with tables.
use test.Prelude.{ℕ, ◌≡◌, ◌≢◌, true, false, Option, none, some, List, [], ◌∷◌}
use test.Prelude.Tests.{◌==◌}
use test.Prelude.Lists.{length}
use test.Mysql.Client.{Client, Text, Row}

-- The answer to a query: a refusal, no result (as for an insertion), a result that cannot be stored,
-- or the names of the fields and the rows.
pub data Answer : Type 0 where
  refused empty lost : Answer
  table : List Text → List Row → Answer

-- `answer` is what the server would say to a query, `pending` the answer that waits to be stored,
-- `left` the rows of a result that are not fetched yet.
pub record Source (c : Client) (m : Option ℕ) : Type 0 where
  pub answer : Text → c.World → Answer
  pub pending : c.World → Answer
  pub left : ℕ → c.World → List Row
  pub counter_answer : (q : Text) (w : c.World) → answer q (c.counter w).1 ≡ answer q w
  pub counter_pending : (w : c.World) → pending (c.counter w).1 ≡ pending w
  pub counter_left : (p : ℕ) (w : c.World) → left p (c.counter w).1 ≡ left p w
  pub counter_fields : (p : ℕ) (w : c.World) → c.fetch_fields p (c.counter w).1 ≡ c.fetch_fields p w
  pub counter_rows : (p : ℕ) (w : c.World) → c.num_rows p (c.counter w).1 ≡ c.num_rows p w
  pub counter_errno : (w : c.World) → c.errno m (c.counter w).1 ≡ c.errno m w
  pub query_refused :
      (q : Text) (w : c.World) → answer q w ≡ refused → (c.query m q w).0 == 0 ≡ false
  pub query_taken :
      (q : Text) (w : c.World) (a : Answer)
      → answer q w ≡ a
      → a ≢ refused
      → ((c.query m q w).0 == 0 ≡ true) × (pending (c.query m q w).1 ≡ a)
  pub store_table :
      (w : c.World) (fields : List Text) (rows : List Row)
      → pending w ≡ table fields rows
      → (p : ℕ) × ((c.store_result m w).0 ≡ some p)
        × (left p (c.store_result m w).1 ≡ rows)
        × (c.fetch_fields p (c.store_result m w).1 ≡ fields)
        × (c.num_rows p (c.store_result m w).1 ≡ length rows)
  pub store_empty :
      (w : c.World)
      → pending w ≡ empty
      → ((c.store_result m w).0 ≡ none) × (c.errno m (c.store_result m w).1 == 0 ≡ true)
  pub store_lost :
      (w : c.World)
      → pending w ≡ lost
      → ((c.store_result m w).0 ≡ none) × (c.errno m (c.store_result m w).1 == 0 ≡ false)
  pub fetch_end :
      (p : ℕ) (w : c.World)
      → left p w ≡ []
      → ((c.fetch_row p w).0 ≡ none) × (c.errno m (c.fetch_row p w).1 == 0 ≡ true)
  pub fetch_row :
      (p : ℕ) (w : c.World) (r : Row) (rs : List Row)
      → left p w ≡ r ∷ rs
      → ((c.fetch_row p w).0 ≡ some r)
        × (left p (c.fetch_row p w).1 ≡ rs)
        × (c.errno m (c.fetch_row p w).1 == 0 ≡ true)
