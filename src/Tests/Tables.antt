-- ===== src/Tests/Tables.antt =====
-- The theorem on Query and NextRow, at a library that answers every query alike.
use test.Prelude.{ℕ, ◌≡◌, ◌≢◌, refl, sym, ap, true, false, Option, none, some, List, [], ◌∷◌}
use test.Prelude.Tests.{◌==◌}
use test.Prelude.Lists.{length}
use test.Prelude.Int.{pos, negsuc}
use test.Prelude.Text.{text}
use test.Mysql.Client.{Client, Text, Row}
use test.Mysql.Session.{State, Outcome}
use test.Mysql.Query
use test.Mysql.Source.{Answer, refused, empty, lost, table, Source}
use test.Mysql.Reading.Whole.{Says, Leaves, query-Leaves}
use test.Tests.Library.{reading}

record Shelf : Type 0 where
  pending : Answer
  left : List Row
  errno : ℕ

abbrev refusal : Answer → ℕ
refusal refused = 1
refusal empty = 0
refusal lost = 0
refusal (table fields rows) = 0

abbrev stored : Answer → Option ℕ
stored refused = none
stored empty = none
stored lost = none
stored (table fields rows) = some 2

abbrev failure : Answer → ℕ
failure refused = 0
failure empty = 0
failure lost = 1
failure (table fields rows) = 0

abbrev fields_of : Answer → List Text
fields_of refused = []
fields_of empty = []
fields_of lost = []
fields_of (table fields rows) = fields

abbrev rows_of : Answer → List Row
rows_of refused = []
rows_of empty = []
rows_of lost = []
rows_of (table fields rows) = rows

abbrev first : List Row → Option Row
first [] = none
first (r ∷ rs) = some r

abbrev others : List Row → List Row
others [] = []
others (r ∷ rs) = rs

abbrev shelf : Answer → Client
shelf a = record {
  World = Shelf;
  library_init = λ w. w;
  library_end = λ w. w;
  init = λ w. (some 1, w);
  options = λ _ _ w. w;
  real_connect = λ _ _ w. (true, w);
  ping = λ _ w. (0, w);
  close = λ _ w. w;
  query = λ _ q w. (refusal a, record w { pending = a });
  store_result =
      λ _ w. (stored w.pending, record w { left = rows_of w.pending; errno = failure w.pending });
  free_result = λ _ w. w;
  next_result = λ _ w. (negsuc 0, w);
  field_count = λ _ w. length (fields_of w.pending);
  errno = λ _ w. w.errno;
  error = λ _ _. [];
  sqlstate = λ _ _. [];
  fetch_fields = λ _ w. fields_of w.pending;
  num_rows = λ _ w. length (rows_of w.pending);
  fetch_row = λ _ w. (first w.left, record w { left = others w.left; errno = 0 });
  fetch_lengths = λ _ _. [];
  data_seek = λ _ _ w. w;
  counter = λ w. (7, w);
  to_utf8 = λ s. s;
}

refusal_lem : (a : Answer) → a ≡ refused → refusal a == 0 ≡ false
refusal_lem a e = ap (λ a. refusal a == 0) e

taken_lem : (a b : Answer) → a ≡ b → b ≢ refused → (refusal a == 0 ≡ true) × (a ≡ b)
taken_lem refused b e taken = absurd (taken (sym e))
taken_lem empty b e taken = (refl, e)
taken_lem lost b e taken = (refl, e)
taken_lem (table fields rows) b e taken = (refl, e)

abbrev source : (a : Answer) → Source (shelf a) (some 1)
source a = record {
  answer = λ q w. a;
  pending = λ w. w.pending;
  left = λ p w. w.left;
  counter_answer = λ q w. refl;
  counter_pending = λ w. refl;
  counter_left = λ p w. refl;
  counter_fields = λ p w. refl;
  counter_rows = λ p w. refl;
  counter_errno = λ w. refl;
  query_refused = λ q w. refusal_lem a;
  query_taken = λ q w b. taken_lem a b;
  store_table = λ w fields rows e.
      (2, ap stored e, ap rows_of e, ap fields_of e, ap (λ a. length (rows_of a)) e);
  store_empty = λ w e. (ap stored e, ap (λ a. failure a == 0) e);
  store_lost = λ w e. (ap stored e, ap (λ a. failure a == 0) e);
  fetch_end = λ p w e. (ap first e, refl);
  fetch_row = λ p w r rs e. (ap first e, ap others e, refl);
}

abbrev two_rows : Answer
two_rows = table (text "id" ∷ []) ((some (text "7") ∷ []) ∷ (none ∷ []) ∷ [])

abbrev at_shelf : State (shelf two_rows)
at_shelf = record {
  object = reading.object;
  instances = pos 1;
  world = record { pending = empty; left = []; errno = 0 };
}

query-Leaves_example :
    (r : Outcome ℕ) × (t : State (shelf two_rows)) × (Query.query
        (shelf two_rows)
        (text "select id from mz")
        true
        at_shelf
      ≡ (r, t))
    × Says true two_rows r
    × Leaves (shelf two_rows) true (text "select id from mz") two_rows at_shelf t
query-Leaves_example =
    query-Leaves (shelf two_rows) (text "select id from mz") true at_shelf (source two_rows)
