-- ===== src/Tests/Library.antt =====
-- The theorems on XMySQL and MZHandler, at a small library: a world is the number of rows that are left.
use test.Prelude.{ℕ, zero, suc, ◌<◌, ◌≡◌, arith, true, false, Option, none, some, [], ◌∷◌}
use test.Prelude.Int.{pos, negsuc}
use test.Mysql.Client.{Client, Row}
use test.Mysql.Session.{State, returned}
use test.Prelude.{◌≢◌, refl}
use test.Prelude.Lists.{get_elem?}
use test.Mysql.Session.{Session}
use test.Mysql.Fields
use test.Mysql.Names.{IsFirst, get_field_value-get_field_value_at, get_field_value_missing}
use test.Prelude.{List, ap}
use test.Mysql.Settings
use test.Mysql.Settings.{Pair, apply_pairs}
use test.Mysql.Pairs.{ArePairs, spell, set_connection_string-spell}
use test.Prelude.{◌↔◌}
use test.Mysql.Connection
use test.Mysql.Life.{begin, born, Lives-IsCounted}
use test.Mysql.Query
use test.Handler.Generated.{Floats}
use test.Prelude.Text.{text}
use test.Mysql.Query.Results.{Closed, close_result-Closed}

abbrev take_row : ℕ → Option Row × ℕ
take_row zero = (none, zero)
take_row (suc n) = (some [], n)

abbrev drop_first : List ℕ → List ℕ
drop_first [] = []
drop_first (x ∷ l) = l

abbrev library : Client
library = record {
  World = ℕ;
  library_init = λ w. w;
  library_end = λ w. w;
  init = λ w. (some 1, w);
  options = λ _ _ w. w;
  real_connect = λ _ _ w. (false, w);
  ping = λ _ w. (0, w);
  close = λ _ w. w;
  query = λ _ _ w. (0, w);
  store_result = λ _ w. (some 2, w);
  free_result = λ _ w. w;
  next_result = λ _ w. (negsuc 0, w);
  field_count = λ _ _. 0;
  errno = λ _ _. 0;
  error = λ _ _. [];
  sqlstate = λ _ _. [];
  fetch_fields = λ _ _. [];
  num_rows = λ _ w. w;
  fetch_row = λ _ w. take_row w;
  fetch_lengths = λ _ _. [];
  data_seek = λ _ _ w. w;
  counter = λ w. (7, w);
  to_utf8 = λ s. s;
}

library_counts : (p : ℕ) (w : ℕ) (r : Row) → (take_row w).0 ≡ some r → (take_row w).1 < w
library_counts p zero r e = cc
library_counts p (suc w) r e = omega arith

-- A session with a result of which three rows are left.
abbrev pub reading : State library
reading = record {
  object = record {
    instance_no = pos 0;
    mysql = some 1;
    host = [];
    user = [];
    passwd = [];
    db = [];
    port = pos 0;
    read_timeout = pos 0;
    write_timeout = pos 0;
    connect_timeout = pos 0;
    charset = [];
    query = [];
    query_prev = [];
    result = some 2;
    fields = some [];
    n_fields = 0;
    row = none;
    n_rows = 3;
    start_tick = 0;
    debug = 0;
  };
  instances = pos 1;
  world = 3;
}

-- A library that also knows which results it holds.
abbrev holder : Client
holder = record {
  World = ℕ × List ℕ;
  library_init = λ w. w;
  library_end = λ w. w;
  init = λ w. (some 1, w);
  options = λ _ _ w. w;
  real_connect = λ _ _ w. (false, w);
  ping = λ _ w. (0, w);
  close = λ _ w. w;
  query = λ _ _ w. (0, w);
  store_result = λ _ w. (some 2, w);
  free_result = λ _ w. (w.0, drop_first w.1);
  next_result = λ _ w. (negsuc 0, w);
  field_count = λ _ _. 0;
  errno = λ _ _. 0;
  error = λ _ _. [];
  sqlstate = λ _ _. [];
  fetch_fields = λ _ _. [];
  num_rows = λ _ w. w.0;
  fetch_row = λ _ w. ((take_row w.0).0, ((take_row w.0).1, w.1));
  fetch_lengths = λ _ _. [];
  data_seek = λ _ _ w. w;
  counter = λ w. (7, w);
  to_utf8 = λ s. s;
}

-- Its session, with a result of which three rows are left, and another result that it holds.
abbrev held_reading : State holder
held_reading = record { object = reading.object; instances = pos 1; world = (3, 2 ∷ 9 ∷ []) }

close_result-Closed_example :
    (s' : State holder) × (Query.close_result holder 4 held_reading ≡ (returned 0, s'))
    × Closed holder (λ w. w.1) held_reading s'
close_result-Closed_example =
    close_result-Closed holder (λ w. w.0) (λ p w. library_counts p w.0) (λ w. w.1) (λ p w. refl)
      (λ p l w e. ap drop_first e) 4 held_reading (omega arith)

-- Every percentage is above the bound.
abbrev pub floats : Floats
floats = record { percent = λ _. text "50.00"; above = λ _ _. true }

-- A session at a row of two fields.
abbrev at_row : Session
at_row = record reading.object {
  fields = some (text "id" ∷ text "name" ∷ []);
  n_fields = 2;
  row = some (some (text "7") ∷ none ∷ []);
}

name_IsFirst : IsFirst (text "name") (text "id" ∷ text "name" ∷ []) 1
name_IsFirst = (refl, λ j h. before j h)
  where
    before : (j : ℕ) → j < 1 → get_elem? (text "id" ∷ text "name" ∷ []) j ≢ some (text "name")
    before zero h e = cc
    before (suc j) h e = absurd (omega arith)

no_such_name : (j : ℕ) → j < 2 → get_elem? (text "id" ∷ text "name" ∷ []) j ≢ some (text "d")
no_such_name zero h e = cc
no_such_name (suc zero) h e = cc
no_such_name (suc (suc j)) h e = absurd (omega arith)

get_field_value-get_field_value_at_example :
    Fields.get_field_value (text "name") at_row ≡ Fields.get_field_value_at (pos 1) at_row
get_field_value-get_field_value_at_example =
    get_field_value-get_field_value_at at_row (text "name") (text "id" ∷ text "name" ∷ []) refl 1
      (omega arith) name_IsFirst

get_field_value_missing_example :
    Fields.get_field_value (text "d") at_row ≡ returned (record { code = 0; value = none })
get_field_value_missing_example =
    get_field_value_missing at_row (text "d") (text "id" ∷ text "name" ∷ []) refl (omega arith)
      no_such_name

abbrev written : List Pair
written =
    record { parameter = text "Host"; value = text "db" }
    ∷ record { parameter = text "port"; value = text "33" }
    ∷ []

written-ArePairs : ArePairs written
written-ArePairs = (
  record {
    no_equals = ground arith;
    no_semicolon = ground arith;
    value_whole = ground arith;
    name_fits = refl;
    value_fits = refl;
  },
  (
    record {
      no_equals = ground arith;
      no_semicolon = ground arith;
      value_whole = ground arith;
      name_fits = refl;
      value_fits = refl;
    },
    tt,
  ),
)

set_connection_string-spell_example :
    Settings.set_connection_string (spell written) at_row ≡ apply_pairs written at_row
set_connection_string-spell_example = set_connection_string-spell written at_row written-ArePairs

-- The names are read in either case of the letters.
settings_read :
    Settings.set_connection_string (text "Host=db;port=33") at_row
    ≡ record at_row { host = text "db"; port = pos 33 }
unfolding Settings.set_connection_string
settings_read = refl

-- A library whose world is 1 while it is open and 0 while it is closed.
abbrev switched : Client
switched = record library { library_init = λ _. 1; library_end = λ _. 0 }

abbrev nobody : State switched
nobody = record { object = at_row; instances = pos 0; world = 0 }

abbrev somebody : State switched
somebody = (Connection.construct_body switched nobody).1

Lives-IsCounted_example : (somebody.instances ≡ pos 1) × ((0 < somebody.world) ↔ (0 < 1))
Lives-IsCounted_example =
    Lives-IsCounted switched (λ w. 0 < w) (λ w. omega arith) (λ w lt. omega arith) 1 somebody
      (born (begin refl refl (λ lt. omega arith)) refl refl)
