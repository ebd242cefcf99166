-- ===== src/Tests/Server.antt =====
-- The theorems on XMySQL and MZHandler, at a library that plays replies and keeps its handles.
use test.Prelude.{ℕ, ◌≡◌, refl, ap, arith, true, false, Option, none, some, List, [], ◌∷◌, ◌++◌}
use test.Prelude.Tests.{◌==◌}
use test.Prelude.Int.{ℤ, pos, negsuc}
use test.Prelude.Text.{text}
use test.Mysql.Client.{Client, Text, Setting}
use test.Mysql.Session.{State, Outcome, returned}
use test.Mysql.Query
use test.Mysql.Query.{next_of}
use test.Mysql.Server.{
  Reply, rows, effect, lost, Script, last, next, current, stored, hold, is_effect, step_of, Server,
}
use test.Mysql.Drain.Asks.{Replies, Asks, query_without_result-Asks}
use test.Mysql.Reading.Procedure.{stored_procedure_unread}
use test.Mysql.Link.{add_setting, Link}
use test.Mysql.Connection
use test.Mysql.Opening.{welcome}
use test.Mysql.Opening.Open.{Admits, Opens, open_connection-Opens}
use test.Mysql.Opening.Check.{Leaves, checked, welcome_anew, check_connection-checked}
use test.Tests.Library.{reading}

pub record Desk : Type 0 where
  pub script : Script
  pub held : List ℕ
  pub log : List Text
  pub settings : List Setting
  pub handles : List ℕ

-- A result, an insertion, and another result, after which the server fails.
abbrev three_replies : Script
three_replies = next (rows 4) (next effect (last (rows 5) false))

abbrev tail : List ℕ → List ℕ
tail [] = []
tail (x ∷ l) = l

abbrev answer : Script → ℤ
answer (last y true) = negsuc 0
answer (last y false) = pos 2
answer (next y t) = pos 0

abbrev advance : Script → Script
advance (last y b) = last y b
advance (next y t) = t

abbrev fields_of : Reply → ℕ
fields_of (rows p) = 1
fields_of effect = 0
fields_of lost = 1

-- Every query gets this answer.
abbrev refusal : Option Script → ℕ
refusal none = 1
refusal (some t) = 0

abbrev replay : Option Script → Script → Script
replay none t = t
replay (some u) t = u

abbrev pub desk : Option Script → Client
desk a = record {
  World = Desk;
  library_init = λ w. w;
  library_end = λ w. w;
  init = λ w. (some 1, record w { settings = []; handles = 1 ∷ w.handles });
  options = λ _ y w. record w { settings = add_setting y w.settings };
  real_connect = λ _ _ w. (true, w);
  ping = λ _ w. (2006, w);
  close = λ _ w. record w { handles = tail w.handles };
  query = λ _ q w. (refusal a, record w { script = replay a w.script; log = w.log ++ q ∷ [] });
  store_result =
      λ _ w. (stored (current w.script), record w { held = hold (current w.script) w.held });
  free_result = λ _ w. record w { held = tail w.held };
  next_result = λ _ w. (answer w.script, record w { script = advance w.script });
  field_count = λ _ w. fields_of (current w.script);
  errno = λ _ _. 2006;
  error = λ _ _. [];
  sqlstate = λ _ _. [];
  fetch_fields = λ _ _. [];
  num_rows = λ _ w. 0;
  fetch_row = λ _ w. (none, w);
  fetch_lengths = λ _ _. [];
  data_seek = λ _ _ w. w;
  counter = λ w. (7, w);
  to_utf8 = λ s. s;
}

pub refused : (a : Option Script) → a ≡ none → refusal a == 0 ≡ false
refused none e = refl
refused (some t) e = cc

pub accepted :
    (a : Option Script) (w : Script) (t : Script)
    → a ≡ some t
    → (refusal a == 0 ≡ true) × (replay a w ≡ t)
accepted none w t e = cc
accepted (some u) w t e = (refl, same e)
  where
    same : some u ≡ some t → u ≡ t
    same e = cc

pub no_fields : (y : Reply) → (fields_of y == 0) ≡ is_effect y
no_fields (rows p) = refl
no_fields effect = refl
no_fields lost = refl

pub answered : (t : Script) → next_of (answer t) ≡ step_of t
answered (last y true) = refl
answered (last y false) = refl
answered (next y t) = refl

pub advanced : (t u : Script) (y : Reply) → t ≡ next y u → advance t ≡ u
advanced t u y e = ap advance e

abbrev pub server : (a : Option Script) → Server (desk a)
server a = record {
  sent = λ m q w. a;
  script = λ m w. w.script;
  held = λ w. w.held;
  log = λ w. w.log;
  counter_log = λ w. refl;
  query_log = λ m q w. refl;
  store_log = λ m w. refl;
  free_log = λ p w. refl;
  next_log = λ m w. refl;
  counter_sent = λ m q w. refl;
  counter_script = λ m w. refl;
  counter_held = λ w. refl;
  query_refused = λ m q w. refused a;
  query_sent = λ m q w t. accepted a w.script t;
  query_held = λ m q w. refl;
  store_result = λ m w. refl;
  store_script = λ m w. refl;
  store_held = λ m w. refl;
  field_count = λ m w. no_fields (current w.script);
  free_script = λ m p w. refl;
  free_held = λ p l w e. ap tail e;
  next_result = λ m w. answered w.script;
  next_script = λ m w y t. advanced w.script t y;
  next_held = λ m w. refl;
}

pub first_handle : (p : ℕ) → some 1 ≡ some p → 1 ≡ p
first_handle p e = cc

abbrev pub link : (a : Option Script) → Link (desk a)
link a = record {
  accepts = λ l x w. true;
  alive = λ p w. false;
  settings = λ p w. w.settings;
  handles = λ w. w.handles;
  counter_accepts = λ l x w. refl;
  counter_alive = λ p w. refl;
  counter_settings = λ p w. refl;
  counter_handles = λ w. refl;
  init_some = λ w. (1, refl);
  init_accepts = λ l x w. refl;
  init_settings = λ p w e. refl;
  init_handles = λ p w e. ap (λ p. p ∷ w.handles) (first_handle p e);
  options_accepts = λ l x m y w. refl;
  options_settings = λ p y w. refl;
  options_handles = λ m y w. refl;
  connect = λ p l w. refl;
  connect_handles = λ p l w. refl;
  ping = λ p w. refl;
  ping_accepts = λ l x p w. refl;
  ping_handles = λ p w. refl;
  close_accepts = λ l x p w. refl;
  close_handles = λ p l w e. ap tail e;
}

abbrev pub at_desk : (a : Option Script) → State (desk a)
at_desk a = record {
  object = record reading.object { mysql = some 1 };
  instances = pos 1;
  world = record {
    script = last effect true;
    held = 9 ∷ [];
    log = [];
    settings = [];
    handles = 1 ∷ [];
  };
}

abbrev pub failing : Option Script
failing = some three_replies

-- The (server failing) fails after the second result; without exceptions that is 0.
asks_zero :
    (Query.query_without_result (desk failing) 3 (text "call p()") false (at_desk failing)).0
    ≡ returned 0
unfolding Query.query_without_result Query.send_query Query.drain Query.go_on
asks_zero = refl

abbrev Asked : Type 0
Asked =
    (r : Outcome ℕ) × (s' : State (desk failing)) × (Query.query_without_result (desk failing) 3
        (text "call p()") true (at_desk failing)
      ≡ (r, s'))
    × Replies true failing r
    × Asks (desk failing) (server failing) (text "call p()") failing (at_desk failing) s'

query_without_result-Asks_example : Asked
query_without_result-Asks_example =
    query_without_result-Asks (desk failing) (server failing) (text "call p()") 3 true
      (at_desk failing) failing refl (omega arith)

open_connection-Opens_example :
    (r : Outcome ℕ) × (s' : State (desk failing)) × (Connection.open_connection
        (desk failing)
        true
        (at_desk failing)
      ≡ (r, s'))
    × Admits
        (desk failing)
        (link failing)
        (welcome (desk failing) (link failing) (at_desk failing))
        true
        r
    × Opens (desk failing) (link failing) (at_desk failing) s'
open_connection-Opens_example =
    open_connection-Opens (desk failing) (link failing) true (at_desk failing)

check_connection-checked_example :
    (s' : State (desk failing)) × (Connection.check_connection (desk failing) true (at_desk failing)
      ≡ (
        returned (
            checked
              (desk failing)
              (link failing)
              false
              true
              (welcome_anew (desk failing) (link failing) (at_desk failing))),
        s',
      ))
    × Leaves (desk failing) (link failing) false true 1 (at_desk failing) s'
check_connection-checked_example =
    check_connection-checked (desk failing) (link failing) (at_desk failing) 1 refl true

abbrev rest_of_replies : Script
rest_of_replies = next effect (last (rows 5) false)

stored_procedure_unread_example :
    (u : State (desk failing)) × (Query.stored_procedure_with_one_result_set
        (desk failing)
        1
        (text "call p()")
        true
        (at_desk failing)
      ≡ (returned 1, u))
    × (u.object.result ≡ some 4)
    × ((server failing).script u.object.mysql u.world ≡ rest_of_replies)
stored_procedure_unread_example =
    stored_procedure_unread (desk failing) (server failing) (text "call p()") true (at_desk failing)
      1 4 rest_of_replies (omega arith) refl
