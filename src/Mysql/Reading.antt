-- ===== src/Mysql/Reading.antt =====
-- The steps of `Query` and `NextRow` (Test00/xmysql.cpp) on a connection that answers with tables.
pub mod Whole
pub mod Procedure
use test.Prelude.{
  ℕ, zero, suc, ◌≡◌, ◌≢◌, ◌⊎◌, ◌∙◌, refl, sym, ap, inl, inr, Bool, true, false, Option, none, some,
  List, [], ◌∷◌,
}
use test.Prelude.Tests.{◌==◌, if◌then◌else◌}
use test.Prelude.Lists.{length}
use test.Prelude.Text.{text}
use test.Mysql.Client.{Client, Text, Row}
use test.Mysql.Session.{
  Session, State, Outcome, returned, pure, throw, start_timer, get_elapsed_time,
}
use test.Mysql.Methods.{Throws, elapsed, elapsed_keeps}
use test.Mysql.Query
use test.Mysql.Source.{Answer, refused, empty, lost, table, Source}

-- Calls of `NextRow`, one after another: each but the last returns true and makes the next of the
-- rows the current one, and the last returns false.
pub data Reads (c : Client) (exception : Bool) : State c → List Row → State c → Type 0 where
  finish :
      {s t : State c}
      → Query.next_row c exception s ≡ (returned false, t)
      → t.object.row ≡ none
      → Reads c exception s [] t
  advance :
      {s t u : State c} {r : Row} {rs : List Row}
      → Query.next_row c exception s ≡ (returned true, t)
      → t.object.row ≡ some r
      → Reads c exception t rs u
      → Reads c exception s (r ∷ rs) u

module _ (c : Client) (exception : Bool) where
  -- Without a result there is no row.
  pub reads_nothing :
      (s : State c) → s.object.result ≡ none → (u : State c) × Reads c exception s [] u
  unfolding Query.next_row
  reads_nothing s e = (record s { object = record s.object { row = none } }, finish (simp e) refl)

  -- All the rows that are left of a result.
  pub reads_rows :
      (m : Option ℕ) (v : Source c m) (p : ℕ) (rs : List Row) (s : State c)
      → s.object.mysql ≡ m
      → s.object.result ≡ some p
      → v.left p s.world ≡ rs
      → (u : State c) × Reads c exception s rs u
  unfolding Query.next_row
  reads_rows m v p [] s em er el =
      let (no_row, fine) = v.fetch_end p s.world el in
      let fine' = ap (λ m. c.errno m (c.fetch_row p s.world).1 == 0) em ∙ fine in
      (
        record s { object = record s.object { row = none }; world = (c.fetch_row p s.world).1 },
        finish (simp (er, no_row, fine')) refl,
      )
  reads_rows m v p (r ∷ rs) s em er el =
      let (row, rest, fine) = v.fetch_row p s.world r rs el in
      let fine' = ap (λ m. c.errno m (c.fetch_row p s.world).1 == 0) em ∙ fine in
      let t : State c = record s {
        object = record s.object { row = some r };
        world = (c.fetch_row p s.world).1;
      } in
      let (u, reads) = reads_rows m v p rs t em er rest in
      (u, advance (simp (er, row, fine')) refl reads)

-- A failure: the exception, or 0.
abbrev pub failing : (c : Client) → Bool → Text → State c → Outcome ℕ
failing c true place t = (throw c {A = ℕ} place t).0
failing c false place t = returned 0

failing_lem :
    (c : Client) (b : Bool) (place : Text) (t : State c)
    → (if b then throw c place else pure 0) t ≡ (failing c b place t, t)
unfolding throw
failing_lem c true place t = refl
failing_lem c false place t = refl

-- The steps of `Query` on a connection.
module _ (c : Client) (q : Text) (exception : Bool) (s : State c) where
  -- The state after the call of `mysql_query`, and after that of `mysql_store_result` in a world.
  abbrev pub posed : State c
  posed = record s {
    object = record s.object {
      query_prev = s.object.query;
      query = q;
      start_tick = (c.counter s.world).0;
    };
    world = (c.query s.object.mysql q (c.counter s.world).1).1;
  }

  abbrev pub started : c.World → State c
  started w = record posed {
    object = record posed.object { start_tick = (c.counter w).0 };
    world = (c.counter w).1;
  }

  abbrev pub stored : c.World → State c
  stored w = record (started w) { world = (c.store_result s.object.mysql (c.counter w).1).1 }

  -- What the object keeps of a result.
  abbrev pub with_result : Option ℕ → State c → c.World → State c
  with_result r t w = record t { object = record t.object { result = r }; world = w }

  pub query-keep_result :
      (w : c.World)
      → get_elapsed_time c posed ≡ (returned tt, record posed { world = w })
      → (c.query s.object.mysql q (c.counter s.world).1).0 == 0 ≡ true
      → Query.query c q exception s
        ≡ Query.keep_result c
            (text "XMySQL::Query() mysql_store_result")
            exception
            (record posed { world = w })
  unfolding Query.query Query.send_query start_timer
  query-keep_result w run fine = rw (run, fine) refl

  pub keep_result-some :
      (place : Text) (w w' : c.World) (p : ℕ)
      → get_elapsed_time c (stored w) ≡ (returned tt, record (stored w) { world = w' })
      → (c.store_result s.object.mysql (c.counter w).1).0 ≡ some p
      → Query.keep_result c place exception (record posed { world = w }) ≡ (
        returned 1,
        record (started w) {
          object = record (started w).object {
            result = some p;
            fields = some (c.fetch_fields p w');
            n_fields = length (c.fetch_fields p w');
            n_rows = c.num_rows p w';
          };
          world = w';
        },
      )
  unfolding Query.keep_result start_timer
  keep_result-some place w w' p run e = rw (run, e) refl

  pub keep_result-none :
      (place : Text) (w w' : c.World)
      → get_elapsed_time c (stored w) ≡ (returned tt, record (stored w) { world = w' })
      → (c.store_result s.object.mysql (c.counter w).1).0 ≡ none
      → c.errno s.object.mysql w' == 0 ≡ true
      → Query.keep_result c place exception (record posed { world = w })
        ≡ (returned 1, with_result none (started w) w')
  unfolding Query.keep_result start_timer
  keep_result-none place w w' run e fine = rw (run, e, fine) refl

  pub query-failing :
      (w : c.World)
      → get_elapsed_time c posed ≡ (returned tt, record posed { world = w })
      → (c.query s.object.mysql q (c.counter s.world).1).0 == 0 ≡ false
      → Query.query c q exception s ≡ (
        failing c exception (text "XMySQL::Query() mysql_query") (record posed { world = w }),
        record posed { world = w },
      )
  unfolding Query.query Query.send_query start_timer
  query-failing w run fails =
      rw (run, fails) (failing_lem c exception (text "XMySQL::Query() mysql_query") _)

  pub keep_result_lost :
      (place : Text) (w w' : c.World)
      → get_elapsed_time c (stored w) ≡ (returned tt, record (stored w) { world = w' })
      → (c.store_result s.object.mysql (c.counter w).1).0 ≡ none
      → c.errno s.object.mysql w' == 0 ≡ false
      → Query.keep_result c place exception (record posed { world = w }) ≡ (
        failing c exception place (with_result none (started w) w'),
        with_result none (started w) w',
      )
  unfolding Query.keep_result start_timer
  keep_result_lost place w w' run e broken = rw (run, e, broken) (failing_lem c exception place _)
