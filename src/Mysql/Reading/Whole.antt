-- ===== src/Mysql/Reading/Whole.antt =====
-- `Query` and the calls of `NextRow` that follow it, against the answer of a server.
use test.Prelude.{ℕ, ◌≡◌, ◌≢◌, ◌∙◌, refl, ap, Bool, true, false, none, some, List, []}
use test.Prelude.Tests.{◌==◌}
use test.Prelude.Lists.{length}
use test.Prelude.Text.{text}
use test.Mysql.Client.{Client, Text, Row}
use test.Mysql.Session.{Session, State, Outcome, returned, throw}
use test.Mysql.Methods.{Throws, elapsed, elapsed_keeps}
use test.Mysql.Query
use test.Mysql.Source.{Answer, refused, empty, lost, table, Source}
use test.Mysql.Reading.{
  Reads, reads_nothing, reads_rows, failing, posed, started, stored, with_result, query-keep_result,
  keep_result-some, keep_result-none, query-failing, keep_result_lost,
}

-- What `Query` returns or throws, by the answer of the server.
abbrev pub Says : Bool → Answer → Outcome ℕ → Type 0
Says true refused r = Throws (text "XMySQL::Query() mysql_query") r
Says false refused r = r ≡ returned 0
Says true lost r = Throws (text "XMySQL::Query() mysql_store_result") r
Says false lost r = r ≡ returned 0
Says exception empty r = r ≡ returned 1
Says exception (table fields rows) r = r ≡ returned 1

refused-Says :
    (c : Client) (b : Bool) (t : State c)
    → Says b refused (failing c b (text "XMySQL::Query() mysql_query") t)
unfolding throw
refused-Says c true t = refl
refused-Says c false t = refl

lost-Says :
    (c : Client) (b : Bool) (t : State c)
    → Says b lost (failing c b (text "XMySQL::Query() mysql_store_result") t)
unfolding throw
lost-Says c true t = refl
lost-Says c false t = refl

-- What it leaves, and what `NextRow` reads then.
abbrev pub Leaves : (c : Client) → Bool → Text → Answer → State c → State c → Type 0
Leaves c exception q refused s t =
    t.object
    ≡ record s.object { query_prev = s.object.query; query = q; start_tick = t.object.start_tick }
Leaves c exception q lost s t = t.object ≡ record s.object {
  query_prev = s.object.query;
  query = q;
  result = none;
  start_tick = t.object.start_tick;
}
Leaves c exception q empty s t =
    (t.object ≡ record s.object {
      query_prev = s.object.query;
      query = q;
      result = none;
      start_tick = t.object.start_tick;
    })
    × ((u : State c) × Reads c exception t [] u)
Leaves c exception q (table fields rows) s t =
    (p : ℕ) × (t.object ≡ record s.object {
      query_prev = s.object.query;
      query = q;
      result = some p;
      fields = some fields;
      n_fields = length fields;
      n_rows = length rows;
      start_tick = t.object.start_tick;
    })
    × ((u : State c) × Reads c exception t rows u)

module _ (c : Client) (q : Text) (exception : Bool) (s : State c)
    (v : Source c s.object.mysql) where
  -- How `query` ends.
  Ends : Answer → Type 0
  Ends a =
      (r : Outcome ℕ) × (t : State c) × (Query.query c q exception s ≡ (r, t))
      × Says exception a r
      × Leaves c exception q a s t

  -- After `mysql_query`, with an answer that is no refusal.
  pending_lem :
      (a : Answer)
      → v.answer q s.world ≡ a
      → a ≢ refused
      → (w : c.World) × (Query.query c q exception s
          ≡ Query.keep_result c
              (text "XMySQL::Query() mysql_store_result")
              exception
              (record (posed c q exception s) { world = w }))
        × (v.pending w ≡ a)
  pending_lem a e taken =
      let w0 = (c.counter s.world).1 in
      let (fine, pending) = v.query_taken q w0 a (v.counter_answer q s.world ∙ e) taken in
      let (w, run, still) =
        elapsed_keeps c (λ w. v.pending w ≡ a) (λ w h. v.counter_pending w ∙ h)
          (posed c q exception s) pending in
      (w, query-keep_result c q exception s w run fine, still)

  query_table :
      (fields : List Text) (rows : List Row)
      → v.answer q s.world ≡ table fields rows
      → Ends (table fields rows)
  unfolding Ends
  query_table fields rows e =
      let (w, run, pending) = pending_lem (table fields rows) e (λ z. not_refused z) in
      let (p, some_p, left, names, count) =
        v.store_table (c.counter w).1 fields rows (v.counter_pending w ∙ pending) in
      let (w', run', (left', names', count')) =
        elapsed_keeps c
          (λ w.
            (v.left p w ≡ rows) × (c.fetch_fields p w ≡ fields) × (c.num_rows p w ≡ length rows))
          (λ w (a, b, d).
            (v.counter_left p w ∙ a, v.counter_fields p w ∙ b, v.counter_rows p w ∙ d))
          (stored c q exception s w) (left, names, count) in
      let t : State c = record (started c q exception s w) {
        object = record (started c q exception s w).object {
          result = some p;
          fields = some (c.fetch_fields p w');
          n_fields = length (c.fetch_fields p w');
          n_rows = c.num_rows p w';
        };
        world = w';
      } in
      (
        returned 1,
        t,
        run ∙ keep_result-some c q exception s _ w w' p run' some_p,
        refl,
        (
          p,
          holds p w' names' count' (record (started c q exception s w).object { result = some p }),
          reads_rows c exception s.object.mysql v p rows t refl refl left',
        ),
      )
    where
      holds :
          (p : ℕ) (w' : c.World)
          → c.fetch_fields p w' ≡ fields
          → c.num_rows p w' ≡ length rows
          → (o : Session)
          → record o {
            fields = some (c.fetch_fields p w');
            n_fields = length (c.fetch_fields p w');
            n_rows = c.num_rows p w';
          }
            ≡ record o { fields = some fields; n_fields = length fields; n_rows = length rows }
      holds p w' names count o =
          ap (λ fs. record o { fields = some fs; n_fields = length fs; n_rows = c.num_rows p w' })
            names
          ∙ ap (λ n. record o { fields = some fields; n_fields = length fields; n_rows = n }) count

      not_refused : table fields rows ≡ refused → ⊥
      not_refused z = cc

  query_empty : v.answer q s.world ≡ empty → Ends empty
  unfolding Ends
  query_empty e =
      let (w, run, pending) = pending_lem empty e (λ z. not_refused z) in
      let (no_result, fine) = v.store_empty (c.counter w).1 (v.counter_pending w ∙ pending) in
      let (w', run', fine') =
        elapsed_keeps c (λ w. (c.errno s.object.mysql w == 0) ≡ true)
          (λ w h. ap (λ n. n == 0) (v.counter_errno w) ∙ h) (stored c q exception s w) fine in
      let t : State c = with_result c q exception s none (started c q exception s w) w' in
      (
        returned 1,
        t,
        run ∙ keep_result-none c q exception s _ w w' run' no_result fine',
        refl,
        (refl, reads_nothing c exception t refl),
      )
    where
      not_refused : empty ≡ refused → ⊥
      not_refused z = cc

  query_lost : v.answer q s.world ≡ lost → Ends lost
  unfolding Ends
  query_lost e =
      let (w, run, pending) = pending_lem lost e (λ z. not_refused z) in
      let (no_result, broken) = v.store_lost (c.counter w).1 (v.counter_pending w ∙ pending) in
      let (w', run', broken') =
        elapsed_keeps c (λ w. (c.errno s.object.mysql w == 0) ≡ false)
          (λ w h. ap (λ n. n == 0) (v.counter_errno w) ∙ h) (stored c q exception s w) broken in
      let t : State c = with_result c q exception s none (started c q exception s w) w' in
      (
        _,
        t,
        run ∙ keep_result_lost c q exception s _ w w' run' no_result broken',
        lost-Says c exception t,
        refl,
      )
    where
      not_refused : lost ≡ refused → ⊥
      not_refused z = cc

  query_refused : v.answer q s.world ≡ refused → Ends refused
  unfolding Ends
  query_refused e =
      let w0 = (c.counter s.world).1 in
      let fails = v.query_refused q w0 (v.counter_answer q s.world ∙ e) in
      let (w, run, _) = elapsed c (posed c q exception s) in
      let t : State c = record (posed c q exception s) { world = w } in
      (_, t, query-failing c q exception s w run fails, refused-Says c exception t, refl)

  query_cases : (a : Answer) → v.answer q s.world ≡ a → Ends a
  query_cases refused e = query_refused e
  query_cases empty e = query_empty e
  query_cases lost e = query_lost e
  query_cases (table fields rows) e = query_table fields rows e

  -- Query, on a connection that answers it, by a refusal, without a result, by a result that cannot
  -- be stored, or by a table, returns 0, 1, 0 and 1; with exceptions wanted, it throws the one named
  -- after the call that failed instead of the 0. It keeps the query and the one before it. Of a
  -- table the object has the names of the fields, their count and the count of the rows, and the
  -- calls of NextRow that follow return true for each of the rows, in their order, with this row as
  -- the current one, and false then. Without a result the first of them returns false. No other
  -- field of the object changes but the start of the timer.
  pub query-Leaves :
      (r : Outcome ℕ) × (t : State c) × (Query.query c q exception s ≡ (r, t))
      × Says exception (v.answer q s.world) r
      × Leaves c exception q (v.answer q s.world) s t
  unfolding Ends
  query-Leaves = query_cases (v.answer q s.world) refl
