-- ===== src/Mysql/Drain/Asks.antt =====
-- `QueryWithoutResult` (Test00/xmysql.cpp) against the answer of a server.
use test.Prelude.{ℕ, ◌<◌, ◌≡◌, ◌∙◌, refl, ap, Bool, true, false, Option, none, some, [], ◌∷◌, ◌++◌}
use test.Prelude.Tests.{◌==◌}
use test.Prelude.Text.{text}
use test.Mysql.Client.{Client, Text}
use test.Mysql.Session.{State, Outcome, returned, throw, start_timer, get_elapsed_time}
use test.Mysql.Query
use test.Mysql.Query.{more, done, failed, next_of}
use test.Mysql.Server.{Script, size, Server}
use test.Mysql.Methods.{Throws}
use test.Mysql.Drain.{verdict, left_over, Says, elapsed_same}
use test.Mysql.Drain.Whole.{drain-Drains}

abbrev pub left_by : Option Script → Option ℕ → Option ℕ
left_by none r = r
left_by (some t) r = left_over t r

-- What is returned or thrown, by the answer of the server to the query.
abbrev pub Replies : Bool → Option Script → Outcome ℕ → Type 0
Replies true none r = Throws (text "XMySQL::QueryWithoutResult() mysql_query") r
Replies false none r = r ≡ returned 0
Replies exception (some t) r = Says exception (verdict t) r

abbrev pub Shorter : ℕ → Option Script → Type 0
Shorter fuel none = Unit {0}
Shorter fuel (some t) = size t < fuel

-- What the query leaves.
pub record Asks (c : Client) (v : Server c) (q : Text) (a : Option Script) (s s' : State c)
    : Type 0 where
  pub object : s'.object ≡ record s.object {
    query_prev = s.object.query;
    query = q;
    result = left_by a s.object.result;
    start_tick = s'.object.start_tick;
  }
  pub instances : s'.instances ≡ s.instances
  pub held : v.held s'.world ≡ v.held s.world
  pub log : v.log s'.world ≡ v.log s.world ++ q ∷ []

module _ (c : Client) (v : Server c) (q : Text) where
  -- The state after the call of `mysql_query`.
  abbrev posed : State c → State c
  posed s = record s {
    object = record s.object {
      query_prev = s.object.query;
      query = q;
      start_tick = (c.counter s.world).0;
    };
    world = (c.query s.object.mysql q (c.counter s.world).1).1;
  }

  refusing : Bool → State c → Outcome ℕ
  refusing true s = (throw c {A = ℕ} (text "XMySQL::QueryWithoutResult() mysql_query") s).0
  refusing false s = returned 0

  refusing-Replies :
      (exception : Bool) (s : State c) → Replies exception none (refusing exception s)
  unfolding throw refusing
  refusing-Replies true s = refl
  refusing-Replies false s = refl

  query_without_result-refusing :
      (fuel : ℕ) (exception : Bool) (s : State c) (w : c.World)
      → get_elapsed_time c (posed s) ≡ (returned tt, record (posed s) { world = w })
      → (c.query s.object.mysql q (c.counter s.world).1).0 == 0 ≡ false
      → Query.query_without_result c fuel q exception s
        ≡ (refusing exception (record (posed s) { world = w }), record (posed s) { world = w })
  unfolding Query.query_without_result Query.send_query start_timer throw refusing
  query_without_result-refusing fuel true s w run fails = rw (run, fails) refl
  query_without_result-refusing fuel false s w run fails = rw (run, fails) refl

  query_without_result-drain :
      (fuel : ℕ) (exception : Bool) (s : State c) (w : c.World)
      → get_elapsed_time c (posed s) ≡ (returned tt, record (posed s) { world = w })
      → (c.query s.object.mysql q (c.counter s.world).1).0 == 0 ≡ true
      → Query.query_without_result c fuel q exception s
        ≡ Query.drain c fuel exception (record (posed s) { world = w })
  unfolding Query.query_without_result Query.send_query start_timer
  query_without_result-drain fuel exception s w run fine = rw (run, fine) refl

  -- QueryWithoutResult, given a server that refuses the query or plays replies, and more fuel than
  -- there are replies behind the first, makes this query and no other, and returns or throws by the answer alone. On a refusal it
  -- returns 0, and 1 when the replies come to their end; if the server fails between two replies it
  -- returns 0, and 1 if a result cannot be stored. With exceptions wanted, it throws the one named
  -- after the call that failed instead. Each result that it stored is freed when it ends; the result
  -- of the object is null if there was one, and stays otherwise. The object keeps the query and the
  -- one before it, and no other field changes but the start of the timer; the count of the objects
  -- stays.
  pub query_without_result-Asks :
      (fuel : ℕ) (exception : Bool) (s : State c) (a : Option Script)
      → v.sent s.object.mysql q s.world ≡ a
      → Shorter fuel a
      → (r : Outcome ℕ) × (s' : State c) × (Query.query_without_result c fuel q exception s
          ≡ (r, s'))
        × Replies exception a r
        × Asks c v q a s s'
  query_without_result-Asks fuel exception s none e h =
      let m = s.object.mysql in
      let w0 = (c.counter s.world).1 in
      let (w, run, same) = elapsed_same c v (posed s) in
      let s' : State c = record (posed s) { world = w } in
      (
        refusing exception s',
        s',
        query_without_result-refusing fuel exception s w run
            (v.query_refused m q w0 (v.counter_sent m q s.world ∙ e)),
        refusing-Replies exception s',
        record {
          object = refl;
          instances = refl;
          held = same.held ∙ v.query_held m q w0 ∙ v.counter_held s.world;
          log = same.log ∙ v.query_log m q w0 ∙ ap (λ l. l ++ q ∷ []) (v.counter_log s.world);
        },
      )
  query_without_result-Asks fuel exception s (some t) e h =
      let m = s.object.mysql in
      let w0 = (c.counter s.world).1 in
      let (fine, replies) = v.query_sent m q w0 t (v.counter_sent m q s.world ∙ e) in
      let (w, run, same) = elapsed_same c v (posed s) in
      let d =
        drain-Drains c v fuel exception t (record (posed s) { world = w }) (same.script m ∙ replies)
          h in
      (
        d.result,
        d.final,
        query_without_result-drain fuel exception s w run fine ∙ d.run,
        d.says,
        record {
          object = d.moves.object;
          instances = d.moves.instances;
          held = d.moves.held ∙ same.held ∙ v.query_held m q w0 ∙ v.counter_held s.world;
          log =
              d.moves.log
              ∙ same.log
              ∙ v.query_log m q w0
              ∙ ap (λ l. l ++ q ∷ []) (v.counter_log s.world);
        },
      )
