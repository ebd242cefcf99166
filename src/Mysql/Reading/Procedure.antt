-- ===== src/Mysql/Reading/Procedure.antt =====
-- `StoredProcedureWithOneResultSet` (Test00/xmysql.cpp) on a procedure with further results.
use test.Prelude.{ℕ, zero, suc, ◌<◌, ◌≡◌, ◌∙◌, refl, ap, arith, Bool, true, some}
use test.Prelude.Tests.{◌==◌}
use test.Prelude.Int.{ℤ, pos, negsuc}
use test.Prelude.Text.{text}
use test.Mysql.Client.{Client, Text}
use test.Mysql.Session.{State, returned, start_timer, get_elapsed_time}
use test.Mysql.Methods.{elapsed_keeps}
use test.Mysql.Query
use test.Mysql.Query.{more, next_of}
use test.Mysql.Server.{Reply, rows, Script, next, current, stored as stored_of, step_of, Server}
use test.Mysql.Reading.{posed, stored, keep_result-some}

zero_of_more : (z : ℤ) → next_of z ≡ more → z ≡ pos 0
zero_of_more (pos zero) e = refl
zero_of_more (pos (suc n)) e = cc
zero_of_more (negsuc zero) e = cc
zero_of_more (negsuc (suc n)) e = cc

module _ (c : Client) (v : Server c) where
  -- One call of `mysql_next_result`, which finds a further result, ends the loop.
  skip_errors-more :
      (fuel : ℕ) (s : State c) (y : Reply) (t : Script)
      → 0 < fuel
      → v.script s.object.mysql s.world ≡ next y t
      → Query.skip_errors c fuel s
        ≡ (returned tt, record s { world = (c.next_result s.object.mysql s.world).1 })
  unfolding Query.skip_errors
  skip_errors-more zero s y t h e = absurd (omega arith)
  skip_errors-more (suc fuel) s y t h e =
      let zero_more = zero_of_more _ (v.next_result s.object.mysql s.world ∙ ap step_of e) in
      rw zero_more refl

  module _ (q : Text) (exception : Bool) (s : State c) where
    procedure_lem :
        (fuel : ℕ) (w : c.World) (u u' : State c)
        → get_elapsed_time c (posed c q exception s)
          ≡ (returned tt, record (posed c q exception s) { world = w })
        → (c.query s.object.mysql q (c.counter s.world).1).0 == 0 ≡ true
        → Query.keep_result c
            (text "XMySQL::StoredProcedureWithOneResultSet() mysql_store_result")
            exception
            (record (posed c q exception s) { world = w })
          ≡ (returned 1, u)
        → Query.skip_errors c fuel u ≡ (returned tt, u')
        → Query.stored_procedure_with_one_result_set c fuel q exception s ≡ (returned 1, u')
    unfolding Query.stored_procedure_with_one_result_set Query.send_query start_timer
    procedure_lem fuel w u u' run fine kept skipped = rw (run, fine, kept, skipped) refl

    -- StoredProcedureWithOneResultSet, for a procedure whose first reply is a result and is not the
    -- last reply, and with fuel for at least one round of its loop, returns 1 and has this result;
    -- but all the replies behind it are still to be read when it returns.
    pub stored_procedure_unread :
        (fuel : ℕ) (p : ℕ) (t : Script)
        → 0 < fuel
        → v.sent s.object.mysql q s.world ≡ some (next (rows p) t)
        → (u : State c) × (Query.stored_procedure_with_one_result_set c fuel q exception s
            ≡ (returned 1, u))
          × (u.object.result ≡ some p)
          × (v.script u.object.mysql u.world ≡ t)
    stored_procedure_unread fuel p t h e =
        let m = s.object.mysql in
        let w0 = (c.counter s.world).1 in
        let (fine, replies) =
          v.query_sent m q w0 (next (rows p) t) (v.counter_sent m q s.world ∙ e) in
        let (w, run, script) =
          elapsed_keeps c (λ w. v.script m w ≡ next (rows p) t) (λ w k. v.counter_script m w ∙ k)
            (posed c q exception s) replies in
        let at_store : v.script m (c.counter w).1 ≡ next (rows p) t =
          v.counter_script m w ∙ script in
        let (w', run', script') =
          elapsed_keeps c (λ w. v.script m w ≡ next (rows p) t) (λ w k. v.counter_script m w ∙ k)
            (stored c q exception s w) (v.store_script m (c.counter w).1 ∙ at_store) in
        let some_p = v.store_result m (c.counter w).1 ∙ ap (λ t. stored_of (current t)) at_store in
        let kept =
          keep_result-some c q exception s
            (text "XMySQL::StoredProcedureWithOneResultSet() mysql_store_result") w w' p run'
            some_p in
        (
          _,
          procedure_lem fuel w _ _ run fine kept (skip_errors-more fuel _ (rows p) t h script'),
          refl,
          v.next_script m w' (rows p) t script',
        )
