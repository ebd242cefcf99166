-- ===== src/Mysql/Drain/Round.antt =====
-- One round of the loop of `QueryWithoutResult`: the call of `mysql_store_result` and what follows it.
use test.Prelude.{ℕ, suc, ◌≡◌, ◌∙◌, refl, ap, Bool, true, false, none, some}
use test.Prelude.Tests.{◌==◌}
use test.Prelude.Text.{text}
use test.Mysql.Client.{Client}
use test.Mysql.Session.{State, Outcome, returned, throw, start_timer, get_elapsed_time}
use test.Mysql.Query
use test.Mysql.Query.{more, done, failed, next_of}
use test.Mysql.Server.{Reply, rows, effect, lost, current, stored, hold, is_effect, Server}
use test.Mysql.Drain.{unstored, taken, Says, elapsed_same, Moves, started}

module _ (c : Client) (v : Server c) where
  -- The state after `mysql_store_result`.
  abbrev kept : State c → State c
  kept s = record (started c v s) {
    world = (c.store_result s.object.mysql (started c v s).world).1;
  }

  kept_script :
      (s : State c) → v.script s.object.mysql (kept s).world ≡ v.script s.object.mysql s.world
  kept_script s =
      v.store_script s.object.mysql (started c v s).world ∙ v.counter_script s.object.mysql s.world

  kept_result :
      (s : State c)
      → (c.store_result s.object.mysql (started c v s).world).0
        ≡ stored (current (v.script s.object.mysql s.world))
  kept_result s =
      v.store_result _ _ ∙ ap (λ t. stored (current t)) (v.counter_script s.object.mysql s.world)

  kept_held :
      (s : State c)
      → v.held (kept s).world ≡ hold (current (v.script s.object.mysql s.world)) (v.held s.world)
  kept_held s =
      v.store_held _ _
      ∙ ap (λ t. hold (current t) (v.held (started c v s).world))
          (v.counter_script s.object.mysql s.world)
      ∙ ap (hold (current (v.script s.object.mysql s.world))) (v.counter_held s.world)

  kept_log : (s : State c) → v.log (kept s).world ≡ v.log s.world
  kept_log s = v.store_log s.object.mysql (started c v s).world ∙ v.counter_log s.world

  -- A reply that lets the loop go on is taken, and what was stored is freed.
  pub record Takes (fuel : ℕ) (exception : Bool) (y : Reply) (s s' : State c) : Type 0 where
    pub run :
        Query.drain c (suc fuel) exception s
        ≡ Query.go_on c exception (Query.drain c fuel exception) s'
    pub moves : Moves c v (taken y s.object.result) s s'
    pub script : v.script s.object.mysql s'.world ≡ v.script s.object.mysql s.world

  pub Takes-rows :
      (fuel : ℕ) (exception : Bool) (s : State c) (p : ℕ)
      → current (v.script s.object.mysql s.world) ≡ rows p
      → (s' : State c) × Takes fuel exception (rows p) s s'
  unfolding Query.drain start_timer
  Takes-rows fuel exception s p e =
      let (w, run, same) = elapsed_same c v (kept s) in
      let some_result : (c.store_result s.object.mysql (started c v s).world).0 ≡ some p =
        kept_result s ∙ ap stored e in
      let object = record s.object { result = none; start_tick = (c.counter s.world).0 } in
      (
        record (started c v s) { object = object; world = c.free_result (some p) w },
        record {
          run = rw (run, some_result) refl;
          moves = record {
            object = refl;
            instances = refl;
            held =
                v.free_held p (v.held s.world) w
                  (same.held ∙ kept_held s ∙ ap (λ y. hold y (v.held s.world)) e);
            log = v.free_log p w ∙ same.log ∙ kept_log s;
          };
          script = v.free_script _ p w ∙ same.script s.object.mysql ∙ kept_script s;
        },
      )

  pub Takes-effect :
      (fuel : ℕ) (exception : Bool) (s : State c)
      → current (v.script s.object.mysql s.world) ≡ effect
      → (s' : State c) × Takes fuel exception effect s s'
  unfolding Query.drain start_timer
  Takes-effect fuel exception s e =
      let (w, run, same) = elapsed_same c v (kept s) in
      let no_result : (c.store_result s.object.mysql (started c v s).world).0 ≡ none =
        kept_result s ∙ ap stored e in
      let script : v.script s.object.mysql w ≡ v.script s.object.mysql s.world =
        same.script s.object.mysql ∙ kept_script s in
      let no_field : (c.field_count s.object.mysql w == 0) ≡ true =
        v.field_count _ _ ∙ ap (λ t. is_effect (current t)) script ∙ ap is_effect e in
      (
        record (started c v s) { world = w },
        record {
          run = rw (run, no_result, no_field) refl;
          moves = record {
            object = refl;
            instances = refl;
            held = same.held ∙ kept_held s ∙ ap (λ y. hold y (v.held s.world)) e;
            log = same.log ∙ kept_log s;
          };
          script = script;
        },
      )

  -- What the loop returns at a result that cannot be stored.
  abbrev giving_up : Bool → State c → Outcome ℕ
  giving_up true s = (throw c {A = ℕ} (text "XMySQL::QueryWithoutResult() mysql_store_result") s).0
  giving_up false s = returned 1

  giving_up-Says :
      (exception : Bool) (s : State c) → Says exception unstored (giving_up exception s)
  unfolding throw
  giving_up-Says true s = refl
  giving_up-Says false s = refl

  drain-giving_up :
      (fuel : ℕ) (exception : Bool) (s : State c) (w : c.World)
      → get_elapsed_time c (kept s) ≡ (returned tt, record (kept s) { world = w })
      → (c.store_result s.object.mysql (started c v s).world).0 ≡ none
      → (c.field_count s.object.mysql w == 0) ≡ false
      → Query.drain c (suc fuel) exception s ≡ (
        giving_up exception (record (started c v s) { world = w }),
        record (started c v s) { world = w },
      )
  unfolding Query.drain start_timer throw
  drain-giving_up fuel true s w run no_result fields = rw (run, no_result, fields) refl
  drain-giving_up fuel false s w run no_result fields = rw (run, no_result, fields) refl

  pub drain-lost :
      (fuel : ℕ) (exception : Bool) (s : State c)
      → current (v.script s.object.mysql s.world) ≡ lost
      → (r : Outcome ℕ) × (s' : State c) × (Query.drain c (suc fuel) exception s ≡ (r, s'))
        × Says exception unstored r
        × Moves c v s.object.result s s'
  drain-lost fuel exception s e =
      let (w, run, same) = elapsed_same c v (kept s) in
      let s' : State c = record (started c v s) { world = w } in
      let script : v.script s.object.mysql w ≡ v.script s.object.mysql s.world =
        same.script s.object.mysql ∙ kept_script s in
      (
        giving_up exception s',
        s',
        drain-giving_up fuel exception s w run (kept_result s ∙ ap stored e)
            (v.field_count _ _ ∙ ap (λ t. is_effect (current t)) script ∙ ap is_effect e),
        giving_up-Says exception s',
        record {
          object = refl;
          instances = refl;
          held = same.held ∙ kept_held s ∙ ap (λ y. hold y (v.held s.world)) e;
          log = same.log ∙ kept_log s;
        },
      )
