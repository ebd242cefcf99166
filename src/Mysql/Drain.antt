-- ===== src/Mysql/Drain.antt =====
-- The loop of `QueryWithoutResult` against the replies of a server.
pub mod Round
pub mod Whole
pub mod Asks
use test.Prelude.{
  ℕ, zero, suc, ◌+◌, ◌<◌, ◌≡◌, ◌⊎◌, ◌∙◌, refl, sym, ap, subst, inl, inr, arith, Bool, true, false,
  Option, none, some, List, ◌∷◌,
}
use test.Prelude.Tests.{◌==◌, Bool-cases, if◌then◌else◌}
use test.Prelude.Text.{text}
use test.Mysql.Client.{Client, Text}
use test.Mysql.Session.{
  Session, State, M, Outcome, returned, thrown, no_fuel, pure, throw, start_timer, get_elapsed_time,
}
use test.Mysql.Query
use test.Mysql.Query.{more, done, failed, next_of}
use test.Mysql.Methods.{Throws, elapsed}
use test.Mysql.Server.{
  Reply, rows, effect, lost, Script, last, next, current, size, stored, hold, is_effect, step_of,
  Server,
}

-- How the conversation ends: no reply is left, the server fails, or a result cannot be stored.
pub data Verdict : Type 0 where
  finished broken unstored : Verdict

abbrev pub ended : Bool → Verdict
ended true = finished
ended false = broken

abbrev pub verdict : Script → Verdict
verdict (last lost b) = unstored
verdict (last (rows p) b) = ended b
verdict (last effect b) = ended b
verdict (next lost t) = unstored
verdict (next (rows p) t) = verdict t
verdict (next effect t) = verdict t

-- The field `m_pResult` after one reply, and after all up to the end.
abbrev pub taken : Reply → Option ℕ → Option ℕ
taken (rows p) r = none
taken effect r = r
taken lost r = r

abbrev pub left_over : Script → Option ℕ → Option ℕ
left_over (last y b) r = taken y r
left_over (next lost t) r = r
left_over (next (rows p) t) r = left_over t none
left_over (next effect t) r = left_over t r

-- What the method says at each end, with and without exceptions.
abbrev pub Says : Bool → Verdict → Outcome ℕ → Type 0
Says exception finished r = r ≡ returned 1
Says true broken r = Throws (text "XMySQL::QueryWithoutResult() mysql_next_result") r
Says false broken r = r ≡ returned 0
Says true unstored r = Throws (text "XMySQL::QueryWithoutResult() mysql_store_result") r
Says false unstored r = r ≡ returned 1

module _ (c : Client) (v : Server c) where
  -- Nothing that the server has to say, no result that is held and no query depends on the clock.
  pub record SameReplies (w w' : c.World) : Type 0 where
    pub script : (m : Option ℕ) → v.script m w' ≡ v.script m w
    pub held : v.held w' ≡ v.held w
    pub log : v.log w' ≡ v.log w

  pub elapsed_same :
      (s : State c)
      → (w : c.World) × (get_elapsed_time c s ≡ (returned tt, record s { world = w }))
        × SameReplies s.world w
  elapsed_same s =
      let (w, run, which) = elapsed c s in
      elim which [
        | inl e ↦ (w, run, rw e (record { script = λ m. refl; held = refl; log = refl }))
        | inr e ↦ (
          w,
          run,
          rw e (record {
            script = λ m. v.counter_script m s.world;
            held = v.counter_held s.world;
            log = v.counter_log s.world;
          }),
        )
      ]

  -- What one reply and the call for the next do to the object: the timer runs, and `r` is the result.
  pub record Moves (r : Option ℕ) (s s' : State c) : Type 0 where
    pub object : s'.object ≡ record s.object { result = r; start_tick = s'.object.start_tick }
    pub instances : s'.instances ≡ s.instances
    pub held : v.held s'.world ≡ v.held s.world
    pub log : v.log s'.world ≡ v.log s.world

  pub Moves-same : {r : Option ℕ} (s s' : State c) → Moves r s s' → s'.object.mysql ≡ s.object.mysql
  Moves-same s s' h = ap (λ o. o.mysql) h.object

  pub Moves-result : {r : Option ℕ} (s s' : State c) → Moves r s s' → s'.object.result ≡ r
  Moves-result s s' h = ap (λ o. o.result) h.object

  pub Moves-trans : {r q : Option ℕ} (s t u : State c) → Moves r s t → Moves q t u → Moves q s u
  Moves-trans {q = q} s t u h k = record {
    object =
        k.object
        ∙ ap (λ (o : Session). record o { result = q; start_tick = u.object.start_tick }) h.object;
    instances = k.instances ∙ h.instances;
    held = k.held ∙ h.held;
    log = k.log ∙ h.log;
  }

  -- The state after the timer is started.
  abbrev pub started : State c → State c
  started s = record s {
    object = record s.object { start_tick = (c.counter s.world).0 };
    world = (c.counter s.world).1;
  }

  -- The state after `mysql_next_result`.
  abbrev asked : State c → State c
  asked s = record (started s) { world = (c.next_result s.object.mysql (started s).world).1 }

  asked_held : (s : State c) → v.held (asked s).world ≡ v.held s.world
  asked_held s = v.next_held s.object.mysql (started s).world ∙ v.counter_held s.world

  asked_log : (s : State c) → v.log (asked s).world ≡ v.log s.world
  asked_log s = v.next_log s.object.mysql (started s).world ∙ v.counter_log s.world

  answer :
      (s : State c)
      → next_of (c.next_result s.object.mysql (started s).world).0
        ≡ step_of (v.script s.object.mysql s.world)
  answer s = v.next_result _ _ ∙ ap step_of (v.counter_script s.object.mysql s.world)

  pub go_on-next :
      (exception : Bool) (again : M c ℕ) (s : State c) (y : Reply) (t : Script)
      → v.script s.object.mysql s.world ≡ next y t
      → (s' : State c) × (Query.go_on c exception again s ≡ again s')
        × Moves s.object.result s s'
        × (v.script s.object.mysql s'.world ≡ t)
  unfolding Query.go_on start_timer
  go_on-next exception again s y t e =
      let (w, run, same) = elapsed_same (asked s) in
      let goes : next_of (c.next_result s.object.mysql (started s).world).0 ≡ more =
        answer s ∙ ap step_of e in
      (
        record (started s) { world = w },
        rw (run, goes) refl,
        record {
          object = refl;
          instances = refl;
          held = same.held ∙ asked_held s;
          log = same.log ∙ asked_log s;
        },
        same.script s.object.mysql
            ∙ v.next_script s.object.mysql (started s).world y t
                (v.counter_script s.object.mysql s.world ∙ e),
      )

  -- What `go_on` returns when it ends the loop.
  abbrev ending : Bool → Bool → State c → Outcome ℕ
  ending true exception s = returned 1
  ending false true s =
      (throw c {A = ℕ} (text "XMySQL::QueryWithoutResult() mysql_next_result") s).0
  ending false false s = returned 0

  ending-Says : (b exception : Bool) (s : State c) → Says exception (ended b) (ending b exception s)
  unfolding throw
  ending-Says true exception s = refl
  ending-Says false true s = refl
  ending-Says false false s = refl

  go_on-ending :
      (exception : Bool) (again : M c ℕ) (s : State c) (y : Reply) (b : Bool) (w : c.World)
      → get_elapsed_time c (asked s) ≡ (returned tt, record (asked s) { world = w })
      → next_of (c.next_result s.object.mysql (started s).world).0 ≡ step_of (last y b)
      → Query.go_on c exception again s
        ≡ (ending b exception (record (started s) { world = w }), record (started s) { world = w })
  unfolding Query.go_on start_timer throw
  go_on-ending exception again s y true w run stops = rw (run, stops) refl
  go_on-ending true again s y false w run fails = rw (run, fails) refl
  go_on-ending false again s y false w run fails = rw (run, fails) refl

  pub go_on-last :
      (exception : Bool) (again : M c ℕ) (s : State c) (y : Reply) (b : Bool)
      → v.script s.object.mysql s.world ≡ last y b
      → (r : Outcome ℕ) × (s' : State c) × (Query.go_on c exception again s ≡ (r, s'))
        × Says exception (ended b) r
        × Moves s.object.result s s'
  go_on-last exception again s y b e =
      let (w, run, same) = elapsed_same (asked s) in
      let s' : State c = record (started s) { world = w } in
      (
        ending b exception s',
        s',
        go_on-ending exception again s y b w run (answer s ∙ ap step_of e),
        ending-Says b exception s',
        record {
          object = refl;
          instances = refl;
          held = same.held ∙ asked_held s;
          log = same.log ∙ asked_log s;
        },
      )
