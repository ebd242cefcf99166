-- ===== src/Mysql/Opening/Open.antt =====
-- `OpenConnection` (Test00/xmysql.cpp) on every branch.
use test.Prelude.{ℕ, ◌≡◌, ◌∙◌, refl, ap, inl, inr, Bool, true, false, none, some, List, ◌∷◌}
use test.Prelude.Text.{text}
use test.Mysql.Client.{Client, Setting, Login}
use test.Mysql.Session.{State, Outcome, returned, throw, get_elapsed_time}
use test.Mysql.Connection
use test.Mysql.Link.{own, Link}
use test.Mysql.Methods.{Throws, elapsed}
use test.Mysql.Opening.{
  Allocated, allocated, tried, ready, outcome, open_connection-outcome, answer_lem, opted,
  opted_handles, welcome,
}

module _ (c : Client) (v : Link c) where
  -- What the object is after the attempt: it has a handle, that which it had if it had one, and no
  -- result; the handles of others stay.
  pub record Opens (s s' : State c) : Type 0 where
    pub handle : ℕ
    pub object : s'.object ≡ record s.object {
      mysql = some handle;
      result = none;
      fields = none;
      n_fields = 0;
      start_tick = s'.object.start_tick;
    }
    pub kept : (p : ℕ) → s.object.mysql ≡ some p → handle ≡ p
    pub instances : s'.instances ≡ s.instances
    pub handles :
        (l : List ℕ) → v.handles s.world ≡ own s.object.mysql l → v.handles s'.world ≡ handle ∷ l

  opened :
      (s : State c) (a : Allocated c v s) (w : c.World)
      → v.handles w ≡ v.handles (tried c v s a.handle a.world).world
      → Opens s (record (ready c v s a.handle a.world) { world = w })
  opened s a w same =
      let w' = opted c v (some a.handle) s.object a.world in
      record {
        handle = a.handle;
        object = refl;
        kept = a.kept;
        instances = refl;
        handles = λ l h.
            same
            ∙ v.connect_handles _ _ (c.counter w').1
            ∙ v.counter_handles w'
            ∙ opted_handles c v (some a.handle) s.object a.world
            ∙ a.handles l h;
      }

  pub elapsed_handles :
      (s : State c)
      → (w : c.World) × (get_elapsed_time c s ≡ (returned tt, record s { world = w }))
        × (v.handles w ≡ v.handles s.world)
        × ((l : Login) (x : List Setting) → v.accepts l x w ≡ v.accepts l x s.world)
  elapsed_handles s =
      let (w, run, which) = elapsed c s in
      elim which [
        | inl e ↦ (w, run, ap v.handles e, λ l x. ap (v.accepts l x) e)
        | inr e ↦ (
          w,
          run,
          ap v.handles e ∙ v.counter_handles s.world,
          λ l x. ap (v.accepts l x) e ∙ v.counter_accepts l x s.world,
        )
      ]

  -- 1 when let in; otherwise 0, or the exception when exceptions are wanted.
  abbrev pub Admits : Bool → Bool → Outcome ℕ → Type 0
  Admits true exception r = r ≡ returned 1
  Admits false true r = Throws (text "XMySQL::OpenConnection() mysql_real_connect") r
  Admits false false r = r ≡ returned 0

  outcome-Admits :
      (b exception : Bool) (s : State c) → Admits b exception (outcome c v b exception s)
  unfolding throw
  outcome-Admits true exception s = refl
  outcome-Admits false true s = refl
  outcome-Admits false false s = refl

  -- OpenConnection returns 1 exactly if the server lets the user of the object in with the settings
  -- that the handle had and those that the class makes; if not, it throws when exceptions are wanted
  -- and returns 0 when not. The object has a handle then, the one that it had if it had one, and
  -- those of others stay as they are; its result is forgotten, and no other field and not the count
  -- of the objects changes, but the start of the timer.
  pub open_connection-Opens :
      (exception : Bool) (s : State c)
      → (r : Outcome ℕ) × (s' : State c) × (Connection.open_connection c exception s ≡ (r, s'))
        × Admits (welcome c v s) exception r
        × Opens s s'
  open_connection-Opens exception s =
      let a = allocated c v s s.object.mysql refl in
      let (w, run, same, _) = elapsed_handles (tried c v s a.handle a.world) in
      let s' : State c = record (ready c v s a.handle a.world) { world = w } in
      (
        outcome c v (welcome c v s) exception s',
        s',
        open_connection-outcome c v exception s a.handle a.world w (welcome c v s) a.run run
            (answer_lem c v s a),
        outcome-Admits (welcome c v s) exception s',
        opened s a w same,
      )
