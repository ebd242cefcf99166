-- ===== src/Mysql/Opening.antt =====
-- The steps of `OpenConnection` (Test00/xmysql.cpp): the handle, its settings, and the call of
-- `mysql_real_connect`.
pub mod Open
pub mod Check
use test.Prelude.{
  ℕ, ◌≡◌, ◌∙◌, ◌⊎◌, refl, sym, ap, subst, inl, inr, Bool, true, false, Option, none, some, List, [],
  ◌∷◌,
}
use test.Prelude.Tests.{◌==◌, Bool-cases, if◌then◌else◌}
use test.Prelude.Text.{text}
use test.Mysql.Client.{
  Client, Text, Setting, Login, compress, connect_timeout, read_timeout, write_timeout,
  charset_name,
}
use test.Mysql.Session.{
  Session, State, Outcome, returned, thrown, no_fuel, throw, start_timer, get_elapsed_time,
}
use test.Mysql.Connection
use test.Mysql.Link.{add_setting, with_settings, login, own, Link}
use test.Mysql.Methods.{Throws, elapsed}

module _ (c : Client) (v : Link c) where
  -- What is set on the handle before.
  abbrev pub before : Option ℕ → c.World → List Setting
  before none w = []
  before (some p) w = v.settings p w

  -- The object with this handle, in this world.
  abbrev placed : State c → ℕ → c.World → State c
  placed s p w = record s { object = record s.object { mysql = some p }; world = w }

  -- The object has a handle of its own.
  pub record Allocated (s : State c) : Type 0 where
    pub handle : ℕ
    pub world : c.World
    pub run : Connection.allocate c s ≡ (returned tt, placed s handle world)
    pub kept : (p : ℕ) → s.object.mysql ≡ some p → handle ≡ p
    pub settings : v.settings handle world ≡ before s.object.mysql s.world
    pub accepts : (l : Login) (x : List Setting) → v.accepts l x world ≡ v.accepts l x s.world
    pub handles :
        (l : List ℕ) → v.handles s.world ≡ own s.object.mysql l → v.handles world ≡ handle ∷ l

  pub allocated : (s : State c) (m : Option ℕ) → s.object.mysql ≡ m → Allocated s
  allocated s none e =
      let (p, gives) = v.init_some s.world in
      record {
        handle = p;
        world = (c.init s.world).1;
        run = simp (e, gives);
        kept = λ q e'. absurd (none_or_some q (sym e ∙ e'));
        settings = rw e (v.init_settings p s.world gives);
        accepts = λ l x. v.init_accepts l x s.world;
        handles = λ l h. v.init_handles p s.world gives ∙ ap (λ l. p ∷ l) (h ∙ ap (λ m. own m l) e);
      }
    where
      none_or_some : (q : ℕ) → none ≡ some q → ⊥
      none_or_some q e = cc
  allocated s (some p) e = record {
    handle = p;
    world = s.world;
    run =
        allocate_kept
        ∙ ap (λ m. (returned tt, record s { object = record s.object { mysql = m } })) e;
    kept = λ q e'. some_injective q (sym e ∙ e');
    settings = ap (λ m. before m s.world) (sym e);
    accepts = λ l x. refl;
    handles = λ l h. h ∙ ap (λ m. own m l) e;
  }
    where
      allocate_kept : Connection.allocate c s ≡ (returned tt, s)
      allocate_kept = simp e

      some_injective : (q : ℕ) → some p ≡ some q → p ≡ q
      some_injective q e = cc

  -- The world after the calls of `mysql_options`.
  abbrev pub opted : Option ℕ → Session → c.World → c.World
  opted m o w = c.options m (charset_name o.charset) (
      c.options m (write_timeout o.write_timeout) (
        c.options m (read_timeout o.read_timeout)
          (c.options m (connect_timeout o.connect_timeout) (c.options m compress w))))

  opted_settings :
      (p : ℕ) (o : Session) (w : c.World)
      → v.settings p (opted (some p) o w) ≡ with_settings o (v.settings p w)
  opted_settings p o w = simp (v.options_settings)

  opted_accepts :
      (l : Login) (x : List Setting) (m : Option ℕ) (o : Session) (w : c.World)
      → v.accepts l x (opted m o w) ≡ v.accepts l x w
  opted_accepts l x m o w = simp (v.options_accepts)

  pub opted_handles :
      (m : Option ℕ) (o : Session) (w : c.World) → v.handles (opted m o w) ≡ v.handles w
  opted_handles m o w = simp (v.options_handles)

  -- The states of `open_connection` from the handle on: the timer is started, and then the call of
  -- `mysql_real_connect` is made.
  abbrev pub ready : State c → ℕ → c.World → State c
  ready s p w =
      let w' = opted (some p) s.object w in
      record s {
        object = record (Connection.forget_result c s.object) {
          mysql = some p;
          start_tick = (c.counter w').0;
        };
        world = (c.counter w').1;
      }

  abbrev answer : State c → ℕ → c.World → Bool × c.World
  answer s p w = c.real_connect (some p) (login s.object) (ready s p w).world

  abbrev pub tried : State c → ℕ → c.World → State c
  tried s p w = record (ready s p w) { world = (answer s p w).1 }

  abbrev pub outcome : Bool → Bool → State c → Outcome ℕ
  outcome true exception s = returned 1
  outcome false true s = (throw c {A = ℕ} (text "XMySQL::OpenConnection() mysql_real_connect") s).0
  outcome false false s = returned 0

  pub open_connection-outcome :
      (exception : Bool) (s : State c) (p : ℕ) (w w' : c.World) (b : Bool)
      → Connection.allocate c s ≡ (returned tt, placed s p w)
      → get_elapsed_time c (tried s p w) ≡ (returned tt, record (tried s p w) { world = w' })
      → (answer s p w).0 ≡ b
      → Connection.open_connection c exception s ≡ (
        outcome b exception (record (ready s p w) { world = w' }),
        record (ready s p w) { world = w' },
      )
  unfolding Connection.open_connection start_timer throw
  open_connection-outcome exception s p w w' true made run e = rw (made, run, e) refl
  open_connection-outcome true s p w w' false made run e = rw (made, run, e) refl
  open_connection-outcome false s p w w' false made run e = rw (made, run, e) refl

  -- What the object can expect of the server, with the settings that it makes.
  abbrev pub welcome : State c → Bool
  welcome s =
      v.accepts (login s.object) (with_settings s.object (before s.object.mysql s.world)) s.world

  pub answer_lem : (s : State c) (a : Allocated s) → (answer s a.handle a.world).0 ≡ welcome s
  answer_lem s a =
      let w = opted (some a.handle) s.object a.world in
      v.connect a.handle (login s.object) (c.counter w).1
      ∙ v.counter_accepts _ _ w
      ∙ opted_accepts _ _ (some a.handle) s.object a.world
      ∙ a.accepts _ _
      ∙ ap (λ x. v.accepts (login s.object) x s.world)
          (v.counter_settings a.handle w
            ∙ opted_settings a.handle s.object a.world
            ∙ ap (with_settings s.object) a.settings)
