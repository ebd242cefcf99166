-- ===== src/Mysql/Opening/Check.antt =====
-- `CheckConnection` (Test00/xmysql.cpp) on every branch.
use test.Prelude.{
  ℕ, ◌≡◌, ◌∙◌, ◌⊎◌, refl, ap, subst, inl, inr, Bool, true, false, none, some, List, [], ◌∷◌,
}
use test.Prelude.Tests.{◌==◌, Bool-cases, if◌then◌else◌}
use test.Mysql.Client.{Client, Setting, Login}
use test.Mysql.Session.{State, Outcome, returned, start_timer, get_elapsed_time}
use test.Mysql.Connection
use test.Mysql.Link.{with_settings, login, Link}
use test.Mysql.Opening.{welcome}
use test.Mysql.Opening.Open.{Opens, elapsed_handles, Admits, open_connection-Opens}

module _ (c : Client) (v : Link c) where
  -- The states of `check_connection`: after the call of `mysql_ping`, and after `close_connection`.
  abbrev pinged : State c → State c
  pinged s = record s {
    object = record s.object { start_tick = (c.counter s.world).0 };
    world = (c.ping s.object.mysql (c.counter s.world).1).1;
  }

  abbrev closed : State c → ℕ → c.World → State c
  closed s p w = record s {
    object = record (Connection.forget_result c s.object) {
      start_tick = (c.counter s.world).0;
      mysql = none;
    };
    world = c.close p w;
  }

  -- What a new handle can expect of the server.
  abbrev pub welcome_anew : State c → Bool
  welcome_anew s = v.accepts (login s.object) (with_settings s.object []) s.world

  -- The result of `check_connection`.
  abbrev pub checked : Bool → Bool → Bool → ℕ
  checked true reconnect welcomed = 1
  checked false true true = 2
  checked false true false = 0
  checked false false welcomed = 0

  -- The connection is left as it is.
  pub record Stays (s s' : State c) : Type 0 where
    pub object : s'.object ≡ record s.object { start_tick = s'.object.start_tick }
    pub instances : s'.instances ≡ s.instances
    pub handles : v.handles s'.world ≡ v.handles s.world

  -- The handle is freed, and the object has another.
  pub record Reopens (p : ℕ) (s s' : State c) : Type 0 where
    pub handle : ℕ
    pub object : s'.object ≡ record s.object {
      mysql = some handle;
      result = none;
      fields = none;
      n_fields = 0;
      start_tick = s'.object.start_tick;
    }
    pub instances : s'.instances ≡ s.instances
    pub handles : (l : List ℕ) → v.handles s.world ≡ p ∷ l → v.handles s'.world ≡ handle ∷ l

  -- What `check_connection` leaves.
  abbrev pub Leaves : Bool → Bool → ℕ → State c → State c → Type 0
  Leaves true reconnect p s s' = Stays s s'
  Leaves false true p s s' = Reopens p s s'
  Leaves false false p s s' = Stays s s'

  module _ (s : State c) (p : ℕ) (has : s.object.mysql ≡ some p) where
    answers : ((c.ping s.object.mysql (c.counter s.world).1).0 == 0) ≡ v.alive p s.world
    answers =
        ap (λ m. (c.ping m (c.counter s.world).1).0 == 0) has
        ∙ v.ping p (c.counter s.world).1
        ∙ v.counter_alive p s.world

    pinged_handles : v.handles (pinged s).world ≡ v.handles s.world
    pinged_handles =
        ap (λ m. v.handles (c.ping m (c.counter s.world).1).1) has
        ∙ v.ping_handles p (c.counter s.world).1
        ∙ v.counter_handles s.world

    pinged_accepts :
        (l : Login) (x : List Setting) → v.accepts l x (pinged s).world ≡ v.accepts l x s.world
    pinged_accepts l x =
        ap (λ m. v.accepts l x (c.ping m (c.counter s.world).1).1) has
        ∙ v.ping_accepts l x p (c.counter s.world).1
        ∙ v.counter_accepts l x s.world

    closing :
        (w : c.World)
        → Connection.close_connection c (record (pinged s) { world = w })
          ≡ (returned 0, closed s p w)
    unfolding Connection.close_connection
    closing w = rw has refl

    -- The connection is opened anew.
    check_connection-closed :
        (w : c.World)
        → get_elapsed_time c (pinged s) ≡ (returned tt, record (pinged s) { world = w })
        → v.alive p s.world ≡ false
        → (n : ℕ) (u : State c)
        → Connection.open_connection c false (closed s p w) ≡ (returned n, u)
        → Connection.check_connection c true s ≡ (returned (if n == 0 then 0 else 2), u)
    unfolding Connection.check_connection start_timer
    check_connection-closed w run dead n u anew = elim (Bool-cases (n == 0)) [
      | inl zero_n ↦ rw (run, answers, dead, closing w, anew, zero_n) refl
      | inr positive ↦ rw (run, answers, dead, closing w, anew, positive) refl
    ]

    check_connection-stays :
        (reconnect b : Bool) (w : c.World)
        → get_elapsed_time c (pinged s) ≡ (returned tt, record (pinged s) { world = w })
        → v.alive p s.world ≡ b
        → (b ≡ true) ⊎ (reconnect ≡ false)
        → Connection.check_connection c reconnect s
          ≡ (returned (checked b reconnect true), record (pinged s) { world = w })
    unfolding Connection.check_connection start_timer
    check_connection-stays reconnect true w run e why = rw (run, answers, e) refl
    check_connection-stays true false w run e (inl why) = cc
    check_connection-stays true false w run e (inr why) = cc
    check_connection-stays false false w run e why = rw (run, answers, e) refl

    checked_by :
        (b : Bool) (r : Outcome ℕ)
        → Admits c v b false r
        → (n : ℕ) × (r ≡ returned n) × ((if n == 0 then 0 else 2) ≡ checked false true b)
    checked_by true r e = (1, e, refl)
    checked_by false r e = (0, e, refl)

    reopens :
        (w : c.World) (u : State c)
        → v.handles w ≡ v.handles (pinged s).world
        → Opens c v (closed s p w) u
        → Reopens p s u
    reopens w u same k = record {
      handle = k.handle;
      object = k.object;
      instances = k.instances;
      handles = λ l h. k.handles l (v.close_handles p l w (same ∙ pinged_handles ∙ h));
    }

    welcome_lem :
        (w : c.World)
        → ((l : Login) (x : List Setting) → v.accepts l x w ≡ v.accepts l x (pinged s).world)
        → welcome c v (closed s p w) ≡ welcome_anew s
    welcome_lem w same = v.close_accepts _ _ p w ∙ same _ _ ∙ pinged_accepts _ _

    pinged-Stays :
        (w : c.World)
        → v.handles w ≡ v.handles (pinged s).world
        → Stays s (record (pinged s) { world = w })
    pinged-Stays w same = record {
      object = refl;
      instances = refl;
      handles = same ∙ pinged_handles;
    }

    check_connection_cases :
        (reconnect b : Bool)
        → v.alive p s.world ≡ b
        → (s' : State c) × (Connection.check_connection c reconnect s
            ≡ (returned (checked b reconnect (welcome_anew s)), s'))
          × Leaves b reconnect p s s'
    check_connection_cases reconnect true e =
        let (w, run, same, _) = elapsed_handles c v (pinged s) in
        (
          record (pinged s) { world = w },
          check_connection-stays reconnect true w run e (inl refl),
          pinged-Stays w same,
        )
    check_connection_cases false false e =
        let (w, run, same, _) = elapsed_handles c v (pinged s) in
        (
          record (pinged s) { world = w },
          check_connection-stays false false w run e (inr refl),
          pinged-Stays w same,
        )
    check_connection_cases true false e =
        let (w, run, same, same_accepts) = elapsed_handles c v (pinged s) in
        let (r, u, anew, admits, opens) = open_connection-Opens c v false (closed s p w) in
        let admits' : Admits c v (welcome_anew s) false r =
          subst (λ b. Admits c v b false r) (welcome_lem w same_accepts) admits in
        let (n, r_eq, e_n) = checked_by (welcome_anew s) r admits' in
        (
          u,
          check_connection-closed w run e n u (anew ∙ ap (λ r. (r, u)) r_eq)
              ∙ ap (λ n. (returned n, u)) e_n,
          reopens w u same opens,
        )

    -- CheckConnection, on an object with a handle, throws nothing. It returns 1 if the connection
    -- answers; if not and a new connection is wanted, 2 if the server lets the user of the object in
    -- on a new handle with the settings that the class makes, and 0 otherwise. Where it opened one
    -- anew, in vain or not, the old handle is freed and the object has another, those of others stay,
    -- and the result of the object is forgotten; in the other cases nothing changes but the start
    -- of the timer. The count of the objects stays.
    pub check_connection-checked :
        (reconnect : Bool)
        → (s' : State c) × (Connection.check_connection c reconnect s
            ≡ (returned (checked (v.alive p s.world) reconnect (welcome_anew s)), s'))
          × Leaves (v.alive p s.world) reconnect p s s'
    check_connection-checked reconnect = check_connection_cases reconnect (v.alive p s.world) refl
