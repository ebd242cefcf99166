-- ===== src/Mysql/Session.antt =====
-- The fields of XMySQL and RTimer, the exception, and the monad of the methods (Test00/xmysql.h,
-- Test00/rtimer.h, Test00/xmysql.cpp).
use test.Prelude.{ℕ, Option, List}
use test.Prelude.Tests.{◌==◌, if◌then◌else◌}
use test.Prelude.Int.{ℤ}
use test.Mysql.Client.{Client, Text, Row}

-- `XMySQL_Exception`, without the pointer to the object and the line number.
pub record Exception : Type 0 where
  pub function : Text
  pub error_no : ℕ
  pub error : Text
  pub sql_state : Text

abbrev pub get_function : Exception → Text
get_function e = e.function

abbrev pub get_err_no : Exception → ℕ
get_err_no e = e.error_no

abbrev pub get_error : Exception → Text
get_error e = e.error

abbrev pub get_sql_state : Exception → Text
get_sql_state e = e.sql_state

-- An object of the class. `fields` is what `m_pFields` points to, `none` where it is null, and
-- `start_tick` is the field of the timer `m_rTimer`.
pub record Session : Type 0 where
  pub instance_no : ℤ
  pub mysql : Option ℕ
  pub host : Text
  pub user : Text
  pub passwd : Text
  pub db : Text
  pub port : ℤ
  pub read_timeout : ℤ
  pub write_timeout : ℤ
  pub connect_timeout : ℤ
  pub charset : Text
  pub query : Text
  pub query_prev : Text
  pub result : Option ℕ
  pub fields : Option (List Text)
  pub n_fields : ℕ
  pub row : Option Row
  pub n_rows : ℕ
  pub start_tick : ℕ
  pub debug : ℕ

-- How a method ends: it returns, it throws, it reads through a null pointer or past an array
-- (`invalid`), or a loop of the model runs out of fuel (`no_fuel`).
pub data Outcome (A : Type 0) : Type 0 where
  returned : A → Outcome A
  thrown : Exception → Outcome A
  invalid no_fuel : Outcome A

module _ (c : Client) where
  open c use {World}

  -- The object, the static counter `m_lMySQL`, and the world.
  pub record State : Type 0 where
    pub object : Session
    pub instances : ℤ
    pub world : World

abbrev pub M : Client → Type 0 → Type 0
M c A = State c → Outcome A × State c

abbrev pub pure : {c : Client} {A : Type 0} → A → M c A
pure a s = (returned a, s)

abbrev pub bind_outcome :
    {c : Client} {A B : Type 0} → (A → M c B) → Outcome A × State c → Outcome B × State c
bind_outcome f (returned a, s) = f a s
bind_outcome f (thrown e, s) = (thrown e, s)
bind_outcome f (invalid, s) = (invalid, s)
bind_outcome f (no_fuel, s) = (no_fuel, s)

infixl 5 ◌>>=◌ ◌>>◌
abbrev pub ◌>>=◌ : {c : Client} {A B : Type 0} → M c A → (A → M c B) → M c B
◌>>=◌ m f s = bind_outcome f (m s)

abbrev pub ◌>>◌ : {c : Client} {B : Type 0} → M c (Unit {0}) → M c B → M c B
m >> k = m >>= λ _. k

abbrev pub get : {c : Client} → M c Session
get s = (returned s.object, s)

abbrev pub put : {c : Client} → Session → M c (Unit {0})
put o s = (returned tt, record s { object = o })

abbrev pub fail : {c : Client} {A : Type 0} → M c A
fail s = (invalid, s)

module _ (c : Client) where
  -- A call of the library that changes the world, and one that only reads it.
  abbrev pub call : {A : Type 0} → (c.World → A × c.World) → M c A
  call f s = (returned (f s.world).0, record s { world = (f s.world).1 })

  abbrev pub run : (c.World → c.World) → M c (Unit {0})
  run f s = (returned tt, record s { world = f s.world })

  abbrev pub ask : {A : Type 0} → (c.World → A) → M c A
  ask f s = (returned (f s.world), s)

  -- `throw XMySQL_Exception(this, function, mysql_errno, mysql_error, mysql_sqlstate, __LINE__)`.
  unfoldable pub throw : {A : Type 0} → Text → M c A
  throw function s = (
    thrown (record {
      function = function;
      error_no = c.errno s.object.mysql s.world;
      error = c.error s.object.mysql s.world;
      sql_state = c.sqlstate s.object.mysql s.world;
    }),
    s,
  )

  -- `m_rTimer.StartTimer()`.
  unfoldable pub start_timer : M c (Unit {0})
  start_timer = call c.counter >>= λ t. get >>= λ o. put (record o { start_tick = t })

  -- `m_rTimer.GetElapsedTime()`, which reads the counter. Only messages to the debugger, which are
  -- left out, use its value; a stopped timer, with the start tick 0, does not read it.
  unfoldable pub get_elapsed_time : M c (Unit {0})
  get_elapsed_time = do
    o ← get
    if o.start_tick == 0 then pure tt else (call c.counter >>= λ t. pure tt)

  -- `m_rTimer.StopTimer()`.
  unfoldable pub stop_timer : M c (Unit {0})
  stop_timer = get >>= λ o. put (record o { start_tick = 0 })
