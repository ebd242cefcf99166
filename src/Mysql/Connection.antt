-- ===== src/Mysql/Connection.antt =====
-- The life of a connection (Test00/xmysql.cpp): constructor, destructor, `OpenConnection`,
-- `CheckConnection` and `CloseConnection`. Messages to the debugger are left out.
use test.Prelude.{ℕ, Bool, false, Option, none, some, [], ◌∷◌}
use test.Prelude.Tests.{◌==◌, if◌then◌else◌}
use test.Prelude.Int.{ℤ, pos, negsuc, increment, decrement}
use test.Mysql.Client.{
  Client, Text, compress, connect_timeout, read_timeout, write_timeout, charset_name, client_flags,
}
use test.Mysql.Session.{
  Session, M, Outcome, pure, ◌>>=◌, ◌>>◌, get, put, call, run, throw, start_timer, get_elapsed_time,
}
use test.Prelude.Text.{text}

abbrev pub is_one : ℤ → Bool
is_one (pos n) = n == 1
is_one (negsuc n) = false

abbrev is_zero : ℤ → Bool
is_zero (pos n) = n == 0
is_zero (negsuc n) = false

abbrev pub null_if_empty : Text → Option Text
null_if_empty [] = none
null_if_empty (x ∷ t) = some (x ∷ t)

module _ (c : Client) where
  -- `InterlockedIncrement(&m_lMySQL)` and the other.
  abbrev count_up : M c ℤ
  count_up s = let n = increment s.instances in (Outcome.returned n, record s { instances = n })

  abbrev count_down : M c ℤ
  count_down s = let n = decrement s.instances in (Outcome.returned n, record s { instances = n })

  -- The body of the constructor. Fields that it does not set keep what they hold.
  unfoldable pub construct_body : M c (Unit {0})
  construct_body = do
    n ← count_up
    if is_one n then run c c.library_init else pure tt
    o ← get
    put (record o {
      instance_no = n;
      port = pos 0;
      connect_timeout = pos 0;
      read_timeout = pos 0;
      write_timeout = pos 0;
      charset = text "utf8";
      host = [];
      user = [];
      passwd = [];
      db = [];
      query = [];
      query_prev = [];
      mysql = none;
      result = none;
      fields = none;
      n_fields = 0;
      debug = 1;
    })

  -- The constructor: that of its member `m_rTimer` reads the counter as the start of the timer.
  unfoldable pub construct : M c (Unit {0})
  unfolding start_timer construct_body
  construct = start_timer c >> construct_body

  unfoldable pub destruct : M c (Unit {0})
  destruct = count_down >>= λ n. if is_zero n then run c c.library_end else pure tt

  -- `if (m_pMySQL == NULL) m_pMySQL = mysql_init(NULL)`.
  abbrev pub allocate : M c (Unit {0})
  allocate = get >>= λ o. elim o.mysql [
    | some _ ↦ pure tt
    | none ↦ call c c.init >>= λ p. put (record o { mysql = p })
  ]

  abbrev pub forget_result : Session → Session
  forget_result o = record o { result = none; fields = none; n_fields = 0 }

  abbrev pub set_options : M c (Unit {0})
  set_options = do
    o ← get
    run c (c.options o.mysql compress)
    run c (c.options o.mysql (connect_timeout o.connect_timeout))
    run c (c.options o.mysql (read_timeout o.read_timeout))
    run c (c.options o.mysql (write_timeout o.write_timeout))
    run c (c.options o.mysql (charset_name o.charset))

  -- The result is 1 if connected and 0 if not.
  unfoldable pub open_connection : Bool → M c ℕ
  unfolding start_timer get_elapsed_time throw
  open_connection exception = do
    allocate
    o ← get
    put (forget_result o)
    set_options
    start_timer c
    o ← get
    connected ← call c (
        c.real_connect o.mysql (record {
          host = o.host;
          user = o.user;
          passwd = o.passwd;
          db = null_if_empty o.db;
          port = o.port;
          flags = client_flags;
        }))
    get_elapsed_time c
    if connected
        then pure 1
        else if exception
        then throw c (text "XMySQL::OpenConnection() mysql_real_connect")
        else pure 0

  unfoldable pub close_connection : M c ℕ
  close_connection = do
    o ← get
    elim o.mysql [ none ↦ pure tt | some p ↦ run c (c.close p) ]
    put (record (forget_result o) { mysql = none })
    pure 0

  -- The result is 1 if the server answers, 2 after a new connection, and 0 otherwise.
  unfoldable pub check_connection : Bool → M c ℕ
  unfolding start_timer get_elapsed_time open_connection close_connection
  check_connection reconnect = do
    start_timer c
    o ← get
    failed ← call c (c.ping o.mysql)
    get_elapsed_time c
    if failed == 0
        then pure 1
        else if reconnect
        then (do _ ← close_connection; n ← open_connection false; if n == 0 then pure 0 else pure 2)
        else pure 0
