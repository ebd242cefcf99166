-- ===== src/Mysql/Link.antt =====
-- What the class relies on when it opens a connection and asks whether it is alive: the interface of
-- the handles of the client library.
use test.Prelude.{ℕ, ◌≡◌, Bool, Option, none, some, List, [], ◌∷◌, ◌++◌}
use test.Prelude.Tests.{◌==◌}
use test.Mysql.Client.{
  Client, Setting, Login, compress, connect_timeout, read_timeout, write_timeout, charset_name,
  client_flags,
}
use test.Mysql.Session.{Session}
use test.Mysql.Connection

abbrev pub add_setting : Setting → List Setting → List Setting
add_setting x l = l ++ x ∷ []

-- The settings of a handle once the class has made its own.
abbrev pub with_settings : Session → List Setting → List Setting
with_settings o l = add_setting (charset_name o.charset) (
    add_setting (write_timeout o.write_timeout) (
      add_setting (read_timeout o.read_timeout)
        (add_setting (connect_timeout o.connect_timeout) (add_setting compress l))))

-- What the class logs in with.
abbrev pub login : Session → Login
login o = record {
  host = o.host;
  user = o.user;
  passwd = o.passwd;
  db = Connection.null_if_empty o.db;
  port = o.port;
  flags = client_flags;
}

-- The handles with that of an object, if it has one.
abbrev pub own : Option ℕ → List ℕ → List ℕ
own none l = l
own (some p) l = p ∷ l

-- `accepts` is whether the server would let someone in, with the settings of the handle; `alive`
-- whether the connection of a handle answers; `settings` what is set on a handle; `handles` those
-- that are allocated. There is memory for a handle.
pub record Link (c : Client) : Type 0 where
  pub accepts : Login → List Setting → c.World → Bool
  pub alive : ℕ → c.World → Bool
  pub settings : ℕ → c.World → List Setting
  pub handles : c.World → List ℕ
  pub counter_accepts :
      (l : Login) (x : List Setting) (w : c.World) → accepts l x (c.counter w).1 ≡ accepts l x w
  pub counter_alive : (p : ℕ) (w : c.World) → alive p (c.counter w).1 ≡ alive p w
  pub counter_settings : (p : ℕ) (w : c.World) → settings p (c.counter w).1 ≡ settings p w
  pub counter_handles : (w : c.World) → handles (c.counter w).1 ≡ handles w
  pub init_some : (w : c.World) → (p : ℕ) × ((c.init w).0 ≡ some p)
  pub init_accepts :
      (l : Login) (x : List Setting) (w : c.World) → accepts l x (c.init w).1 ≡ accepts l x w
  pub init_settings : (p : ℕ) (w : c.World) → (c.init w).0 ≡ some p → settings p (c.init w).1 ≡ []
  pub init_handles :
      (p : ℕ) (w : c.World) → (c.init w).0 ≡ some p → handles (c.init w).1 ≡ p ∷ handles w
  pub options_accepts :
      (l : Login) (x : List Setting) (m : Option ℕ) (y : Setting) (w : c.World)
      → accepts l x (c.options m y w) ≡ accepts l x w
  pub options_settings :
      (p : ℕ) (y : Setting) (w : c.World)
      → settings p (c.options (some p) y w) ≡ add_setting y (settings p w)
  pub options_handles :
      (m : Option ℕ) (y : Setting) (w : c.World) → handles (c.options m y w) ≡ handles w
  pub connect :
      (p : ℕ) (l : Login) (w : c.World)
      → (c.real_connect (some p) l w).0 ≡ accepts l (settings p w) w
  pub connect_handles :
      (p : ℕ) (l : Login) (w : c.World) → handles (c.real_connect (some p) l w).1 ≡ handles w
  pub ping : (p : ℕ) (w : c.World) → ((c.ping (some p) w).0 == 0) ≡ alive p w
  pub ping_accepts :
      (l : Login) (x : List Setting) (p : ℕ) (w : c.World)
      → accepts l x (c.ping (some p) w).1 ≡ accepts l x w
  pub ping_handles : (p : ℕ) (w : c.World) → handles (c.ping (some p) w).1 ≡ handles w
  pub close_accepts :
      (l : Login) (x : List Setting) (p : ℕ) (w : c.World)
      → accepts l x (c.close p w) ≡ accepts l x w
  pub close_handles :
      (p : ℕ) (l : List ℕ) (w : c.World) → handles w ≡ p ∷ l → handles (c.close p w) ≡ l
