-- ===== src/Mysql/Client.antt =====
-- What the class calls of the MySQL client library (`mysqlclient.lib`) and of Windows: parameters of
-- the model. A pointer that the library returns is a number, and a null pointer is `none`.
use test.Prelude.{ℕ, ◌+◌, Option, List, Bool}
use test.Prelude.Int.{ℤ}

-- A text, by its bytes.
abbrev pub Text : Type 0
Text = List ℕ

-- A row: a null pointer for each value that is NULL.
abbrev pub Row : Type 0
Row = List (Option Text)

-- The options that the class sets.
pub data Setting : Type 0 where
  compress : Setting
  connect_timeout : ℤ → Setting
  read_timeout : ℤ → Setting
  write_timeout : ℤ → Setting
  charset_name : Text → Setting

-- `CLIENT_MULTI_RESULTS | CLIENT_MULTI_STATEMENTS | CLIENT_COMPRESS`, of the library's mysql_com.h.
abbrev pub client_flags : ℕ
client_flags = 131_072 + 65_536 + 32

-- What `mysql_real_connect` is given.
pub record Login : Type 0 where
  pub host : Text
  pub user : Text
  pub passwd : Text
  pub db : Option Text
  pub port : ℤ
  pub flags : ℕ

-- `World` is the state of the library, the server and the clock. A function that only reads gets the
-- world and returns a value.
pub record Client : Type 1 where
  pub World : Type 0
  pub library_init : World → World
  pub library_end : World → World
  pub init : World → Option ℕ × World
  pub options : Option ℕ → Setting → World → World
  pub real_connect : Option ℕ → Login → World → Bool × World
  pub ping : Option ℕ → World → ℕ × World
  pub close : ℕ → World → World
  pub query : Option ℕ → Text → World → ℕ × World
  pub store_result : Option ℕ → World → Option ℕ × World
  pub free_result : Option ℕ → World → World
  pub next_result : Option ℕ → World → ℤ × World
  pub field_count : Option ℕ → World → ℕ
  pub errno : Option ℕ → World → ℕ
  pub error : Option ℕ → World → Text
  pub sqlstate : Option ℕ → World → Text
  pub fetch_fields : ℕ → World → List Text
  pub num_rows : ℕ → World → ℕ
  pub fetch_row : ℕ → World → Option Row × World
  pub fetch_lengths : ℕ → World → List ℕ
  pub data_seek : ℕ → ℕ → World → World
  pub counter : World → ℕ × World
  pub to_utf8 : List ℕ → Text
