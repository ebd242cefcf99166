-- ===== src/Mysql/Server.antt =====
-- What the class relies on when it asks the client library for the results of a query: the interface
-- of a server that plays its replies one after another.
use test.Prelude.{ℕ, ◌+◌, ◌≡◌, Bool, true, false, Option, none, some, List, [], ◌∷◌, ◌++◌}
use test.Prelude.Tests.{◌==◌}
use test.Mysql.Client.{Client, Text}
use test.Mysql.Query.{Next, more, done, failed, next_of}

-- The reply to a statement: a result, no result (as for an insertion), or a result that cannot be
-- stored.
pub data Reply : Type 0 where
  rows : ℕ → Reply
  effect lost : Reply

-- The replies that are left, the current one first. Behind the last, `mysql_next_result` says that
-- there are no more (`true`) or fails (`false`).
pub data Script : Type 0 where
  last : Reply → Bool → Script
  next : Reply → Script → Script

abbrev pub current : Script → Reply
current (last y b) = y
current (next y t) = y

abbrev pub size : Script → ℕ
size (last y b) = 0
size (next y t) = size t + 1

abbrev pub stored : Reply → Option ℕ
stored (rows p) = some p
stored effect = none
stored lost = none

abbrev pub is_effect : Reply → Bool
is_effect (rows p) = false
is_effect effect = true
is_effect lost = false

-- The results that are held in memory once this one is stored.
abbrev pub hold : Reply → List ℕ → List ℕ
hold (rows p) l = p ∷ l
hold effect l = l
hold lost l = l

abbrev pub step_of : Script → Next
step_of (last y true) = done
step_of (last y false) = failed
step_of (next y t) = more

-- `sent` is what the server will reply to a query, `none` where it refuses it; `script` the replies
-- that are left on a connection; `held` the results that are stored and not freed; `log` the
-- queries that were made.
pub record Server (c : Client) : Type 0 where
  pub sent : Option ℕ → Text → c.World → Option Script
  pub script : Option ℕ → c.World → Script
  pub held : c.World → List ℕ
  pub log : c.World → List Text
  pub counter_sent : (m : Option ℕ) (q : Text) (w : c.World) → sent m q (c.counter w).1 ≡ sent m q w
  pub counter_script : (m : Option ℕ) (w : c.World) → script m (c.counter w).1 ≡ script m w
  pub counter_held : (w : c.World) → held (c.counter w).1 ≡ held w
  pub counter_log : (w : c.World) → log (c.counter w).1 ≡ log w
  pub query_refused :
      (m : Option ℕ) (q : Text) (w : c.World) → sent m q w ≡ none → (c.query m q w).0 == 0 ≡ false
  pub query_sent :
      (m : Option ℕ) (q : Text) (w : c.World) (t : Script)
      → sent m q w ≡ some t
      → ((c.query m q w).0 == 0 ≡ true) × (script m (c.query m q w).1 ≡ t)
  pub query_held : (m : Option ℕ) (q : Text) (w : c.World) → held (c.query m q w).1 ≡ held w
  pub query_log : (m : Option ℕ) (q : Text) (w : c.World) → log (c.query m q w).1 ≡ log w ++ q ∷ []
  pub store_result :
      (m : Option ℕ) (w : c.World) → (c.store_result m w).0 ≡ stored (current (script m w))
  pub store_script : (m : Option ℕ) (w : c.World) → script m (c.store_result m w).1 ≡ script m w
  pub store_held :
      (m : Option ℕ) (w : c.World)
      → held (c.store_result m w).1 ≡ hold (current (script m w)) (held w)
  pub store_log : (m : Option ℕ) (w : c.World) → log (c.store_result m w).1 ≡ log w
  pub field_count :
      (m : Option ℕ) (w : c.World) → (c.field_count m w == 0) ≡ is_effect (current (script m w))
  pub free_script :
      (m : Option ℕ) (p : ℕ) (w : c.World) → script m (c.free_result (some p) w) ≡ script m w
  pub free_held :
      (p : ℕ) (l : List ℕ) (w : c.World) → held w ≡ p ∷ l → held (c.free_result (some p) w) ≡ l
  pub free_log : (p : ℕ) (w : c.World) → log (c.free_result (some p) w) ≡ log w
  pub next_result :
      (m : Option ℕ) (w : c.World) → next_of (c.next_result m w).0 ≡ step_of (script m w)
  pub next_script :
      (m : Option ℕ) (w : c.World) (y : Reply) (t : Script)
      → script m w ≡ next y t
      → script m (c.next_result m w).1 ≡ t
  pub next_held : (m : Option ℕ) (w : c.World) → held (c.next_result m w).1 ≡ held w
  pub next_log : (m : Option ℕ) (w : c.World) → log (c.next_result m w).1 ≡ log w
