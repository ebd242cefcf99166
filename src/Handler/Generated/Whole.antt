-- ===== src/Handler/Generated/Whole.antt =====
-- `MZHandler::Go` with `GENERATE_NEW` 1, from the constructor of XMySQL to the last iteration.
use test.Prelude.{
  ℕ, ◌+◌, ◌*◌, ◌/◌, ◌≡◌, ◌∙◌, refl, inl, inr, ap, Bool, true, false, Option, none, List, [],
}
use test.Prelude.Tests.{ltb, Bool-cases, if◌then◌else◌}
use test.Prelude.Draws.{Feeds}
use test.Prelude.Ascii.{AreAscii, are_ascii, are_ascii_lem}
use test.Prelude.Text.{text}
use test.Prelude.Int.{ℤ, increment, pos}
use test.Maze.State.{Maze}
use test.Mysql.Client.{Client, Text, Login, client_flags}
use test.Mysql.Session
use test.Mysql.Session.{
  Session, State, M, Outcome, returned, pure, bind_outcome, ◌>>=◌, ◌>>◌, get, put,
}
use test.Mysql.Settings
use test.Mysql.Connection
use test.Mysql.Server.{Server}
use test.Mysql.Link.{Link, login}
use test.Mysql.Drain.Asks.{Shorter}
use test.Mysql.Opening.{welcome}
use test.Mysql.Opening.Open.{Opens, Admits, open_connection-Opens}
use test.Handler.Constants.{width, height, generate_how_many}
use test.Handler.Generated
use test.Handler.Generated.{Floats, settings}
use test.Handler.Generated.Stores.Loop.{Completes, generate_all-Completes}

-- The memory of a new object once its timer is constructed.
abbrev pub timed : (c : Client) → State c → Session
timed c s = record s.object { start_tick = (c.counter s.world).0 }

-- A new object of XMySQL, where `o` is what the memory holds and `i` the new count of the objects.
abbrev fresh : Session → ℤ → Session
fresh o i = record o {
  instance_no = i;
  port = pos 0;
  connect_timeout = pos 0;
  read_timeout = pos 0;
  write_timeout = pos 0;
  charset = text "utf8";
  host = [];
  user = [];
  passwd = [];
  db = [];
  query = [];
  query_prev = [];
  mysql = none;
  result = none;
  fields = none;
  n_fields = 0;
  debug = 1;
}

-- The state with the new object once it has its connection string.
abbrev pub prepared : (c : Client) → State c → c.World → State c
prepared c s w = record {
  object =
      Settings.set_connection_string_wide c (text settings)
        (fresh (timed c s) (increment s.instances));
  instances = increment s.instances;
  world = w;
}

construct_lem :
    (c : Client) (s : State c)
    → (w : c.World) × (Connection.construct c s ≡ (
      returned tt,
      record {
        object = fresh (timed c s) (increment s.instances);
        instances = increment s.instances;
        world = w;
      },
    ))
      × (w ≡ (
          if Connection.is_one (increment s.instances)
          then c.library_init (c.counter s.world).1
          else (c.counter s.world).1))
unfolding Connection.construct Connection.construct_body Session.start_timer
construct_lem c s = elim (Bool-cases (Connection.is_one (increment s.instances))) [
  | inl first ↦ (c.library_init (c.counter s.world).1, rw first refl, rw first refl)
  | inr later ↦ ((c.counter s.world).1, rw later refl, rw later refl)
]

abbrev pub who : Login
who = record {
  host = text "127.0.0.1";
  user = text "root";
  passwd = text "zeelandbrug";
  db = none;
  port = pos 3306;
  flags = client_flags;
}

settings-AreAscii : AreAscii (text settings)
unfolding are_ascii
settings-AreAscii = are_ascii_lem (text settings) refl

login-settings :
    (o : Session) (i : ℤ) → login (Settings.set_connection_string (text settings) (fresh o i)) ≡ who
unfolding Settings.set_connection_string
login-settings o i = refl

login-prepared :
    (c : Client) (s : State c) (w : c.World)
    → c.to_utf8 (text settings) ≡ text settings
    → login (prepared c s w).object ≡ who
unfolding Settings.set_connection_string_wide
login-prepared c s w same =
    ap (λ t. login (Settings.set_connection_string t (fresh (timed c s) (increment s.instances))))
      same
    ∙ login-settings (timed c s) (increment s.instances)

admitted :
    (b : Bool) (r : Outcome ℕ)
    → (r ≡ returned (if b then 1 else 0))
    → (k : ℕ) × (r ≡ returned k) × (ltb 0 k ≡ b)
admitted true r e = (1, e, refl)
admitted false r e = (0, e, refl)

admits :
    (c : Client) (l : Link c) (b : Bool) (r : Outcome ℕ)
    → Admits c l b false r
    → r ≡ returned (if b then 1 else 0)
admits c l true r e = e
admits c l false r e = e

-- A method that returns, and what follows it.
step :
    {c : Client} {A B : Type 0} (m : M c A) (k : A → M c B) (s : State c) {t : State c} {a : A}
    → m s ≡ (returned a, t)
    → (m >>= k) s ≡ k a t
step m k s e = ap (bind_outcome k) e

module _ (c : Client) (v : Server c) (l : Link c) (f : Floats) (fuel : ℕ)
    (answers : (m : Option ℕ) (q : Text) (w : c.World) → Shorter fuel (v.sent m q w)) where
  -- How `go_generated` runs.
  pub record Runs (raw : ℕ → Maze) (draws : List ℕ) (s : State c) : Type 0 where
    pub world : c.World
    pub begins : world ≡ (
        if Connection.is_one (increment s.instances)
        then c.library_init (c.counter s.world).1
        else (c.counter s.world).1)
    pub connected : State c
    pub who_logs_in : login (prepared c s world).object ≡ who
    pub opens : Opens c l (prepared c s world) connected
    pub completes :
        Completes c v f fuel answers raw
          (welcome c l (prepared c s world))
          generate_how_many
          draws
          0
          connected
    pub run : Generated.go_generated c f fuel raw draws s ≡ (returned 1, completes.final)

  -- What follows the constructor, and what follows the connection.
  abbrev looping : (ℕ → Maze) → List ℕ → ℕ → M c ℕ
  looping raw draws r = Generated.generate_all c f fuel raw (ltb 0 r) generate_how_many draws 0

  abbrev connecting : (ℕ → Maze) → List ℕ → M c ℕ
  connecting raw draws = do
    o ← get
    put (Settings.set_connection_string_wide c (text settings) o)
    r ← Connection.open_connection c false
    _ ← looping raw draws r
    pure 1

  go_generated_lem :
      (raw : ℕ → Maze) (draws : List ℕ) (s u : State c) (w : c.World) (k : ℕ)
      → Connection.construct c s ≡ (
        returned tt,
        record {
          object = fresh (timed c s) (increment s.instances);
          instances = increment s.instances;
          world = w;
        },
      )
      → Connection.open_connection c false (prepared c s w) ≡ (returned k, u)
      → Generated.go_generated c f fuel raw draws s ≡ (looping raw draws k >>= λ _. pure 1) u
  unfolding Generated.go_generated
  go_generated_lem raw draws s u w k made opened =
      step (Connection.construct c) (λ _. connecting raw draws) s made
      ∙ step (Connection.open_connection c false) (λ r. looping raw draws r >>= λ _. pure 1)
          (prepared c s w) opened

  -- If making UTF-8 of an ASCII text leaves it as it is, the server answers each query, by a refusal
  -- or by replies of which less than the fuel lie behind the first, and the draws are enough for 200
  -- mazes, for each one, and for each of the tries of the generator one and then some that name each
  -- side, Go, from the constructor of XMySQL on, runs all its iterations, whether or not it is let
  -- in, and returns 1. The timer of the object reads the counter first; then the library is opened if
  -- this is the first object. The login is the user, the password, the host and the port of the
  -- connection string, and no database, with the flags for several results, several statements and
  -- compression. The loop generates 200 well-formed mazes; its queries are none when it is not let
  -- in, and otherwise the insertions, in UTF-8, of the mazes above the bounds, in their order and
  -- each once, and the count of the insertions that it keeps is at most their number.
  pub go_generated-Runs :
      (utf8 : (t : List ℕ) → AreAscii t → c.to_utf8 t ≡ t) (raw : ℕ → Maze) (draws : List ℕ)
      (s : State c)
      → Feeds ((3 * (width * height / 2) + 1) * generate_how_many) draws
      → Runs raw draws s
  go_generated-Runs utf8 raw draws s fed =
      let (w, made, begins) = construct_lem c s in
      let b = welcome c l (prepared c s w) in
      let (r, u, run, says, opens) = open_connection-Opens c l false (prepared c s w) in
      let (k, returns, e) = admitted b r (admits c l b r says) in
      let completes =
        generate_all-Completes c v f fuel answers raw b generate_how_many draws 0 u fed in
      record {
        world = w;
        begins = begins;
        connected = u;
        who_logs_in = login-prepared c s w (utf8 (text settings) settings-AreAscii);
        opens = opens;
        completes = completes;
        run =
            go_generated_lem raw draws s u w k made (run ∙ ap (λ r. (r, u)) returns)
            ∙ step (looping raw draws k) (λ _. pure 1) u
                (ap (λ b. Generated.generate_all c f fuel raw b generate_how_many draws 0 u) e
                  ∙ completes.run);
      }
