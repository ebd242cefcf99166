-- ===== src/Mysql/Settings.antt =====
-- `XMySQL::SetConnectionString` (Test00/xmysql.cpp): pairs `name=value`, parted by semicolons. The
-- C library's `sscanf_s`, `strchr`, `_stricmp` and `atoi` are written out as they are used here.
use test.Prelude.{ℕ, zero, suc, ◌+◌, ◌-◌, ◌*◌, Bool, true, false, ◌&&◌, ◌||◌, Option, none, some}
use test.Prelude.{List, [], ◌∷◌}
use test.Prelude.Tests.{ltb, leb, ◌==◌, if◌then◌else◌}
use test.Prelude.Lists.{length}
use test.Prelude.Int.{ℤ, pos, negsuc}
use Prim.Native.String.{String}
use test.Prelude.Text.{text}
use test.Mysql.Client.{Client, Text}
use test.Mysql.Session.{Session}

-- The longest prefix without the byte `stop`, and what follows it: `%[^…]`.
pub record Span : Type 0 where
  pub taken : Text
  pub rest : Text

unfoldable pub span : ℕ → Text → Span
span stop [] = record { taken = []; rest = [] }
span stop (c ∷ s) =
    if c == stop
    then record { taken = []; rest = c ∷ s }
    else record { taken = c ∷ (span stop s).taken; rest = (span stop s).rest }

-- A field of at least one byte, which fits a buffer of 1024 with the zero behind it.
abbrev pub fits : Text → Bool
fits t = ltb 0 (length t) && ltb (length t) 1024

pub record Pair : Type 0 where
  pub parameter : Text
  pub value : Text

-- `sscanf_s(s, "%[^=]=%[^;]", …) == 2`, with the two fields.
unfoldable pub scan_value : Text → Text → Option Pair
unfolding span
scan_value parameter [] = none
scan_value parameter (c ∷ s) =
    let value = (span b';' s).taken in
    if fits value then some (record { parameter = parameter; value = value }) else none

unfoldable pub scan_pair : Text → Option Pair
unfolding span scan_value
scan_pair s =
    let parameter = (span b'=' s).taken in
    if fits parameter then scan_value parameter (span b'=' s).rest else none

-- `strchr(s, ';')`, and one byte further: the text behind the first semicolon.
unfoldable pub after_semicolon : Text → Option Text
after_semicolon [] = none
after_semicolon (c ∷ s) = if c == b';' then some s else after_semicolon s

unfoldable pub lower : ℕ → ℕ
lower c = if leb b'A' c && leb c b'Z' then c + 32 else c

-- `!_stricmp(a, b)`.
unfoldable pub same_text : Text → Text → Bool
unfolding lower
same_text [] [] = true
same_text [] (d ∷ t) = false
same_text (c ∷ s) [] = false
same_text (c ∷ s) (d ∷ t) = lower c == lower d && same_text s t

abbrev is_digit : ℕ → Bool
is_digit c = leb b'0' c && leb c b'9'

unfoldable pub read_digits : ℕ → Text → ℕ
read_digits n [] = n
read_digits n (c ∷ s) = elim (is_digit c) [ true ↦ read_digits (n * 10 + (c - b'0')) s | false ↦ n ]

abbrev is_space : ℕ → Bool
is_space c = c == b' ' || (leb 9 c && leb c 13)

abbrev negated : ℕ → ℤ
negated zero = pos 0
negated (suc n) = negsuc n

-- `atoi`, for values that an `int` holds.
unfoldable pub atoi : Text → ℤ
unfolding read_digits
atoi [] = pos 0
atoi (c ∷ s) = elim (is_space c) [
  | true ↦ atoi s
  | false ↦
      if c == b'-'
      then negated (read_digits 0 s)
      else if c == b'+'
      then pos (read_digits 0 s)
      else pos (read_digits 0 (c ∷ s))
]

-- The body of the loop: each test is made, whether or not one before it passed.
unfoldable pub apply_pair : Pair → Session → Session
unfolding same_text atoi
apply_pair p o =
    let is = λ (name : String). same_text p.parameter (text name) in
    let o1 = if is "host" || is "server" then record o { host = p.value } else o in
    let o2 = if is "database" then record o1 { db = p.value } else o1 in
    let o3 = if is "user" || is "uid" then record o2 { user = p.value } else o2 in
    let o4 = if is "password" || is "pwd" then record o3 { passwd = p.value } else o3 in
    let o5 = if is "port" then record o4 { port = atoi p.value } else o4 in
    let o6 = if is "connecttimeout" then record o5 { connect_timeout = atoi p.value } else o5 in
    let o7 = if is "readtimeout" then record o6 { read_timeout = atoi p.value } else o6 in
    let o8 = if is "writetimeout" then record o7 { write_timeout = atoi p.value } else o7 in
    if is "charset" then record o8 { charset = p.value } else o8

-- The pairs that the loop reads, in their order. Each round shortens the text, so its length is
-- enough fuel.
unfoldable pub read_pairs : ℕ → Text → List Pair
unfolding scan_pair after_semicolon
read_pairs zero s = []
read_pairs (suc fuel) s = elim (scan_pair s) [
  | none ↦ []
  | some p ↦ p ∷ elim (after_semicolon s) [ none ↦ [] | some s' ↦ read_pairs fuel s' ]
]

abbrev pub apply_pairs : List Pair → Session → Session
apply_pairs [] o = o
apply_pairs (p ∷ ps) o = apply_pairs ps (apply_pair p o)

-- The method returns 0 in every case.
unfoldable pub set_connection_string : Text → Session → Session
unfolding read_pairs apply_pair
set_connection_string s o = apply_pairs (read_pairs (suc (length s)) s) o

-- The overload for wide strings.
unfoldable pub set_connection_string_wide : Client → List ℕ → Session → Session
unfolding set_connection_string
set_connection_string_wide c s o = set_connection_string (c.to_utf8 s) o
