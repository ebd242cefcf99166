-- ===== src/Mysql/Fields.antt =====
-- Fields and values of the current row (Test00/xmysql.cpp): `GetFields`, `GetRows`, `GetField` and
-- the overloads of `GetFieldValue`. Each returns 1 or 0, and the value that it sets, if it sets one.
use test.Prelude.{ℕ, zero, suc, ◌+◌, Bool, true, false, Option, none, some, List, [], ◌∷◌}
use mathlib.Core.Option
use test.Prelude.Tests.{ltb, ◌==◌, if◌then◌else◌}
use test.Prelude.Lists.{get_elem?}
use test.Prelude.Int.{ℤ, pos, negsuc}
use test.Mysql.Client.{Client, Text}
use test.Mysql.Session.{Session, Outcome, returned, invalid}
use test.Mysql.Settings.{atoi}

abbrev pub get_fields : Session → ℕ
get_fields o = o.n_fields

abbrev pub get_rows : Session → ℕ
get_rows o = o.n_rows

-- The result of a lookup, with the pointer that it stores: a null pointer is `none`.
pub record Found (A : Type 0) : Type 0 where
  pub code : ℕ
  pub value : Option A

-- `(iField >= 0) && (iField < m_nFields)`.
unfoldable pub in_fields : ℤ → Session → Option ℕ
in_fields (negsuc n) o = none
in_fields (pos n) o = if ltb n o.n_fields then some n else none

-- `m_pFields[i].name`, and `m_sqlRow[i]`.
unfoldable pub field_name : Session → ℕ → Outcome Text
field_name o i = elim o.fields [
  | none ↦ invalid
  | some names ↦ elim (get_elem? names i) [ none ↦ invalid | some name ↦ returned name ]
]

unfoldable pub row_value : Session → ℕ → Outcome (Option Text)
row_value o i = elim o.row [
  | none ↦ invalid
  | some row ↦ elim (get_elem? row i) [ none ↦ invalid | some v ↦ returned v ]
]

abbrev pub map_outcome : {A B : Type 0} → (A → B) → Outcome A → Outcome B
map_outcome f (returned a) = returned (f a)
map_outcome f (Outcome.thrown e) = Outcome.thrown e
map_outcome f invalid = invalid
map_outcome f Outcome.no_fuel = Outcome.no_fuel

unfoldable pub get_field : ℤ → Session → Outcome (Found Text)
unfolding in_fields field_name
get_field i o = elim (in_fields i o) [
  | none ↦ returned (record { code = 0; value = none })
  | some n ↦ map_outcome (λ name. record { code = 1; value = some name }) (field_name o n)
]

-- `GetFieldValue(int, char *&)`.
unfoldable pub get_field_value_at : ℤ → Session → Outcome (Found Text)
unfolding in_fields row_value
get_field_value_at i o = elim (in_fields i o) [
  | none ↦ returned (record { code = 0; value = none })
  | some n ↦ map_outcome (λ v. record { code = 1; value = v }) (row_value o n)
]

-- `strcmp(a, b) == 0`.
unfoldable pub equal_text : Text → Text → Bool
equal_text [] [] = true
equal_text [] (d ∷ t) = false
equal_text (c ∷ s) [] = false
equal_text (c ∷ s) (d ∷ t) = elim (c == d) [ true ↦ equal_text s t | false ↦ false ]

-- The loop over `m_nFields`, from the index `i` with `n` rounds left: the index of the first name
-- that is `field`. Past the names that there are, the code reads outside the array.
unfoldable pub find_name : Text → List Text → ℕ → ℕ → Outcome (Option ℕ)
unfolding equal_text
find_name field names zero i = returned none
find_name field [] (suc n) i = invalid
find_name field (name ∷ names) (suc n) i = elim (equal_text field name) [
  | true ↦ returned (some i)
  | false ↦ find_name field names n (i + 1)
]

abbrev pub then_value : Session → Outcome (Option ℕ) → Outcome (Found Text)
then_value o (returned none) = returned (record { code = 0; value = none })
then_value o (returned (some i)) = map_outcome (λ v. record { code = 1; value = v }) (row_value o i)
then_value o (Outcome.thrown e) = Outcome.thrown e
then_value o invalid = invalid
then_value o Outcome.no_fuel = Outcome.no_fuel

-- `GetFieldValue(const char *, char *&)`: where `m_pFields` is null it finds nothing.
unfoldable pub get_field_value : Text → Session → Outcome (Found Text)
unfolding find_name row_value
get_field_value field o = elim o.fields [
  | none ↦ returned (record { code = 0; value = none })
  | some names ↦ then_value o (find_name field names o.n_fields 0)
]

-- The overloads for numbers: the argument is set where the value is there and not null.
unfoldable pub get_field_value_int : Text → Session → Outcome (Found ℤ)
unfolding get_field_value
get_field_value_int field o =
    map_outcome (λ f. record { code = f.code; value = Option.map atoi f.value })
      (get_field_value field o)

-- The overload for an index and a `CString`, whose value before is `old`.
unfoldable pub get_field_value_text : ℤ → Text → Session → Outcome (ℕ × Text)
unfolding get_field_value_at
get_field_value_text i old o =
    map_outcome (λ f. (f.code, elim f.value [ none ↦ old | some v ↦ v ])) (get_field_value_at i o)

-- `GetFieldValue(const char *, CString &)`: `to_wide` is `MultiByteToWideChar`, which the code calls
-- with a null pointer too.
unfoldable pub get_field_value_string :
    (Option Text → List ℕ) → Text → Session → Outcome (Found (List ℕ))
unfolding get_field_value
get_field_value_string to_wide field o =
    map_outcome
      (λ f. record { code = f.code; value = if f.code == 1 then some (to_wide f.value) else none })
      (get_field_value field o)

-- `atof` is a parameter, and so is the type of its results.
unfoldable pub get_field_value_double :
    {Double : Type 0} → (Text → Double) → Text → Session → Outcome (Found Double)
unfolding get_field_value
get_field_value_double atof field o =
    map_outcome (λ f. record { code = f.code; value = Option.map atof f.value })
      (get_field_value field o)

-- The overloads for a wide name convert it to UTF-8.
unfoldable pub get_field_value_int_wide : Client → List ℕ → Session → Outcome (Found ℤ)
unfolding get_field_value_int
get_field_value_int_wide c field o = get_field_value_int (c.to_utf8 field) o

unfoldable pub get_field_value_double_wide :
    {Double : Type 0} → Client → (Text → Double) → List ℕ → Session → Outcome (Found Double)
unfolding get_field_value_double
get_field_value_double_wide c atof field o = get_field_value_double atof (c.to_utf8 field) o

unfoldable pub get_field_value_string_wide :
    Client → (Option Text → List ℕ) → List ℕ → Session → Outcome (Found (List ℕ))
unfolding get_field_value_string
get_field_value_string_wide c to_wide field o = get_field_value_string to_wide (c.to_utf8 field) o
