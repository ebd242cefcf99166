-- ===== src/Mysql/Names.antt =====
-- Values by name: `GetFieldValue` with a name against `GetFieldValue` with an index.
use test.Prelude.{
  ℕ, zero, suc, ◌+◌, ◌≤◌, ◌<◌, ◌≡◌, ◌≢◌, ◌∙◌, refl, sym, ap, inl, inr, arith, true, false,
  false≢true, none, some, List, [], ◌∷◌,
}
use test.Prelude.Tests.{◌==◌, Bool-cases, ==→≡, lt→ltb}
use test.Prelude.Lists.{length, get_elem?}
use test.Prelude.Int.{pos}
use test.Mysql.Client.{Text}
use test.Mysql.Session.{Session, Outcome, returned}
use test.Mysql.Fields
use test.Mysql.Fields.{Found, then_value}

equal_text_self : (s : Text) → Fields.equal_text s s ≡ true
unfolding Fields.equal_text
equal_text_self [] = refl
equal_text_self (c ∷ s) =
    let same : (c == c) ≡ true = ground arith in rw (Fields.equal_text, same) (equal_text_self s)

equal_text-≡ : (s t : Text) → Fields.equal_text s t ≡ true → s ≡ t
unfolding Fields.equal_text
equal_text-≡ [] [] e = refl
equal_text-≡ [] (d ∷ t) e = cc
equal_text-≡ (c ∷ s) [] e = cc
equal_text-≡ (c ∷ s) (d ∷ t) e = elim (Bool-cases (c == d)) [
  | inl same ↦
      let rest = equal_text-≡ s t (rw (Fields.equal_text, same) at e) in
      let first = ==→≡ c d same in cc
  | inr other ↦ absurd (false≢true (rw (Fields.equal_text, other) at e))
]

-- The field with index `k` has the name, and none before it.
abbrev pub IsFirst : Text → List Text → ℕ → Type 0
IsFirst field names k =
    (get_elem? names k ≡ some field) × ((j : ℕ) → j < k → get_elem? names j ≢ some field)

unequal_text : (s t : Text) → s ≢ t → Fields.equal_text s t ≡ false
unequal_text s t ne = elim (Bool-cases (Fields.equal_text s t)) [
  | inl e ↦ absurd (ne (equal_text-≡ s t e))
  | inr e ↦ e
]

some_injective : (s t : Text) → some s ≡ some t → s ≡ t
some_injective s t e = cc

find_first :
    (field : Text) (names : List Text) (n i k j : ℕ)
    → k < n
    → j ≡ i + k
    → IsFirst field names k
    → Fields.find_name field names n i ≡ returned (some j)
unfolding Fields.find_name
find_first field names zero i k j lt at_j first = absurd (omega arith)
find_first field [] (suc n) i k j lt at_j first = absurd (cc)
find_first field (name ∷ names) (suc n) i zero j lt at_j (e, before) =
    let same : Fields.equal_text field name ≡ true =
      ap (Fields.equal_text field) (some_injective name field e) ∙ equal_text_self field in
    rw (Fields.find_name, same) (ap (λ j. returned (some j)) (omega arith))
find_first field (name ∷ names) (suc n) i (suc k) j lt at_j (e, before) =
    let other : Fields.equal_text field name ≡ false =
      unequal_text field name (λ same. before 0 (omega arith) (ap some (sym same))) in
    rw (Fields.find_name, other)
      (find_first field names n (i + 1) k j (omega arith) (omega arith)
        (e, λ j h. before (suc j) (omega arith)))

-- No name is the one looked for.
find_none :
    (field : Text) (names : List Text) (n i : ℕ)
    → n ≤ length names
    → ((j : ℕ) → j < n → get_elem? names j ≢ some field)
    → Fields.find_name field names n i ≡ returned none
unfolding Fields.find_name
find_none field names zero i le ne = refl
find_none field [] (suc n) i le ne = absurd (omega arith)
find_none field (name ∷ names) (suc n) i le ne =
    let other : Fields.equal_text field name ≡ false =
      unequal_text field name (λ same. ne 0 (omega arith) (ap some (sym same))) in
    rw (Fields.find_name, other)
      (find_none field names n (i + 1) (omega arith) (λ j h. ne (suc j) (omega arith)))

module _ (o : Session) (field : Text) (names : List Text) (e : o.fields ≡ some names) where
  by_name :
      Fields.get_field_value field o ≡ then_value o (Fields.find_name field names o.n_fields 0)
  unfolding Fields.get_field_value
  by_name =
      ap
        (λ fields. elim fields as (λ _. Outcome (Found Text)) [
          | none ↦ returned (record { code = 0; value = none })
          | some names ↦ then_value o (Fields.find_name field names o.n_fields 0)
        ])
        e

  by_index :
      (k : ℕ)
      → k < o.n_fields
      → Fields.get_field_value_at (pos k) o ≡ then_value o (returned (some k))
  unfolding Fields.get_field_value_at Fields.in_fields
  by_index k lt = rw (Fields.get_field_value_at, Fields.in_fields, lt→ltb k o.n_fields lt)

  -- On a session with fields, GetFieldValue with a name is GetFieldValue with the index of the first
  -- field of this name, below the count of the fields: what is returned, the value that is stored,
  -- and a read through a null pointer or past the row.
  pub get_field_value-get_field_value_at :
      (k : ℕ)
      → k < o.n_fields
      → IsFirst field names k
      → Fields.get_field_value field o ≡ Fields.get_field_value_at (pos k) o
  get_field_value-get_field_value_at k lt first =
      by_name
      ∙ ap (then_value o) (find_first field names o.n_fields 0 k k lt (omega arith) first)
      ∙ sym (by_index k lt)

  -- On a session with fields, whose count is not above the number of their names, GetFieldValue with
  -- a name that none of them has returns 0, stores a null pointer and does not read the row.
  pub get_field_value_missing :
      o.n_fields ≤ length names
      → ((j : ℕ) → j < o.n_fields → get_elem? names j ≢ some field)
      → Fields.get_field_value field o ≡ returned (record { code = 0; value = none })
  get_field_value_missing le ne =
      by_name ∙ ap (then_value o) (find_none field names o.n_fields 0 le ne)
