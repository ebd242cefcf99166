-- ===== src/Mysql/Pairs.antt =====
-- Connection strings: `SetConnectionString` reads the pairs that a string spells.
use test.Prelude.{
  ℕ, zero, suc, ◌≤◌, ◌<◌, ◌≡◌, ◌≢◌, ◌∙◌, refl, ap, arith, true, false, none, some, List, [], ◌∷◌,
  ◌++◌,
}
use test.Prelude.Tests.{◌==◌}
use test.Prelude.Lists.{length, length-append}
use test.Mysql.Client.{Text}
use test.Mysql.Session.{Session}
use test.Mysql.Settings
use test.Mysql.Settings.{Pair, Span, fits, apply_pairs}

-- The byte does not stand in the text.
abbrev pub IsWithout : ℕ → Text → Type 0
IsWithout c [] = Unit {0}
IsWithout c (d ∷ t) = (d ≢ c) × IsWithout c t

-- A pair that a connection string can spell: its name has no `=` and no `;`, its value no `;`, and
-- both fit the buffers.
pub record IsPair (p : Pair) : Type 0 where
  pub no_equals : IsWithout b'=' p.parameter
  pub no_semicolon : IsWithout b';' p.parameter
  pub value_whole : IsWithout b';' p.value
  pub name_fits : fits p.parameter ≡ true
  pub value_fits : fits p.value ≡ true

abbrev pub ArePairs : List Pair → Type 0
ArePairs [] = Unit {0}
ArePairs (p ∷ ps) = IsPair p × ArePairs ps

-- The string of the pairs, `name=value` with semicolons between them.
abbrev following : List Pair → Text
following [] = []
following (p ∷ ps) = b';' ∷ (p.parameter ++ b'=' ∷ (p.value ++ following ps))

abbrev pub spell : List Pair → Text
spell [] = []
spell (p ∷ ps) = p.parameter ++ b'=' ∷ (p.value ++ following ps)

-- The text ends here, or goes on with the byte.
abbrev Stops : ℕ → Text → Type 0
Stops c [] = Unit {0}
Stops c (d ∷ t) = d ≡ c

span_end :
    (c : ℕ) (rest : Text) → Stops c rest → Settings.span c rest ≡ record { taken = []; rest = rest }
unfolding Settings.span
span_end c [] h = refl
span_end c (d ∷ rest) h = let same : (d == c) ≡ true = ground arith in rw (Settings.span, same) refl

span_lem :
    (c : ℕ) (t rest : Text)
    → IsWithout c t
    → Stops c rest
    → Settings.span c (t ++ rest) ≡ record { taken = t; rest = rest }
unfolding Settings.span
span_lem c [] rest h stops = span_end c rest stops
span_lem c (d ∷ t) rest (ne, h) stops =
    let other : (d == c) ≡ false = ground arith in
    let more = span_lem c t rest h stops in
    rw (Settings.span, other)
      (ap (λ (s : Span). record { taken = d ∷ s.taken; rest = s.rest }) more)

following-Stops : (ps : List Pair) → Stops b';' (following ps)
following-Stops [] = tt
following-Stops (p ∷ ps) = refl

scan_pair_lem :
    (p : Pair) (ps : List Pair) → IsPair p → Settings.scan_pair (spell (p ∷ ps)) ≡ some p
unfolding Settings.scan_pair Settings.scan_value
scan_pair_lem p ps h =
    let e1 = span_lem b'=' p.parameter (b'=' ∷ (p.value ++ following ps)) h.no_equals refl in
    let e2 = span_lem b';' p.value (following ps) h.value_whole (following-Stops ps) in
    rw (e1, h.name_fits, e2, h.value_fits) refl

skip_text :
    (t rest : Text)
    → IsWithout b';' t
    → Settings.after_semicolon (t ++ rest) ≡ Settings.after_semicolon rest
unfolding Settings.after_semicolon
skip_text [] rest h = refl
skip_text (d ∷ t) rest (ne, h) =
    let other : (d == b';') ≡ false = ground arith in
    rw (Settings.after_semicolon, other) (skip_text t rest h)

after_pair :
    (p : Pair) (rest : Text)
    → IsPair p
    → Settings.after_semicolon (p.parameter ++ b'=' ∷ (p.value ++ rest))
      ≡ Settings.after_semicolon rest
unfolding Settings.after_semicolon
after_pair p rest h =
    skip_text p.parameter (b'=' ∷ (p.value ++ rest)) h.no_semicolon
    ∙ skip_text p.value rest h.value_whole

read_next :
    (fuel : ℕ) (p : Pair) (ps : List Pair)
    → IsPair p
    → Settings.read_pairs (suc fuel) (spell (p ∷ ps))
      ≡ p ∷ elim (Settings.after_semicolon (following ps)) as (λ _. List Pair) [
        | none ↦ []
        | some s' ↦ Settings.read_pairs fuel s'
      ]
unfolding Settings.read_pairs
read_next fuel p ps h =
    rw (Settings.read_pairs, scan_pair_lem p ps h, after_pair p (following ps) h) refl

read_pairs_lem :
    (fuel : ℕ) (ps : List Pair)
    → length ps < fuel
    → ArePairs ps
    → Settings.read_pairs fuel (spell ps) ≡ ps
unfolding Settings.read_pairs Settings.scan_pair Settings.after_semicolon Settings.span
read_pairs_lem zero ps lt h = absurd (omega arith)
read_pairs_lem (suc fuel) [] lt h = refl
read_pairs_lem (suc fuel) (p ∷ []) lt (h, _) = read_next fuel p [] h
read_pairs_lem (suc fuel) (p ∷ q ∷ ps) lt (h, hs) =
    read_next fuel p (q ∷ ps) h ∙ ap (λ l. p ∷ l) (read_pairs_lem fuel (q ∷ ps) (omega arith) hs)

length-following : (ps : List Pair) → length ps ≤ length (following ps)
length-following [] = omega arith
length-following (p ∷ ps) = omega (
  arith,
  length-append p.parameter (b'=' ∷ (p.value ++ following ps)),
  length-append p.value (following ps),
  length-following ps,
)

length-spell : (ps : List Pair) → length ps ≤ length (spell ps)
length-spell [] = omega arith
length-spell (p ∷ ps) = omega (
  arith,
  length-append p.parameter (b'=' ∷ (p.value ++ following ps)),
  length-append p.value (following ps),
  length-following ps,
)

-- SetConnectionString, given a string that spells pairs as `name=value` with semicolons between
-- them, where no name has `=` or `;`, no value has `;`, and each has at least one byte and less than
-- 1024, applies all the pairs in their order and no others.
pub set_connection_string-spell :
    (ps : List Pair) (o : Session)
    → ArePairs ps
    → Settings.set_connection_string (spell ps) o ≡ apply_pairs ps o
unfolding Settings.set_connection_string
set_connection_string-spell ps o h =
    ap (λ l. apply_pairs l o)
      (read_pairs_lem (suc (length (spell ps))) ps (omega (arith, length-spell ps)) h)
