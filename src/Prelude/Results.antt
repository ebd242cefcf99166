-- ===== src/Prelude/Results.antt =====
-- Code that can fault: its result, the bind for `do` blocks, counted loops, and the rules of
-- total correctness for both.
use Prim.Native.Nat.{ℕ, zero, suc, ◌+◌, ◌<◌}
use mathlib.Core.Path.{◌≡◌, refl, sym, subst}
use mathlib.Core.List.{List, [], ◌∷◌}
use native.Mathlib.Omega.{arith}
use test.Prelude.Lists.{length, get_or}

-- `out_of_range` is the exception of `std::vector::at`; `array_overflow` an access outside a C
-- array; `bad_index` an index outside a `CString`; `empty_back` a call of `back` on an empty
-- vector; `uninitialised` a read of a local that no branch has set. `no_draw` and `no_fuel` are of
-- the model: the list of random draws, or the bound on a loop, is used up.
pub data Fault : Type 0 where
  out_of_range array_overflow bad_index empty_back uninitialised no_draw no_fuel : Fault

pub data Result {ℓ} (A : Type ℓ) : Type ℓ where
  ok : A → Result A
  err : Fault → Result A

infixl 5 ◌>>=◌
abbrev pub ◌>>=◌ {ℓ κ} : {A : Type ℓ} {B : Type κ} → Result A → (A → Result B) → Result B
ok a >>= f = f a
err e >>= f = err e

pub ok_injective {ℓ} : {A : Type ℓ} (a b : A) → ok a ≡ ok b → a ≡ b
ok_injective a b e = cc

-- `m_v.at(i)`.
abbrev pub at {ℓ} : {A : Type ℓ} → List A → ℕ → Result A
at [] i = err out_of_range
at (x ∷ xs) zero = ok x
at (x ∷ xs) (suc i) = at xs i

-- `m_v.back()`.
abbrev pub back {ℓ} : {A : Type ℓ} → List A → Result A
back [] = err empty_back
back (x ∷ []) = ok x
back (x ∷ y ∷ xs) = back (y ∷ xs)

-- `for (k = i; k < i + n; k++) s = body(k, s);`
unfoldable pub for_range {ℓ} : {S : Type ℓ} → ℕ → ℕ → (ℕ → S → Result S) → S → Result S
for_range zero i body s = ok s
for_range (suc n) i body s = body i s >>= for_range n (i + 1) body

-- The code returns, and its value satisfies `P`.
abbrev pub Returns {ℓ} : {A : Type ℓ} → (A → Type 0) → Result A → Type 0
Returns P (ok a) = P a
Returns P (err e) = ⊥

pub Returns-value {ℓ} :
    {A : Type ℓ} (P : A → Type 0) (r : Result A) → Returns P r → (a : A) × (r ≡ ok a) × P a
Returns-value P (ok a) h = (a, refl, h)
Returns-value P (err e) h = elim h [ ]

pub Returns-intro {ℓ} :
    {A : Type ℓ} (P : A → Type 0) (r : Result A) (a : A) → r ≡ ok a → P a → Returns P r
Returns-intro P r a e h = subst (Returns P) (sym e) h

pub Returns-weaken {ℓ} :
    {A : Type ℓ} (P : A → Type 0) (Q : A → Type 0) (r : Result A)
    → ((a : A) → P a → Q a)
    → Returns P r
    → Returns Q r
Returns-weaken P Q (ok a) f h = f a h
Returns-weaken P Q (err e) f h = elim h [ ]

pub Returns->>= {ℓ κ} :
    {A : Type ℓ} {B : Type κ} (P : A → Type 0) (Q : B → Type 0) (m : Result A) (f : A → Result B)
    → Returns P m
    → ((a : A) → P a → Returns Q (f a))
    → Returns Q (m >>= f)
Returns->>= P Q (ok a) f h k = k a h
Returns->>= P Q (err e) f h k = elim h [ ]

-- The invariant rule of the counted loop: it returns if every round does.
pub Returns-for_range {ℓ} :
    {S : Type ℓ} (P : ℕ → S → Type 0) (body : ℕ → S → Result S) (hi : ℕ)
    → ((i : ℕ) (s : S) → i < hi → P i s → Returns (P (i + 1)) (body i s))
    → (n i : ℕ) (s : S) → i + n ≡ hi
    → P i s
    → Returns (P hi) (for_range n i body s)
unfolding for_range
Returns-for_range P body hi step zero i s e h = let e' : i ≡ hi = omega arith in rw (← e') h
Returns-for_range P body hi step (suc n) i s e h =
    Returns->>= (P (i + 1)) (P hi) (body i s) (for_range n (i + 1) body) (step i s (omega arith) h)
      (λ s' h'. Returns-for_range P body hi step n (i + 1) s' (omega arith) h')

-- The code returns with such a value, or the draws are used up and `X` holds; nothing else stops it.
abbrev pub PlaysOr {ℓ} : {A : Type ℓ} → Type 0 → (A → Type 0) → Result A → Type 0
PlaysOr X P (ok a) = P a
PlaysOr X P (err no_draw) = X
PlaysOr X P (err out_of_range) = ⊥
PlaysOr X P (err array_overflow) = ⊥
PlaysOr X P (err bad_index) = ⊥
PlaysOr X P (err empty_back) = ⊥
PlaysOr X P (err uninitialised) = ⊥
PlaysOr X P (err no_fuel) = ⊥

-- The code returns with such a value, or the draws are used up.
abbrev pub Plays {ℓ} : {A : Type ℓ} → (A → Type 0) → Result A → Type 0
Plays P r = PlaysOr (Unit {0}) P r

module _ (X : Type 0) where
  pub PlaysOr-intro {ℓ} :
      {A : Type ℓ} (P : A → Type 0) (r : Result A) (a : A) → r ≡ ok a → P a → PlaysOr X P r
  PlaysOr-intro P r a e h = subst (PlaysOr X P) (sym e) h

  pub PlaysOr-weaken {ℓ} :
      {A : Type ℓ} (P : A → Type 0) (Q : A → Type 0) (r : Result A)
      → ((a : A) → P a → Q a)
      → PlaysOr X P r
      → PlaysOr X Q r
  PlaysOr-weaken P Q (ok a) f h = f a h
  PlaysOr-weaken P Q (err no_draw) f h = h
  PlaysOr-weaken P Q (err out_of_range) f h = h
  PlaysOr-weaken P Q (err array_overflow) f h = h
  PlaysOr-weaken P Q (err bad_index) f h = h
  PlaysOr-weaken P Q (err empty_back) f h = h
  PlaysOr-weaken P Q (err uninitialised) f h = h
  PlaysOr-weaken P Q (err no_fuel) f h = h

  PlaysOr-err {ℓ κ} :
      {A : Type ℓ} {B : Type κ} (P : A → Type 0) (Q : B → Type 0) (e : Fault)
      → PlaysOr X P (err e)
      → PlaysOr X Q (err e)
  PlaysOr-err P Q no_draw h = h
  PlaysOr-err P Q out_of_range h = h
  PlaysOr-err P Q array_overflow h = h
  PlaysOr-err P Q bad_index h = h
  PlaysOr-err P Q empty_back h = h
  PlaysOr-err P Q uninitialised h = h
  PlaysOr-err P Q no_fuel h = h

  pub PlaysOr->>= {ℓ κ} :
      {A : Type ℓ} {B : Type κ} (P : A → Type 0) (Q : B → Type 0) (m : Result A) (f : A → Result B)
      → PlaysOr X P m
      → ((a : A) → P a → PlaysOr X Q (f a))
      → PlaysOr X Q (m >>= f)
  PlaysOr->>= P Q (ok a) f h k = k a h
  PlaysOr->>= P Q (err e) f h k = PlaysOr-err P Q e h

  -- The invariant rule of the counted loop, for an invariant with the rounds that are left.
  pub PlaysOr-for_range {ℓ} :
      {S : Type ℓ} (P : ℕ → S → Type 0) (body : ℕ → S → Result S)
      → ((n i : ℕ) (s : S) → P (suc n) s → PlaysOr X (P n) (body i s))
      → (n i : ℕ) (s : S) → P n s
      → PlaysOr X (P 0) (for_range n i body s)
  unfolding for_range
  PlaysOr-for_range P body step zero i s h = h
  PlaysOr-for_range P body step (suc n) i s h =
      PlaysOr->>= (P n) (P 0) (body i s) (for_range n (i + 1) body) (step n i s h)
        (λ s' h'. PlaysOr-for_range P body step n (i + 1) s' h')

-- If the draws cannot be used up, the code returns.
pub PlaysOr-Returns {ℓ} : {A : Type ℓ} (P : A → Type 0) (r : Result A) → PlaysOr ⊥ P r → Returns P r
PlaysOr-Returns P (ok a) h = h
PlaysOr-Returns P (err no_draw) h = h
PlaysOr-Returns P (err out_of_range) h = h
PlaysOr-Returns P (err array_overflow) h = h
PlaysOr-Returns P (err bad_index) h = h
PlaysOr-Returns P (err empty_back) h = h
PlaysOr-Returns P (err uninitialised) h = h
PlaysOr-Returns P (err no_fuel) h = h

pub at-lt {ℓ} : {A : Type ℓ} (xs : List A) (i : ℕ) → i < length xs → (a : A) × (at xs i ≡ ok a)
at-lt [] i h = absurd (omega arith)
at-lt (x ∷ xs) zero h = (x, refl)
at-lt (x ∷ xs) (suc i) h = at-lt xs i (omega arith)

pub at-get_or {ℓ} :
    {A : Type ℓ} (xs : List A) (i : ℕ) (d : A) → i < length xs → at xs i ≡ ok (get_or xs i d)
at-get_or [] i d h = absurd (omega arith)
at-get_or (x ∷ xs) zero d h = refl
at-get_or (x ∷ xs) (suc i) d h = at-get_or xs i d (omega arith)

pub lt_of_at {ℓ} : {A : Type ℓ} (xs : List A) (i : ℕ) {a : A} → at xs i ≡ ok a → i < length xs
lt_of_at [] i h = cc
lt_of_at (x ∷ xs) zero h = omega arith
lt_of_at (x ∷ xs) (suc i) h = omega (arith, lt_of_at xs i h)
