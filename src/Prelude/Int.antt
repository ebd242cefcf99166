-- ===== src/Prelude/Int.antt =====
-- The `int` values that may be negative: a neighbour that does not exist, and a counter.
use Prim.Native.Nat.{ℕ, zero, suc, ◌+◌}
use mathlib.Core.Path.{◌≡◌}
use mathlib.Core.Logic.{◌≢◌}
use mathlib.Core.List.{List}
use test.Prelude.Results.{Result, err, at, out_of_range}

-- `negsuc n` is -(n + 1).
pub data ℤ : Type 0 where
  pos : ℕ → ℤ
  negsuc : ℕ → ℤ

-- `i++` and `i--`.
abbrev pub increment : ℤ → ℤ
increment (pos n) = pos (n + 1)
increment (negsuc zero) = pos 0
increment (negsuc (suc n)) = negsuc n

abbrev pub decrement : ℤ → ℤ
decrement (pos zero) = negsuc 0
decrement (pos (suc n)) = pos n
decrement (negsuc n) = negsuc (n + 1)

-- `m_v.at(i)` with an `int`: a negative index is converted to a huge `size_t`.
abbrev pub at_int {ℓ} : {A : Type ℓ} → List A → ℤ → Result A
at_int xs (pos n) = at xs n
at_int xs (negsuc n) = err out_of_range

pub pos_injective : (a b : ℕ) → pos a ≡ pos b → a ≡ b
pos_injective a b e = cc

-- A number is not negative.
pub negsuc-ne-pos : (n a : ℕ) → negsuc n ≢ pos a
negsuc-ne-pos n a e = cc
