-- ===== src/Prelude/Ascii.antt =====
-- The characters below 128, which conversions between the code pages leave as they are.
use Prim.Native.Nat.{ℕ, ◌^◌, ◌<◌}
use mathlib.Core.Path.{◌≡◌}
use mathlib.Core.Bool.{Bool, true, ◌&&◌}
use mathlib.Core.List.{List, [], ◌∷◌}
use native.Mathlib.Omega.{arith}
use test.Prelude.Tests.{ltb}

abbrev pub AreAscii : List ℕ → Type 0
AreAscii [] = Unit {0}
AreAscii (c ∷ s) = (c < 2 ^ 7) × AreAscii s

-- A test for it, for literals.
unfoldable pub are_ascii : List ℕ → Bool
are_ascii [] = true
are_ascii (c ∷ s) = ltb c 128 && are_ascii s

pub are_ascii_lem : (s : List ℕ) → are_ascii s ≡ true → AreAscii s
unfolding are_ascii
are_ascii_lem [] h = tt
are_ascii_lem (c ∷ s) h = (ground arith, are_ascii_lem s (rest (ltb c 128) h))
  where
    rest : (b : Bool) → (b && are_ascii s) ≡ true → are_ascii s ≡ true
    rest b h = ground arith
