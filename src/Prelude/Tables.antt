-- ===== src/Prelude/Tables.antt =====
-- Tables, row after row: the loops that fill them, and their entries.
use Prim.Native.Nat.{ℕ, zero, suc, ◌+◌, ◌*◌, ◌≤◌, ◌<◌}
use mathlib.Core.Path.{◌≡◌, sym, ap, ◌∙◌}
use mathlib.Core.List.{List, [], ◌∷◌, ◌++◌, append-nil, append_assoc}
use native.Mathlib.Omega.{arith}
use test.Prelude.Lists.{length, length-append, tabulate, length-tabulate}
use test.Prelude.Results.{Result, ok, at, for_range}
use test.Prelude.Loops.{at-append_left, at-append_right, at-tabulate}

module _ {A : Type 0} where
  -- The entries of `n` rows of `w` columns from row `y` on.
  abbrev pub table : (ℕ → ℕ → A) → ℕ → ℕ → ℕ → List A
  table v w zero y = []
  table v w (suc n) y = tabulate w 0 (λ x. v x y) ++ table v w n (y + 1)

  pub length-table : (v : ℕ → ℕ → A) (w n y : ℕ) → length (table v w n y) ≡ n * w
  length-table v w zero y = omega arith
  length-table v w (suc n) y = omega (
    arith,
    length-append (tabulate w 0 (λ x. v x y)) (table v w n (y + 1)),
    length-tabulate w 0 (λ x. v x y),
    length-table v w n (y + 1),
  )

  pub at-table :
      (v : ℕ → ℕ → A) (w n y x k r : ℕ)
      → x < w
      → k < n
      → r ≡ y + k
      → at (table v w n y) (k * w + x) ≡ ok (v x r)
  at-table v w zero y x k r hx hk e = absurd (omega arith)
  at-table v w (suc n) y x zero r hx hk e =
      let e' : r ≡ y = omega arith in
      let at_x : 0 * w + x ≡ x = omega arith in
      rw (e', at_x)
        (at-append_left _ _ x (omega (arith, length-tabulate w 0 (λ x. v x y)))
          ∙ at-tabulate w 0 x x (λ x. v x y) hx (omega arith))
  at-table v w (suc n) y x (suc k) r hx hk e =
      at-append_right (tabulate w 0 (λ x. v x y)) (table v w n (y + 1)) (k * w + x) _
        (omega (arith, length-tabulate w 0 (λ x. v x y)))
      ∙ at-table v w n (y + 1) x k r hx (omega arith) (omega arith)

  -- A loop that pushes one entry in each round.
  pub for_range-tabulate :
      (f : ℕ → A) (body : ℕ → List A → Result (List A)) (hi : ℕ)
      → ((x : ℕ) (acc : List A) → x < hi → body x acc ≡ ok (acc ++ f x ∷ []))
      → (n x : ℕ) (acc : List A) → x + n ≤ hi
      → for_range n x body acc ≡ ok (acc ++ tabulate n x f)
  unfolding for_range
  for_range-tabulate f body hi pushes zero x acc h = rw append-nil
  for_range-tabulate f body hi pushes (suc n) x acc h = rw (pushes x acc (omega arith)) (
      for_range-tabulate f body hi pushes n (x + 1) (acc ++ f x ∷ []) (omega arith)
      ∙ ap ok (append_assoc acc (f x ∷ []) _))

  -- A loop that pushes one row in each round.
  pub for_range-table :
      (v : ℕ → ℕ → A) (w : ℕ) (body : ℕ → List A → Result (List A)) (hi : ℕ)
      → ((y : ℕ) (acc : List A) → y < hi → body y acc ≡ ok (acc ++ tabulate w 0 (λ x. v x y)))
      → (n y : ℕ) (acc : List A) → y + n ≤ hi
      → for_range n y body acc ≡ ok (acc ++ table v w n y)
  unfolding for_range
  for_range-table v w body hi pushes zero y acc h = rw append-nil
  for_range-table v w body hi pushes (suc n) y acc h = rw (pushes y acc (omega arith)) (
      for_range-table v w body hi pushes n (y + 1) (acc ++ tabulate w 0 (λ x. v x y)) (omega arith)
      ∙ ap ok (append_assoc acc (tabulate w 0 (λ x. v x y)) (table v w n (y + 1))))

  -- One entry more at the end of a row.
  pub tabulate-snoc :
      (n i k : ℕ) (f g : ℕ → A) (a : A)
      → k ≡ i + n
      → ((x : ℕ) → x < k → f x ≡ g x)
      → g k ≡ a
      → tabulate n i f ++ a ∷ [] ≡ tabulate (suc n) i g
  tabulate-snoc zero i k f g a e same at_end =
      let e' : i ≡ k = omega arith in ap (λ b. b ∷ []) (sym at_end ∙ ap g (sym e'))
  tabulate-snoc (suc n) i k f g a e same at_end =
      rw (same i (omega arith))
        (ap (λ l. g i ∷ l) (tabulate-snoc n (i + 1) k f g a (omega arith) same at_end))
