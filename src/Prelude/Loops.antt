-- ===== src/Prelude/Loops.antt =====
-- Reads of vectors put together, and the loops that push one entry for each element of a vector.
use Prim.Native.Nat.{ℕ, zero, suc, ◌+◌, ◌<◌}
use mathlib.Core.Path.{◌≡◌, refl, sym, ap, ◌∙◌}
use mathlib.Core.Logic.{inl, inr}
use mathlib.Core.List.{List, [], ◌∷◌, ◌++◌, map, append-nil, append_assoc}
use native.Mathlib.Omega.{arith}
use test.Prelude.Lists.{length, length-append, tabulate, ◌∈◌}
use test.Prelude.Results.{Result, ok, at, for_range}

module _ {A : Type 0} where
  pub at-append_left : (xs ys : List A) (i : ℕ) → i < length xs → at (xs ++ ys) i ≡ at xs i
  at-append_left [] ys i h = absurd (omega arith)
  at-append_left (x ∷ xs) ys zero h = refl
  at-append_left (x ∷ xs) ys (suc i) h = at-append_left xs ys i (omega arith)

  pub at-append_right : (xs ys : List A) (i j : ℕ) → j ≡ length xs + i → at (xs ++ ys) j ≡ at ys i
  at-append_right [] ys i j e = let e' : j ≡ i = omega arith in rw e'
  at-append_right (x ∷ xs) ys i zero e = absurd (omega arith)
  at-append_right (x ∷ xs) ys i (suc j) e = at-append_right xs ys i j (omega arith)

  -- The entry of a table.
  pub at-tabulate : (n i k r : ℕ) (f : ℕ → A) → k < n → r ≡ i + k → at (tabulate n i f) k ≡ ok (f r)
  at-tabulate zero i k r f h e = absurd (omega arith)
  at-tabulate (suc n) i zero r f h e = let e' : r ≡ i = omega arith in rw e'
  at-tabulate (suc n) i (suc k) r f h e = at-tabulate n (i + 1) k r f (omega arith) (omega arith)

-- What stands at an index is an element.
pub at-mem : {A : Type 0} (xs : List A) (i : ℕ) (a : A) → at xs i ≡ ok a → a ∈ xs
at-mem [] i a e = cc
at-mem (x ∷ xs) zero a e = inl cc
at-mem (x ∷ xs) (suc i) a e = inr (at-mem xs i a e)

at-append : {A : Type 0} (pre post : List A) (a : A) → at (pre ++ a ∷ post) (length pre) ≡ ok a
at-append [] post a = refl
at-append (x ∷ pre) post a = at-append pre post a

module _ {A B : Type 0} (src : List A) (f : A → B) (body : ℕ → List B → Result (List B))
    (pushes : (i : ℕ) (a : A) (acc : List B)
      → at src i ≡ ok a
      → body i acc ≡ ok (acc ++ f a ∷ [])) where
  push_from :
      (post pre : List A) (n i : ℕ) (acc : List B)
      → src ≡ pre ++ post
      → n ≡ length post
      → i ≡ length pre
      → for_range n i body acc ≡ ok (acc ++ map f post)
  unfolding for_range
  push_from [] pre n i acc e en ei = rw (en, append-nil)
  push_from (a ∷ post) pre n i acc e en ei =
      rw
        (
          en,
          pushes i a acc (ap (λ t. at t i) e ∙ ap (at (pre ++ a ∷ post)) ei ∙ at-append pre post a),
        )
        (push_from post (pre ++ a ∷ []) (length post) (i + 1) (acc ++ f a ∷ [])
            (e ∙ sym (append_assoc pre (a ∷ []) post)) refl
            (omega (arith, length-append pre (a ∷ [])))
          ∙ ap ok (append_assoc acc (f a ∷ []) (map f post)))

  -- The loop over all elements is `map`.
  pub for_range-eq-map : (n : ℕ) → n ≡ length src → for_range n 0 body [] ≡ ok (map f src)
  for_range-eq-map n e = push_from src [] n 0 [] refl e refl
