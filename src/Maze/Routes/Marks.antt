-- ===== src/Maze/Routes/Marks.antt =====
-- The flags `m_vVisited`, and the erasure of routes by rising indices.
use test.Prelude.{ℕ, zero, suc, ◌+◌, ◌≤◌, ◌<◌, ◌≡◌, refl, ap, sym, subst, ◌∙◌, ◌⊎◌, inl, inr, arith}
use test.Prelude.{Bool, true, false, List, [], ◌∷◌, ◌++◌}
use test.Prelude.Lists.{
  length, set, erase_at, ◌∈◌, erase_at-append, lt-length-erase_at, mem-erase_at, tabulate,
}
use test.Prelude.Tests.{◌==◌}
use test.Prelude.Results.{ok, at}
use test.Maze.Routes
use test.Maze.Routes.Passage.{IsMarked}

pub at-IsMarked : (bs : List Bool) (c : ℕ) → at bs c ≡ ok true → IsMarked bs c
at-IsMarked [] c h = cc
at-IsMarked (b ∷ bs) zero h = cc
at-IsMarked (b ∷ bs) (suc c) h = at-IsMarked bs c h

pub at_unmarked : (bs : List Bool) (c : ℕ) → at bs c ≡ ok false → ¬ IsMarked bs c
at_unmarked [] c h m = cc
at_unmarked (b ∷ bs) zero h m = cc
at_unmarked (b ∷ bs) (suc c) h m = at_unmarked bs c h m

pub IsMarked-lt : (bs : List Bool) (c : ℕ) → IsMarked bs c → c < length bs
IsMarked-lt [] c h = cc
IsMarked-lt (b ∷ bs) zero h = omega arith
IsMarked-lt (b ∷ bs) (suc c) h = omega (arith, IsMarked-lt bs c h)

pub set-IsMarked : (bs : List Bool) (c : ℕ) → c < length bs → IsMarked (set bs c true) c
set-IsMarked [] c h = absurd (omega arith)
set-IsMarked (b ∷ bs) zero h = refl
set-IsMarked (b ∷ bs) (suc c) h = set-IsMarked bs c (omega arith)

pub set-keeps : (bs : List Bool) (c d : ℕ) → IsMarked bs d → IsMarked (set bs c true) d
set-keeps [] c d h = h
set-keeps (b ∷ bs) zero zero h = refl
set-keeps (b ∷ bs) (suc c) zero h = h
set-keeps (b ∷ bs) zero (suc d) h = h
set-keeps (b ∷ bs) (suc c) (suc d) h = set-keeps bs c d h

pub set-adds : (bs : List Bool) (c d : ℕ) → IsMarked (set bs c true) d → IsMarked bs d ⊎ (d ≡ c)
set-adds [] c d h = inl h
set-adds (b ∷ bs) zero zero h = inr refl
set-adds (b ∷ bs) (suc c) zero h = inl h
set-adds (b ∷ bs) zero (suc d) h = inl h
set-adds (b ∷ bs) (suc c) (suc d) h = elim (set-adds bs c d h) [
  | inl old ↦ inl old
  | inr e ↦ inr (ap suc e)
]

pub count_true-set :
    (bs : List Bool) (c : ℕ)
    → at bs c ≡ ok false
    → Routes.count_true (set bs c true) ≡ Routes.count_true bs + 1
count_true-set [] c h = cc
count_true-set (b ∷ bs) zero h = ground arith
count_true-set (b ∷ bs) (suc c) h = omega (arith, count_true-set bs c h)

pub count_true-le : (bs : List Bool) → Routes.count_true bs ≤ length bs
count_true-le [] = omega arith
count_true-le (true ∷ bs) = omega (arith, count_true-le bs)
count_true-le (false ∷ bs) = omega (arith, count_true-le bs)

pub count_true-full :
    (bs : List Bool) (c : ℕ) → Routes.count_true bs ≡ length bs → c < length bs → IsMarked bs c
count_true-full [] c e h = absurd (omega arith)
count_true-full (true ∷ bs) zero e h = refl
count_true-full (true ∷ bs) (suc c) e h = count_true-full bs c (omega arith) (omega arith)
count_true-full (false ∷ bs) c e h = absurd (omega (arith, count_true-le bs))

pub count_true_all :
    (bs : List Bool) → ((c : ℕ) → c < length bs → IsMarked bs c) → Routes.count_true bs ≡ length bs
count_true_all [] h = refl
count_true_all (b ∷ bs) h =
    let first : b ≡ true = h 0 (omega arith) in
    let rest = count_true_all bs (λ c lt. h (suc c) (omega arith)) in ground arith

-- The flags at the start of the search.
pub tabulate-IsMarked : (n i e d : ℕ) → IsMarked (tabulate n i (λ k. k == e)) d → i + d ≡ e
tabulate-IsMarked zero i e d h = cc
tabulate-IsMarked (suc n) i e zero h = ground arith
tabulate-IsMarked (suc n) i e (suc d) h = omega (arith, tabulate-IsMarked n (i + 1) e d h)

pub IsMarked-tabulate : (n i e d : ℕ) → d < n → i + d ≡ e → IsMarked (tabulate n i (λ k. k == e)) d
IsMarked-tabulate zero i e d h k = absurd (omega arith)
IsMarked-tabulate (suc n) i e zero h k = ground arith
IsMarked-tabulate (suc n) i e (suc d) h k =
    IsMarked-tabulate n (i + 1) e d (omega arith) (omega arith)

-- Indices from `lo` to below `hi`, each above the one before.
abbrev pub IsRising : ℕ → ℕ → List ℕ → Type 0
IsRising lo hi [] = Unit {0}
IsRising lo hi (x ∷ xs) = (lo ≤ x) × (x < hi) × IsRising (x + 1) hi xs

pub IsRising-snoc :
    (lo hi : ℕ) (xs : List ℕ) → lo ≤ hi → IsRising lo hi xs → IsRising lo (hi + 1) (xs ++ hi ∷ [])
IsRising-snoc lo hi [] h r = (h, omega arith, tt)
IsRising-snoc lo hi (x ∷ xs) h (a, b, r) =
    (a, omega arith, IsRising-snoc (x + 1) hi xs (omega arith) r)

pub IsRising-mono : (lo hi : ℕ) (xs : List ℕ) → IsRising lo hi xs → IsRising lo (hi + 1) xs
IsRising-mono lo hi [] r = tt
IsRising-mono lo hi (x ∷ xs) (a, b, r) = (a, omega arith, IsRising-mono (x + 1) hi xs r)

module _ {A : Type 0} where
  abbrev remove : List ℕ → List A → List A
  remove [] xs = xs
  remove (i ∷ is) xs = erase_at (remove is xs) i

  lt-length-remove :
      (xs : List A) (is : List ℕ) (i hi : ℕ)
      → i < length xs
      → IsRising (i + 1) hi is
      → i < length (remove is xs)
  lt-length-remove xs [] i hi h r = h
  lt-length-remove xs (j ∷ is) i hi h (a, b, r) =
      lt-length-erase_at (remove is xs) i j (lt-length-remove xs is i hi h (weaken is r))
        (omega arith)
    where
      weaken : (is : List ℕ) → IsRising (j + 1) hi is → IsRising (i + 1) hi is
      weaken [] t = tt
      weaken (k ∷ ks) (p, q, t) = (omega arith, q, t)

  remove-append :
      (xs ys : List A) (lo : ℕ) (is : List ℕ)
      → IsRising lo (length xs) is
      → remove is (xs ++ ys) ≡ remove is xs ++ ys
  remove-append xs ys lo [] r = refl
  remove-append xs ys lo (i ∷ is) (a, b, r) =
      ap (λ t. erase_at t i) (remove-append xs ys (i + 1) is r)
      ∙ erase_at-append (remove is xs) ys i (lt-length-remove xs is i (length xs) b r)

  mem-remove : (a : A) (xs : List A) (is : List ℕ) → a ∈ remove is xs → a ∈ xs
  mem-remove a xs [] m = m
  mem-remove a xs (i ∷ is) m = mem-remove a xs is (mem-erase_at a (remove is xs) i m)

erase_routes-eq-remove :
    (is : List ℕ) (rs : List (List ℕ)) → Routes.erase_routes is rs ≡ remove is rs
unfolding Routes.erase_routes
erase_routes-eq-remove [] rs = refl
erase_routes-eq-remove (i ∷ is) rs = ap (λ t. erase_at t i) (erase_routes-eq-remove is rs)

-- The erasures of a round take routes of its start, and leave those that it appended.
pub erase_routes-append :
    (is : List ℕ) (xs ys : List (List ℕ))
    → IsRising 0 (length xs) is
    → Routes.erase_routes is (xs ++ ys) ≡ Routes.erase_routes is xs ++ ys
erase_routes-append is xs ys r =
    erase_routes-eq-remove is (xs ++ ys)
    ∙ remove-append xs ys 0 is r
    ∙ ap (λ t. t ++ ys) (sym (erase_routes-eq-remove is xs))

pub mem-erase_routes :
    (r : List ℕ) (is : List ℕ) (rs : List (List ℕ)) → r ∈ Routes.erase_routes is rs → r ∈ rs
mem-erase_routes r is rs m =
    mem-remove r rs is (subst (λ t. r ∈ t) (erase_routes-eq-remove is rs) m)
