-- ===== src/Maze/Visual/Problems.antt =====
-- `updateIntersections`: the posts without walls, and the whole method.
use test.Prelude.{ℕ, ◌+◌, ◌-◌, ◌*◌, ◌/◌, ◌%◌, ◌≤◌, ◌<◌, ◌≡◌, ◌↔◌, ◌⊎◌, refl}
use test.Prelude.{ap, sym, ◌∙◌, subst, inl, inr, arith}
use test.Prelude.{◌&&◌, List, [], ◌∷◌, ◌++◌}
use test.Prelude.Tests.{leb, ◌==◌, Bool-cases, ==→≡}
use test.Prelude.Lists.{length, length-append, ◌∈◌, mem-append, mem-append_left, mem-append_right}
use test.Prelude.Loops.{at-append_left, at-append_right, at-mem}
use test.Prelude.Results.{ok_injective, ok, at, at-lt, lt_of_at, Returns, Returns-value}
use test.Prelude.Results.{Returns-for_range, for_range}
use test.Maze.State.{Maze}
use test.Maze.Visual
use test.Maze.Visual.{Counts}
use native.Mathlib.Decide.{dec_lt}
use test.Maze.Visual.Posts.{walls_at, count_walls-walls_at}
use native.Mathlib.Nat.{mul-le-mul_right}
use test.Maze.Visual.Intersections.{IsPictured, Counted, push_row_lem}

module _ (m : Maze) (p : IsPictured m) where
  -- The posts without walls below the index `bound`: `c` is the cell up and to the left.
  abbrev pub HasBarePost : List ℕ → ℕ → ℕ → Type 0
  HasBarePost counts bound c =
      (k : ℕ) × (k < bound)
      × (at counts k ≡ ok 0)
      × (c + (m.width + 1) ≡ k / (m.width + 1) * m.width + k % (m.width + 1))

  abbrev Bare : List ℕ → ℕ → List ℕ → Type 0
  Bare counts bound problems = (c : ℕ) → (c ∈ problems) ↔ HasBarePost counts bound c

  -- The problems stand in the order of their posts.
  abbrev Ordered : List ℕ → ℕ → List ℕ → Type 0
  Ordered counts bound problems =
      (i j a b : ℕ)
      → i < j
      → at problems i ≡ ok a
      → at problems j ≡ ok b
      → (k : ℕ) × (k' : ℕ) × (k < k')
        × (k' < bound)
        × (at counts k ≡ ok 0)
        × (at counts k' ≡ ok 0)
        × (a + (m.width + 1) ≡ k / (m.width + 1) * m.width + k % (m.width + 1))
        × (b + (m.width + 1) ≡ k' / (m.width + 1) * m.width + k' % (m.width + 1))

  Ordered-next :
      (counts : List ℕ) (k : ℕ) (acc : List ℕ) → Ordered counts k acc → Ordered counts (k + 1) acc
  Ordered-next counts k acc o i j a b lt ei ej =
      let (p, q, less, below, zp, zq, ep, eq) = o i j a b lt ei ej in
      (p, q, less, omega arith, zp, zq, ep, eq)

  Ordered-push :
      (counts : List ℕ) (k c : ℕ) (acc : List ℕ)
      → at counts k ≡ ok 0
      → c + (m.width + 1) ≡ k / (m.width + 1) * m.width + k % (m.width + 1)
      → Bare counts k acc
      → Ordered counts k acc
      → Ordered counts (k + 1) (acc ++ c ∷ [])
  Ordered-push counts k c acc z e h o i j a b lt ei ej = elim (dec_lt j (length acc)) [
    | yes old ↦
        Ordered-next counts k acc o i j a b lt
          (sym (at-append_left acc (c ∷ []) i (omega arith)) ∙ ei)
          (sym (at-append_left acc (c ∷ []) j old) ∙ ej)
    | no new ↦
        let ej' : j ≡ length acc =
          omega (arith, lt_of_at (acc ++ c ∷ []) j ej, length-append acc (c ∷ [])) in
        let (p, below, zp, ep) =
          (h a).0 (at-mem acc i a (sym (at-append_left acc (c ∷ []) i (omega arith)) ∙ ei)) in
        let last : c ≡ b =
          ok_injective c b (sym (at-append_right acc (c ∷ []) 0 j (omega arith)) ∙ ej) in
        (p, k, below, omega arith, zp, z, ep, omega arith)
  ]

  abbrev Listed : List ℕ → ℕ → List ℕ → Type 0
  Listed counts bound problems = Bare counts bound problems × Ordered counts bound problems

  push_problem_lem :
      (counts : List ℕ) (k : ℕ) (acc : List ℕ)
      → k < length counts
      → Listed counts k acc
      → Returns (Listed counts (k + 1)) (Visual.push_problem m counts k acc)
  unfolding Visual.push_problem
  push_problem_lem counts k acc lt (h, o) =
      let (n, run) = at-lt counts k lt in
      let sum = k / (m.width + 1) * m.width + k % (m.width + 1) in
      elim (Bool-cases (n == 0 && leb (m.width + 1) sum)) [
        | inl bare ↦
            rw (run, bare)
              (
                λ c. (
                  λ q. elim (mem-append c acc ((sum - (m.width + 1)) ∷ []) q) [
                    | inl old ↦ let (j, hj, z, e) = (h c).0 old in (j, omega arith, z, e)
                    | inr (inl e) ↦ (k, omega arith, run ∙ ap ok (ground arith), ground arith)
                    | inr (inr none) ↦ absurd none
                  ],
                  λ (j, hj, zero_at, e). elim (Bool-cases (j == k)) [
                    | inl now ↦ mem-append_right c acc ((sum - (m.width + 1)) ∷ []) (
                        inl (
                          omega (
                            arith,
                            ap (λ j. j / (m.width + 1) * m.width + j % (m.width + 1))
                                (==→≡ j k now),
                          )))
                    | inr old ↦
                        mem-append_left c acc ((sum - (m.width + 1)) ∷ [])
                          ((h c).1 (j, ground arith, zero_at, e))
                  ],
                ),
                Ordered-push counts k (sum - (m.width + 1)) acc (run ∙ ap ok (ground arith))
                    (ground arith) h o,
              )
        | inr covered ↦
            rw (run, covered)
              (
                λ c. (
                  λ q. let (j, hj, z, e) = (h c).0 q in (j, omega arith, z, e),
                  λ (j, hj, zero_at, e). elim (Bool-cases (j == k)) [
                    | inl now ↦
                        let e' = ==→≡ j k now in
                        let none_at : n ≡ 0 =
                          ok_injective n 0 (sym run ∙ subst (λ j. at counts j ≡ ok 0) e' zero_at) in
                        let far : c + (m.width + 1) ≡ sum =
                          subst
                            (λ j.
                              c + (m.width + 1) ≡ j / (m.width + 1) * m.width + j % (m.width + 1))
                            e' e in
                        ground arith
                    | inr old ↦ (h c).1 (j, ground arith, zero_at, e)
                  ],
                ),
                Ordered-next counts k acc o,
              )
      ]

-- What `update_intersections` does to `m`: the count for each post of the lines but the last, the
-- least of the counts and 5, and the cells up and to the left of the posts without walls, in the
-- order of the posts.
pub record CountsPosts (m m' : Maze) : Type 0 where
  pub frame : m' ≡ record m {
    cl_intersections = m'.cl_intersections;
    min_intersections = m'.min_intersections;
    intersection_problems = m'.intersection_problems;
  }
  pub size : length m'.cl_intersections ≡ m.height * (m.width + 1)
  pub entries :
      (k : ℕ)
      → k < m.height * (m.width + 1)
      → at m'.cl_intersections k ≡ Visual.count_walls m (k / (m.width + 1)) (k % (m.width + 1))
  pub counts :
      (x y : ℕ)
      → x < m.width + 1
      → y < m.height
      → at m'.cl_intersections (y * (m.width + 1) + x) ≡ ok (walls_at m x y)
  pub least :
      ((n : ℕ) → n ∈ m'.cl_intersections → m'.min_intersections ≤ n)
      × (m'.min_intersections ≤ 5)
      × ((m'.min_intersections ≡ 5) ⊎ (m'.min_intersections ∈ m'.cl_intersections))
  pub problems :
      (c : ℕ)
      → (c ∈ m'.intersection_problems) ↔ (
          (k : ℕ) × (k < m.height * (m.width + 1))
          × (at m'.cl_intersections k ≡ ok 0)
          × (c + (m.width + 1) ≡ k / (m.width + 1) * m.width + k % (m.width + 1)))
  pub ordered :
      (i j a b : ℕ)
      → i < j
      → at m'.intersection_problems i ≡ ok a
      → at m'.intersection_problems j ≡ ok b
      → (k : ℕ) × (k' : ℕ) × (k < k')
        × (k' < m.height * (m.width + 1))
        × (at m'.cl_intersections k ≡ ok 0)
        × (at m'.cl_intersections k' ≡ ok 0)
        × (a + (m.width + 1) ≡ k / (m.width + 1) * m.width + k % (m.width + 1))
        × (b + (m.width + 1) ≡ k' / (m.width + 1) * m.width + k' % (m.width + 1))

module _ (m : Maze) (p : IsPictured m) where
  rows_lem : Returns (Counted m p (m.height * (m.width + 1))) (
      for_range m.height 0
        (λ y. for_range (m.width + 1) 0 (Visual.push_intersection m y))
        (record { intersections = []; least = 5 }))
  rows_lem =
      Returns-for_range (λ y. Counted m p (y * (m.width + 1)))
        (λ y. for_range (m.width + 1) 0 (Visual.push_intersection m y)) m.height
        (λ y c hy h. push_row_lem m p y c hy h) m.height 0 _ (omega arith)
        (record {
          size = omega arith;
          entries = λ k lt. absurd (omega arith);
          least = (λ n q. absurd q, omega arith, inl refl);
        })

  problems_lem :
      (c : Counts)
      → Returns
          (Listed m p c.intersections (length c.intersections))
          (for_range (length c.intersections) 0 (Visual.push_problem m c.intersections) [])
  problems_lem c =
      Returns-for_range (Listed m p c.intersections) (Visual.push_problem m c.intersections)
        (length c.intersections) (λ k acc lt h. push_problem_lem m p c.intersections k acc lt h)
        (length c.intersections) 0 [] (omega arith)
        (λ d. (λ q. absurd q, λ (k, lt, z, e). absurd (omega arith)), λ i j a b lt e e'. cc)

  line_of : (w x y : ℕ) → x < w → (y * w + x) / w ≡ y
  line_of w x y h = grind arith

  column_of : (w x y : ℕ) → x < w → (y * w + x) % w ≡ x
  column_of w x y h = grind arith

  counts_lem :
      (c : Counts)
      → Counted m p (m.height * (m.width + 1)) c
      → (x y : ℕ) → x < m.width + 1
      → y < m.height
      → at c.intersections (y * (m.width + 1) + x) ≡ ok (walls_at m x y)
  counts_lem c h x y hx hy =
      let w = m.width + 1 in
      let le : (y + 1) * w ≤ m.height * w = mul-le-mul_right w (omega arith) in
      let inside : y * w + x < length c.intersections = omega (arith, h.size) in
      let line : (y * w + x) / w ≡ y = line_of w x y hx in
      let column : (y * w + x) % w ≡ x = column_of w x y hx in
      h.entries (y * w + x) inside
      ∙ ap (λ l. Visual.count_walls m l ((y * w + x) % w)) line
      ∙ ap (Visual.count_walls m y) column
      ∙ count_walls-walls_at m p y x hy hx

  -- When the picture has an entry for each place, and its lines and columns fit the maze,
  -- updateIntersections returns; it has one count for each post of the lines but the last: of the
  -- walls to its left and right inside the picture, below it and at its own place, and for the first
  -- line of that in the last line of the picture. The least is the least of these and 5, and the
  -- problems are the cells up and to the left of the posts that count no wall, in the order of the
  -- posts, without those that would have a negative index. No other field changes.
  pub update_intersections-CountsPosts :
      (m' : Maze) × (Visual.update_intersections m ≡ ok m') × CountsPosts m m'
  unfolding Visual.update_intersections
  update_intersections-CountsPosts =
      let (c, run, h) = Returns-value (Counted m p (m.height * (m.width + 1))) _ rows_lem in
      let (problems, run', h') =
        Returns-value (Listed m p c.intersections (length c.intersections)) _ (problems_lem c) in
      (
        record m {
          cl_intersections = c.intersections;
          min_intersections = c.least;
          intersection_problems = problems;
        },
        rw (run, run'),
        record {
          frame = refl;
          size = h.size;
          entries = λ k lt. h.entries k (omega (arith, h.size));
          counts = λ x y hx hy. counts_lem c h x y hx hy;
          least = h.least;
          problems = (subst (λ n. Listed m p c.intersections n problems) h.size h').0;
          ordered = (subst (λ n. Listed m p c.intersections n problems) h.size h').1;
        },
      )
