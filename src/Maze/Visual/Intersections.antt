-- ===== src/Maze/Visual/Intersections.antt =====
-- `updateIntersections`: the loop that counts the walls around each post.
use test.Prelude.{ℕ, ◌+◌, ◌-◌, ◌*◌, ◌/◌, ◌%◌, min, ◌≤◌, ◌<◌, ◌≡◌, ◌≢◌, ◌⊎◌, refl, ap}
use test.Prelude.{sym, ◌∙◌, subst, inl, inr, ⊎_elim, arith}
use test.Prelude.{Bool, true, false, not, List, [], ◌∷◌, ◌++◌}
use test.Prelude.Tests.{◌==◌, if◌then◌else◌}
use test.Prelude.Lists.{length, length-append, ◌∈◌, mem-append, mem-append_left, mem-append_right}
use test.Prelude.Results.{ok, at, at-lt, Returns}
use test.Prelude.Results.{Returns-for_range, for_range}
use test.Prelude.Loops.{at-append_left, at-append_right}
use test.Maze.State.{Maze}
use test.Maze.Visual
use test.Maze.Visual.{Counts}
use native.Mathlib.Decide.{dec_lt}
use native.Mathlib.Nat.{mul-le-mul_right, mod-eq_of_lt, mul-add-mod_self_right}

-- The picture has an entry for each of its places, and there is a column.
pub record IsPictured (m : Maze) : Type 0 where
  pub columns : m.width_visual ≡ m.width * 2 + 1
  pub lines : m.height_visual ≡ m.height + 1
  pub entries : length m.cl_matrix_visual ≡ m.height_visual * m.width_visual

read_if :
    (xs : List Bool) (b : Bool) (i : ℕ)
    → (b ≡ true → i < length xs)
    → (v : Bool) × ((if b then at xs i else ok false) ≡ ok v)
read_if xs true i h = at-lt xs i (h refl)
read_if xs false i h = (false, refl)

read_taken :
    (xs : List Bool) (b : Bool) (i : ℕ) {v : Bool}
    → b ≡ true
    → (if b then at xs i else ok false) ≡ ok v
    → at xs i ≡ ok v
read_taken xs b i e h = (rw e at h)

module _ (m : Maze) (p : IsPictured m) where
  pub index-lt :
      (y i : ℕ)
      → y < m.height
      → i < m.width_visual
      → i + y * m.width_visual < m.height_visual * m.width_visual
  index-lt y i hy hi =
      let le : (y + 1) * m.width_visual ≤ m.height_visual * m.width_visual =
        mul-le-mul_right m.width_visual (omega (arith, p.lines)) in
      omega arith

  pub below_lem :
      (y i : ℕ)
      → y < m.height
      → i < m.width_visual
      → i + y * m.width_visual + m.width_visual < m.height_visual * m.width_visual
  below_lem y i hy hi =
      let le : (y + 2) * m.width_visual ≤ m.height_visual * m.width_visual =
        mul-le-mul_right m.width_visual (omega (arith, p.lines)) in
      omega arith

  -- A post that counts no wall has none at its place and none below, and none on its sides.
  pub count_walls_lem :
      (y x : ℕ)
      → y < m.height
      → x < m.width + 1
      → (n : ℕ) × (Visual.count_walls m y x ≡ ok n)
        × (n ≡ 0
            → (at m.cl_matrix_visual (2 * x + y * m.width_visual) ≡ ok false)
              × (at m.cl_matrix_visual (2 * x + (y + 1) * m.width_visual) ≡ ok false)
              × (x ≢ 0 → at m.cl_matrix_visual (2 * x + y * m.width_visual - 1) ≡ ok false)
              × (x ≢ m.width → at m.cl_matrix_visual (2 * x + y * m.width_visual + 1) ≡ ok false))
  unfolding Visual.count_walls
  count_walls_lem y x hy hx =
      let wv = m.width_visual in
      let total = m.height_visual * wv in
      let index = 2 * x + y * wv in
      let bits = m.cl_matrix_visual in
      let here-lt : index < total = index-lt y (2 * x) hy (omega (arith, p.columns)) in
      let below-lt : index + wv < total = below_lem y (2 * x) hy (omega (arith, p.columns)) in
      let same : (index + wv) % total ≡ index + wv = mod-eq_of_lt below-lt in
      let next : index + wv ≡ 2 * x + (y + 1) * wv = omega arith in
      let (l, el) = read_if bits (not (x == 0)) (index - 1) (λ e. omega (arith, p.entries)) in
      let (r, er) = read_if bits (not (x == m.width)) (index + 1) (λ e.
        let inner : x ≢ m.width = ground arith in
        omega (arith, p.entries, index-lt y (2 * x + 1) hy (omega (arith, p.columns)))) in
      let (b, eb) = at-lt bits ((index + wv) % total) (omega (arith, p.entries)) in
      let (t, et) =
        read_if bits (y == 0) ((index + total - wv) % total) (λ e. omega (arith, p.entries)) in
      let (o, eo) = at-lt bits index (omega (arith, p.entries)) in
      (
        (if l then 1 else 0)
            + (if r then 1 else 0)
            + (if b then 1 else 0)
            + (if t then 1 else 0)
            + (if o then 1 else 0),
        rw (el, er, eb, et, eo),
        λ none. (
          eo ∙ ap ok (ground arith),
          ap (at bits) (sym (same ∙ next)) ∙ eb ∙ ap ok (ground arith),
          λ ne. read_taken bits _ (index - 1) (ground arith) el ∙ ap ok (ground arith),
          λ ne. read_taken bits _ (index + 1) (ground arith) er ∙ ap ok (ground arith),
        ),
      )

  count_walls_returns :
      (y x : ℕ) → y < m.height → x < m.width + 1 → (n : ℕ) × (Visual.count_walls m y x ≡ ok n)
  count_walls_returns y x hy hx = let (n, run, _) = count_walls_lem y x hy hx in (n, run)

  -- The posts in order, `width + 1` in a line.
  abbrev pub EntriesOf : Counts → Type 0
  EntriesOf c =
      (k : ℕ)
      → k < length c.intersections
      → at c.intersections k ≡ Visual.count_walls m (k / (m.width + 1)) (k % (m.width + 1))

  abbrev pub IsLeast : Counts → Type 0
  IsLeast c =
      ((n : ℕ) → n ∈ c.intersections → c.least ≤ n)
      × (c.least ≤ 5)
      × ((c.least ≡ 5) ⊎ (c.least ∈ c.intersections))

  pub record Counted (n : ℕ) (c : Counts) : Type 0 where
    pub size : length c.intersections ≡ n
    pub entries : EntriesOf c
    pub least : IsLeast c

  min_cases : (a b : ℕ) → (min a b ≡ a) × (a ≤ b) ⊎ (min a b ≡ b) × (b ≤ a)
  min_cases a b = elim (dec_lt a b) [
    | yes lt ↦ inl (omega arith, omega arith)
    | no ge ↦ inr (omega arith, omega arith)
  ]

  IsLeast-push :
      (n : ℕ) (c : Counts)
      → IsLeast c
      → IsLeast (record { intersections = c.intersections ++ n ∷ []; least = min c.least n })
  IsLeast-push n c (below, top, found) = (
    λ k q. elim (mem-append k c.intersections (n ∷ []) q) [
      | inl old ↦ omega (arith, below k old)
      | inr (inl e) ↦ omega arith
      | inr (inr none) ↦ absurd none
    ],
    omega arith,
    elim (min_cases c.least n) [
      | inl (e, _) ↦
          rw e (⊎_elim inl (λ q. inr (mem-append_left c.least c.intersections (n ∷ []) q)) found)
      | inr (e, _) ↦ rw e (inr (mem-append_right n c.intersections (n ∷ []) (inl refl)))
    ],
  )

  Counted-push :
      (y x n : ℕ) (c : Counts)
      → x < m.width + 1
      → Visual.count_walls m y x ≡ ok n
      → Counted (y * (m.width + 1) + x) c
      → Counted
          (y * (m.width + 1) + (x + 1))
          (record { intersections = c.intersections ++ n ∷ []; least = min c.least n })
  Counted-push y x n c hx e h = record {
    size = omega (arith, h.size, length-append c.intersections (n ∷ []));
    entries = λ k lt. elim (dec_lt k (length c.intersections)) [
      | yes old ↦ at-append_left c.intersections (n ∷ []) k old ∙ h.entries k old
      | no new ↦
          let ek : k ≡ y * (m.width + 1) + x =
            omega (arith, h.size, length-append c.intersections (n ∷ [])) in
          at-append_right c.intersections (n ∷ []) 0 k (omega (arith, h.size))
          ∙ sym (rw (ek, div_lem, mod_lem) e)
    ];
    least = IsLeast-push n c h.least;
  }
    where
      mod_lem : (y * (m.width + 1) + x) % (m.width + 1) ≡ x
      mod_lem = mul-add-mod_self_right y (m.width + 1) x ∙ mod-eq_of_lt hx

      div_lem : (y * (m.width + 1) + x) / (m.width + 1) ≡ y
      div_lem = grind arith

  pub push_row_lem :
      (y : ℕ) (c : Counts)
      → y < m.height
      → Counted (y * (m.width + 1)) c
      → Returns
          (Counted ((y + 1) * (m.width + 1)))
          (for_range (m.width + 1) 0 (Visual.push_intersection m y) c)
  unfolding Visual.push_intersection
  push_row_lem y c hy h =
      let e : y * (m.width + 1) + (m.width + 1) ≡ (y + 1) * (m.width + 1) = omega arith in
      subst (λ n. Returns (Counted n) (for_range (m.width + 1) 0 (Visual.push_intersection m y) c))
        e
        (Returns-for_range (λ x. Counted (y * (m.width + 1) + x)) (Visual.push_intersection m y)
          (m.width + 1)
          (λ x c hx h.
            let (n, run) = count_walls_returns y x hy hx in rw run (Counted-push y x n c hx run h))
          (m.width + 1) 0 c (omega arith)
          (let e0 : y * (m.width + 1) ≡ y * (m.width + 1) + 0 = omega arith in
            subst (λ n. Counted n c) e0 h))
