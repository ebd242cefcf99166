-- ===== src/Maze/Load/Shift.antt =====
-- `shiftDown`: the rows move down in a circle, and the entrance and the exit with them.
use test.Prelude.{
  ℕ, zero, suc, ◌+◌, ◌-◌, ◌*◌, ◌%◌, ◌≤◌, ◌<◌, ◌≡◌, ◌∙◌, refl, ap, subst, inl, inr, arith,
}
use test.Prelude.{List, [], ◌∷◌, ◌++◌, append-nil}
use test.Prelude.Lists.{length, length-append}
use test.Prelude.Results.{at}
use test.Prelude.Loops.{at-append_left, at-append_right}
use native.Mathlib.Nat.{mul-le-mul_right}
use test.Maze.State.{Maze}
use test.Maze.Grid.Laws.{IsGrid, mod_cases}
use test.Maze.Load
use test.Maze.Load.{drop, take, mid, delete}

module _ {A : Type 0} where
  length-drop : (k : ℕ) (xs : List A) → length (drop k xs) ≡ length xs - k
  length-drop zero xs = omega arith
  length-drop (suc k) [] = omega arith
  length-drop (suc k) (x ∷ xs) = omega (arith, length-drop k xs)

  length-take : (k : ℕ) (xs : List A) → k ≤ length xs → length (take k xs) ≡ k
  length-take zero xs h = refl
  length-take (suc k) [] h = absurd (omega arith)
  length-take (suc k) (x ∷ xs) h = ap suc (length-take k xs (omega arith))

  at-drop : (k : ℕ) (xs : List A) (i j : ℕ) → j ≡ k + i → at (drop k xs) i ≡ at xs j
  at-drop zero xs i j e = let e' : j ≡ i = omega arith in rw e'
  at-drop (suc k) [] i j e = refl
  at-drop (suc k) (x ∷ xs) i zero e = absurd (omega arith)
  at-drop (suc k) (x ∷ xs) i (suc j) e = at-drop k xs i j (omega arith)

  at-take : (k : ℕ) (xs : List A) (i : ℕ) → i < k → at (take k xs) i ≡ at xs i
  at-take zero xs i h = absurd (omega arith)
  at-take (suc k) [] i h = refl
  at-take (suc k) (x ∷ xs) zero h = refl
  at-take (suc k) (x ∷ xs) (suc i) h = at-take k xs i (omega arith)

  take_all : (n : ℕ) (xs : List A) → length xs ≤ n → take n xs ≡ xs
  take_all zero [] h = refl
  take_all zero (x ∷ xs) h = absurd (omega arith)
  take_all (suc n) [] h = refl
  take_all (suc n) (x ∷ xs) h = ap (λ l. x ∷ l) (take_all n xs (omega arith))

  drop_all : (n : ℕ) (xs : List A) → length xs ≤ n → drop n xs ≡ []
  drop_all zero [] h = refl
  drop_all zero (x ∷ xs) h = absurd (omega arith)
  drop_all (suc n) [] h = refl
  drop_all (suc n) (x ∷ xs) h = drop_all n xs (omega arith)

  -- The last `n` entries move to the front.
  at_rotated :
      (xs : List A) (n i : ℕ)
      → n < length xs
      → i < length xs
      → at (drop (length xs - n) xs ++ take (length xs - n) xs) ((i + n) % length xs) ≡ at xs i
  at_rotated xs n i hn hi =
      let k = length xs - n in
      let front = length-drop k xs in
      elim (mod_cases (i + n) (length xs) (omega arith)) [
        | inl (lt, e) ↦
            at-append_right (drop k xs) (take k xs) i _ (omega arith) ∙ at-take k xs i (omega arith)
        | inr (ge, e) ↦
            at-append_left (drop k xs) (take k xs) _ (omega arith) ∙ at-drop k xs _ i (omega arith)
      ]

-- On a string of `t` characters, what is cut out and what is left.
cut_lem :
    (s : List ℕ) (t n : ℕ)
    → length s ≡ t
    → n ≤ t
    → mid s (t - n) n ++ delete s (t - n) n ≡ drop (t - n) s ++ take (t - n) s
cut_lem s t n e h =
    rw
      (
        take_all n (drop (t - n) s) (omega (arith, length-drop (t - n) s)),
        drop_all (t - n + n) s (omega arith),
      )
      (ap (λ r. drop (t - n) s ++ r) (append-nil (take (t - n) s)))

-- Where `shift_down m offset` puts the cell `c`.
abbrev pub moved : Maze → ℕ → ℕ → ℕ
moved m offset c = (c + offset % m.height * m.width) % m.total_cells

-- What `shift_down` does to the string, the entrance and the exit.
pub record Shifts (m : Maze) (offset : ℕ) (m' : Maze) : Type 0 where
  pub frame : m' ≡ record m { mz_string = m'.mz_string; entrance = m'.entrance; exit = m'.exit }
  pub size : length m'.mz_string ≡ m.total_cells
  pub string : (c : ℕ) → c < m.total_cells → at m'.mz_string (moved m offset c) ≡ at m.mz_string c
  pub ways : (m'.entrance ≡ moved m offset m.entrance) × (m'.exit ≡ moved m offset m.exit)
  pub inside : (m'.entrance < m.total_cells) × (m'.exit < m.total_cells)

-- On a grid whose string has one character for each cell, shiftDown moves the character of each
-- cell, the entrance and the exit down by the offset, in a circle, keeps the length of the string,
-- and leaves an entrance and an exit that are cells. No other field changes.
pub shift_down-Shifts :
    (m : Maze) (offset : ℕ)
    → IsGrid m
    → length m.mz_string ≡ m.total_cells
    → Shifts m offset (Load.shift_down m offset)
unfolding Load.shift_down
shift_down-Shifts m offset g e =
    let n = offset % m.height * m.width in
    let lt : n < m.total_cells = omega (
      arith,
      g.total,
      g.wide,
      mul-le-mul_right m.width
          (let below : offset % m.height + 1 ≤ m.height = omega (arith, g.high) in below),
    ) in
    let cut = cut_lem m.mz_string m.total_cells n e (omega arith) in
    record {
      frame = refl;
      size =
          ap length cut
          ∙ length-append (drop (m.total_cells - n) m.mz_string)
              (take (m.total_cells - n) m.mz_string)
          ∙ (omega (
            arith,
            length-drop (m.total_cells - n) m.mz_string,
            length-take (m.total_cells - n) m.mz_string (omega arith),
          ));
      string = λ c hc.
          ap (λ s. at s ((c + n) % m.total_cells)) cut
          ∙ subst
              (λ t.
                at (drop (t - n) m.mz_string ++ take (t - n) m.mz_string) ((c + n) % t)
                ≡ at m.mz_string c)
              e (at_rotated m.mz_string n c (omega arith) (omega arith));
      ways = (refl, refl);
      inside = (omega arith, omega arith);
    }
