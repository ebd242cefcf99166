-- ===== src/Maze/Routes/Side.antt =====
-- One of the four blocks of the search: it visits the neighbour, or finds it visited.
use test.Prelude.{ℕ, ◌≤◌, ◌<◌, ◌≡◌, refl, ap, sym, subst, ◌∙◌}
use test.Prelude.{Bool, true, false, false≢true, List, [], ◌∷◌, ◌++◌}
use test.Prelude.Lists.{length}
use test.Prelude.Tests.{if◌then◌else◌}
use test.Prelude.Int.{pos_injective, ℤ, pos}
use test.Prelude.Results.{ok, at, at-lt, lt_of_at, back, Returns}
use test.Maze.State.{Maze}
use test.Maze.Routes
use test.Maze.Routes.{Search}
use test.Maze.Routes.Passage.{Passage, Route, begin, go, IsMarked}
use test.Maze.Routes.Marks.{at-IsMarked, set-IsMarked, set-keeps}
use test.Maze.Routes.Invariant.{Inv, Inv-extend}

back-snoc : (xs : List ℕ) (a : ℕ) → back (xs ++ a ∷ []) ≡ ok a
back-snoc [] a = refl
back-snoc (x ∷ []) a = refl
back-snoc (x ∷ y ∷ xs) a = back-snoc (y ∷ xs) a

-- A route ends in its last cell.
pub back-Route : {m : Maze} {route : List ℕ} {c : ℕ} → Route m route c → back route ≡ ok c
back-Route (begin e e') = cc
back-Route (go {route = r} {d = d} _ _ e) = ap back e ∙ back-snoc r d

abbrev pub Grows : Search → Search → Type 0
Grows s t = (d : ℕ) → IsMarked s.visited d → IsMarked t.visited d

module _ (m : Maze) (level k : ℕ) (snap : List (List ℕ)) (i : ℕ) (rest : List (List ℕ))
    (route : List ℕ) (c : ℕ) (along : Route m route c) (short_route : length route ≤ level) where
  -- After the block for one side, where `test` says that the side is open and `z` is its
  -- neighbour.
  pub record Tried (test : Bool) (z : ℤ) (s s' : Search) : Type 0 where
    pub inv : Inv m level k snap i rest s'
    pub grows : Grows s s'
    pub seen : (d : ℕ) → test ≡ true → z ≡ pos d → IsMarked s'.visited d

  visit :
      (nb : ℕ) (s : Search) (b : Bool)
      → Inv m level k snap i rest s
      → Passage m c nb
      → at s.visited nb ≡ ok b
      → Returns (Tried true (pos nb) s) (Routes.try_neighbour m i route (pos nb) s)
  unfolding Routes.try_neighbour Routes.extend
  visit nb s true inv p e = rw e (record {
    inv = inv;
    grows = λ d h. h;
    seen =
        λ d _ e'. subst (IsMarked s.visited) (pos_injective nb d e') (at-IsMarked s.visited nb e);
  })
  visit nb s false inv p e = rw e (record {
    inv = Inv-extend m level k snap i rest route c along short_route nb p s inv e;
    grows = λ d h. set-keeps s.visited nb d h;
    seen = λ d _ e'.
        subst (IsMarked _) (pos_injective nb d e')
          (set-IsMarked s.visited nb (lt_of_at s.visited nb e));
  })

  pub try_side :
      (test : Bool) (z : ℤ) (s : Search)
      → Inv m level k snap i rest s
      → (test ≡ true → (nb : ℕ) × (z ≡ pos nb) × Passage m c nb × (nb < m.total_cells))
      → Returns (Tried test z s) (if test then Routes.try_neighbour m i route z s else ok s)
  try_side false z s inv leads = record {
    inv = inv;
    grows = λ d h. h;
    seen = λ d e _. absurd (false≢true e);
  }
  try_side true z s inv leads =
      let (nb, e, p, lt) = leads refl in
      let (b, read) = at-lt s.visited nb (rw inv.size lt) in
      subst (λ w. Returns (Tried true w s) (Routes.try_neighbour m i route w s)) (sym e)
        (visit nb s b inv p read)
