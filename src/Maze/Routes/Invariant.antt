-- ===== src/Maze/Routes/Invariant.antt =====
-- The invariant of one round of the search, and that each new route keeps it.
use test.Prelude.{ℕ, ◌+◌, ◌≤◌, ◌≡◌, ◌≢◌, refl, ap, sym, subst, ◌∙◌, ◌⊎◌, inl, inr, ⊎_elim, arith}
use test.Prelude.{Bool, true, false, false≢true, List, [], ◌∷◌, ◌++◌, append_assoc}
use test.Prelude.Tests.{Bool-cases, ◌==◌, if◌then◌else◌, ==→≡, ==→≢}
use test.Prelude.Lists.{
  length, ◌∈◌, length-append, length-set, mem-append, mem-append_left, mem-append_right,
}
use test.Prelude.Results.{ok, at, lt_of_at}
use test.Maze.State.{Maze}
use test.Maze.Routes
use test.Maze.Routes.{Search}
use test.Maze.Routes.Passage.{Passage, Route, Reach, go, IsMarked, Reach-Route}
use test.Maze.Routes.Marks.{at_unmarked, set-IsMarked, set-keeps, set-adds, count_true-set}
use test.Maze.Routes.Marks.{IsRising, IsRising-snoc}

-- All passages from `c` lead to visited cells.
abbrev pub IsClosed : Maze → List Bool → ℕ → Type 0
IsClosed m visited c = (d : ℕ) → Passage m c d → IsMarked visited d

-- `route` ends in a visited cell.
abbrev pub EndsMarked : Maze → List Bool → List ℕ → Type 0
EndsMarked m visited route = (c : ℕ) × Route m route c × IsMarked visited c

-- No route to `c` has fewer cells.
abbrev pub IsShortest : Maze → List ℕ → ℕ → Type 0
IsShortest m route c = (r : List ℕ) → Route m r c → length route ≤ length r

-- During a round that began with the routes `snap`, of at most `level` cells, and `k` visited cells,
-- before the route with
-- index `i`, the first of `rest`.
pub record Inv (m : Maze) (level k : ℕ) (snap : List (List ℕ)) (i : ℕ) (rest : List (List ℕ))
    (s : Search) : Type 0 where
  pub new : List (List ℕ)
  pub size : length s.visited ≡ m.total_cells
  pub split : s.routes ≡ snap ++ new
  pub within : (r : List ℕ) → r ∈ rest → r ∈ snap
  pub waiting : (r : List ℕ) → (r ∈ snap) ⊎ (r ∈ new) → EndsMarked m s.visited r
  pub reached : (d : ℕ) → IsMarked s.visited d → Reach m d
  pub cover :
      (d : ℕ)
      → IsMarked s.visited d
      → IsClosed m s.visited d ⊎ ((r : List ℕ) × ((r ∈ rest) ⊎ (r ∈ new)) × Route m r d)
  pub entered : IsMarked s.visited m.entrance
  pub best : s.best_route_found ≡ true → Route m s.best_route m.exit × (m.exit ≢ m.entrance)
  pub none_yet :
      s.best_route_found ≡ false
      → (s.best_route ≡ []) × (IsMarked s.visited m.exit → m.exit ≡ m.entrance)
  pub count : Routes.count_true s.visited ≡ k + length new
  pub idle : s.erase ≡ [] → new ≡ []
  pub active : new ≡ [] → s.erase ≡ []
  pub flag : s.erased ≡ true → s.erase ≢ []
  pub rising : IsRising 0 (if s.erased then i + 1 else i) s.erase
  pub short : (r : List ℕ) → r ∈ snap → length r ≤ level
  pub short_new : (r : List ℕ) → r ∈ new → length r ≤ level + 1
  pub near :
      (d : ℕ) (r : List ℕ)
      → Route m r d
      → length r ≤ level
      → IsMarked s.visited d × (IsClosed m s.visited d ⊎ ((t : List ℕ) × (t ∈ rest) × Route m t d))
  pub shortest : s.best_route_found ≡ true → IsShortest m s.best_route m.exit

unseen-ne : (c d : ℕ) (visited : List Bool) → at visited c ≡ ok false → IsMarked visited d → c ≢ d
unseen-ne c d visited e h same_cell =
    absurd (at_unmarked visited c e (subst (IsMarked visited) (sym same_cell) h))

append-ne-nil {ℓ} : {A : Type ℓ} (xs : List A) (a : A) → xs ++ a ∷ [] ≢ []
append-ne-nil [] a e = cc
append-ne-nil (x ∷ xs) a e = cc

module _ (m : Maze) (level k : ℕ) (snap : List (List ℕ)) (i : ℕ) (rest : List (List ℕ)) where
  module _ (route : List ℕ) (c : ℕ) (along : Route m route c) (short_route : length route ≤ level)
      (nb : ℕ) (passage : Passage m c nb) (s : Search) (inv : Inv m level k snap i rest s)
      (unseen : at s.visited nb ≡ ok false) where
    open inv use {
      new, size, split, waiting, reached, cover, entered, best, none_yet, count, idle, active, flag,
      rising,
    }

    abbrev longer : List ℕ
    longer = route ++ nb ∷ []

    abbrev s' : Search
    s' = Routes.extend m i route nb s

    to_nb : Route m longer nb
    to_nb = go along passage refl

    old : (d : ℕ) → IsMarked s.visited d → IsMarked s'.visited d
    unfolding Routes.extend
    old d h = set-keeps s.visited nb d h

    IsMarked-nb : IsMarked s'.visited nb
    unfolding Routes.extend
    IsMarked-nb = set-IsMarked s.visited nb (lt_of_at s.visited nb unseen)

    fresh : (d : ℕ) → IsMarked s'.visited d → IsMarked s.visited d ⊎ (d ≡ nb)
    unfolding Routes.extend
    fresh d h = set-adds s.visited nb d h

    put_new : (r : List ℕ) → (r ∈ rest) ⊎ (r ∈ new) → (r ∈ rest) ⊎ (r ∈ (new ++ longer ∷ []))
    put_new r = ⊎_elim inl (λ n. inr (mem-append_left r new _ n))

    waiting' : (r : List ℕ) → (r ∈ snap) ⊎ (r ∈ (new ++ longer ∷ [])) → EndsMarked m s'.visited r
    waiting' r (inl q) = let (d, p, h) = waiting r (inl q) in (d, p, old d h)
    waiting' r (inr q) = elim (mem-append r new (longer ∷ []) q) [
      | inl n ↦ let (d, p, h) = waiting r (inr n) in (d, p, old d h)
      | inr (inl e) ↦ (nb, subst (λ t. Route m t nb) (sym e) to_nb, IsMarked-nb)
      | inr (inr nowhere) ↦ absurd nowhere
    ]

    reached' : (d : ℕ) → IsMarked s'.visited d → Reach m d
    reached' d h = elim (fresh d h) [
      | inl o ↦ reached d o
      | inr e ↦ subst (Reach m) (sym e) (Reach-Route to_nb)
    ]

    cover' :
        (d : ℕ)
        → IsMarked s'.visited d
        → IsClosed m s'.visited d
          ⊎ ((r : List ℕ) × ((r ∈ rest) ⊎ (r ∈ (new ++ longer ∷ []))) × Route m r d)
    cover' d h = elim (fresh d h) [
      | inl o ↦ elim (cover d o) [
        | inl closed ↦ inl (λ e p. old e (closed e p))
        | inr (r, w, p) ↦ inr (r, put_new r w, p)
      ]
      | inr e ↦ inr (
        longer,
        inr (mem-append_right longer new _ (inl refl)),
        subst (Route m longer) (sym e) to_nb,
      )
    ]

    best' : s'.best_route_found ≡ true → Route m s'.best_route m.exit × (m.exit ≢ m.entrance)
    unfolding Routes.extend
    best' h = elim (Bool-cases s.best_route_found) [
      | inl f ↦ rw f (best f)
      | inr f ↦ elim (Bool-cases (nb == m.exit)) [
        | inl e ↦
            let at_exit = ==→≡ nb m.exit e in
            (
              rw (f, e) (subst (Route m longer) at_exit to_nb),
              λ same_cell. unseen-ne nb m.entrance s.visited unseen entered (at_exit ∙ same_cell),
            )
        | inr e ↦ absurd (false≢true (sym (rw (f, e) refl) ∙ h))
      ]
    ]

    none_yet' :
        s'.best_route_found ≡ false
        → (s'.best_route ≡ []) × (IsMarked s'.visited m.exit → m.exit ≡ m.entrance)
    unfolding Routes.extend
    none_yet' h = elim (Bool-cases s.best_route_found) [
      | inl f ↦ absurd (false≢true (sym h ∙ rw f))
      | inr f ↦ elim (Bool-cases (nb == m.exit)) [
        | inl e ↦ absurd (false≢true (sym h ∙ rw (f, e)))
        | inr e ↦ (
          rw (f, e) (none_yet f).0,
          λ h'. elim (fresh m.exit h') [
            | inl o ↦ (none_yet f).1 o
            | inr e' ↦ absurd (==→≢ nb m.exit e (sym e'))
          ],
        )
      ]
    ]

    -- A cell that is not visited yet has no route of `level` cells.
    shortest' : s'.best_route_found ≡ true → IsShortest m s'.best_route m.exit
    unfolding Routes.extend
    shortest' h r p = elim (Bool-cases s.best_route_found) [
      | inl f ↦ rw f (inv.shortest f r p)
      | inr f ↦ elim (Bool-cases (nb == m.exit)) [
        | inl e ↦
            let at_exit = ==→≡ nb m.exit e in
            let far : ¬ (length r ≤ level) =
              λ le. unseen-ne nb m.exit s.visited unseen (inv.near m.exit r p le).0 at_exit in
            rw (f, e) (omega (arith, length-append route (nb ∷ []), far))
        | inr e ↦ absurd (false≢true (sym (rw (f, e) refl) ∙ h))
      ]
    ]

    short_new' : (r : List ℕ) → r ∈ (new ++ longer ∷ []) → length r ≤ level + 1
    short_new' r q = elim (mem-append r new (longer ∷ []) q) [
      | inl old_route ↦ inv.short_new r old_route
      | inr (inl e) ↦ omega (arith, ap length e, length-append route (nb ∷ []))
      | inr (inr nowhere) ↦ absurd nowhere
    ]

    erase-ne-nil : s'.erase ≢ []
    unfolding Routes.extend
    erase-ne-nil = elim (Bool-cases s.erased) [
      | inl e ↦ rw e (flag e)
      | inr e ↦ rw e (append-ne-nil s.erase i)
    ]

    rising' : IsRising 0 (if s'.erased then i + 1 else i) s'.erase
    unfolding Routes.extend
    rising' = elim (Bool-cases s.erased) [
      | inl e ↦ rw e (rw e at rising)
      | inr e ↦ rw e (IsRising-snoc 0 i s.erase (omega arith) (rw e at rising))
    ]

    pub Inv-extend : Inv m level k snap i rest s'
    unfolding Routes.extend
    Inv-extend = record {
      new = new ++ longer ∷ [];
      size = length-set s.visited nb true ∙ size;
      split = ap (λ t. t ++ longer ∷ []) split ∙ append_assoc snap new (longer ∷ []);
      within = inv.within;
      waiting = waiting';
      reached = reached';
      cover = cover';
      entered = old m.entrance entered;
      best = best';
      none_yet = none_yet';
      count = omega (arith, count_true-set s.visited nb unseen, length-append new (longer ∷ []));
      idle = λ e. absurd (erase-ne-nil e);
      active = λ e. absurd (append-ne-nil new longer e);
      flag = λ _. erase-ne-nil;
      rising = rising';
      short = inv.short;
      short_new = short_new';
      near = λ d r p le.
          let (h, w) = inv.near d r p le in
          (old d h, ⊎_elim (λ closed. inl (λ e p. old e (closed e p))) inr w);
      shortest = shortest';
    }
