-- ===== src/Maze/Routes/Rounds.antt =====
-- Rounds until nothing is left to visit.
use test.Prelude.{
  ℕ, zero, suc, ◌+◌, ◌≤◌, ◌<◌, ◌≡◌, ◌≢◌, refl, ap, sym, subst, ◌∙◌, ◌⊎◌, inl, inr, ⊎_elim, arith,
}
use test.Prelude.{true, false, false≢true, List, [], ◌∷◌, ◌++◌, append-nil}
use test.Prelude.Lists.{length, length-append, ◌∈◌, mem-append, mem-append_right, length-tabulate}
use test.Prelude.Results.{ok, Returns, Returns->>=}
use test.Maze.State.{Maze}
use test.Maze.Routes
use test.Maze.Routes.{Search}
use test.Maze.Routes.Passage.{Route, Reach, here, step, begin, go, IsMarked, IsSearchable}
use test.Maze.Routes.Marks.{
  tabulate-IsMarked, IsMarked-tabulate, count_true-le, erase_routes-append, mem-erase_routes,
}
use test.Maze.Routes.Invariant.{Inv, IsClosed, EndsMarked, IsShortest}
use test.Maze.Routes.Scan.{scan_routes-Inv}

nonempty_length {ℓ} : {A : Type ℓ} (xs : List A) → xs ≢ [] → 0 < length xs
nonempty_length [] ne = absurd (ne refl)
nonempty_length (x ∷ xs) ne = omega arith

-- Between two rounds, when the routes have at most `level` cells.
pub record Ready (m : Maze) (level : ℕ) (s : Search) : Type 0 where
  pub size : length s.visited ≡ m.total_cells
  pub waiting : (r : List ℕ) → r ∈ s.routes → EndsMarked m s.visited r
  pub reached : (d : ℕ) → IsMarked s.visited d → Reach m d
  pub cover :
      (d : ℕ)
      → IsMarked s.visited d
      → IsClosed m s.visited d ⊎ ((r : List ℕ) × (r ∈ s.routes) × Route m r d)
  pub entered : IsMarked s.visited m.entrance
  pub best : s.best_route_found ≡ true → Route m s.best_route m.exit × (m.exit ≢ m.entrance)
  pub none_yet :
      s.best_route_found ≡ false
      → (s.best_route ≡ []) × (IsMarked s.visited m.exit → m.exit ≡ m.entrance)
  pub short : (r : List ℕ) → r ∈ s.routes → length r ≤ level
  pub near : (d : ℕ) (r : List ℕ) → Route m r d → length r ≤ level → IsMarked s.visited d
  pub shortest : s.best_route_found ≡ true → IsShortest m s.best_route m.exit

Route-length : (m : Maze) (r : List ℕ) (d : ℕ) → Route m r d → 0 < length r
Route-length m r d (begin e e') = omega (arith, ap length e)
Route-length m r d (go {route = t} {d = c} p passage e) =
    omega (arith, ap length e, length-append t (c ∷ []))

-- A route with one cell is that of the entrance, and a longer one ends with a passage.
Route-one : (m : Maze) (r : List ℕ) (d : ℕ) → Route m r d → length r ≤ 1 → d ≡ m.entrance
Route-one m r d (begin e e') le = e'
Route-one m r d (go {route = t} {d = c} p passage e) le =
    let some_cell : 0 < length t = Route-length m t _ p in
    absurd (omega (arith, ap length e, length-append t (c ∷ [])))

module _ (m : Maze) (valid : IsSearchable m) where
  pub Ready-start : Ready m 1 (Routes.start m)
  unfolding Routes.start
  Ready-start =
      let only : (d : ℕ) → IsMarked _ d → d ≡ m.entrance = λ d h.
        let e : 0 + d ≡ m.entrance = tabulate-IsMarked m.total_cells 0 m.entrance d h in
        omega arith in
      let entered =
        IsMarked-tabulate m.total_cells 0 m.entrance m.entrance valid.inside (omega arith) in
      record {
        size = length-tabulate m.total_cells 0 _;
        waiting = λ r. elim [
          | inl e ↦ (m.entrance, begin e refl, entered)
          | inr nowhere ↦ absurd nowhere
        ];
        reached = λ d h. here (only d h);
        cover = λ d h. inr (m.entrance ∷ [], inl refl, begin refl (only d h));
        entered = entered;
        best = λ e. absurd (false≢true e);
        none_yet = λ _. (refl, λ h. only m.exit h);
        short = λ r. elim [ inl e ↦ omega (arith, ap length e) | inr nowhere ↦ absurd nowhere ];
        near = λ d r p le. subst (IsMarked _) (sym (Route-one m r d p le)) entered;
        shortest = λ e. absurd (false≢true e);
      }

  Inv-Ready :
      (level : ℕ) (s : Search)
      → Ready m level s
      → Inv m level
          (Routes.count_true s.visited)
          s.routes
          0
          s.routes
          (record s { erase = []; erased = false })
  Inv-Ready level s h = record {
    new = [];
    size = h.size;
    split = sym (append-nil s.routes);
    within = λ r q. q;
    waiting = λ r. ⊎_elim (h.waiting r) (λ nowhere. absurd nowhere);
    reached = h.reached;
    cover = λ d k. ⊎_elim inl (λ (r, q, p). inr (r, inl q, p)) (h.cover d k);
    entered = h.entered;
    best = h.best;
    none_yet = h.none_yet;
    count = omega arith;
    idle = λ _. refl;
    active = λ _. refl;
    flag = λ e. absurd (false≢true e);
    rising = tt;
    short = h.short;
    short_new = λ r nowhere. absurd nowhere;
    near = λ d r p le. let k = h.near d r p le in (k, h.cover d k);
    shortest = h.shortest;
  }

  -- After a round: either it visited a cell, or there is nothing left to visit.
  record Rounded (level : ℕ) (s s' : Search) : Type 0 where
    ready : Ready m (level + 1) s'
    quiet : s'.erase ≡ [] → (d : ℕ) → IsMarked s'.visited d → IsClosed m s'.visited d
    busy : s'.erase ≢ [] → Routes.count_true s.visited < Routes.count_true s'.visited

  Rounded-Inv :
      (level : ℕ) (s t : Search)
      → Inv m level
          (Routes.count_true s.visited)
          s.routes
          (length s.routes)
          []
          (record t { erased = false })
      → Rounded level s (record t { routes = Routes.erase_routes t.erase t.routes })
  Rounded-Inv level s t inv = record {
    ready = record {
      size = inv.size;
      waiting = λ r q. inv.waiting r (kept r q);
      reached = inv.reached;
      cover = λ d k. elim (inv.cover d k) [
        | inl shut ↦ inl shut
        | inr (r, inl nowhere, p) ↦ absurd nowhere
        | inr (r, inr n, p) ↦ inr (r, subst (λ t. r ∈ t) (sym parts) (mem-append_right r _ _ n), p)
      ];
      entered = inv.entered;
      best = inv.best;
      none_yet = inv.none_yet;
      short = λ r q. elim (kept r q) [
        | inl old ↦ omega (arith, inv.short r old)
        | inr new ↦ inv.short_new r new
      ];
      near = near_next;
      shortest = inv.shortest;
    };
    quiet = λ e d k. elim (inv.cover d k) [
      | inl shut ↦ shut
      | inr (r, inl nowhere, p) ↦ absurd nowhere
      | inr (r, inr n, p) ↦ absurd (subst (λ t. r ∈ t) (inv.idle e) n)
    ];
    busy = λ ne. omega (arith, inv.count, nonempty_length inv.new (λ e. ne (inv.active e)));
  }
    where
      near_next : (d : ℕ) (r : List ℕ) → Route m r d → length r ≤ level + 1 → IsMarked t.visited d
      near_next d r (begin e e') le = subst (IsMarked t.visited) (sym e') inv.entered
      near_next d r (go {route = shorter} {c = c} p passage e) le =
          let le' : length shorter ≤ level =
            omega (arith, ap length e, length-append shorter (d ∷ [])) in
          elim (inv.near c shorter p le').1 [
            | inl closed ↦ closed d passage
            | inr (_, nowhere, _) ↦ absurd nowhere
          ]

      parts : Routes.erase_routes t.erase t.routes ≡ Routes.erase_routes t.erase s.routes ++ inv.new
      parts =
          ap (Routes.erase_routes t.erase) inv.split
          ∙ erase_routes-append t.erase s.routes inv.new inv.rising

      kept :
          (r : List ℕ) → r ∈ Routes.erase_routes t.erase t.routes → (r ∈ s.routes) ⊎ (r ∈ inv.new)
      kept r q =
          ⊎_elim (λ old. inl (mem-erase_routes r t.erase s.routes old)) inr
            (mem-append r _ _ (subst (λ t. r ∈ t) parts q))

  round-Rounded :
      (level : ℕ) (s : Search) → Ready m level s → Returns (Rounded level s) (Routes.round m s)
  unfolding Routes.round
  round-Rounded level s h =
      Returns->>=
        (λ t.
          Inv m level (Routes.count_true s.visited) s.routes (length s.routes) []
            (record t { erased = false }))
        (Rounded level s) _ _
        (scan_routes-Inv m level _ s.routes valid 0 (length s.routes) s.routes
          (record s { erase = [] }) (omega arith) (Inv-Ready level s h))
        (λ t inv. Rounded-Inv level s t inv)

  pub record Done (s : Search) : Type 0 where
    pub level : ℕ
    pub ready : Ready m level s
    pub closed : (d : ℕ) → IsMarked s.visited d → IsClosed m s.visited d

  leave_or_go :
      (fuel level : ℕ) (s s' : Search) (es : List ℕ)
      → s'.erase ≡ es
      → Rounded level s s'
      → (s'.erase ≢ [] → Returns Done (Routes.search_loop m fuel s'))
      → Returns Done (elim es [ [] ↦ ok s' | _ ∷ _ ↦ Routes.search_loop m fuel s' ])
  leave_or_go fuel level s s' [] e r further = record {
    level = level + 1;
    ready = r.ready;
    closed = r.quiet e;
  }
  leave_or_go fuel level s s' (x ∷ es) e r further = further (λ e'. cc)

  pub search_loop-Done :
      (fuel level : ℕ) (s : Search)
      → Ready m level s
      → m.total_cells < fuel + Routes.count_true s.visited
      → Returns Done (Routes.search_loop m fuel s)
  unfolding Routes.search_loop
  search_loop-Done zero level s h lt = absurd (omega (arith, count_true-le s.visited, h.size))
  search_loop-Done (suc fuel) level s h lt =
      Returns->>= (Rounded level s) Done (Routes.round m s) _ (round-Rounded level s h) (λ s' r.
        leave_or_go fuel level s s' s'.erase refl r
          (λ ne. search_loop-Done fuel (level + 1) s' r.ready (omega (arith, r.busy ne))))

  pub Done-Reach : (s : Search) → Done s → (d : ℕ) → Reach m d → IsMarked s.visited d
  Done-Reach s h d (here e) = subst (IsMarked s.visited) (sym e) h.ready.entered
  Done-Reach s h d (step {c = c} r p) = h.closed c (Done-Reach s h c r) d p
