-- ===== src/Handler/Generated/Stores/Iteration.antt =====
-- One iteration of `MZHandler::Go`: the tests on the maze, and its insertion.
use test.Prelude.{
  ℕ, ◌+◌, ◌≡◌, ◌∙◌, refl, sym, ap, subst, inl, inr, arith, Bool, true, false, List, [], ◌∷◌, ◌++◌,
  Option, append-nil, append_assoc,
}
use test.Prelude.Tests.{ltb, Bool-cases}
use test.Prelude.Lists.{length, length-append}
use test.Maze.Generate.{Game}
use test.Mysql.Client.{Client, Text}
use test.Mysql.Session.{State, Outcome, returned, thrown}
use test.Mysql.Query
use test.Mysql.Server.{Server}
use test.Mysql.Drain.Asks.{Shorter, query_without_result-Asks}
use test.Handler.Constants.{minimal_route_coverage}
use test.Handler.Generated
use test.Handler.Generated.{Floats}
use test.Handler.Generated.Stores.{is_worth, statements, Tally, Counts, settled}

pub uncounted : (n : ℕ) → Tally n 0 n
uncounted n = (omega arith, omega arith)

module _ (c : Client) (v : Server c) (f : Floats) (fuel : ℕ)
    (answers : (m : Option ℕ) (q : Text) (w : c.World) → Shorter fuel (v.sent m q w)) where
  -- Statements made between two states, nothing stored that is not freed.
  pub record Makes (qs : List Text) (s s' : State c) : Type 0 where
    pub log : v.log s'.world ≡ v.log s.world ++ qs
    pub held : v.held s'.world ≡ v.held s.world
    pub instances : s'.instances ≡ s.instances

  -- `catch_insert`.
  inserts :
      (n : ℕ) (q : Text) (s : State c)
      → (n' : ℕ) × (s' : State c) × (Generated.catch_insert c f n
            (Query.query_without_result c fuel q true)
            s
          ≡ (returned n', s'))
        × Tally n 1 n'
        × Makes (q ∷ []) s s'
  inserts n q s =
      let a = v.sent s.object.mysql q s.world in
      let (r, s', run, replies, asks) =
        query_without_result-Asks c v q fuel true s a refl (answers s.object.mysql q s.world) in
      let (n', counts, tally) = settled n a r replies in
      (
        n',
        s',
        caught r s' run n' counts,
        tally,
        record { log = asks.log; held = asks.held; instances = asks.instances },
      )
    where
      caught :
          (r : Outcome ℕ) (s' : State c)
          → Query.query_without_result c fuel q true s ≡ (r, s')
          → (n' : ℕ) → Counts n r n'
          → Generated.catch_insert c f n (Query.query_without_result c fuel q true) s
            ≡ (returned n', s')
      caught (returned k) s' run n' e = rw (run, e) refl
      caught (thrown k) s' run n' e = rw (run, e) refl
      caught Outcome.invalid s' run n' e = absurd e
      caught Outcome.no_fuel s' run n' e = absurd e

  silent : (s : State c) → Makes [] s s
  silent s = record { log = sym (append-nil _); held = refl; instances = refl }

  Makes-append :
      (p q : List Text) (s t u : State c) → Makes p s t → Makes q t u → Makes (p ++ q) s u
  Makes-append p q s t u h k = record {
    log = k.log ∙ ap (λ l. l ++ q) h.log ∙ append_assoc _ p q;
    held = k.held ∙ h.held;
    instances = k.instances ∙ h.instances;
  }

  -- What `store_maze` does to one maze.
  pub record StoresOne (connected : Bool) (g : Game) (n : ℕ) (s : State c) : Type 0 where
    pub count : ℕ
    pub final : State c
    pub run : Generated.store_maze c f fuel connected g.maze n s ≡ (returned count, final)
    pub makes : Makes (statements c f connected (g ∷ [])) s final
    pub tally : Tally n (length (statements c f connected (g ∷ []))) count

  pub store_maze-StoresOne :
      (connected : Bool) (g : Game) (n : ℕ) (s : State c) → StoresOne connected g n s
  unfolding Generated.store_maze Query.query_without_result_wide statements
  store_maze-StoresOne false g n s = record {
    count = n;
    final = s;
    run = refl;
    makes = silent s;
    tally = uncounted n;
  }
  store_maze-StoresOne true g n s = elim (Bool-cases (ltb 0 g.maze.min_intersections)) [
    | inl full ↦ elim (Bool-cases (f.above g.maze.best_route_coverage minimal_route_coverage)) [
      | inl covers ↦
          let (n', s', run, tally, makes) =
            inserts n (c.to_utf8 (Generated.insert_statement f g.maze)) s in
          record {
            count = n';
            final = s';
            run = rw (full, covers) run;
            makes = rw (full, covers) makes;
            tally = rw (full, covers) tally;
          }
      | inr short ↦ record {
        count = n;
        final = s;
        run = rw (full, short) refl;
        makes = rw (full, short) (silent s);
        tally = rw (full, short) (uncounted n);
      }
    ]
    | inr empty ↦ record {
      count = n;
      final = s;
      run = rw empty refl;
      makes = rw empty (silent s);
      tally = rw empty (uncounted n);
    }
  ]

  Tally-trans : (n k m k' m' : ℕ) → Tally n k m → Tally m k' m' → Tally n (k + k') m'
  Tally-trans n k m k' m' (a, b) (a', b') = (omega arith, omega arith)

  statements-cons :
      (connected : Bool) (g : Game) (gs : List Game)
      → statements c f connected (g ∷ gs)
        ≡ statements c f connected (g ∷ []) ++ statements c f connected gs
  unfolding statements
  statements-cons false g gs = refl
  statements-cons true g gs = elim (Bool-cases (is_worth f g.maze)) [
    | inl worth ↦ rw worth refl
    | inr not_worth ↦ rw not_worth refl
  ]

  -- What the loop does with the mazes that it generates.
  pub record Stores (connected : Bool) (gs : List Game) (n n' : ℕ) (s s' : State c) : Type 0 where
    pub log : v.log s'.world ≡ v.log s.world ++ statements c f connected gs
    pub held : v.held s'.world ≡ v.held s.world
    pub instances : s'.instances ≡ s.instances
    pub tally : Tally n (length (statements c f connected gs)) n'

  pub Stores-cons :
      (connected : Bool) (g : Game) (gs : List Game) (n n' : ℕ) (s s' : State c)
      → (h : StoresOne connected g n s) → Stores connected gs h.count n' h.final s'
      → Stores connected (g ∷ gs) n n' s s'
  Stores-cons connected g gs n n' s s' h k =
      let apart = statements-cons connected g gs in
      let first = statements c f connected (g ∷ []) in
      let rest = statements c f connected gs in
      let both =
        Makes-append first rest s h.final s' h.makes
          (record { log = k.log; held = k.held; instances = k.instances }) in
      record {
        log = both.log ∙ ap (λ q. v.log s.world ++ q) (sym apart);
        held = both.held;
        instances = both.instances;
        tally =
            subst (λ k. Tally n k n') (sym (length-append first rest) ∙ ap length (sym apart))
              (Tally-trans n (length first) h.count (length rest) n' h.tally k.tally);
      }
