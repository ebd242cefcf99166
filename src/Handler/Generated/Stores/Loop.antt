-- ===== src/Handler/Generated/Stores/Loop.antt =====
-- The loop of `MZHandler::Go` as a whole.
use test.Prelude.{
  ℕ, zero, suc, ◌+◌, ◌*◌, ◌/◌, ◌≡◌, ◌∙◌, refl, sym, ap, subst, arith, Bool, true, false, List, ◌∷◌,
  Option, append-nil,
}
use test.Prelude.Results.{ok, Returns-value}
use test.Prelude.Draws.{Feeds, Feeds-two}
use test.Maze.Generate.Whole.{IsGenerated, generate_mz-Feeds}
use test.Maze.State.{Maze, construct}
use test.Maze.Generate
use test.Maze.Generate.{Game}
use test.Mysql.Client.{Client, Text}
use test.Mysql.Session.{State, returned}
use test.Mysql.Server.{Server}
use test.Mysql.Drain.Asks.{Shorter}
use test.Handler.Constants.{width, height}
use test.Handler.Generated
use test.Handler.Generated.{Floats}
use test.Handler.Generated.Stores.{games, statements, AreGenerated}
use test.Handler.Generated.Stores.Iteration.{Stores, Stores-cons, store_maze-StoresOne, uncounted}

generates :
    (raw : Maze) (draws : List ℕ) (t k : ℕ)
    → t ≡ 3 * (width * height / 2)
    → Feeds (suc (t + k)) draws
    → (g : Game) × (Generate.generate_mz (construct raw) width height draws ≡ ok g)
      × IsGenerated width height g
      × Feeds k g.draws
unfolding construct
generates raw draws t k e f =
    let (a, b, rest, first, fed) = Feeds-two (t + k) draws f in
    let (g, run, (gen, left_over)) =
      Returns-value (λ g. IsGenerated width height g × Feeds k g.draws) _
        (generate_mz-Feeds width height (construct raw) a b k rest refl (omega arith) (omega arith)
          (omega arith) (omega arith) (subst (λ t. Feeds (t + k) rest) e fed)) in
    (g, ap (Generate.generate_mz (construct raw) width height) first ∙ run, gen, left_over)

games-cons :
    (raw : ℕ → Maze) (left : ℕ) (draws : List ℕ) (g : Game)
    → Generate.generate_mz (construct (raw left)) width height draws ≡ ok g
    → games raw (suc left) draws ≡ g ∷ games raw left g.draws
unfolding games
games-cons raw left draws g run = rw (games, run) refl

module _ (c : Client) (v : Server c) (f : Floats) (fuel : ℕ)
    (answers : (m : Option ℕ) (q : Text) (w : c.World) → Shorter fuel (v.sent m q w)) where
  -- How the loop ends, with `left` iterations to go.
  pub record Completes (raw : ℕ → Maze) (connected : Bool) (left : ℕ) (draws : List ℕ) (n : ℕ)
      (s : State c) : Type 0 where
    pub count : ℕ
    pub final : State c
    pub run : Generated.generate_all c f fuel raw connected left draws n s ≡ (returned count, final)
    pub generated : AreGenerated left (games raw left draws)
    pub stores : Stores c v f fuel answers connected (games raw left draws) n count s final

  completes_none :
      (raw : ℕ → Maze) (connected : Bool) (draws : List ℕ) (n : ℕ) (s : State c)
      → Completes raw connected 0 draws n s
  unfolding Generated.generate_all games statements
  completes_none raw false draws n s = record {
    count = n;
    final = s;
    run = refl;
    generated = tt;
    stores = record {
      log = sym (append-nil _);
      held = refl;
      instances = refl;
      tally = uncounted n;
    };
  }
  completes_none raw true draws n s = record {
    count = n;
    final = s;
    run = refl;
    generated = tt;
    stores = record {
      log = sym (append-nil _);
      held = refl;
      instances = refl;
      tally = uncounted n;
    };
  }

  generate_all-cons :
      (raw : ℕ → Maze) (connected : Bool) (left : ℕ) (draws : List ℕ) (n n' : ℕ) (s s' : State c)
      (g : Game)
      → Generate.generate_mz (construct (raw left)) width height draws ≡ ok g
      → Generated.store_maze c f fuel connected g.maze n s ≡ (returned n', s')
      → Generated.generate_all c f fuel raw connected (suc left) draws n s
        ≡ Generated.generate_all c f fuel raw connected left g.draws n' s'
  unfolding Generated.generate_all
  generate_all-cons raw connected left draws n n' s s' g run stores =
      rw (Generated.generate_all, run, stores) refl

  completes :
      (t : ℕ)
      → t ≡ 3 * (width * height / 2)
      → (raw : ℕ → Maze) (connected : Bool) (left : ℕ) (draws : List ℕ) (n : ℕ) (s : State c)
      → Feeds ((t + 1) * left) draws
      → Completes raw connected left draws n s
  completes t e raw connected zero draws n s fed = completes_none raw connected draws n s
  completes t e raw connected (suc left) draws n s fed =
      let split : (t + 1) * suc left ≡ suc (t + (t + 1) * left) = omega arith in
      let (g, run, gen, fed') =
        generates (raw left) draws t ((t + 1) * left) e (subst (λ k. Feeds k draws) split fed) in
      let cons = games-cons raw left draws g run in
      let one = store_maze-StoresOne c v f fuel answers connected g n s in
      let rest = completes t e raw connected left g.draws one.count one.final fed' in
      record {
        count = rest.count;
        final = rest.final;
        run =
            generate_all-cons raw connected left draws n one.count s one.final g run one.run
            ∙ rest.run;
        generated = subst (AreGenerated (suc left)) (sym cons) (gen, rest.generated);
        stores =
            subst (λ gs. Stores c v f fuel answers connected gs n rest.count s rest.final)
              (sym cons)
              (Stores-cons c v f fuel answers connected g (games raw left g.draws) n rest.count s
                rest.final one rest.stores);
      }

module _ (c : Client) (v : Server c) (f : Floats) (fuel : ℕ) where
  -- If the server answers each query, by a refusal or by replies of which less than the fuel lie
  -- behind the first, and the draws are enough, for each iteration one, and for each of the tries of
  -- the generator one and then some that name each side, the loop makes all its iterations and
  -- returns. Each maze that it generates is well-formed and reachable everywhere, and its left and
  -- right borders are closed but at the entrance and the exit; the queries that it makes are the
  -- insertions, in UTF-8, of those mazes that have a wall at each post and a route above the bound,
  -- in their order and each once, and none without a connection. The count grows by at most one for
  -- each of them. Every result is freed.
  pub generate_all-Completes :
      (answers : (m : Option ℕ) (q : Text) (w : c.World) → Shorter fuel (v.sent m q w))
      (raw : ℕ → Maze) (connected : Bool) (left : ℕ) (draws : List ℕ) (n : ℕ) (s : State c)
      → Feeds ((3 * (width * height / 2) + 1) * left) draws
      → Completes c v f fuel answers raw connected left draws n s
  generate_all-Completes answers raw connected left draws n s fed =
      completes c v f fuel answers (3 * (width * height / 2)) refl raw connected left draws n s fed
