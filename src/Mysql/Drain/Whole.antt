-- ===== src/Mysql/Drain/Whole.antt =====
-- The loop of `QueryWithoutResult` as a whole, against the replies of a server.
use test.Prelude.{ℕ, zero, suc, ◌<◌, ◌≡◌, ◌∙◌, ap, subst, arith, Bool, Option}
use test.Mysql.Client.{Client}
use test.Mysql.Session.{State, Outcome}
use test.Mysql.Query
use test.Mysql.Query.{more, done, failed, next_of}
use test.Mysql.Server.{Reply, rows, effect, lost, Script, last, next, current, size, Server}
use test.Mysql.Drain.{
  Verdict, unstored, ended, verdict, taken, left_over, Says, Moves, Moves-same, Moves-result,
  Moves-trans, go_on-next, go_on-last,
}
use test.Mysql.Drain.Round.{Takes, Takes-rows, Takes-effect, drain-lost}

module _ (c : Client) (v : Server c) where
  -- How the loop ends from a state, by a verdict and a result that is left.
  pub record Drains (fuel : ℕ) (exception : Bool) (g : Verdict) (q : Option ℕ) (s : State c)
      : Type 0 where
    pub result : Outcome ℕ
    pub final : State c
    pub run : Query.drain c fuel exception s ≡ (result, final)
    pub says : Says exception g result
    pub moves : Moves c v q s final

  -- A result that cannot be stored.
  Drains-lost :
      (fuel : ℕ) (exception : Bool) (s : State c)
      → current (v.script s.object.mysql s.world) ≡ lost
      → Drains (suc fuel) exception unstored s.object.result s
  Drains-lost fuel exception s e =
      let (r, u, run, says, moves) = drain-lost c v fuel exception s e in
      record { result = r; final = u; run = run; says = says; moves = moves }

  -- The last reply, taken.
  Drains-last :
      (fuel : ℕ) (exception : Bool) (s s' : State c) (y : Reply) (b : Bool)
      → v.script s.object.mysql s.world ≡ last y b
      → Takes c v fuel exception y s s'
      → Drains (suc fuel) exception (ended b) (taken y s.object.result) s
  Drains-last fuel exception s s' y b e k =
      let e' : v.script s'.object.mysql s'.world ≡ last y b =
        ap (λ m. v.script m s'.world) (Moves-same c v s s' k.moves) ∙ k.script ∙ e in
      let (r, u, run, says, moves) =
        go_on-last c v exception (Query.drain c fuel exception) s' y b e' in
      record {
        result = r;
        final = u;
        run = k.run ∙ run;
        says = says;
        moves =
            subst (λ q. Moves c v q s u) (Moves-result c v s s' k.moves)
              (Moves-trans c v s s' u k.moves moves);
      }

  -- A reply that is not the last, taken.
  Drains-next :
      (fuel : ℕ) (exception : Bool) (s s' : State c) (y : Reply) (t : Script)
      → v.script s.object.mysql s.world ≡ next y t
      → Takes c v fuel exception y s s'
      → ((u : State c)
          → v.script u.object.mysql u.world ≡ t
          → Drains fuel exception (verdict t) (left_over t u.object.result) u)
      → Drains (suc fuel) exception (verdict t) (left_over t (taken y s.object.result)) s
  Drains-next fuel exception s s' y t e k rest =
      let e' : v.script s'.object.mysql s'.world ≡ next y t =
        ap (λ m. v.script m s'.world) (Moves-same c v s s' k.moves) ∙ k.script ∙ e in
      let (u, run, moves, e'') =
        go_on-next c v exception (Query.drain c fuel exception) s' y t e' in
      let d = rest u (ap (λ m. v.script m u.world) (Moves-same c v s' u moves) ∙ e'') in
      let result : u.object.result ≡ taken y s.object.result =
        Moves-result c v s' u moves ∙ Moves-result c v s s' k.moves in
      record {
        result = d.result;
        final = d.final;
        run = k.run ∙ run ∙ d.run;
        says = d.says;
        moves =
            subst (λ q. Moves c v (left_over t q) s d.final) result
              (Moves-trans c v s u d.final (Moves-trans c v s s' u k.moves moves) d.moves);
      }

  pub drain-Drains :
      (fuel : ℕ) (exception : Bool) (t : Script) (s : State c)
      → v.script s.object.mysql s.world ≡ t
      → size t < fuel
      → Drains fuel exception (verdict t) (left_over t s.object.result) s
  drain-Drains zero exception t s e h = absurd (omega arith)
  drain-Drains (suc fuel) exception (last lost b) s e h =
      Drains-lost fuel exception s (ap current e)
  drain-Drains (suc fuel) exception (next lost t) s e h =
      Drains-lost fuel exception s (ap current e)
  drain-Drains (suc fuel) exception (last (rows p) b) s e h =
      let (s', k) = Takes-rows c v fuel exception s p (ap current e) in
      Drains-last fuel exception s s' (rows p) b e k
  drain-Drains (suc fuel) exception (last effect b) s e h =
      let (s', k) = Takes-effect c v fuel exception s (ap current e) in
      Drains-last fuel exception s s' effect b e k
  drain-Drains (suc fuel) exception (next (rows p) t) s e h =
      let (s', k) = Takes-rows c v fuel exception s p (ap current e) in
      Drains-next fuel exception s s' (rows p) t e k
        (λ u e'. drain-Drains fuel exception t u e' (omega arith))
  drain-Drains (suc fuel) exception (next effect t) s e h =
      let (s', k) = Takes-effect c v fuel exception s (ap current e) in
      Drains-next fuel exception s s' effect t e k
        (λ u e'. drain-Drains fuel exception t u e' (omega arith))
