-- ===== src/Mysql/Query/Results.antt =====
-- `CloseResult`: the rows that are left are taken first, and the result is freed.
use test.Prelude.{ℕ, zero, suc, ◌<◌, ◌≡◌, ◌∙◌, ◌⊎◌, refl, sym, ap, inl, inr, arith}
use test.Prelude.{List, ◌∷◌, true, false, Option, none, some}
use test.Prelude.Tests.{◌==◌, Bool-cases}
use mathlib.Core.Option.{some-injective}
use test.Mysql.Client.{Client, Text, Row}
use test.Mysql.Session.{Session, State, returned}
use test.Mysql.Query

abbrev without_row : Session → Session
without_row o = record o { row = none }

module _ (c : Client) (held : c.World → List ℕ) where
  -- What the loop of `close_result` leaves alone.
  pub record Skips (s s' : State c) : Type 0 where
    pub object : s'.object ≡ record s.object { row = none }
    pub instances : s'.instances ≡ s.instances
    pub holds : held s'.world ≡ held s.world

  Skips-object :
      (s t s' : State c)
      → t.object ≡ record s.object { row = t.object.row }
      → t.instances ≡ s.instances
      → held t.world ≡ held s.world
      → Skips t s'
      → Skips s s'
  Skips-object s t s' e i k h = record {
    object = h.object ∙ ap without_row e;
    instances = h.instances ∙ i;
    holds = h.holds ∙ k;
  }

abbrev forget : Session → Session
forget o = record o { result = none; fields = none; n_fields = 0 }

abbrev ending : Session → Option ℕ → Option (List Text) → ℕ → Session
ending o r f n = record o { row = none; result = r; fields = f; n_fields = n }

ending_eq :
    (o : Session) {r r' : Option ℕ} {f f' : Option (List Text)} {n n' : ℕ}
    → r ≡ r'
    → f ≡ f'
    → n ≡ n'
    → ending o r f n ≡ ending o r' f' n'
ending_eq o er ef en = cc

never_both : (p : ℕ) → none ≡ some p → ⊥
never_both p e = cc

-- What `close_result` does to the object, and to the results that are held in the library.
pub record Closed (c : Client) (held : c.World → List ℕ) (s s' : State c) : Type 0 where
  pub object : s'.object ≡ record s.object {
    row = none;
    result = none;
    fields = s'.object.fields;
    n_fields = s'.object.n_fields;
  }
  pub forgotten :
      (p : ℕ) → s.object.result ≡ some p → (s'.object.fields ≡ none) × (s'.object.n_fields ≡ 0)
  pub instances : s'.instances ≡ s.instances
  pub frees :
      (p : ℕ) (l : List ℕ) → s.object.result ≡ some p → held s.world ≡ p ∷ l → held s'.world ≡ l
  pub keeps : s.object.result ≡ none → held s'.world ≡ held s.world

freed :
    {c : Client} (held : c.World → List ℕ)
    (frees : (p : ℕ) (l : List ℕ) (w : c.World)
      → held w ≡ p ∷ l
      → held (c.free_result (some p) w) ≡ l)
    (fuel : ℕ) (s t : State c)
    → Query.skip_rows c fuel s ≡ (returned tt, t)
    → Skips c held s t
    → (o : Option ℕ) → s.object.result ≡ o
    → (s' : State c) × (Query.close_result c fuel s ≡ (returned 0, s')) × Closed c held s s'
unfolding Query.close_result
freed {c = c} held frees fuel s t run skips none e =
    let none_left : t.object.result ≡ none = ap (λ o. o.result) skips.object ∙ e in
    (
      t,
      rw (run, none_left),
      record {
        object =
            skips.object
            ∙ ending_eq s.object e (ap (λ o. o.fields) (sym skips.object))
                (ap (λ o. o.n_fields) (sym skips.object));
        forgotten = λ p e'. absurd (never_both p (sym e ∙ e'));
        instances = skips.instances;
        frees = λ p l e' h. absurd (never_both p (sym e ∙ e'));
        keeps = λ _. skips.holds;
      },
    )
freed {c = c} held frees fuel s t run skips (some p) e =
    let still : t.object.result ≡ some p = ap (λ o. o.result) skips.object ∙ e in
    (
      record t { object = forget t.object; world = c.free_result (some p) t.world },
      rw (run, still),
      record {
        object = ap forget skips.object;
        forgotten = λ _ _. (refl, refl);
        instances = skips.instances;
        frees = λ q l e' h.
            let same : p ≡ q = some-injective p q (sym e ∙ e') in
            frees p l t.world (skips.holds ∙ h ∙ ap (λ q. q ∷ l) (sym same));
        keeps = λ e'. absurd (never_both p (sym e' ∙ e));
      },
    )

-- The library has a number of rows left, one less when it has given one; `held` are the results that
-- it keeps for the program, the last one first.
module _ (c : Client) (remaining : c.World → ℕ)
    (counts : (p : ℕ) (w : c.World) (r : Row)
      → (c.fetch_row p w).0 ≡ some r
      → remaining (c.fetch_row p w).1 < remaining w)
    (held : c.World → List ℕ)
    (fetch_keeps : (p : ℕ) (w : c.World) → held (c.fetch_row p w).1 ≡ held w)
    (frees : (p : ℕ) (l : List ℕ) (w : c.World)
      → held w ≡ p ∷ l
      → held (c.free_result (some p) w) ≡ l) where
  -- What `next_row` says: a row is taken, or there is none.
  record Takes (s t : State c) : Type 0 where
    run : Query.next_row c false s ≡ (returned true, t)
    object : t.object ≡ record s.object { row = t.object.row }
    instances : t.instances ≡ s.instances
    fewer : remaining t.world < remaining s.world
    holds : held t.world ≡ held s.world

  record Ends (s t : State c) : Type 0 where
    run : Query.next_row c false s ≡ (returned false, t)
    skips : Skips c held s t

  fetched :
      (s : State c) (p : ℕ) (r : Option Row)
      → s.object.result ≡ some p
      → (c.fetch_row p s.world).0 ≡ r
      → ((t : State c) × Takes s t) ⊎ ((t : State c) × Ends s t)
  unfolding Query.next_row
  fetched s p none e er =
      let t : State c = record s {
        object = without_row s.object;
        world = (c.fetch_row p s.world).1;
      } in
      elim (Bool-cases (c.errno s.object.mysql (c.fetch_row p s.world).1 == 0)) [
        | inl fine ↦ inr (
          t,
          record {
            run = simp (e, er, fine);
            skips = record { object = refl; instances = refl; holds = fetch_keeps p s.world };
          },
        )
        | inr broken ↦ inr (
          t,
          record {
            run = simp (e, er, broken);
            skips = record { object = refl; instances = refl; holds = fetch_keeps p s.world };
          },
        )
      ]
  fetched s p (some r) e er =
      let w = (c.fetch_row p s.world).1 in
      elim (Bool-cases (c.errno s.object.mysql w == 0)) [
        | inl fine ↦ inl (
          record s { object = record s.object { row = some r }; world = w },
          record {
            run = simp (e, er, fine);
            object = refl;
            instances = refl;
            fewer = counts p s.world r er;
            holds = fetch_keeps p s.world;
          },
        )
        | inr broken ↦ inr (
          record s { object = without_row s.object; world = w },
          record {
            run = simp (e, er, broken);
            skips = record { object = refl; instances = refl; holds = fetch_keeps p s.world };
          },
        )
      ]

  next_row_cases :
      (s : State c) (o : Option ℕ)
      → s.object.result ≡ o
      → ((t : State c) × Takes s t) ⊎ ((t : State c) × Ends s t)
  unfolding Query.next_row
  next_row_cases s none e = inr (
    record s { object = without_row s.object },
    record { run = simp e; skips = record { object = refl; instances = refl; holds = refl } },
  )
  next_row_cases s (some p) e = fetched s p (c.fetch_row p s.world).0 e refl

  skip_rows-Skips :
      (fuel : ℕ) (s : State c)
      → remaining s.world < fuel
      → (s' : State c) × (Query.skip_rows c fuel s ≡ (returned tt, s')) × Skips c held s s'
  unfolding Query.skip_rows
  skip_rows-Skips zero s h = absurd (omega arith)
  skip_rows-Skips (suc fuel) s h = elim (next_row_cases s s.object.result refl) [
    | inl (t, k) ↦
        let (s', run, skips) = skip_rows-Skips fuel t (omega (arith, k.fewer)) in
        (s', rw k.run run, Skips-object c held s t s' k.object k.instances k.holds skips)
    | inr (t, k) ↦ (t, rw k.run refl, k.skips)
  ]

  -- If the library has one row less after each that it gives, keeps the results that it holds then,
  -- and drops the one that is freed, CloseResult, with more fuel than rows are left, returns 0 whether
  -- or not there was a result, and the object has no row and no result then. A result that there
  -- was, and that the library held as the last one, is held no more, the others are as before, and
  -- its fields are forgotten; without a result the library holds what it held. The other fields and
  -- the count of the objects stay.
  pub close_result-Closed :
      (fuel : ℕ) (s : State c)
      → remaining s.world < fuel
      → (s' : State c) × (Query.close_result c fuel s ≡ (returned 0, s')) × Closed c held s s'
  unfolding Query.close_result
  close_result-Closed fuel s h =
      let (t, run, skips) = skip_rows-Skips fuel s h in
      freed held frees fuel s t run skips s.object.result refl
