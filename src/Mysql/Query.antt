-- ===== src/Mysql/Query.antt =====
-- Queries (Test00/xmysql.cpp): `QueryWithoutResult`, `Query`, `StoredProcedureWithOneResultSet`,
-- `NextRow` and `CloseResult`. Messages to the debugger are left out.
pub mod Results
use test.Prelude.{ℕ, zero, suc, Bool, true, false, Option, none, some, List}
use test.Prelude.Tests.{◌==◌, if◌then◌else◌}
use test.Prelude.Lists.{length}
use test.Prelude.Int.{ℤ, pos, negsuc}
use test.Mysql.Client.{Client, Text, Row}
use test.Mysql.Session.{
  M, no_fuel, pure, ◌>>=◌, ◌>>◌, get, put, call, run, ask, throw, start_timer, get_elapsed_time,
}
use test.Prelude.Text.{text}

-- What an `int` result of `mysql_next_result` says.
pub data Next : Type 0 where
  more done failed : Next

abbrev pub next_of : ℤ → Next
next_of (pos zero) = more
next_of (pos (suc n)) = failed
next_of (negsuc zero) = done
next_of (negsuc (suc n)) = failed

module _ (c : Client) where
  -- `m_sQueryPrev = m_sQuery; m_sQuery = szQuery;` and the timed call of `mysql_query`.
  unfoldable pub send_query : Text → M c ℕ
  unfolding start_timer get_elapsed_time
  send_query q = do
    o ← get
    put (record o { query_prev = o.query; query = q })
    start_timer c
    o ← get
    n ← call c (c.query o.mysql q)
    get_elapsed_time c
    pure n

  -- The end of a round: `mysql_next_result`, and whether the loop goes on (`again`).
  unfoldable pub go_on : Bool → M c ℕ → M c ℕ
  unfolding start_timer get_elapsed_time throw
  go_on exception again = do
    start_timer c
    o ← get
    n ← call c (c.next_result o.mysql)
    get_elapsed_time c
    elim (next_of n) [
      | more ↦ again
      | done ↦ pure 1
      | failed ↦
          if exception
          then throw c (text "XMySQL::QueryWithoutResult() mysql_next_result")
          else pure 0
    ]

  -- The loop that takes and frees every result. The result of the method is `iResult`: it stays 1
  -- when `mysql_store_result` fails with no exception wanted.
  unfoldable pub drain : ℕ → Bool → M c ℕ
  unfolding go_on start_timer get_elapsed_time throw
  drain zero exception s = (no_fuel, s)
  drain (suc fuel) exception s =
      (do
        start_timer c
        o ← get
        r ← call c (c.store_result o.mysql)
        get_elapsed_time c
        o ← get
        elim r [
          | some p ↦ do
            run c (c.free_result (some p))
            put (record o { result = none })
            go_on exception (drain fuel exception)
          | none ↦ do
            n ← ask c (c.field_count o.mysql)
            if n == 0
                then go_on exception (drain fuel exception)
                else if exception
                then throw c (text "XMySQL::QueryWithoutResult() mysql_store_result")
                else pure 1
        ])
        s

  unfoldable pub query_without_result : ℕ → Text → Bool → M c ℕ
  unfolding send_query drain throw
  query_without_result fuel q exception = do
    n ← send_query q
    if n == 0
        then drain fuel exception
        else if exception
        then throw c (text "XMySQL::QueryWithoutResult() mysql_query")
        else pure 0

  unfoldable pub query_without_result_wide : ℕ → List ℕ → Bool → M c ℕ
  unfolding query_without_result
  query_without_result_wide fuel q exception = query_without_result fuel (c.to_utf8 q) exception

  -- `m_pResult = mysql_store_result(m_pMySQL)` and the three assignments that follow a result.
  unfoldable pub keep_result : Text → Bool → M c ℕ
  unfolding start_timer get_elapsed_time throw
  keep_result place exception = do
    start_timer c
    o ← get
    r ← call c (c.store_result o.mysql)
    get_elapsed_time c
    o ← get
    put (record o { result = r })
    elim r [
      | some p ↦ do
        fields ← ask c (c.fetch_fields p)
        rows ← ask c (c.num_rows p)
        o ← get
        put (record o { fields = some fields; n_fields = length fields; n_rows = rows })
        pure 1
      | none ↦ do
        e ← ask c (c.errno o.mysql)
        if e == 0 then pure 1 else if exception then throw c place else pure 0
    ]

  unfoldable pub query : Text → Bool → M c ℕ
  unfolding send_query keep_result throw
  query q exception = do
    n ← send_query q
    if n == 0
        then keep_result (text "XMySQL::Query() mysql_store_result") exception
        else if exception
        then throw c (text "XMySQL::Query() mysql_query")
        else pure 0

  unfoldable pub query_wide : List ℕ → Bool → M c ℕ
  unfolding query
  query_wide q exception = query (c.to_utf8 q) exception

  -- `while (mysql_next_result(m_pMySQL) > 0)`.
  unfoldable pub skip_errors : ℕ → M c (Unit {0})
  skip_errors zero s = (no_fuel, s)
  skip_errors (suc fuel) s =
      (do
        o ← get
        n ← call c (c.next_result o.mysql)
        elim n [
          | pos k ↦ elim k [ zero ↦ pure tt | suc _ ↦ skip_errors fuel ]
          | negsuc _ ↦ pure tt
        ])
        s

  unfoldable pub stored_procedure_with_one_result_set : ℕ → Text → Bool → M c ℕ
  unfolding send_query keep_result skip_errors throw
  stored_procedure_with_one_result_set fuel q exception = do
    n ← send_query q
    if n == 0
        then (do
          r ←
              keep_result (text "XMySQL::StoredProcedureWithOneResultSet() mysql_store_result")
                exception
          skip_errors fuel
          pure r)
        else if exception
        then throw c (text "XMySQL::StoredProcedureWithOneResultSet() mysql_query")
        else pure 0

  unfoldable pub stored_procedure_with_one_result_set_wide : ℕ → List ℕ → Bool → M c ℕ
  unfolding stored_procedure_with_one_result_set
  stored_procedure_with_one_result_set_wide fuel q exception =
      stored_procedure_with_one_result_set fuel (c.to_utf8 q) exception

  abbrev is_some : Option Row → Bool
  is_some none = false
  is_some (some r) = true

  -- `NextRow`: whether there is a row, which is then the current one.
  unfoldable pub next_row : Bool → M c Bool
  unfolding throw
  next_row exception = get >>= λ o. elim o.result [
    | none ↦ do put (record o { row = none }); pure false
    | some p ↦ do
      r ← call c (c.fetch_row p)
      put (record o { row = r })
      e ← ask c (c.errno o.mysql)
      if e == 0
          then pure (is_some r)
          else if exception
          then throw c (text "XMySQL::NextRow() mysql_fetch_row")
          else (put (record o { row = none }) >> pure false)
  ]

  -- `while (NextRow(false));`
  unfoldable pub skip_rows : ℕ → M c (Unit {0})
  unfolding next_row
  skip_rows zero s = (no_fuel, s)
  skip_rows (suc fuel) s =
      (next_row false >>= λ b. elim b [ true ↦ skip_rows fuel | false ↦ pure tt ]) s

  unfoldable pub close_result : ℕ → M c ℕ
  unfolding skip_rows
  close_result fuel = do
    skip_rows fuel
    o ← get
    elim o.result [
      | none ↦ pure 0
      | some p ↦ do
        run c (c.free_result (some p))
        put (record o { result = none; fields = none; n_fields = 0 })
        pure 0
    ]
