-- ===== src/Results.antt =====
-- QueryResult of redash/models.py: storing results, and finding the latest.
pub mod Stored
pub mod Stale
use redash.Prelude.{
  ℕ, zero, suc, ◌+◌, ◌-◌, ◌*◌, ◌/◌, ◌%◌, ◌^◌, ◌≤◌, ◌<◌, min, max, String, ◌≡◌, refl, sym, ap, ◌∙◌,
  subst, ◌≢◌, ◌↔◌, ◌⊎◌, inl, inr, Bool, true, false, ◌&&◌, ◌||◌, not, Option, none, some, List, [],
  ◌∷◌, ◌++◌, map, arith, ltb, leb, nat_beq, if◌then◌else◌, ltb→lt, lt→ltb, leb→le, nat_beq_iff,
  tests, Eq, ◌==◌, nat_eq, string_eq, list_eq, option_eq, list_beq_iff, option_beq_iff, Bool-cases,
  Option-cases, is_some, length, take, drop, select, find, any, all, length-append,
  length-select-le, any-append, contains, contains-append, reject, update, option_all-find,
  insert_by, sort_by, any-sort_by, any-select, pair_eq, pair_beq_iff, option_all, any-reject_self,
  length-update, without_first, count, count-without_first, count-without_first_ne, contains-eq-ltb,
  Assoc, lookup, insert, remove, lookup-insert, lookup-remove,
}
use redash.Tables.{QueryResult, Query, QueryResultSet, Db}

-- The filter of `store_result`: the queries with this hash on this data source.
abbrev pub runs_as : String → ℕ → Query → Bool
runs_as query_hash data_source_id q =
    q.query_hash == query_hash && q.data_source_id == some data_source_id

-- `q.schedule_resultset_size > 0`, which None is not.
abbrev pub keeps_results : Query → Bool
keeps_results q = elim q.schedule_resultset_size [ none ↦ false | some n ↦ ltb 0 n ]

unfoldable pub link_all : ℕ → List Query → List QueryResultSet
link_all result_id [] = []
link_all result_id (q ∷ qs) =
    let rest = link_all result_id qs in
    if keeps_results q then record { query_id = q.id; result_id = result_id } ∷ rest else rest

-- QueryResult.store_result: the new row, and the ids of the queries that it is the latest result of.
unfoldable pub store_result : ℕ → ℕ → String → String → Option String → ℕ → ℕ → Db → ℕ × List ℕ × Db
unfolding link_all
store_result org data_source_id query_hash query_text data_text run_time retrieved_at db =
    let id = db.next_id in
    let queries = select (runs_as query_hash data_source_id) db.queries in
    (
      id,
      map (λ (q : Query). q.id) queries,
      record db {
        query_results =
            db.query_results
            ++ record {
              id = id;
              org_id = org;
              data_source_id = data_source_id;
              query_hash = query_hash;
              query_text = query_text;
              data_text = data_text;
              runtime = run_time;
              retrieved_at = retrieved_at;
            }
              ∷ [];
        queries =
            update (runs_as query_hash data_source_id)
              (λ q. record q { latest_query_data_id = some id }) db.queries;
        query_resultsets = db.query_resultsets ++ link_all id queries;
        next_id = suc db.next_id;
      },
    )

-- The row with the latest `retrieved_at`, as ORDER BY ... DESC and `first()` give it.
unfoldable pub latest : List QueryResult → Option QueryResult
latest [] = none
latest (r ∷ rs) = later r (latest rs)
  where
    later : QueryResult → Option QueryResult → Option QueryResult
    later r none = some r
    later r (some s) = if ltb r.retrieved_at s.retrieved_at then some s else some r

-- QueryResult.get_latest. `max_age` is in seconds, `none` for -1, which stands for any age.
unfoldable pub get_latest : ℕ → String → Option ℕ → ℕ → List QueryResult → Option QueryResult
unfolding latest
get_latest data_source_id query_hash max_age now results =
    let same =
      λ (r : QueryResult). r.query_hash == query_hash && r.data_source_id == data_source_id in
    latest (elim max_age [
      | none ↦ select same results
      | some age ↦ select (λ r. same r && leb now (r.retrieved_at + age * 1_000_000)) results
    ])
