-- ===== src/Results/Stale.antt =====
-- The clean-up of results: QueryResult.unused and Query.delete_stale_resultsets of redash/models.py, and
-- cleanup_query_results of redash/tasks/queries.py.
pub mod Trimmed
use mathlib.Core.List.{reverse}
use redash.Prelude.{
  ℕ, zero, suc, ◌+◌, ◌-◌, ◌*◌, ◌/◌, ◌%◌, ◌^◌, ◌≤◌, ◌<◌, min, max, String, ◌≡◌, refl, sym, ap, ◌∙◌,
  subst, ◌≢◌, ◌↔◌, ◌⊎◌, inl, inr, Bool, true, false, ◌&&◌, ◌||◌, not, Option, none, some, List, [],
  ◌∷◌, ◌++◌, map, arith, ltb, leb, nat_beq, if◌then◌else◌, ltb→lt, lt→ltb, leb→le, nat_beq_iff,
  tests, Eq, ◌==◌, nat_eq, string_eq, list_eq, option_eq, list_beq_iff, option_beq_iff, Bool-cases,
  Option-cases, is_some, length, take, drop, select, find, any, all, length-append,
  length-select-le, any-append, contains, contains-append, reject, update, option_all-find,
  insert_by, sort_by, any-sort_by, any-select, pair_eq, pair_beq_iff, option_all, any-reject_self,
  length-update, without_first, count, count-without_first, count-without_first_ne, contains-eq-ltb,
  Assoc, lookup, insert, remove, lookup-insert, lookup-remove,
}
use redash.Tables.{QueryResult, Query, QueryResultSet, Db}

-- `schedule_resultset_size`, which is set where it is read.
abbrev pub size_of : Query → ℕ
size_of q = elim q.schedule_resultset_size [ none ↦ 0 | some n ↦ n ]

-- The results that a query keeps, by their ids, the oldest first.
unfoldable pub result_ids : ℕ → Db → List ℕ
result_ids query_id db =
    map (λ (s : QueryResultSet). s.result_id)
      (sort_by (λ s. s.result_id) (select (λ s. s.query_id == query_id) db.query_resultsets))

-- The first of them, as many as are too many.
unfoldable pub stale_ids : Query → Db → List ℕ
unfolding result_ids
stale_ids q db = let ids = result_ids q.id db in take (length ids - size_of q) ids

unfoldable pub delete_resultsets : List ℕ → Db → Db
delete_resultsets ids db = record db {
  query_resultsets = reject (λ s. contains ids s.result_id) db.query_resultsets;
}

abbrev pub is_latest : List ℕ → Query → Bool
is_latest ids q = elim q.latest_query_data_id [ none ↦ false | some id ↦ contains ids id ]

-- DELETE of results: how many, or `none` where the database refuses it, since a query has one of them as its latest
-- result or a query keeps one (the foreign keys Query.latest_query_data_id and QueryResultSet.result_id).
unfoldable pub delete_results : List ℕ → Db → Option (ℕ × Db)
delete_results ids db =
    if any (is_latest ids) db.queries || any (λ s. contains ids s.result_id) db.query_resultsets
    then none
    else some (
      length (select (λ r. contains ids r.id) db.query_results),
      record db { query_results = reject (λ r. contains ids r.id) db.query_results },
    )

-- The query that keeps the most results: those that are too many go, and their rows for every query.
unfoldable pub trim_first : Query → Db → Option (ℕ × Db)
unfolding stale_ids delete_resultsets delete_results
trim_first q db =
    let ids = stale_ids q db in
    if size_of q == 0 || leb (length (result_ids q.id db)) (size_of q)
    then some (0, db)
    else delete_results ids (delete_resultsets ids db)

-- One of the other queries.
unfoldable pub trim_other : Query → Db → Db
unfolding stale_ids delete_resultsets
trim_other q db =
    if leb (length (result_ids q.id db)) (size_of q)
    then db
    else delete_resultsets (stale_ids q db) db

unfoldable pub trim_others : List Query → Db → Db
unfolding trim_other
trim_others [] db = db
trim_others (q ∷ qs) db = trim_others qs (trim_other q db)

abbrev keeps_some : Query → Bool
keeps_some q = is_some q.schedule_resultset_size

-- The queries with a text, the one that keeps the most results first.
unfoldable pub queries_of : String → Db → List Query
queries_of text db =
    reverse (sort_by size_of (select (λ q. q.query_text == text && keeps_some q) db.queries))

unfoldable pub trim_queries : List Query → Db → Option (ℕ × Db)
unfolding trim_first trim_others
trim_queries [] db = some (0, db)
trim_queries (q ∷ qs) db = elim (trim_first q db) [
  | none ↦ none
  | some (n, db') ↦ some (n, trim_others qs db')
]

-- Two deletions in a row, whose numbers add up.
abbrev pub add_to : ℕ → Option (ℕ × Db) → Option (ℕ × Db)
add_to n none = none
add_to n (some (m, db)) = some (n + m, db)

unfoldable pub then_add : Option (ℕ × Db) → (Db → Option (ℕ × Db)) → Option (ℕ × Db)
then_add none f = none
then_add (some (n, db)) f = add_to n (f db)

unfoldable pub trim_texts : List String → Db → Option (ℕ × Db)
unfolding trim_queries queries_of then_add
trim_texts [] db = some (0, db)
trim_texts (text ∷ texts) db =
    then_add (trim_queries (queries_of text db) db) (λ db'. trim_texts texts db')

-- The different texts, each once.
unfoldable pub distinct : List String → List String
distinct [] = []
distinct (t ∷ ts) = let rest = distinct ts in if contains ts t then rest else t ∷ rest

unfoldable pub delete_stale_resultsets : Db → Option (ℕ × Db)
unfolding trim_texts distinct
delete_stale_resultsets db =
    trim_texts (distinct (map (λ (q : Query). q.query_text) (select keeps_some db.queries))) db

-- QueryResult.unused
unfoldable pub is_unused : ℕ → Db → QueryResult → Bool
is_unused age_threshold db r =
    ltb r.retrieved_at age_threshold
    && (not (any (λ q. q.latest_query_data_id == some r.id) db.queries)
        && not (any (λ s. s.result_id == r.id) db.query_resultsets))

unfoldable pub unused : ℕ → Db → List ℕ
unused age_threshold db =
    map (λ (r : QueryResult). r.id) (select (is_unused age_threshold db) db.query_results)

-- The first deletion of cleanup_query_results, of the results that are not used.
unfoldable pub delete_unused : ℕ → ℕ → Db → Option (ℕ × Db)
unfolding unused delete_results
delete_unused age_threshold limit db = delete_results (take limit (unused age_threshold db)) db

-- cleanup_query_results; `limit` is QUERY_RESULTS_CLEANUP_COUNT.
unfoldable pub cleanup_query_results : ℕ → ℕ → Db → Option (ℕ × Db)
unfolding then_add delete_unused delete_stale_resultsets
cleanup_query_results age_threshold limit db =
    then_add (delete_unused age_threshold limit db) delete_stale_resultsets
