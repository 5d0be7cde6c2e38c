-- ===== src/Tasks/Refresh.antt =====
-- refresh_queries of redash/tasks/queries.py.
pub mod Refreshed
use redash.Prelude.{
  ℕ, zero, suc, ◌+◌, ◌-◌, ◌*◌, ◌/◌, ◌%◌, ◌^◌, ◌≤◌, ◌<◌, min, max, String, ◌≡◌, refl, sym, ap, ◌∙◌,
  subst, ◌≢◌, ◌↔◌, ◌⊎◌, inl, inr, Bool, true, false, ◌&&◌, ◌||◌, not, Option, none, some, List, [],
  ◌∷◌, ◌++◌, map, arith, ltb, leb, nat_beq, if◌then◌else◌, ltb→lt, lt→ltb, leb→le, nat_beq_iff,
  tests, Eq, ◌==◌, nat_eq, string_eq, list_eq, option_eq, list_beq_iff, option_beq_iff, Bool-cases,
  Option-cases, is_some, length, take, drop, select, find, any, all, length-append,
  length-select-le, any-append, contains, contains-append, reject, update, option_all-find,
  insert_by, sort_by, any-sort_by, any-select, pair_eq, pair_beq_iff, option_all, any-reject_self,
  length-update, without_first, count, count-without_first, count-without_first_ne, contains-eq-ltb,
  Assoc, lookup, insert, remove, lookup-insert, lookup-remove,
}
use redash.Tables.{DataSource, Query, Db}
use redash.Schedule.Clock.{Checked, ok, raise, ◌>>=◌}
use redash.Schedule.Outdated.{Context, Key, outdated_queries}
use redash.Tasks.Enqueue.{Broker, Call, enqueue_query}

-- FEATURE_DISABLE_REFRESH_QUERIES, which organizations are disabled, which data sources are paused (in
-- Redis), the parameters in a query's options, pystache's `render` and `gen_query_hash`.
pub record Settings : Type 0 where
  pub disable_refresh_queries : Bool
  pub is_disabled : ℕ → Bool
  pub paused : ℕ → Bool
  pub parameters : String → List (String × String)
  pub render : String → List (String × String) → String
  pub gen_query_hash : String → String

-- What `redash:status` is set to.
pub record Status : Type 0 where
  pub outdated_queries_count : ℕ
  pub last_refresh_at : ℕ
  pub query_ids : List ℕ

-- The data source of a query that is not skipped.
unfoldable pub refreshable : Settings → Db → Query → Option DataSource
refreshable s db q =
    if s.disable_refresh_queries || s.is_disabled q.org_id then none else elim q.data_source_id [
      | none ↦ none
      | some id ↦ elim (find (λ d. d.id == id) db.data_sources) [
        | none ↦ none
        | some ds ↦ if s.paused ds.id then none else some ds
      ]
    ]

unfoldable pub text_of : Settings → Query → String
text_of s q =
    let parameters = s.parameters q.options in
    if ltb 0 (length parameters) then s.render q.query_text parameters else q.query_text

unfoldable pub call_of : Settings → ℕ → DataSource → Query → Call
unfolding text_of
call_of s now ds q = record {
  query_text = text_of s q;
  query_hash = s.gen_query_hash (text_of s q);
  data_source = ds;
  user_id = q.user_id;
  scheduled_query_id = some q.id;
  query_id = some q.id;
  time_limit = none;
  now = now;
}

-- The loop: the ids of the queries for which a task was asked, undisturbed by other clients.
unfoldable pub refresh : Settings → ℕ → Db → List Query → Broker → List ℕ × Broker
unfolding refreshable call_of
refresh s now db [] b = ([], b)
refresh s now db (q ∷ qs) b = elim (refreshable s db q) [
  | none ↦ refresh s now db qs b
  | some ds ↦
      let (job, b1) = enqueue_query (call_of s now ds q) [] b in
      let (ids, b2) = refresh s now db qs b1 in (q.id ∷ ids, b2)
]

unfoldable pub refresh_queries : Settings → Context → Db → Broker → Checked (Status × Broker)
unfolding refresh
refresh_queries s c db b = outdated_queries c db.queries >>= λ found.
    let (ids, b') = refresh s c.now db (map (λ (p : Key × Query). p.1) found) b in
    ok
      (record { outdated_queries_count = length ids; last_refresh_at = c.now; query_ids = ids }, b')
