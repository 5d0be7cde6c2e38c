-- ===== src/Schedule/Outdated.antt =====
-- `Query.outdated_queries` of redash/models.py: which scheduled queries are to be refreshed.
use redash.Prelude.{
  ℕ, ◌+◌, ◌*◌, ◌^◌, ◌≤◌, String, ◌≡◌, refl, ◌∙◌, ◌≢◌, Bool, true, false, ◌&&◌, ◌||◌, Option, none,
  some, List, [], ◌∷◌, arith, ltb, leb, if◌then◌else◌, ◌==◌, nat_eq, string_eq, list_eq, option_eq,
  is_some, select, find, any, sort_by, any-sort_by, any-select, pair_eq, option_all, Assoc, lookup,
  insert, lookup-insert,
}
use redash.Tables.{QueryResult, Query}
use redash.Schedule.Clock.{Checked, ok, raise, ◌>>=◌, minute, end_of_time}
use redash.Schedule.{should_schedule_next}
use redash.Schedule.Backoff.{failures_overflow}

-- What the loop reads: the stored results, the hash `sq:executed_at` of ScheduledQueriesExecutions as
-- `refresh` loads it, the application's time and the database's.
pub record Context : Type 0 where
  pub query_results : List QueryResult
  pub executions : Assoc ℕ ℕ
  pub now : ℕ
  pub db_now : ℕ

-- The filter of the SELECT.
unfoldable pub is_scheduled : ℕ → Query → Bool
is_scheduled db_now q =
    is_some q.schedule && (elim q.schedule_until [ none ↦ true | some t ↦ ltb db_now t ])

-- `query.latest_query_data`
unfoldable pub latest_query_data : List QueryResult → Query → Option QueryResult
latest_query_data results q = elim q.latest_query_data_id [
  | none ↦ none
  | some id ↦ find (λ r. r.id == id) results
]

-- `retrieved_at`: the last scheduled execution, or else the time of the latest result, or else now.
unfoldable pub last_run : Context → Query → ℕ
unfolding latest_query_data
last_run c q = elim (lookup q.id c.executions) [
  | some t ↦ t
  | none ↦ elim (latest_query_data c.query_results q) [ some r ↦ r.retrieved_at | none ↦ c.now ]
]

unfoldable pub check : Context → Query → Checked Bool
unfolding last_run
check c q = elim q.schedule [
  | none ↦ ok false
  | some schedule ↦ should_schedule_next (last_run c q) c.now schedule q.schedule_failures
]

-- The key `"{}:{}".format(query.query_hash, query.data_source_id)`, as the pair that it prints.
abbrev pub Key : Type 0
Key = String × Option ℕ

abbrev pub key : Query → Key
key q = (q.query_hash, q.data_source_id)

unfoldable pub collect : Context → List Query → Assoc Key Query → Checked (Assoc Key Query)
collect c [] found = ok found
collect c (q ∷ qs) found =
    check c q >>= λ due. collect c qs (if due then insert (key q) q found else found)

unfoldable pub outdated_queries : Context → List Query → Checked (Assoc Key Query)
unfolding collect is_scheduled
outdated_queries c queries =
    collect c (sort_by (λ q. q.id) (select (is_scheduled c.db_now) queries)) []

abbrev pub is_true : Checked Bool → Bool
is_true (ok true) = true
is_true _ = false

abbrev is_raise : Checked Bool → Bool
is_raise (raise _) = true
is_raise (ok _) = false

unfoldable pub is_outdated : Context → Key → Query → Bool
is_outdated c k q = is_scheduled c.db_now q && (is_true (check c q) && key q == k)

module _ (c : Context) (k : Key) where
  abbrev due : Query → Bool
  due q = is_true (check c q) && key q == k

  abbrev has : Assoc Key Query → Bool
  has m = is_some (lookup k m)

  -- What is found under the key is due and has the key.
  abbrev is_right : Assoc Key Query → Bool
  is_right m = option_all due (lookup k m)

  collect-lookup :
      (qs : List Query) (found m : Assoc Key Query)
      → collect c qs found ≡ ok m
      → is_right found ≡ true
      → (has m ≡ (has found || any due qs)) × (is_right m ≡ true)
  unfolding collect any
  collect-lookup [] found m e r = (ground arith, ground arith)
  collect-lookup (q ∷ qs) found m e r = ground (
    arith,
    lookup-insert (key q) k q found,
    collect-lookup qs found m,
    collect-lookup qs (insert (key q) q found) m,
  )

  collect_error :
      (qs : List Query) (found m : Assoc Key Query)
      → any (λ q. is_raise (check c q)) qs ≡ true
      → collect c qs found ≢ ok m
  unfolding collect any
  collect_error [] found m h e = cc
  collect_error (q ∷ qs) found m h e =
      ground (arith, collect_error qs found m, collect_error qs (insert (key q) q found) m)

  -- If the outdated queries are found, there is one under a key (of query hash and data source) just where
  -- some query that is scheduled now and due has that key, and it is due and has that key itself.
  pub outdated_queries_iff :
      (queries : List Query) (m : Assoc Key Query)
      → outdated_queries c queries ≡ ok m
      → (is_some (lookup k m) ≡ any (is_outdated c k) queries)
        × (option_all (λ q. is_true (check c q) && key q == k) (lookup k m) ≡ true)
  unfolding outdated_queries is_outdated lookup
  outdated_queries_iff queries m e =
      let rows = select (is_scheduled c.db_now) queries in
      ground (
        arith,
        collect-lookup (sort_by (λ q. q.id) rows) [] m e refl,
        any-sort_by due (λ q. q.id) rows,
        any-select due (is_scheduled c.db_now) queries,
      )

-- The query has a schedule now, has failed 32 times or more in a row, and last ran late enough for
-- 2 ^ 32 minutes to pass the year 9999.
unfoldable pub keeps_failing : Context → Query → Bool
keeps_failing c q =
    is_scheduled c.db_now q
    && (leb 32 q.schedule_failures && leb end_of_time (last_run c q + 2 ^ 32 * minute))

is_raise_of_never : (r : Checked Bool) → ((b : Bool) → r ≢ ok b) → is_raise r ≡ true
is_raise_of_never (ok b) h = absurd (h b refl)
is_raise_of_never (raise e) h = refl

module _ (c : Context) (q : Query) (many : 32 ≤ q.schedule_failures)
    (late : end_of_time ≤ last_run c q + 2 ^ 32 * minute) where
  -- `check` at the schedule that the query has.
  check_at : Option (List ℕ) → Checked Bool
  check_at none = ok false
  check_at (some schedule) = should_schedule_next (last_run c q) c.now schedule q.schedule_failures

  check_at_raises : (o : Option (List ℕ)) → is_some o ≡ true → is_raise (check_at o) ≡ true
  unfolding check_at
  check_at_raises none h = cc
  check_at_raises (some schedule) h =
      is_raise_of_never _
        (λ b. failures_overflow (last_run c q) c.now schedule q.schedule_failures b many late)

  check-eq : (o : Option (List ℕ)) → q.schedule ≡ o → check c q ≡ check_at o
  unfolding check check_at
  check-eq none e = rw e
  check-eq (some schedule) e = rw e

check-keeps_failing :
    (c : Context) (q : Query)
    → keeps_failing c q ≡ true
    → (is_scheduled c.db_now q && is_raise (check c q)) ≡ true
unfolding keeps_failing
check-keeps_failing c q h =
    let many : 32 ≤ q.schedule_failures = ground arith in
    let late : end_of_time ≤ last_run c q + 2 ^ 32 * minute = ground arith in
    ground (
      arith,
      check-eq c q many late q.schedule refl,
      check_at_raises c q many late q.schedule (unfold is_scheduled in ground arith),
    )

any_mono :
    (p q : Query → Bool) (xs : List Query)
    → ((x : Query) → p x ≡ true → q x ≡ true)
    → any p xs ≡ true
    → any q xs ≡ true
unfolding any
any_mono p q [] h a = a
any_mono p q (x ∷ xs) h a = ground (arith, h x, any_mono p q xs h)

-- One query that keeps failing is enough for `outdated_queries` to end in an exception, so that no
-- scheduled query at all is refreshed.
pub outdated_queries_blocked :
    (c : Context) (queries : List Query) (m : Assoc Key Query)
    → any (keeps_failing c) queries ≡ true
    → outdated_queries c queries ≢ ok m
unfolding outdated_queries
outdated_queries_blocked c queries m h =
    let raises = λ (q : Query). is_raise (check c q) in
    let rows = select (is_scheduled c.db_now) queries in
    collect_error c ("", none) (sort_by (λ q. q.id) rows) [] m
      (any-sort_by raises (λ q. q.id) rows
        ∙ any-select raises (is_scheduled c.db_now) queries
        ∙ any_mono (keeps_failing c) (λ q. is_scheduled c.db_now q && raises q) queries
            (check-keeps_failing c) h)
