-- ===== src/Tasks/Executor/Outcome.antt =====
-- What has become of the lock, the tracker and the database when a task has been executed.
use redash.Prelude.{
  ℕ, ◌+◌, ◌-◌, String, ◌≡◌, refl, sym, ◌∙◌, subst, inl, inr, Bool, true, false, ◌&&◌, ◌||◌, not,
  Option, none, some, List, [], ◌∷◌, ◌++◌, map, arith, ltb, if◌then◌else◌, ◌==◌, nat_eq, string_eq,
  list_eq, option_eq, Option-cases, select, find, update, pair_eq, option_all, remove,
}
use redash.Tables.{Query, Db}
use redash.Results.{runs_as, store_result}
use redash.Results.Stored.{query_with, store_result-query}
use redash.Tasks.Tracker.{
  Tracker, State, ListName, done, in_progress, failed, finished, get_list, list_of, get_by_task_id,
  create, started, executing_query, saving_results, checking_alerts,
}
use redash.Tasks.Tracker.Lists.{member, same_list, save-member}
use redash.Tasks.Executor.{
  World, Task, RunQuery, Course, no_data_source, no_runner, killed, ran, Ended, result, query_error,
  broken_off, load_tracker, note_execution, update_tracker, unlock, set_failures, failures_of,
  error_text, error_of, data_of, is_stale, on_error, on_success, conclude, answered, run,
}

-- The query runner came back, with data, with an error or by an exception.
abbrev pub has_run : Course → Bool
has_run (ran answer accepted) = true
has_run _ = false

-- As far as locks go, an execution takes its own away where its query has run.
pub run-locks :
    (task : Task) (course : Course) (w : World)
    → (run task course w).1.broker.locks ≡ elim course [
      | ran answer accepted ↦ remove (task.query_hash, task.data_source.id) w.broker.locks
      | _ ↦ w.broker.locks
    ]
unfolding run answered conclude on_error on_success unlock update_tracker note_execution
run-locks task no_data_source w = ground arith
run-locks task no_runner w = ground arith
run-locks task killed w = ground arith
run-locks task (ran answer accepted) w = ground arith

load_tracker-id :
    (task : Task) (w : World)
    → option_all (λ t. t.task_id == task.id) (get_by_task_id task.id w.broker.trackers) ≡ true
    → (load_tracker task w.broker.trackers).task_id ≡ task.id
unfolding load_tracker create
load_tracker-id task w h = ground arith

query_with-set_failures :
    (id n : ℕ) (s : Query) (queries : List Query)
    → query_with id
        (update (λ (r : Query). r.id == s.id) (λ r. record r { schedule_failures = n }) queries)
      ≡ elim (query_with id queries) [
        | none ↦ none
        | some r ↦ some (if r.id == s.id then record r { schedule_failures = n } else r)
      ]
unfolding query_with find update
query_with-set_failures id n s [] = refl
query_with-set_failures id n s (r ∷ queries) =
    ground (arith, query_with-set_failures id n s queries)

-- The row of a query, with its failures set where it is the scheduled query.
abbrev pub with_failures : Option Query → ℕ → Query → Query
with_failures none n q = q
with_failures (some s) n q = if q.id == s.id then record q { schedule_failures = n } else q

query_with-with_failures :
    (id n : ℕ) (scheduled : Option Query) (db : Db)
    → query_with id (set_failures scheduled n db).queries ≡ elim (query_with id db.queries) [
      | none ↦ none
      | some q ↦ some (with_failures scheduled n q)
    ]
unfolding set_failures
query_with-with_failures id n none db = ground arith
query_with-with_failures id n (some s) db = query_with-set_failures id n s db.queries

-- The trackers have no part in the database and in the checks of alerts.
before-run :
    (task : Task) (answer : RunQuery) (accepted : Bool) (w : World)
    → (t : Tracker) × (v : World) × (run task (ran answer accepted) w
        ≡ conclude task answer accepted t v)
      × (v.db ≡ w.db)
      × (v.alert_checks ≡ w.alert_checks)
unfolding run answered unlock update_tracker note_execution
before-run task answer accepted w = (_, _, refl, ground arith, ground arith)

set_failures-others :
    (scheduled : Option Query) (n : ℕ) (db : Db)
    → ((set_failures scheduled n db).query_results ≡ db.query_results)
      × ((set_failures scheduled n db).next_id ≡ db.next_id)
unfolding set_failures
set_failures-others none n db = (refl, refl)
set_failures-others (some s) n db = (refl, refl)

ids-update :
    (hash : String) (ds n : ℕ) (s : Query) (queries : List Query)
    → map
        (λ (q : Query). q.id)
        (select
          (runs_as hash ds)
          (update (λ (r : Query). r.id == s.id) (λ r. record r { schedule_failures = n }) queries))
      ≡ map (λ (q : Query). q.id) (select (runs_as hash ds) queries)
unfolding select update
ids-update hash ds n s [] = refl
ids-update hash ds n s (r ∷ queries) = ground (arith, ids-update hash ds n s queries)

ids-set_failures :
    (hash : String) (ds n : ℕ) (scheduled : Option Query) (db : Db)
    → map (λ (q : Query). q.id) (select (runs_as hash ds) (set_failures scheduled n db).queries)
      ≡ map (λ (q : Query). q.id) (select (runs_as hash ds) db.queries)
unfolding set_failures
ids-set_failures hash ds n none db = refl
ids-set_failures hash ds n (some s) db = ids-update hash ds n s db.queries

-- The scheduled query is written: the database takes it, and its row still has the version that the task loaded.
abbrev pub is_written : Task → Bool → Db → Bool
is_written task accepted db = accepted && not (is_stale task.scheduled_query db)

-- The same on success, where the scheduled query is written only if it had failures.
abbrev pub is_stored : Task → Bool → Db → Bool
is_stored task accepted db =
    accepted && not (ltb 0 (failures_of task.scheduled_query) && is_stale task.scheduled_query db)

-- What a success makes of the row of a query: a scheduled one that had failures has none, and the new result is the latest one
-- of those with the hash and the data source of the task.
abbrev pub after_success : Task → ℕ → Query → Query
after_success task new q =
    let reset = ltb 0 (failures_of task.scheduled_query) in
    let r = if reset then with_failures task.scheduled_query 0 q else q in
    if q.query_hash == task.query_hash && q.data_source_id == some task.data_source.id
    then record r { latest_query_data_id = some new }
    else r

module _ (task : Task) (answer : RunQuery) (accepted : Bool) (t : Tracker) (w : World) where
  conclude-failed :
      (error : String)
      → error_text (error_of answer) ≡ some error
      → conclude task answer accepted t w ≡ on_error task t error accepted w
  unfolding conclude
  conclude-failed error e = rw (e, conclude)

  conclude-succeeded :
      error_text (error_of answer) ≡ none
      → conclude task answer accepted t w ≡ on_success task t (data_of answer) accepted w
  unfolding conclude
  conclude-succeeded e = rw (e, conclude)

module _ (task : Task) (accepted : Bool) (id : ℕ) where
  -- What a failure has done, given the database and the checks of alerts before: no result is stored and no alert is
  -- checked; where the scheduled query is written it has one failure more than when the task was loaded.
  abbrev pub Failed : String → Db → List ℕ → Ended × World → Type 0
  Failed error db checks (ended, w') =
      (ended ≡ (if is_written task accepted db then query_error error else broken_off))
      × (w'.db.query_results ≡ db.query_results)
      × (w'.alert_checks ≡ checks)
      × (query_with id w'.db.queries ≡ elim (query_with id db.queries) [
        | none ↦ none
        | some q ↦ some (
            if is_written task accepted db
            then with_failures task.scheduled_query (failures_of task.scheduled_query + 1) q
            else q)
      ])

  on_error-does :
      (t : Tracker) (error : String) (w : World)
      → Failed error w.db w.alert_checks (on_error task t error accepted w)
  unfolding on_error update_tracker
  on_error-does t error w =
      let n = failures_of task.scheduled_query + 1 in
      (
        ground arith,
        ground (arith, set_failures-others task.scheduled_query n w.db),
        ground arith,
        ground (arith, query_with-with_failures id n task.scheduled_query w.db),
      )

  -- A query that fails ends in QueryExecutionError with its error, no result is stored and no alert is checked. The
  -- scheduled query has one failure more than when the task was loaded, and no other query changes. If the database
  -- refuses that, or the scheduled query has another version by then, the execution ends in another exception and no
  -- query changes.
  pub run-Failed :
      (answer : RunQuery) (w : World) (error : String)
      → error_text (error_of answer) ≡ some error
      → Failed error w.db w.alert_checks (run task (ran answer accepted) w)
  run-Failed answer w error e =
      let (t, v, same, d, a) = before-run task answer accepted w in
      subst (λ x. Failed error w.db w.alert_checks x)
        (sym (same ∙ conclude-failed task answer accepted t v error e))
        (subst (λ c. Failed error w.db c (on_error task t error accepted v)) a
          (subst (λ db. Failed error db v.alert_checks (on_error task t error accepted v)) d
            (on_error-does t error v)))

  -- What a success has done: a result with the new id is stored, with what the query runner returned, the alerts of
  -- exactly the queries with the hash and the data source of the task are checked, and these have it as their latest.
  abbrev pub Succeeded : Option String → Db → List ℕ → Ended × World → Type 0
  Succeeded data_text db checks (ended, w') =
      let stored = is_stored task accepted db in
      let new = db.next_id in
      (ended ≡ (if stored then result new else broken_off))
      × (w'.db.query_results ≡ (
          if stored
          then db.query_results
            ++ record {
              id = new;
              org_id = task.data_source.org_id;
              data_source_id = task.data_source.id;
              query_hash = task.query_hash;
              query_text = task.query_text;
              data_text = data_text;
              runtime = task.end - task.start;
              retrieved_at = task.end;
            }
              ∷ []
          else db.query_results))
      × (w'.alert_checks ≡ (
          if stored
          then checks
            ++ map (λ (q : Query). q.id)
                (select
                  (λ q.
                    q.query_hash == task.query_hash && q.data_source_id == some task.data_source.id)
                  db.queries)
          else checks))
      × (query_with id w'.db.queries ≡ elim (query_with id db.queries) [
        | none ↦ none
        | some q ↦ some (if stored then after_success task new q else q)
      ])

  on_success-does :
      (t : Tracker) (data_text : Option String) (w : World)
      → Succeeded data_text w.db w.alert_checks (on_success task t data_text accepted w)
  unfolding on_success update_tracker store_result
  on_success-does t data_text w =
      let (r, n) = set_failures-others task.scheduled_query 0 w.db in
      let ds = task.data_source in
      let reset = ltb 0 (failures_of task.scheduled_query) in
      let db1 = if reset then set_failures task.scheduled_query 0 w.db else w.db in
      let ids = ids-set_failures task.query_hash ds.id 0 task.scheduled_query w.db in
      let row =
        store_result-query id ds.org_id ds.id task.query_hash task.query_text data_text
          (task.end - task.start) task.end db1 in
      let before = query_with-with_failures id 0 task.scheduled_query w.db in
      (ground (arith, n), ground (arith, n, r), ground (arith, ids), ground (arith, row, before))

  -- A query that succeeds: what it returns is stored as a new result, which becomes the latest one of exactly the
  -- queries with the hash and the data source of the task; the alerts of these are checked, the failures of a scheduled
  -- query that had some are reset, and no query changes otherwise. If the database refuses that, or a scheduled query
  -- that had failures has another version by then, the execution ends in an exception and nothing of this happens.
  pub run-Succeeded :
      (answer : RunQuery) (w : World)
      → error_text (error_of answer) ≡ none
      → Succeeded (data_of answer) w.db w.alert_checks (run task (ran answer accepted) w)
  run-Succeeded answer w e =
      let (t, v, same, d, a) = before-run task answer accepted w in
      let data_text = data_of answer in
      subst (λ x. Succeeded data_text w.db w.alert_checks x)
        (sym (same ∙ conclude-succeeded task answer accepted t v e))
        (subst (λ c. Succeeded data_text w.db c (on_success task t data_text accepted v)) a
          (subst
            (λ db. Succeeded data_text db v.alert_checks (on_success task t data_text accepted v)) d
            (on_success-does t data_text v)))

abbrev is_broken_off : Ended → Bool
is_broken_off broken_off = true
is_broken_off _ = false

-- The tracker is on the list of the tasks that are done; or the execution broke off, and it is on the list of those in
-- progress.
unfoldable pub is_placed : ℕ → Ended × World → Bool
is_placed id (ended, w) =
    member id (list_of w.broker.trackers done)
    || is_broken_off ended && member id (list_of w.broker.trackers in_progress)

is_placed-in_progress :
    (id : ℕ) (w : World)
    → member id (list_of w.broker.trackers in_progress) ≡ true
    → is_placed id (broken_off, w) ≡ true
unfolding is_placed
is_placed-in_progress id w h = ground (arith, h)

update_tracker-member :
    (t : Tracker) (now : ℕ) (w : World) (l : ListName)
    → same_list l (get_list t.state) ≡ true
    → member t.task_id (list_of (update_tracker t now w).broker.trackers l) ≡ true
unfolding update_tracker
update_tracker-member t now w l h =
    ground (arith, h, save-member t now w.broker.trackers l t.task_id)

module _ (task : Task) where
  on_error-is_placed :
      (t : Tracker) (error : String) (accepted : Bool) (w : World)
      → is_placed t.task_id (on_error task t error accepted w) ≡ true
  unfolding on_error is_placed
  on_error-is_placed t error accepted w =
      ground (arith, update_tracker-member (record t { state = failed }) task.end w done refl)

  on_success-is_placed :
      (t : Tracker) (data_text : Option String) (accepted : Bool) (w : World)
      → member t.task_id (list_of w.broker.trackers in_progress) ≡ true
      → is_placed t.task_id (on_success task t data_text accepted w) ≡ true
  unfolding on_success is_placed
  on_success-is_placed t data_text accepted w h =
      let reset = ltb 0 (failures_of task.scheduled_query) in
      let db1 = if reset then set_failures task.scheduled_query 0 w.db else w.db in
      let ds = task.data_source in
      let (id, query_ids, db2) =
        store_result ds.org_id ds.id task.query_hash task.query_text data_text
          (task.end - task.start) task.end db1 in
      let w1 =
        update_tracker (record t { state = checking_alerts }) task.end (record w { db = db2 }) in
      let w2 : World = record w1 { alert_checks = w1.alert_checks ++ query_ids } in
      ground (arith, h, update_tracker-member (record t { state = finished }) task.end w2 done refl)

  conclude-is_placed :
      (answer : RunQuery) (accepted : Bool) (t : Tracker) (w : World)
      → member t.task_id (list_of w.broker.trackers in_progress) ≡ true
      → is_placed t.task_id (conclude task answer accepted t w) ≡ true
  conclude-is_placed answer accepted t w h = elim (Option-cases (error_text (error_of answer))) [
    | inl e ↦
        subst (λ x. is_placed t.task_id x ≡ true)
          (sym (conclude-succeeded task answer accepted t w e))
          (on_success-is_placed t (data_of answer) accepted w h)
    | inr (error, e) ↦
        subst (λ x. is_placed t.task_id x ≡ true)
          (sym (conclude-failed task answer accepted t w error e))
          (on_error-is_placed t error accepted w)
  ]

  answered-is_placed :
      (answer : RunQuery) (accepted : Bool) (t : Tracker) (w : World)
      → is_placed t.task_id (answered task answer accepted t w) ≡ true
  unfolding answered unlock
  answered-is_placed answer accepted t w =
      let t' : Tracker = record t {
        state = saving_results;
        error = error_of answer;
        run_time = some (task.end - task.start);
      } in
      conclude-is_placed answer accepted t' _ (update_tracker-member t' task.end w in_progress refl)

  -- The trackers that `run` saves before the query runs.
  begun :
      (state : State) (t : Tracker) (w : World)
      → same_list in_progress (get_list state) ≡ true
      → is_placed t.task_id (broken_off, update_tracker (record t { state = state }) task.start w)
        ≡ true
  begun state t w h =
      is_placed-in_progress t.task_id _
        (update_tracker-member (record t { state = state }) task.start w in_progress h)

  abbrev noted : World → World
  noted w = note_execution (load_tracker task w.broker.trackers) task.start w

  abbrev noted_tracker : World → Tracker
  noted_tracker w = record (load_tracker task w.broker.trackers) {
    started_at = some task.start;
    state = started;
  }

  run-is_placed :
      (course : Course) (w : World)
      → is_placed (load_tracker task w.broker.trackers).task_id (run task course w) ≡ true
  unfolding run
  run-is_placed no_data_source w = begun started (noted_tracker w) (noted w) refl
  run-is_placed no_runner w =
      begun executing_query (noted_tracker w)
        (update_tracker (record (noted_tracker w) { state = started }) task.start (noted w)) refl
  run-is_placed killed w =
      begun executing_query (noted_tracker w)
        (update_tracker (record (noted_tracker w) { state = started }) task.start (noted w)) refl
  run-is_placed (ran answer accepted) w = answered-is_placed answer accepted (noted_tracker w) _

-- When an execution is over, its tracker is on the list of the tasks that are done if it ended with a result or with
-- QueryExecutionError; if it broke off, the tracker is on that list or on the list of those in progress. (A tracker
-- stored for the task carries its id.)
pub run-done :
    (task : Task) (course : Course) (w : World)
    → option_all (λ t. t.task_id == task.id) (get_by_task_id task.id w.broker.trackers) ≡ true
    → is_placed task.id (run task course w) ≡ true
run-done task course w tracked =
    subst (λ id. is_placed id (run task course w) ≡ true) (load_tracker-id task w tracked)
      (run-is_placed task course w)
