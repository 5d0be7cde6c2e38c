-- ===== src/Tasks/Executor.antt =====
-- QueryExecutor of redash/tasks/queries.py: the execution of one query task.
pub mod Outcome
use redash.Prelude.{
  ℕ, zero, suc, ◌+◌, ◌-◌, ◌*◌, ◌/◌, ◌%◌, ◌^◌, ◌≤◌, ◌<◌, min, max, String, ◌≡◌, refl, sym, ap, ◌∙◌,
  subst, ◌≢◌, ◌↔◌, ◌⊎◌, inl, inr, Bool, true, false, ◌&&◌, ◌||◌, not, Option, none, some, List, [],
  ◌∷◌, ◌++◌, map, arith, ltb, leb, nat_beq, if◌then◌else◌, ltb→lt, lt→ltb, leb→le, nat_beq_iff,
  tests, Eq, ◌==◌, nat_eq, string_eq, list_eq, option_eq, list_beq_iff, option_beq_iff, Bool-cases,
  Option-cases, is_some, length, take, drop, select, find, any, all, length-append,
  length-select-le, any-append, contains, contains-append, reject, update, option_all-find,
  insert_by, sort_by, any-sort_by, any-select, pair_eq, pair_beq_iff, option_all, any-reject_self,
  length-update, without_first, count, count-without_first, count-without_first_ne, contains-eq-ltb,
  Assoc, lookup, insert, remove, lookup-insert, lookup-remove, printed, concat, all-append, any_ext,
  select_ext, find-update, all-update, all-reject, all_except, all_mono, any_left, any_never,
}
use redash.Tables.{DataSource, Query, Db}
use redash.Results.{store_result}
use redash.Tasks.Tracker.{
  Tracker, State, started, executing_query, saving_results, checking_alerts, finished, failed,
  Trackers, create, save, get_by_task_id,
}
use redash.Tasks.Enqueue.{Broker}

-- What the executor changes: Redis, the database (as committed), the times of scheduled executions, and the
-- queries for which the alerts are to be checked.
pub record World : Type 0 where
  pub broker : Broker
  pub db : Db
  pub executions : Assoc ℕ ℕ
  pub alert_checks : List ℕ

-- A task: its id, its arguments, and the times at which its steps stand.
pub record Task : Type 0 where
  pub id : ℕ
  pub query_text : String
  pub query_hash : String
  pub data_source : DataSource
  pub query_id : Option ℕ
  pub scheduled_query : Option Query
  pub start : ℕ
  pub end : ℕ

-- What `query_runner.run_query` does: it returns data and an error, or raises.
pub data RunQuery : Type 0 where
  returns : Option String → Option String → RunQuery
  raises : (message : String) → RunQuery

-- What becomes of an execution: its data source is gone, or has a type that is not known, which ends in an
-- AttributeError; the worker is killed while the query runs, as at the hard time limit; or the query has run, and
-- the database takes what is then written (`true`) or refuses it.
pub data Course : Type 0 where
  no_data_source no_runner killed : Course
  ran : RunQuery → Bool → Course

-- How `run` ends: with the id of the new result, by QueryExecutionError, or by another exception or a kill.
pub data Ended : Type 0 where
  result : ℕ → Ended
  query_error : String → Ended
  broken_off : Ended

unfoldable pub load_tracker : Task → Trackers → Tracker
load_tracker task trackers = elim (get_by_task_id task.id trackers) [
  | some t ↦ t
  | none ↦ create task.id task.query_hash task.data_source.id false task.query_id task.start
]

abbrev with_trackers : (Trackers → Trackers) → World → World
with_trackers f w = record w { broker = record w.broker { trackers = f w.broker.trackers } }

-- `tracker.update(...)`, given the tracker as it is then.
unfoldable pub update_tracker : Tracker → ℕ → World → World
update_tracker t now w = with_trackers (save t now) w

-- `_unlock`
unfoldable pub unlock : String → ℕ → World → World
unlock query_hash data_source_id w = record w {
  broker = record w.broker { locks = remove (query_hash, data_source_id) w.broker.locks };
}

-- The end of __init__: a scheduled execution is noted, under the tracker's query.
unfoldable pub note_execution : Tracker → ℕ → World → World
note_execution t now w =
    if t.scheduled
    then elim t.query_id [
      | none ↦ w
      | some id ↦ record w { executions = insert id now w.executions }
    ]
    else w

unfoldable pub set_failures : Option Query → ℕ → Db → Db
set_failures none n db = db
set_failures (some q) n db = record db {
  queries = update (λ r. r.id == q.id) (λ r. record r { schedule_failures = n }) db.queries;
}

abbrev pub failures_of : Option Query → ℕ
failures_of none = 0
failures_of (some q) = q.schedule_failures

-- `if error:` holds for a text that is not empty.
abbrev pub error_text : Option String → Option String
error_text none = none
error_text (some e) = if e == "" then none else some e

abbrev pub error_of : RunQuery → Option String
error_of (returns data_text error) = error
error_of (raises message) = some message

abbrev pub data_of : RunQuery → Option String
data_of (returns data_text error) = data_text
data_of (raises message) = none

-- The UPDATE of the scheduled query finds no row with the version that the task loaded (StaleDataError).
unfoldable pub is_stale : Option Query → Db → Bool
is_stale none db = false
is_stale (some q) db = not (any (λ r. r.id == q.id && r.version == q.version) db.queries)

-- `run` after the query was run: the branch of an error.
unfoldable pub on_error : Task → Tracker → String → Bool → World → Ended × World
unfolding is_stale
on_error task t error accepted w =
    let w1 = update_tracker (record t { state = failed }) task.end w in
    if accepted && not (is_stale task.scheduled_query w1.db)
    then (
      query_error error,
      record w1 {
        db = set_failures task.scheduled_query (failures_of task.scheduled_query + 1) w1.db;
      },
    )
    else (broken_off, w1)

-- The other branch, with the data that is stored.
unfoldable pub on_success : Task → Tracker → Option String → Bool → World → Ended × World
unfolding is_stale
on_success task t data_text accepted w =
    let reset = ltb 0 (failures_of task.scheduled_query) in
    let db1 = if reset then set_failures task.scheduled_query 0 w.db else w.db in
    let ds = task.data_source in
    let (id, query_ids, db2) =
      store_result ds.org_id ds.id task.query_hash task.query_text data_text (task.end - task.start)
        task.end db1 in
    let w1 =
      update_tracker (record t { state = checking_alerts }) task.end (record w { db = db2 }) in
    let w2 : World = record w1 { alert_checks = w1.alert_checks ++ query_ids } in
    if accepted && not (reset && is_stale task.scheduled_query w.db)
    then (result id, update_tracker (record t { state = finished }) task.end w2)
    else (broken_off, w)

-- `if error: ... else: ...`
unfoldable pub conclude : Task → RunQuery → Bool → Tracker → World → Ended × World
conclude task answer accepted t w = elim (error_text (error_of answer)) [
  | some error ↦ on_error task t error accepted w
  | none ↦ on_success task t (data_of answer) accepted w
]

-- `run` once `query_runner.run_query` has returned or raised.
unfoldable pub answered : Task → RunQuery → Bool → Tracker → World → Ended × World
unfolding conclude
answered task answer accepted t w =
    let t' : Tracker = record t {
      state = saving_results;
      error = error_of answer;
      run_time = some (task.end - task.start);
    } in
    conclude task answer accepted t'
      (unlock task.query_hash task.data_source.id (update_tracker t' task.end w))

-- `run`, behind __init__. The log line before the state `executing_query` needs the data source.
unfoldable pub run : Task → Course → World → Ended × World
unfolding answered
run task course w =
    let t0 = load_tracker task w.broker.trackers in
    let w0 = note_execution t0 task.start w in
    let t1 : Tracker = record t0 { started_at = some task.start; state = started } in
    let w1 = update_tracker t1 task.start w0 in
    let w2 = update_tracker (record t1 { state = executing_query }) task.start w1 in
    elim course [
      | no_data_source ↦ (broken_off, w1)
      | no_runner ↦ (broken_off, w2)
      | killed ↦ (broken_off, w2)
      | ran answer accepted ↦ answered task answer accepted t1 w2
    ]
