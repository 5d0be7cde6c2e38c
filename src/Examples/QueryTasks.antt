-- ===== src/Examples/QueryTasks.antt =====
-- Query tasks: their trackers, their submission and their execution.
use redash.Prelude.{
  ◌+◌, ◌≡◌, refl, true, none, some, [], ◌∷◌, ◌++◌, nat_eq, string_eq, list_eq, option_eq, any, all,
  contains, pair_eq, lookup, remove,
}
use redash.Tasks.System.{IsSound, locks_name_jobs, stay, go_on, enqueued, expired, Steps-IsSound}
use redash.Examples.Rows.{warehouse, report, in_2020, rows}
use redash.Tasks.Tracker.{waiting, Trackers, list_of, get_by_task_id}
use redash.Tasks.Tracker.Lists.{member}
use redash.Tasks.Enqueue.{Broker, Call, LockId, job_of, lock_id, enqueue_query}
use redash.Tasks.Enqueue.Dedup.{enqueue_query_twice}
use redash.Tasks.Executor.{World, Task, returns, raises, ran, killed, run}
use redash.Tasks.Executor.Outcome.{
  Failed, Succeeded, is_placed, run-Failed, run-Succeeded, run-done,
}

abbrev no_trackers : Trackers
no_trackers = record { records = []; done_list = []; waiting_list = []; in_progress_list = [] }

abbrev idle : Broker
idle = record { locks = []; trackers = no_trackers; submitted = []; next_job = 100; ready = [] }

abbrev call : Call
call = record {
  query_text = "SELECT 1";
  query_hash = "h";
  data_source = warehouse;
  user_id = 2;
  scheduled_query_id = none;
  query_id = some 7;
  time_limit = some 60;
  now = in_2020;
}

abbrev busy : Broker
busy = record idle { locks = (("h", 5), 99) ∷ []; next_job = 100 }

enqueue_query_twice_example :
    let (job, b) = enqueue_query call [] idle in
    (job ≡ some 100)
    × (b.submitted ≡ [] ++ job_of call 100 ∷ [])
    × (member 100 (list_of b.trackers waiting) ≡ true)
    × (enqueue_query (record call { user_id = 1 }) [] b ≡ (job, b))
unfolding lookup contains any
enqueue_query_twice_example =
    enqueue_query_twice call (record call { user_id = 1 }) [] idle refl refl refl

abbrev task : Task
task = record {
  id = 99;
  query_text = "SELECT 1";
  query_hash = "h";
  data_source = warehouse;
  query_id = some 7;
  scheduled_query = some report;
  start = in_2020;
  end = in_2020 + 5;
}

abbrev world : World
world = record { broker = busy; db = rows; executions = []; alert_checks = [] }

abbrev task_lock : LockId
task_lock = ("h", 5)

run-Failed_example :
    Failed task true 7 "no connection" rows [] (run task (ran (raises "no connection") true) world)
run-Failed_example = run-Failed task true 7 (raises "no connection") world "no connection" refl

run-Succeeded_example :
    Succeeded task true 7 (some "[]") rows [] (run task (ran (returns (some "[]") none) true) world)
run-Succeeded_example = run-Succeeded task true 7 (returns (some "[]") none) world refl

run-done_example : is_placed 99 (run task killed world) ≡ true
unfolding get_by_task_id lookup
run-done_example = run-done task killed world refl

-- A call, the expiry of its lock, and a second call.
abbrev lock_expired : Broker
lock_expired =
    let b = (enqueue_query call [] idle).1 in record b { locks = remove (lock_id call) b.locks }

Steps-IsSound_example : IsSound (enqueue_query call [] lock_expired).1
unfolding all locks_name_jobs
Steps-IsSound_example =
    Steps-IsSound idle (enqueue_query call [] lock_expired).1
      (go_on
        (go_on (go_on stay (enqueued call idle))
          (expired (lock_id call) (enqueue_query call [] idle).1))
        (enqueued call lock_expired))
      (refl, refl)
