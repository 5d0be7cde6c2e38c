-- ===== src/Tasks/Enqueue.antt =====
-- `enqueue_query` of redash/tasks/queries.py: one task for a query at a time, by a lock in Redis that is
-- taken in a transaction (WATCH, MULTI, EXEC).
pub mod Dedup
use redash.Prelude.{
  ℕ, zero, suc, ◌+◌, ◌-◌, ◌*◌, ◌/◌, ◌%◌, ◌^◌, ◌≤◌, ◌<◌, min, max, String, ◌≡◌, refl, sym, ap, ◌∙◌,
  subst, ◌≢◌, ◌↔◌, ◌⊎◌, inl, inr, Bool, true, false, ◌&&◌, ◌||◌, not, Option, none, some, List, [],
  ◌∷◌, ◌++◌, map, arith, ltb, leb, nat_beq, if◌then◌else◌, ltb→lt, lt→ltb, leb→le, nat_beq_iff,
  tests, Eq, ◌==◌, nat_eq, string_eq, list_eq, option_eq, list_beq_iff, option_beq_iff, Bool-cases,
  Option-cases, is_some, length, take, drop, select, find, any, all, length-append,
  length-select-le, any-append, contains, contains-append, reject, update, option_all-find,
  insert_by, sort_by, any-sort_by, any-select, pair_eq, pair_beq_iff, option_all, any-reject_self,
  length-update, without_first, count, count-without_first, count-without_first_ne, contains-eq-ltb,
  Assoc, lookup, insert, remove, lookup-insert, lookup-remove,
}
use redash.Tables.{DataSource}
use redash.Tasks.Tracker.{Tracker, Trackers, create, save}

-- A task handed to Celery.
pub record Job : Type 0 where
  pub id : ℕ
  pub query_text : String
  pub data_source_id : ℕ
  pub user_id : ℕ
  pub scheduled_query_id : Option ℕ
  pub queue : String
  pub time_limit : Option ℕ

-- _job_lock_id: the key is printed from the two.
abbrev pub LockId : Type 0
LockId = String × ℕ

-- Redis and Celery: the locks with their jobs, the trackers, the tasks submitted so far, the id of the next
-- one, and the tasks whose result is there (`ready()`).
pub record Broker : Type 0 where
  pub locks : Assoc LockId ℕ
  pub trackers : Trackers
  pub submitted : List Job
  pub next_job : ℕ
  pub ready : List ℕ

-- The arguments of a call. `query_id` is of the metadata, `time_limit` is ADHOC_QUERY_TIME_LIMIT.
pub record Call : Type 0 where
  pub query_text : String
  pub query_hash : String
  pub data_source : DataSource
  pub user_id : ℕ
  pub scheduled_query_id : Option ℕ
  pub query_id : Option ℕ
  pub time_limit : Option ℕ
  pub now : ℕ

abbrev pub lock_id : Call → LockId
lock_id c = (c.query_hash, c.data_source.id)

abbrev pub is_ready : ℕ → Broker → Bool
is_ready id b = contains b.ready id

-- What another client does to Redis between this client's WATCH and EXEC, if it touches the lock.
abbrev pub Interference : Type 0
Interference = Option (Broker → Broker)

unfoldable pub job_of : Call → ℕ → Job
job_of c id = record {
  id = id;
  query_text = c.query_text;
  data_source_id = c.data_source.id;
  user_id = c.user_id;
  scheduled_query_id = c.scheduled_query_id;
  queue =
      if is_some c.scheduled_query_id
      then c.data_source.scheduled_queue_name
      else c.data_source.queue_name;
  time_limit = if is_some c.scheduled_query_id then none else c.time_limit;
}

-- `execute_query.apply_async(...)`
unfoldable pub apply_async : Call → Broker → ℕ × Broker
unfolding job_of
apply_async c b = (
  b.next_job,
  record b { submitted = b.submitted ++ job_of c b.next_job ∷ []; next_job = suc b.next_job },
)

-- The commands queued behind MULTI: the tracker and the lock.
unfoldable pub exec : Call → ℕ → Broker → Broker
exec c id b = record b {
  trackers =
      save (create id c.query_hash c.data_source.id (is_some c.scheduled_query_id) c.query_id c.now)
        c.now b.trackers;
  locks = insert (lock_id c) id b.locks;
}

-- One round of the loop: the value of `job`, and whether it ended in a WatchError.
pub record Round : Type 0 where
  pub job : Option ℕ
  pub broker : Broker
  pub watch_error : Bool

-- `if not job:` at its true branch. EXEC fails if the lock changed since WATCH: by another client, or because
-- this client deleted it over another connection.
unfoldable pub submit : Call → Interference → Bool → Broker → Round
unfolding apply_async exec
submit c other deleted b =
    let (id, b') = apply_async c b in
    elim other [
      | some f ↦ record { job = some id; broker = f b'; watch_error = true }
      | none ↦
          if deleted
          then record { job = some id; broker = b'; watch_error = true }
          else record { job = some id; broker = exec c id b'; watch_error = false }
    ]

unfoldable pub round : Call → Interference → Option ℕ → Broker → Round
unfolding submit
round c other job b = elim (lookup (lock_id c) b.locks) [
  | some id ↦
      if is_ready id b
      then submit c other true (record b { locks = remove (lock_id c) b.locks })
      else record { job = some id; broker = b; watch_error = false }
  | none ↦ elim job [
    | some id ↦ record { job = some id; broker = b; watch_error = false }
    | none ↦ submit c other false b
  ]
]

abbrev next_other : List Interference → Interference
next_other [] = none
next_other (o ∷ os) = o

abbrev later_others : List Interference → List Interference
later_others [] = []
later_others (o ∷ os) = os

-- `while try_count < 5`
unfoldable pub rounds : ℕ → Call → List Interference → Option ℕ → Broker → Option ℕ × Broker
rounds zero c others job b = (job, b)
rounds (suc tries) c others job b =
    let r = round c (next_other others) job b in
    let again = rounds tries c (later_others others) r.job r.broker in
    if r.watch_error then again else (r.job, r.broker)

unfoldable pub enqueue_query : Call → List Interference → Broker → Option ℕ × Broker
unfolding rounds
enqueue_query c others b = rounds 5 c others none b
