-- ===== src/Tasks/System.antt =====
-- Clients, workers and the expiry of locks as steps on Redis and Celery, in any order.
use redash.Prelude.{
  ℕ, zero, suc, ◌≡◌, refl, inl, inr, Bool, true, false, ◌&&◌, Option, none, some, List, [], ◌∷◌,
  ◌++◌, arith, ltb, if◌then◌else◌, ◌==◌, nat_eq, string_eq, list_eq, option_eq, Option-cases, any,
  all, any-append, contains, pair_eq, pair_beq_iff, Assoc, lookup, insert, remove,
}
use redash.Tasks.Enqueue.{
  Broker, Job, LockId, Call, lock_id, job_of, apply_async, exec, Round, submit, round, rounds,
  enqueue_query,
}
use redash.Tasks.Executor.Outcome.{run-locks}
use redash.Tasks.Executor.{
  Task, Course, no_data_source, no_runner, killed, ran, World, run, answered, conclude, on_error,
  on_success, unlock, update_tracker, note_execution,
}

-- One step: a call of `enqueue_query`, the execution of a task, the end of a task as Celery sees it, or the
-- expiry of a lock.
pub data Step : Broker → Broker → Type 0 where
  enqueued : (c : Call) (b : Broker) → Step b (enqueue_query c [] b).1
  executed :
      (task : Task) (course : Course) (w : World) → Step w.broker (run task course w).1.broker
  ended : (id : ℕ) (b : Broker) → Step b (record b { ready = id ∷ b.ready })
  expired : (k : LockId) (b : Broker) → Step b (record b { locks = remove k b.locks })

-- Any number of steps.
pub data Steps : Broker → Broker → Type 0 where
  stay : {b : Broker} → Steps b b
  go_on : {a b c : Broker} → Steps a b → Step b c → Steps a c

-- A job with this id runs on the data source of the key.
abbrev pub is_job_of : LockId → ℕ → Job → Bool
is_job_of k id j = j.id == id && j.data_source_id == k.1

-- Every lock names a task that was submitted for its data source, and the next id is not yet taken.
unfoldable pub locks_name_jobs : Assoc LockId ℕ → List Job → Bool
locks_name_jobs [] jobs = true
locks_name_jobs ((k, id) ∷ locks) jobs = any (is_job_of k id) jobs && locks_name_jobs locks jobs

abbrev pub IsSound : Broker → Type 0
IsSound b =
    (locks_name_jobs b.locks b.submitted ≡ true)
    × (all (λ j. ltb j.id b.next_job) b.submitted ≡ true)

locks_name_jobs-remove :
    (k : LockId) (locks : Assoc LockId ℕ) (jobs : List Job)
    → locks_name_jobs locks jobs ≡ true
    → locks_name_jobs (remove k locks) jobs ≡ true
unfolding locks_name_jobs remove
locks_name_jobs-remove k [] jobs h = refl
locks_name_jobs-remove k ((j, id) ∷ locks) jobs h =
    ground (arith, h, locks_name_jobs-remove k locks jobs)

locks_name_jobs-insert :
    (k : LockId) (id : ℕ) (locks : Assoc LockId ℕ) (jobs : List Job)
    → any (is_job_of k id) jobs ≡ true
    → locks_name_jobs locks jobs ≡ true
    → locks_name_jobs (insert k id locks) jobs ≡ true
unfolding locks_name_jobs insert
locks_name_jobs-insert k id [] jobs a h = ground (arith, a)
locks_name_jobs-insert k id ((j, i) ∷ locks) jobs a h =
    ground (arith, a, h, pair_beq_iff j k, locks_name_jobs-insert k id locks jobs)

locks_name_jobs-snoc :
    (locks : Assoc LockId ℕ) (jobs : List Job) (j : Job)
    → locks_name_jobs locks jobs ≡ true
    → locks_name_jobs locks (jobs ++ j ∷ []) ≡ true
unfolding locks_name_jobs any
locks_name_jobs-snoc [] jobs j h = refl
locks_name_jobs-snoc ((k, id) ∷ locks) jobs j h =
    ground (arith, h, any-append (is_job_of k id) jobs (j ∷ []), locks_name_jobs-snoc locks jobs j)

fresh-snoc :
    (n : ℕ) (jobs : List Job) (j : Job)
    → all (λ i. ltb i.id n) jobs ≡ true
    → j.id ≡ n
    → all (λ i. ltb i.id (suc n)) (jobs ++ j ∷ []) ≡ true
unfolding all
fresh-snoc n [] j h e = ground (arith, e)
fresh-snoc n (i ∷ jobs) j h e = ground (arith, h, e, fresh-snoc n jobs j)

any-submitted :
    (c : Call) (id : ℕ) (jobs : List Job)
    → any (is_job_of (lock_id c) id) (jobs ++ job_of c id ∷ []) ≡ true
unfolding any job_of
any-submitted c id jobs =
    ground (arith, any-append (is_job_of (lock_id c) id) jobs (job_of c id ∷ []))

module _ (c : Call) where
  apply_async-IsSound : (b : Broker) → IsSound b → IsSound (apply_async c b).1
  unfolding apply_async job_of
  apply_async-IsSound b (l, f) = (
    locks_name_jobs-snoc b.locks b.submitted (job_of c b.next_job) l,
    fresh-snoc b.next_job b.submitted (job_of c b.next_job) f refl,
  )

  exec-IsSound : (b : Broker) → IsSound b → IsSound (exec c (apply_async c b).0 (apply_async c b).1)
  unfolding apply_async exec job_of
  exec-IsSound b h =
      let (l, f) = apply_async-IsSound b h in
      (
        locks_name_jobs-insert (lock_id c) b.next_job b.locks _
            (any-submitted c b.next_job b.submitted) l,
        f,
      )

  submit-IsSound :
      (deleted : Bool) (b : Broker) → IsSound b → IsSound (submit c none deleted b).broker
  unfolding submit
  submit-IsSound true b h = apply_async-IsSound b h
  submit-IsSound false b h = exec-IsSound b h

  remove-IsSound :
      (k : LockId) (b : Broker) → IsSound b → IsSound (record b { locks = remove k b.locks })
  remove-IsSound k b (l, f) = (locks_name_jobs-remove k b.locks b.submitted l, f)

  round-IsSound : (job : Option ℕ) (b : Broker) → IsSound b → IsSound (round c none job b).broker
  unfolding round
  round-IsSound job b h = elim (Option-cases (lookup (lock_id c) b.locks)) [
    | inl e ↦ rw (e, round) (new job)
    | inr (id, e) ↦ rw (e, round) (old id (contains b.ready id))
  ]
    where
      new :
          (job : Option ℕ)
          → IsSound (
              Round.broker (elim job [
                | some id ↦ record { job = some id; broker = b; watch_error = false }
                | none ↦ submit c none false b
              ]))
      new none = submit-IsSound false b h
      new (some id) = h

      old :
          (id : ℕ) (r : Bool)
          → IsSound (
              Round.broker (
                if r
                then submit c none true (record b { locks = remove (lock_id c) b.locks })
                else record { job = some id; broker = b; watch_error = false }))
      old id true =
          submit-IsSound true (record b { locks = remove (lock_id c) b.locks })
            (remove-IsSound (lock_id c) b h)
      old id false = h

  either-IsSound :
      (w : Bool) (x y : Option ℕ × Broker)
      → IsSound x.1
      → IsSound y.1
      → IsSound (if w then x else y).1
  either-IsSound true x y h g = h
  either-IsSound false x y h g = g

  rounds-IsSound :
      (tries : ℕ) (job : Option ℕ) (b : Broker) → IsSound b → IsSound (rounds tries c [] job b).1
  unfolding rounds
  rounds-IsSound zero job b h = h
  rounds-IsSound (suc tries) job b h =
      let r = round c none job b in
      let k = round-IsSound job b h in
      either-IsSound r.watch_error (rounds tries c [] r.job r.broker) (r.job, r.broker)
        (rounds-IsSound tries r.job r.broker k) k

-- The execution of a task submits nothing.
run-submitted :
    (task : Task) (course : Course) (w : World)
    → ((run task course w).1.broker.submitted ≡ w.broker.submitted)
      × ((run task course w).1.broker.next_job ≡ w.broker.next_job)
unfolding run answered conclude on_error on_success unlock update_tracker note_execution
run-submitted task no_data_source w = (ground arith, ground arith)
run-submitted task no_runner w = (ground arith, ground arith)
run-submitted task killed w = (ground arith, ground arith)
run-submitted task (ran answer accepted) w = (ground arith, ground arith)

run-locks_name_jobs :
    (task : Task) (course : Course) (w : World)
    → locks_name_jobs w.broker.locks w.broker.submitted ≡ true
    → locks_name_jobs (run task course w).1.broker.locks w.broker.submitted ≡ true
run-locks_name_jobs task no_data_source w l = rw (run-locks task no_data_source w) l
run-locks_name_jobs task no_runner w l = rw (run-locks task no_runner w) l
run-locks_name_jobs task killed w l = rw (run-locks task killed w) l
run-locks_name_jobs task (ran answer accepted) w l = rw (run-locks task (ran answer accepted) w) (
    locks_name_jobs-remove (task.query_hash, task.data_source.id) w.broker.locks w.broker.submitted
      l)

Step-IsSound : {a b : Broker} → Step a b → IsSound a → IsSound b
unfolding enqueue_query
Step-IsSound (enqueued c b) h = rounds-IsSound c 5 none b h
Step-IsSound (executed task course w) (l, f) =
    let (y, z) = run-submitted task course w in
    (rw y (run-locks_name_jobs task course w l), rw (y, z) f)
Step-IsSound (ended id b) h = h
Step-IsSound (expired k b) (l, f) = (locks_name_jobs-remove k b.locks b.submitted l, f)

-- However calls of `enqueue_query`, executions, ends of tasks and expiries of locks follow each other, every lock
-- names a task that was submitted for the lock's data source, and the id of the next task is not taken. (This
-- held at the start.)
pub Steps-IsSound : (a b : Broker) → Steps a b → IsSound a → IsSound b
Steps-IsSound a b stay h = h
Steps-IsSound a b (go_on s t) h = Step-IsSound t (Steps-IsSound a _ s h)
