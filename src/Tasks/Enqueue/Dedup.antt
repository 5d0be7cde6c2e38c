-- ===== src/Tasks/Enqueue/Dedup.antt =====
-- Which calls submit a task, and what job a call returns.
use redash.Prelude.{
  ℕ, zero, suc, ◌≡◌, refl, ◌∙◌, true, false, Option, none, some, List, [], ◌∷◌, ◌++◌, arith, ◌==◌,
  nat_eq, string_eq, list_eq, option_eq, is_some, pair_eq, lookup, lookup-insert, lookup-remove,
}
use redash.Tasks.Tracker.{waiting, list_of, create}
use redash.Tasks.Tracker.Lists.{member, save-member}
use redash.Tasks.Enqueue.{
  Broker, Call, LockId, lock_id, is_ready, next_other, later_others, Interference, job_of,
  apply_async, round, rounds, exec, enqueue_query,
}

eq_self : (k : LockId) → (k == k) ≡ true
eq_self k = (pair_eq.beq_iff k k).1 refl

round-free :
    (c : Call) (b : Broker)
    → lookup (lock_id c) b.locks ≡ none
    → round c none none b ≡ record {
      job = some b.next_job;
      broker = exec c b.next_job (apply_async c b).1;
      watch_error = false;
    }
unfolding round
round-free c b free = rw (free, round)

-- The one round of an undisturbed call that finds no lock.
enqueue_query-free :
    (c : Call) (b : Broker)
    → lookup (lock_id c) b.locks ≡ none
    → enqueue_query c [] b ≡ (some b.next_job, exec c b.next_job (apply_async c b).1)
unfolding enqueue_query
enqueue_query-free c b free = rw (round-free c b free)

-- A call for a query whose task is still on its way returns that task, and changes nothing.
pub enqueue_query_existing :
    (c : Call) (others : List Interference) (b : Broker) (id : ℕ)
    → lookup (lock_id c) b.locks ≡ some id
    → is_ready id b ≡ false
    → enqueue_query c others b ≡ (some id, b)
unfolding enqueue_query round
enqueue_query_existing c others b id locked running = ground arith

-- A call that finds no lock and is not disturbed submits one task, takes the lock for it and puts its tracker
-- on the waiting list.
pub enqueue_query_fresh :
    (c : Call) (b : Broker)
    → lookup (lock_id c) b.locks ≡ none
    → let (job, b') = enqueue_query c [] b in
      (job ≡ some b.next_job)
      × (b'.submitted ≡ b.submitted ++ job_of c b.next_job ∷ [])
      × (lookup (lock_id c) b'.locks ≡ some b.next_job)
      × (member b.next_job (list_of b'.trackers waiting) ≡ true)
unfolding exec apply_async create
enqueue_query_fresh c b free =
    let id = b.next_job in
    let tracker =
      create id c.query_hash c.data_source.id (is_some c.scheduled_query_id) c.query_id c.now in
    rw (enqueue_query-free c b free) (
      refl,
      refl,
      lookup-insert (lock_id c) (lock_id c) id b.locks ∙ rw (eq_self (lock_id c)),
      ground (arith, save-member tracker c.now b.trackers waiting id),
    )

-- Two calls for the same query in a row, the second before the task is finished: the first submits one task for its
-- query and returns it, the second returns the same task, submits none and changes nothing.
pub enqueue_query_twice :
    (c d : Call) (others : List Interference) (b : Broker)
    → lock_id d ≡ lock_id c
    → lookup (lock_id c) b.locks ≡ none
    → is_ready b.next_job b ≡ false
    → let (job, b') = enqueue_query c [] b in
      (job ≡ some b.next_job)
      × (b'.submitted ≡ b.submitted ++ job_of c b.next_job ∷ [])
      × (member b.next_job (list_of b'.trackers waiting) ≡ true)
      × (enqueue_query d others b' ≡ (job, b'))
unfolding exec apply_async
enqueue_query_twice c d others b same free running =
    let (job, submitted, lock, tracked) = enqueue_query_fresh c b free in
    let after = (enqueue_query c [] b).1 in
    (
      job,
      submitted,
      tracked,
      enqueue_query_existing d others after b.next_job (rw same lock)
            (rw (enqueue_query-free c b free) running)
          ∙ rw job,
    )

round_some :
    (c : Call) (other : Interference) (job : Option ℕ) (b : Broker)
    → is_some (round c other job b).job ≡ true
unfolding round
round_some c other job b = ground arith

rounds_some :
    (tries : ℕ) (c : Call) (others : List Interference) (job : Option ℕ) (b : Broker)
    → is_some job ≡ true
    → is_some (rounds tries c others job b).0 ≡ true
unfolding rounds
rounds_some zero c others job b h = h
rounds_some (suc tries) c others job b h =
    let r = round c (next_other others) job b in
    ground (
      arith,
      round_some c (next_other others) job b,
      rounds_some tries c (later_others others) r.job r.broker,
    )

-- Whatever other clients do, a call returns a job: the loop never gives up with none.
pub enqueue_query_some :
    (c : Call) (others : List Interference) (b : Broker)
    → is_some (enqueue_query c others b).0 ≡ true
unfolding enqueue_query rounds
enqueue_query_some c others b =
    let r = round c (next_other others) none b in
    ground (
      arith,
      round_some c (next_other others) none b,
      rounds_some 4 c (later_others others) r.job r.broker
          (round_some c (next_other others) none b),
    )

-- A call that finds the lock of a finished task, and is not disturbed, submits one task and returns it, but its own
-- transaction fails because it deleted the lock that it watches: afterwards there is no lock for the task and
-- no tracker, and the next call submits the query once more.
pub enqueue_query_stale_lock :
    (c : Call) (b : Broker) (id : ℕ)
    → lookup (lock_id c) b.locks ≡ some id
    → is_ready id b ≡ true
    → let (job, b') = enqueue_query c [] b in
      (job ≡ some b.next_job)
      × (b'.submitted ≡ b.submitted ++ job_of c b.next_job ∷ [])
      × (lookup (lock_id c) b'.locks ≡ none)
      × (b'.trackers ≡ b.trackers)
unfolding enqueue_query round
enqueue_query_stale_lock c b id locked finished =
    ground (arith, lookup-remove (lock_id c) (lock_id c) b.locks, eq_self (lock_id c))
