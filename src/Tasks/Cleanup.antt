-- ===== src/Tasks/Cleanup.antt =====
-- cleanup_tasks of redash/tasks/queries.py: trackers whose task is over, and the length of the list of
-- those that are done.
pub mod Settled
use redash.Prelude.{
  ℕ, zero, suc, ◌+◌, ◌-◌, ◌*◌, ◌/◌, ◌%◌, ◌^◌, ◌≤◌, ◌<◌, min, max, String, ◌≡◌, refl, sym, ap, ◌∙◌,
  subst, ◌≢◌, ◌↔◌, ◌⊎◌, inl, inr, Bool, true, false, ◌&&◌, ◌||◌, not, Option, none, some, List, [],
  ◌∷◌, ◌++◌, map, arith, ltb, leb, nat_beq, if◌then◌else◌, ltb→lt, lt→ltb, leb→le, nat_beq_iff,
  tests, Eq, ◌==◌, nat_eq, string_eq, list_eq, option_eq, list_beq_iff, option_beq_iff, Bool-cases,
  Option-cases, is_some, length, take, drop, select, find, any, all, length-append,
  length-select-le, any-append, contains, contains-append, reject, update, option_all-find,
  insert_by, sort_by, any-sort_by, any-select, pair_eq, pair_beq_iff, option_all, any-reject_self,
  length-update, without_first, count, count-without_first, count-without_first_ne, contains-eq-ltb,
  Assoc, lookup, insert, remove, lookup-insert, lookup-remove,
}
use redash.Tasks.Tracker.{
  Tracker, State, finished, ListName, done, waiting, in_progress, Trackers, list_of, save, all_of,
  prune,
}
use redash.Tasks.Enqueue.{Broker, is_ready}

-- The body of the two loops.
unfoldable pub settle : ℕ → Tracker → Broker → Broker
settle now t b =
    if is_ready t.task_id b
    then record b {
      locks = remove (t.query_hash, t.data_source_id) b.locks;
      trackers = save (record t { state = finished }) now b.trackers;
    }
    else b

-- A loop over trackers. A tracker whose record is gone is None: an AttributeError ends the task, for which
-- the first component is `false`.
unfoldable pub settle_all : ℕ → List (Option Tracker) → Broker → Bool × Broker
unfolding settle
settle_all now [] b = (true, b)
settle_all now (none ∷ ts) b = (false, b)
settle_all now (some t ∷ ts) b = settle_all now ts (settle now t b)

-- `while removed > 0`, on fuel.
unfoldable pub prune_all : ℕ → ListName → ℕ → ℕ → Trackers → Option Trackers
prune_all zero l keep_count max_keys r = none
prune_all (suc fuel) l keep_count max_keys r =
    let (removed, r') = prune l keep_count max_keys r in
    let rest = prune_all fuel l keep_count max_keys r' in if ltb 0 removed then rest else some r'

-- The fuel is one more than the list is long. `none` is for a loop that the fuel does not end.
unfoldable pub cleanup_tasks : ℕ → Broker → Option (Bool × Broker)
unfolding settle_all prune_all
cleanup_tasks now b =
    let (fine1, b1) = settle_all now (all_of in_progress b.trackers) b in
    if not fine1
    then some (false, b1)
    else let (fine2, b2) = settle_all now (all_of waiting b1.trackers) b1 in
      if not fine2
      then some (false, b2)
      else let fuel = suc (length (list_of b2.trackers done)) in
        elim (prune_all fuel done 1000 100 b2.trackers) [
          | none ↦ none
          | some r ↦ some (true, record b2 { trackers = r })
        ]
