-- ===== src/Tasks/Cleanup/Settled.antt =====
-- What the clean-up leaves.
use redash.Prelude.{
  ℕ, zero, suc, ◌<◌, min, ◌≡◌, refl, Bool, true, false, ◌&&◌, ◌||◌, not, Option, none, some, List,
  [], ◌∷◌, arith, leb, ◌==◌, nat_eq, string_eq, list_eq, option_eq, length, any, pair_eq,
}
use redash.Tasks.Tracker.{
  Tracker, finished, ListName, done, waiting, in_progress, Trackers, list_of, prune, all_of,
}
use redash.Tasks.Tracker.Lists.{member, save-member, prune-length}
use redash.Tasks.Enqueue.{Broker, is_ready}
use redash.Tasks.Cleanup.{settle, settle_all, prune_all, cleanup_tasks}

-- The length of the list in the result of a loop.
abbrev pub length_in : ListName → Option Trackers → Option ℕ
length_in l none = none
length_in l (some r) = some (length (list_of r l))

-- The loop ends within as many rounds as the list is long, and one; then the list holds `keep_count` members at
-- most, and it is not shortened where it was no longer than that.
pub prune_all-length :
    (fuel : ℕ) (l : ListName) (keep_count max_keys : ℕ) (r : Trackers)
    → 0 < max_keys
    → length (list_of r l) < fuel
    → length_in l (prune_all fuel l keep_count max_keys r)
      ≡ some (min keep_count (length (list_of r l)))
unfolding prune_all
prune_all-length zero l keep_count max_keys r k h = absurd (omega (arith, h))
prune_all-length (suc fuel) l keep_count max_keys r k h =
    let (removed, r') = prune l keep_count max_keys r in
    ground
      (arith, prune-length l keep_count max_keys r, prune_all-length fuel l keep_count max_keys r')

-- A tracker with the task's id is among those given.
unfoldable pub listed : ℕ → List (Option Tracker) → Bool
listed id ts = any (λ o. elim o [ none ↦ false | some t ↦ t.task_id == id ]) ts

abbrev pub is_done : ℕ → Broker → Bool
is_done id b = member id (list_of b.trackers done)

settle-done :
    (now : ℕ) (t : Tracker) (b : Broker) (id : ℕ)
    → is_done id (settle now t b) ≡ (is_done id b || (is_ready t.task_id b && t.task_id == id))
unfolding settle
settle-done now t b id =
    ground (arith, save-member (record t { state = finished }) now b.trackers done id)

settle-ready : (now : ℕ) (t : Tracker) (b : Broker) → (settle now t b).ready ≡ b.ready
unfolding settle
settle-ready now t b = ground arith

settle_all-keeps :
    (now : ℕ) (ts : List (Option Tracker)) (b : Broker) (id : ℕ)
    → is_done id b ≡ true
    → is_done id (settle_all now ts b).1 ≡ true
unfolding settle_all
settle_all-keeps now [] b id h = h
settle_all-keeps now (none ∷ ts) b id h = h
settle_all-keeps now (some t ∷ ts) b id h =
    settle_all-keeps now ts (settle now t b) id (rw (settle-done now t b id, h) refl)

-- When the loop has gone over the trackers, those whose task is over are on the list of those that are done.
pub settle_all-done :
    (now : ℕ) (ts : List (Option Tracker)) (b : Broker) (id : ℕ)
    → (settle_all now ts b).0 ≡ true
    → listed id ts ≡ true
    → is_ready id b ≡ true
    → is_done id (settle_all now ts b).1 ≡ true
unfolding settle_all listed any
settle_all-done now [] b id fine h r = cc
settle_all-done now (none ∷ ts) b id fine h r = cc
settle_all-done now (some t ∷ ts) b id fine h r = ground (
  arith,
  settle_all-done now ts (settle now t b) id fine,
  settle_all-keeps now ts (settle now t b) id,
  settle-done now t b id,
  settle-ready now t b,
)

-- The record of one of the trackers is gone.
unfoldable pub is_missing : List (Option Tracker) → Bool
is_missing ts = any (λ o. elim o [ none ↦ true | some t ↦ false ]) ts

settle_all-fine :
    (now : ℕ) (ts : List (Option Tracker)) (b : Broker)
    → (settle_all now ts b).0 ≡ not (is_missing ts)
unfolding settle_all is_missing any
settle_all-fine now [] b = refl
settle_all-fine now (none ∷ ts) b = refl
settle_all-fine now (some t ∷ ts) b = settle_all-fine now ts (settle now t b)

-- Whether the record of a tracker is gone: of one in progress, or, when these are settled, of one that is waiting.
abbrev pub lacks_record : ℕ → Broker → Bool
lacks_record now b =
    let running = all_of in_progress b.trackers in
    is_missing running || is_missing (all_of waiting (settle_all now running b).1.trackers)

-- The task has ended, by an exception just where a record is missing, and with at most 1000 trackers on the list of
-- those that are done where none is.
abbrev pub ends_well : Bool → Option (Bool × Broker) → Bool
ends_well missing none = false
ends_well missing (some (false, b)) = missing
ends_well missing (some (true, b)) = not missing && leb (length (list_of b.trackers done)) 1000

-- The clean-up ends. Where a tracker in progress or waiting has no record it ends by an exception; otherwise it
-- succeeds, and leaves at most 1000 trackers on the list of those that are done.
pub cleanup_tasks-has_ended :
    (now : ℕ) (b : Broker) → ends_well (lacks_record now b) (cleanup_tasks now b) ≡ true
unfolding cleanup_tasks
cleanup_tasks-has_ended now b =
    let running = all_of in_progress b.trackers in
    let b1 = (settle_all now running b).1 in
    let others = all_of waiting b1.trackers in
    let b2 = (settle_all now others b1).1 in
    let members = list_of b2.trackers done in
    ground (
      arith,
      settle_all-fine now running b,
      settle_all-fine now others b1,
      prune_all-length (suc (length members)) done 1000 100 b2.trackers,
    )
