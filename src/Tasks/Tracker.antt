-- ===== src/Tasks/Tracker.antt =====
-- QueryTaskTracker of redash/tasks/queries.py over the keys that it keeps in Redis.
pub mod Lists
use mathlib.Core.List.{reverse}
use redash.Prelude.{
  ℕ, zero, suc, ◌+◌, ◌-◌, ◌*◌, ◌/◌, ◌%◌, ◌^◌, ◌≤◌, ◌<◌, min, max, String, ◌≡◌, refl, sym, ap, ◌∙◌,
  subst, ◌≢◌, ◌↔◌, ◌⊎◌, inl, inr, Bool, true, false, ◌&&◌, ◌||◌, not, Option, none, some, List, [],
  ◌∷◌, ◌++◌, map, arith, ltb, leb, nat_beq, if◌then◌else◌, ltb→lt, lt→ltb, leb→le, nat_beq_iff,
  tests, Eq, ◌==◌, nat_eq, string_eq, list_eq, option_eq, list_beq_iff, option_beq_iff, Bool-cases,
  Option-cases, is_some, length, take, drop, select, find, any, all, length-append,
  length-select-le, any-append, contains, contains-append, reject, update, option_all-find,
  insert_by, sort_by, any-sort_by, any-select, pair_eq, pair_beq_iff, option_all, any-reject_self,
  length-update, without_first, count, count-without_first, count-without_first_ne, contains-eq-ltb,
  Assoc, lookup, insert, remove, lookup-insert, lookup-remove,
}

-- The values that `state` takes.
pub data State : Type 0 where
  created started executing_query saving_results checking_alerts finished failed cancelled : State

-- Of the tracker's dictionary: what the code reads again, or writes on the way.
pub record Tracker : Type 0 where
  pub task_id : ℕ
  pub state : State
  pub query_hash : String
  pub data_source_id : ℕ
  pub scheduled : Bool
  pub query_id : Option ℕ  -- `none` for 'unknown' and 'adhoc'
  pub created_at : ℕ
  pub started_at : Option ℕ
  pub run_time : Option ℕ
  pub error : Option String

pub data ListName : Type 0 where
  done waiting in_progress : ListName

-- A sorted set: the members with their scores, the lowest score first.
abbrev pub SortedSet : Type 0
SortedSet = Assoc ℕ ℕ

-- The keys 'query_task_tracker:<task id>' and the three sorted sets of them.
pub record Trackers : Type 0 where
  pub records : Assoc ℕ Tracker
  pub done_list : SortedSet
  pub waiting_list : SortedSet
  pub in_progress_list : SortedSet

unfoldable pub list_of : Trackers → ListName → SortedSet
list_of r done = r.done_list
list_of r waiting = r.waiting_list
list_of r in_progress = r.in_progress_list

unfoldable pub set_list : ListName → SortedSet → Trackers → Trackers
set_list done l r = record r { done_list = l }
set_list waiting l r = record r { waiting_list = l }
set_list in_progress l r = record r { in_progress_list = l }

-- `zadd`: a member that is there gets the new score.
unfoldable pub zadd : ℕ → ℕ → SortedSet → SortedSet
zadd member score l = insert_by (λ p. p.1) (member, score) (remove member l)

unfoldable pub zrem : ℕ → SortedSet → SortedSet
zrem member l = remove member l

-- QueryTaskTracker.create
unfoldable pub create : ℕ → String → ℕ → Bool → Option ℕ → ℕ → Tracker
create task_id query_hash data_source_id scheduled query_id now = record {
  task_id = task_id;
  state = created;
  query_hash = query_hash;
  data_source_id = data_source_id;
  scheduled = scheduled;
  query_id = query_id;
  created_at = now;
  started_at = none;
  run_time = none;
  error = none;
}

-- _get_list
abbrev pub get_list : State → ListName
get_list finished = done
get_list failed = done
get_list cancelled = done
get_list created = waiting
get_list _ = in_progress

abbrev pub other_lists : ListName → List ListName
other_lists done = waiting ∷ in_progress ∷ []
other_lists waiting = done ∷ in_progress ∷ []
other_lists in_progress = done ∷ waiting ∷ []

unfoldable pub zrem_all : ℕ → List ListName → Trackers → Trackers
unfolding list_of set_list zrem
zrem_all member [] r = r
zrem_all member (l ∷ ls) r = zrem_all member ls (set_list l (zrem member (list_of r l)) r)

-- save: the record, its place in the list of its state, and out of the other lists.
unfoldable pub save : Tracker → ℕ → Trackers → Trackers
unfolding list_of set_list zadd zrem_all
save t now r =
    let l = get_list t.state in
    let stored : Trackers = record r { records = insert t.task_id t r.records } in
    zrem_all t.task_id (other_lists l) (set_list l (zadd t.task_id now (list_of stored l)) stored)

-- get_by_task_id
unfoldable pub get_by_task_id : ℕ → Trackers → Option Tracker
get_by_task_id id r = lookup id r.records

-- all(list_name) with its default arguments: the whole list, the highest score first, and the record
-- of each member, `none` where its key is gone.
unfoldable pub all_of : ListName → Trackers → List (Option Tracker)
unfolding list_of
all_of l r = map (λ (p : ℕ × ℕ). lookup p.0 r.records) (reverse (list_of r l))

unfoldable pub delete_records : List ℕ → Assoc ℕ Tracker → Assoc ℕ Tracker
delete_records [] m = m
delete_records (id ∷ ids) m = delete_records ids (remove id m)

-- prune: how many were removed, and what is left.
unfoldable pub prune : ListName → ℕ → ℕ → Trackers → ℕ × Trackers
unfolding list_of set_list
prune l keep_count max_keys r =
    let members = list_of r l in
    if leb (length members) keep_count
    then (0, r)
    else let remove_count = min max_keys (length members - keep_count) in
      let keys = map (λ (p : ℕ × ℕ). p.0) (take remove_count members) in
      (
        remove_count,
        set_list l (drop remove_count members)
            (record r { records = delete_records keys r.records }),
      )
