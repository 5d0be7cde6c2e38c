-- ===== src/Tasks/Status.antt =====
-- `QueryTask.to_dict` of redash/tasks/queries.py: what a client is told of a job.
use redash.Prelude.{
  ℕ, String, ◌≡◌, refl, ◌⊎◌, inl, inr, Option, none, some, arith, if◌then◌else◌, ◌==◌, nat_eq,
  string_eq, list_eq, option_eq, pair_eq,
}

-- Celery's states that STATUSES has, and one for all others.
pub data TaskStatus : Type 0 where
  pending started success failure revoked other : TaskStatus

-- The result of a task: the information of a task that runs (with its start time, if it is there), the
-- value that the task returned, an exception, or none.
pub data TaskResult : Type 0 where
  info : Option ℕ → TaskResult
  returned : ℕ → TaskResult
  time_limit_exceeded : TaskResult
  exception : (message : String) → TaskResult
  nothing : TaskResult

pub record JobInfo : Type 0 where
  pub updated_at : ℕ
  pub status : ℕ
  pub error : String
  pub query_result_id : Option ℕ

-- STATUSES[task_status]; `none` is a KeyError.
unfoldable pub status_code : TaskStatus → Option ℕ
status_code pending = some 1
status_code started = some 2
status_code success = some 3
status_code failure = some 4
status_code revoked = some 4
status_code other = none

-- `result.get('start_time', 0)`; `none` is an AttributeError.
unfoldable pub start_time : TaskResult → Option ℕ
start_time (info none) = some 0
start_time (info (some t)) = some t
start_time _ = none

unfoldable pub updated_at : TaskStatus → TaskResult → Option ℕ
unfolding start_time
updated_at started result = start_time result
updated_at _ result = some 0

-- The error and the status that goes with it.
unfoldable pub error_of : TaskStatus → ℕ → TaskResult → String × ℕ
error_of s status time_limit_exceeded = ("Query exceeded Redash query execution time limit.", 4)
error_of s status (exception message) = (message, 4)
error_of revoked status _ = ("Query execution cancelled.", status)
error_of _ status _ = ("", status)

unfoldable pub result_id : TaskStatus → String → TaskResult → Option ℕ
result_id success error (returned id) = if error == "" then some id else none
result_id _ error _ = none

unfoldable pub to_dict : TaskStatus → TaskResult → Option JobInfo
unfolding updated_at status_code error_of result_id
to_dict s result = elim (updated_at s result) [
  | none ↦ none
  | some at ↦ elim (status_code s) [
    | none ↦ none
    | some code ↦
        let (error, status) = error_of s code result in
        some (record {
          updated_at = at;
          status = status;
          error = error;
          query_result_id = result_id s error result;
        })
  ]
]

-- What a client is told is consistent: a job with an error has the status 4, a job with a query result
-- has the status 3 and no error, and it is the result that the task returned.
pub to_dict_consistent :
    (s : TaskStatus) (result : TaskResult) (d : JobInfo)
    → to_dict s result ≡ some d
    → ((d.error ≡ "") ⊎ (d.status ≡ 4))
      × ((d.query_result_id ≡ none)
          ⊎ (d.status ≡ 3)
            × (d.error ≡ "")
            × ((id : ℕ) × (result ≡ returned id) × (d.query_result_id ≡ some id)))
unfolding to_dict
to_dict_consistent success (returned id) d h =
    (ground arith, inr (ground arith, ground arith, (id, refl, ground arith)))
to_dict_consistent s result d h = (ground arith, inl (ground arith))
