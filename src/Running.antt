-- ===== src/Running.antt =====
-- redash/handlers/query_results.py: running a query now, or answering with a stored result, and
-- QueryRefreshResource of redash/handlers/queries.py.
pub mod Answers
pub mod Reading
use redash.Prelude.{
  ℕ, zero, suc, ◌+◌, ◌-◌, ◌*◌, ◌/◌, ◌%◌, ◌^◌, ◌≤◌, ◌<◌, min, max, String, ◌≡◌, refl, sym, ap, ◌∙◌,
  subst, ◌≢◌, ◌↔◌, ◌⊎◌, inl, inr, Bool, true, false, ◌&&◌, ◌||◌, not, Option, none, some, List, [],
  ◌∷◌, ◌++◌, map, arith, ltb, leb, nat_beq, if◌then◌else◌, ltb→lt, lt→ltb, leb→le, nat_beq_iff,
  tests, Eq, ◌==◌, nat_eq, string_eq, list_eq, option_eq, list_beq_iff, option_beq_iff, Bool-cases,
  Option-cases, is_some, length, take, drop, select, find, any, all, length-append,
  length-select-le, any-append, contains, contains-append, reject, update, option_all-find,
  insert_by, sort_by, any-sort_by, any-select, pair_eq, pair_beq_iff, option_all, any-reject_self,
  length-update, without_first, count, count-without_first, count-without_first_ne, contains-eq-ltb,
  Assoc, lookup, insert, remove, lookup-insert, lookup-remove, printed, concat,
}
use redash.Tables.{DataSource, Query, QueryResult, Db}
use redash.Permissions.{
  Principal, user, api_user, has_access, has_permission, viewer, data_source_groups,
}
use redash.Handler.{
  Failure, abort, no_result, exception, Result, ok, err, Action, pure, fail, gets, modify, commit,
  record_event, ◌>>=◌, ◌>>◌, one, require, get_object_or_404,
}
use redash.Groups.{data_source_by_id_and_org, require_permission}
use redash.Sharing.{user_row}
use redash.Alerts.Requests.{query_by_id_and_org, query_groups, require_access}
use redash.Results.{get_latest, store_result}
use redash.Tasks.Enqueue.{Broker, Call, Interference, enqueue_query}
use redash.Tasks.Executor.{RunQuery, returns, raises, error_text}

-- What the code takes from elsewhere: gen_query_hash, collect_query_parameters, pystache, the time, the limit
-- of ad hoc queries and whether a data source is paused, with the reason.
pub record Context : Type 0 where
  pub hash : String → String
  pub parameters : String → List String
  pub render : String → Assoc String String → String
  pub now : ℕ
  pub time_limit : Option ℕ
  pub paused : ℕ → Option (Option String)

-- How `run_query` answers: an error_response, with the missing parameters or because of a pause; a stored
-- result; or a job.
pub data Answer : Type 0 where
  missing : List String → Answer
  is_paused : Option String → Answer
  stored : QueryResult → Answer
  job : ℕ → Answer
  no_job : Answer

abbrev pub missing_params : Context → Assoc String String → String → List String
missing_params c values query_text =
    select (λ p. not (contains (map (λ (v : String × String). v.0) values) p))
      (c.parameters query_text)

-- `if query_parameters: query_text = pystache.render(...)`
abbrev pub rendered : Context → Assoc String String → String → String
rendered c values query_text = elim (c.parameters query_text) [
  | [] ↦ query_text
  | p ∷ ps ↦ c.render query_text values
]

abbrev pub is_zero : Option ℕ → Bool
is_zero none = false
is_zero (some zero) = true
is_zero (some (suc n)) = false

-- `max_age` in seconds: 0 asks for no stored result, none stands for -1, any age.
abbrev pub cached : Context → ℕ → String → Option ℕ → List QueryResult → Option QueryResult
cached c data_source_id query_text max_age results =
    if is_zero max_age
    then none
    else get_latest data_source_id (c.hash query_text) max_age c.now results

abbrev pub call_of : Context → DataSource → String → Option ℕ → ℕ → Call
call_of c data_source query_text query_id user_id = record {
  query_text = query_text;
  query_hash = c.hash query_text;
  data_source = data_source;
  user_id = user_id;
  scheduled_query_id = none;
  query_id = query_id;
  time_limit = c.time_limit;
  now = c.now;
}

abbrev pub answer_job : Option ℕ → Answer
answer_job none = no_job
answer_job (some id) = job id

module _ (c : Context) (others : List Interference) where
  -- The end of `run_query`: the result that was found, or a job for the rendered text.
  unfoldable pub answer_with :
      DataSource → String → Option ℕ → ℕ → Option QueryResult → Broker → Answer × Broker
  answer_with data_source query_text query_id user_id (some r) b = (stored r, b)
  answer_with data_source query_text query_id user_id none b =
      let (id, b') = enqueue_query (call_of c data_source query_text query_id user_id) others b in
      (answer_job id, b')

  -- The two early ends of `run_query`.
  unfoldable pub unless_refused :
      List String → Option (Option String) → Answer × Broker → Broker → Answer × Broker
  unless_refused (p ∷ ps) paused answer b = (missing (p ∷ ps), b)
  unless_refused [] (some reason) answer b = (is_paused reason, b)
  unless_refused [] none answer b = answer

  unfoldable pub run_query :
      DataSource
      → Assoc String String
      → String
      → Option ℕ
      → Option ℕ
      → ℕ
      → List QueryResult
      → Broker
      → Answer × Broker
  unfolding answer_with unless_refused
  run_query data_source values query_text query_id max_age user_id results b =
      let text = rendered c values query_text in
      unless_refused (missing_params c values query_text) (c.paused data_source.id)
        (answer_with data_source text query_id user_id
          (cached c data_source.id text max_age results) b)
        b

-- run_query_sync, with the time that the query takes. What the runner raises ends in an abort.
abbrev pub is_positive : Option ℕ → Bool
is_positive none = false
is_positive (some n) = ltb 0 n

unfoldable pub store_sync :
    Context → DataSource → String → ℕ → Option String → Action (Option QueryResult)
store_sync c data_source query_text run_time data_text = do
  id ← gets (λ db. db.next_id)
  modify (λ db.
      (store_result data_source.org_id data_source.id (c.hash query_text) query_text data_text
        run_time (c.now + run_time) db).2)
  commit
  gets (λ db. find (λ r. r.id == id) db.query_results)

unfoldable pub sync_result :
    Context → DataSource → String → Option ℕ → ℕ → RunQuery → Action (Option QueryResult)
unfolding store_sync
sync_result c data_source query_text max_age run_time (raises message) =
    fail (abort (if is_positive max_age then 404 else 503))
sync_result c data_source query_text max_age run_time (returns data_text error) =
    if is_some (error_text error)
    then pure none
    else store_sync c data_source query_text run_time data_text

unfoldable pub run_query_sync :
    Context
    → (String → ℕ × RunQuery)
    → DataSource
    → Assoc String String
    → String
    → Option ℕ
    → Action (Option QueryResult)
run_query_sync c runner data_source values query_text max_age = do
  require (nat_eq.beq (length (missing_params c values query_text)) 0) exception
  let text = rendered c values query_text
  found ← gets (λ db.
      if is_positive max_age
      then get_latest data_source.id (c.hash text) max_age c.now db.query_results
      else none)
  let ran = runner text
  elim found [ some r ↦ pure (some r) | none ↦ sync_result c data_source text max_age ran.0 ran.1 ]

-- The end of a request that may run a query: the response of an answer, or an early end. `denied` is the
-- response 403 of QueryResultListResource.
pub data Response : Type 0 where
  answered : Answer → Response
  denied : Response
  failed : Failure → Response

-- `current_user.id`. An API user does not get as far as to have a query run.
abbrev pub user_id_of : Principal → ℕ
user_id_of (user u) = u.id
user_id_of (api_user a) = 0

-- `query.data_source`
abbrev pub data_source_of : Query → Db → Option DataSource
data_source_of q db = elim q.data_source_id [
  | none ↦ none
  | some id ↦ find (λ d. d.id == id) db.data_sources
]

abbrev pub is_user : Principal → Bool
is_user (user u) = true
is_user (api_user a) = false

module _ (c : Context) (others : List Interference) (me : Principal) (org : ℕ) (db : Db) where
  abbrev pub respond : Answer × Broker → Response × Broker
  respond (a, b) = (answered a, b)

  -- QueryResultListResource.post
  unfoldable pub execute :
      ℕ → String → Assoc String String → Option ℕ → Option ℕ → Broker → Response × Broker
  unfolding run_query
  execute data_source_id query_text values query_id max_age b =
      if has_permission (viewer db.groups me) "execute_query"
      then elim (data_source_by_id_and_org data_source_id org db) [
        | none ↦ (failed no_result, b)
        | some ds ↦
            if has_access (data_source_groups db.data_source_groups ds.id) (viewer db.groups me)
              false
            then respond (
                run_query c others ds values query_text query_id max_age (user_id_of me)
                  db.query_results b)
            else (denied, b)
      ]
      else (failed (abort 403), b)

  -- `run_query` on a query with no data source stops at the first look at it.
  abbrev pub without_source : Assoc String String → Query → Response
  without_source values q = elim (missing_params c values q.query_text) [
    | p ∷ ps ↦ answered (missing (p ∷ ps))
    | [] ↦ failed exception
  ]

  -- QueryRefreshResource.post
  unfoldable pub refresh : ℕ → Assoc String String → Broker → Response × Broker
  unfolding run_query
  refresh query_id values b =
      if is_user me
      then elim (query_by_id_and_org query_id org db) [
        | none ↦ (failed (abort 404), b)
        | some q ↦
            if has_access (query_groups q db) (viewer db.groups me) false
            then elim (data_source_of q db) [
              | none ↦ (without_source values q, b)
              | some ds ↦ respond (
                  run_query c others ds values q.query_text (some q.id) (some 0) (user_id_of me)
                    db.query_results b)
            ]
            else (failed (abort 403), b)
      ]
      else (failed (abort 403), b)
