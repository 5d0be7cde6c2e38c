-- ===== src/Examples/Running.antt =====
-- Requests that have a query run, and requests on dashboards.
use redash.Prelude.{
  ℕ, ◌-◌, String, ◌≡◌, refl, ◌⊎◌, true, false, none, some, List, [], ◌∷◌, nat_eq, string_eq,
  list_eq, option_eq, select, find, any, all, contains, pair_eq, lookup, insert,
}
use redash.Tables.{QueryResult, Dashboard, ApiKey, Db}
use redash.Permissions.{
  Principal, user, has_access, has_permission, has_permissions, viewer, user_permissions,
  data_source_groups, groups_from, is_owner, has_permission_or_owner, is_admin_or_owner,
}
use redash.Handler.{serve, ◌>>=◌}
use redash.Groups.{require_permission}
use redash.Sharing.{require_admin_or_owner}
use redash.Visuals.{dashboard_by_id_and_org}
use redash.Alerts.Requests.{query_by_id_and_org, require_access}
use redash.Tasks.Enqueue.{Broker}
use redash.Tasks.Executor.{raises}
use redash.Examples.Rows.{rows, warehouse, old_result, in_2020, bob, as_member}
use redash.Running.{Context, stored, job, run_query, execute, refresh}
use redash.Running.Answers.{Fits, may_execute, may_refresh, run_query_answered, execute_forbidden}
use redash.Running.Reading.{
  Readable, get, result_by_id, query_result_by_id_and_org, checked_result, own_result,
  answer_result, get-Readable,
}
use redash.Dashboards.{generate_slug, unshare}
use redash.Dashboards.Slugs.{generate_slug_free}
use redash.Dashboards.Public.{public_keys, distinct_ids, unshare-public_keys}

-- No text has parameters, every text has the hash "h", and nothing is paused.
abbrev plain_context : Context
plain_context = record {
  hash = λ t. "h";
  parameters = λ t. [];
  render = λ t v. t;
  now = in_2020;
  time_limit = none;
  paused = λ id. none;
}

abbrev idle : Broker
idle = record {
  locks = [];
  trackers = record { records = []; waiting_list = []; in_progress_list = []; done_list = [] };
  submitted = [];
  next_job = 1;
  ready = [];
}

run_query_answered_example :
    ((r : QueryResult) × (run_query plain_context [] warehouse [] "SELECT 1" none
          (some 60)
          2
          (old_result ∷ [])
          idle
        ≡ (stored r, idle))
      × Fits plain_context 5 "SELECT 1" (some 60) r)
    ⊎ ((id : ℕ) × ((run_query plain_context [] warehouse [] "SELECT 1" none
            (some 60)
            2
            (old_result ∷ [])
            idle).0
          ≡ job id))
unfolding select
run_query_answered_example =
    run_query_answered plain_context [] warehouse [] "SELECT 1" none (some 60) 2 (old_result ∷ [])
      idle refl refl

-- A user in no group.
abbrev outsider : Principal
outsider = user (record bob { group_ids = [] })

execute_forbidden_example :
    (may_execute outsider 1 rows 5 ≡ false
      → (execute plain_context [] outsider 1 rows 5 "SELECT 1" [] none none idle).1 ≡ idle)
    × (may_refresh outsider 1 rows 5 ≡ false
        → (refresh plain_context [] outsider 1 rows 5 [] idle).1 ≡ idle)
execute_forbidden_example =
    execute_forbidden plain_context [] outsider 1 rows idle 5 "SELECT 1" [] none none

get-Readable_example : Readable as_member 1 rows (some 7) old_result
unfolding get result_by_id checked_result own_result answer_result serve ◌>>=◌ require_permission
    require_access query_by_id_and_org query_result_by_id_and_org find has_permission
    has_permissions viewer user_permissions all any contains has_access data_source_groups
    groups_from insert select lookup
get-Readable_example =
    get-Readable plain_context (λ id t. (0, raises "not asked")) as_member 1 (some 7) none [] none
      rows old_result refl

generate_slug_free_example :
    (slug : List ℕ) × (generate_slug (λ s. s) (b'a' ∷ []) ((b'a' ∷ []) ∷ []) ≡ some slug)
    × (contains ((b'a' ∷ []) ∷ []) slug ≡ false)
generate_slug_free_example = generate_slug_free (λ s. s) (b'a' ∷ []) ((b'a' ∷ []) ∷ [])

abbrev overview : Dashboard
overview = record {
  id = 15;
  version = 1;
  org_id = 1;
  slug = b'a' ∷ [];
  name = "A";
  user_id = 2;
  layout = "[]";
  dashboard_filters_enabled = false;
  is_archived = false;
  is_draft = false;
  tags = [];
}

abbrev public_key : ℕ → String → ApiKey
public_key id token = record {
  id = id;
  org_id = 1;
  api_key = token;
  active = true;
  object_type = "dashboards";
  object_id = 15;
  created_by_id = some 2;
}

-- The dashboard was shared twice.
abbrev shared_twice : Db
shared_twice = record rows {
  dashboards = overview ∷ [];
  api_keys = public_key 16 "s" ∷ public_key 17 "t" ∷ [];
}

unshare-public_keys_example :
    public_keys 15 (serve (unshare as_member 1 15) shared_twice).1.api_keys
    ≡ public_keys 15 shared_twice.api_keys - 1
unfolding unshare serve ◌>>=◌ require_admin_or_owner dashboard_by_id_and_org find distinct_ids any
    is_admin_or_owner has_permission_or_owner is_owner
unshare-public_keys_example = unshare-public_keys as_member 1 15 shared_twice refl refl
