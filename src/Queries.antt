-- ===== src/Queries.antt =====
-- Query.create, Query.archive and Query.fork of redash/models.py, and the requests of redash/handlers/queries.py
-- that create, edit, archive and fork queries. `hash` is gen_query_hash, `token` what generate_token returns.
pub mod Requests
pub mod Versions
pub mod Hashes
pub mod Consistent
pub mod Archived
pub mod Forks
pub mod Guards
use redash.Prelude.{
  ℕ, zero, suc, ◌+◌, ◌-◌, ◌*◌, ◌/◌, ◌%◌, ◌^◌, ◌≤◌, ◌<◌, min, max, String, ◌≡◌, refl, sym, ap, ◌∙◌,
  subst, ◌≢◌, ◌↔◌, ◌⊎◌, inl, inr, Bool, true, false, ◌&&◌, ◌||◌, not, Option, none, some, List, [],
  ◌∷◌, ◌++◌, map, arith, ltb, leb, nat_beq, if◌then◌else◌, ltb→lt, lt→ltb, leb→le, nat_beq_iff,
  tests, Eq, ◌==◌, nat_eq, string_eq, list_eq, option_eq, list_beq_iff, option_beq_iff, Bool-cases,
  Option-cases, is_some, length, take, drop, select, find, any, all, length-append,
  length-select-le, any-append, contains, contains-append, reject, update, option_all-find,
  insert_by, sort_by, any-sort_by, any-select, pair_eq, pair_beq_iff, option_all, any-reject_self,
  length-update, without_first, count, count-without_first, count-without_first_ne, contains-eq-ltb,
  Assoc, lookup, insert, remove, lookup-insert, lookup-remove, printed, concat,
}
use redash.Tables.{Query, Visualization, Alert, Db}
use redash.Permissions.{Principal, data_source_groups}
use redash.Handler.{
  Failure, abort, exception, Action, pure, fail, gets, modify, commit, record_event, ◌>>=◌, ◌>>◌,
  one, require, get_object_or_404,
}
use redash.Groups.{data_source_by_id_and_org, require_permission}
use redash.Sharing.{user_row, require_admin_or_owner, require_object_modify_permission}
use redash.Alerts.Requests.{query_by_id_and_org, query_groups, require_access, delete_alert}
use redash.Visuals.{add_visualization}
use redash.Tracking.{
  Assignment, Tracked, is_archived, schedule, untouched, set_attribute, update_model,
  record_changes,
}

-- What a request to create a query gives, with the defaults of the columns where it gives nothing.
pub record NewQuery : Type 0 where
  pub data_source_id : ℕ
  pub name : String
  pub description : Option String
  pub query_text : String
  pub schedule : Option (List ℕ)
  pub schedule_until : Option ℕ
  pub schedule_resultset_size : Option ℕ
  pub options : String
  pub tags : Option (List String)

-- A schedule keeps one result if it is told no number.
abbrev pub resultset_size : Option ℕ → Option ℕ
resultset_size none = none
resultset_size (some n) = if n == 1 then none else some n

-- Query.create: the row with the visualization "Table".
unfoldable pub create_query : Query → Db → Db
unfolding add_visualization
create_query q db =
    add_visualization q.id "TABLE" "Table" "" "{}"
      (record db { queries = db.queries ++ q ∷ []; next_id = suc db.next_id })

unfoldable pub delete_widgets_of : ℕ → Db → Db
delete_widgets_of query_id db =
    let ids =
      map (λ (v : Visualization). v.id) (select (λ v. v.query_id == query_id) db.visualizations) in
    record db {
      widgets =
          reject (λ w. elim w.visualization_id [ none ↦ false | some id ↦ contains ids id ])
            db.widgets;
    }

unfoldable pub delete_alerts : List ℕ → Db → Db
unfolding delete_alert
delete_alerts [] db = db
delete_alerts (id ∷ ids) db = delete_alerts ids (delete_alert id db)

abbrev pub alerts_of : ℕ → Db → List ℕ
alerts_of query_id db = map (λ (a : Alert). a.id) (select (λ a. a.query_id == query_id) db.alerts)

abbrev pub archived : Query → Tracked
archived q =
    set_attribute schedule (λ r. record r { schedule = none })
      (set_attribute is_archived (λ r. record r { is_archived = true }) (untouched q))

-- Query.archive
unfoldable pub archive : Query → ℕ → Db → Db
unfolding delete_widgets_of delete_alerts
archive q user_id db =
    record_changes (archived q) user_id
      (delete_alerts (alerts_of q.id db) (delete_widgets_of q.id db))

-- Visualization.copy, for every one but tables.
unfoldable pub copy_visualizations : ℕ → List Visualization → Db → Db
copy_visualizations query_id [] db = db
copy_visualizations query_id (v ∷ vs) db = copy_visualizations query_id vs (
    if v.type == "TABLE"
    then db
    else add_visualization query_id v.type v.name v.description v.options db)

abbrev pub copy_name : Query → String
copy_name q = concat "Copy of (#" (concat (printed q.id) (concat ") " q.name))

abbrev pub forked : Query → ℕ → String → ℕ → Query
forked q user_id token id = record {
  id = id;
  version = 0;
  org_id = q.org_id;
  data_source_id = q.data_source_id;
  latest_query_data_id = q.latest_query_data_id;
  name = copy_name q;
  description = q.description;
  query_text = q.query_text;
  query_hash = q.query_hash;
  api_key = token;
  user_id = user_id;
  last_modified_by_id = some user_id;
  is_archived = false;
  is_draft = true;
  schedule = none;
  schedule_failures = 0;
  schedule_until = none;
  schedule_resultset_size = none;
  options = q.options;
  tags = none;
}

-- Query.fork
unfoldable pub fork_query : Query → ℕ → String → Db → Db
unfolding create_query copy_visualizations
fork_query q user_id token db =
    let copy = forked q user_id token db.next_id in
    copy_visualizations copy.id (select (λ v. v.query_id == q.id) db.visualizations)
      (record_changes (untouched copy) user_id (create_query copy db))

-- `'version' in query_def and query_def['version'] != query.version` does not hold.
abbrev pub same_version : Option ℕ → Query → Bool
same_version none q = true
same_version (some n) q = n == q.version

module _ (hash : String → String) where
  abbrev pub created : NewQuery → ℕ → ℕ → String → ℕ → Query
  created p org user_id token id = record {
    id = id;
    version = 0;
    org_id = org;
    data_source_id = some p.data_source_id;
    latest_query_data_id = none;
    name = p.name;
    description = p.description;
    query_text = p.query_text;
    query_hash = hash p.query_text;
    api_key = token;
    user_id = user_id;
    last_modified_by_id = some user_id;
    is_archived = false;
    is_draft = true;
    schedule = p.schedule;
    schedule_failures = 0;
    schedule_until = p.schedule_until;
    schedule_resultset_size = resultset_size p.schedule_resultset_size;
    options = p.options;
    tags = p.tags;
  }

  unfoldable pub add_query : NewQuery → ℕ → ℕ → String → Db → Db
  unfolding create_query
  add_query p org user_id token db =
      let q = created p org user_id token db.next_id in
      record_changes (untouched q) user_id (create_query q db)

  -- `update_model`, with the user as the last to modify the query.
  abbrev pub edited : List Assignment → ℕ → Query → Tracked
  edited assignments user_id q =
      let t = update_model hash assignments (untouched q) in
      record t { row = record t.row { last_modified_by_id = some user_id } }

  module _ (me : Principal) (org : ℕ) where
    -- QueryListResource.post
    unfoldable pub create : NewQuery → String → Action (Unit {0})
    create p token = do
      require_permission me org "create_query"
      data_source ← gets (data_source_by_id_and_org p.data_source_id org)
      data_source ← one data_source
      require_access me org (λ db. data_source_groups db.data_source_groups data_source.id) false
      my_id ← user_row me
      id ← gets (λ db. db.next_id)
      modify (add_query p org my_id token)
      commit
      record_event "create" "query" id

    -- QueryResource.post. `stale`: another transaction was first, and SQLAlchemy raises StaleDataError.
    unfoldable pub edit : ℕ → Option ℕ → List Assignment → Bool → Action (Unit {0})
    edit query_id version assignments stale = do
      require_permission me org "edit_query"
      query ← gets (query_by_id_and_org query_id org)
      query ← get_object_or_404 query
      require_object_modify_permission me org "queries" query.id query.user_id
      require (same_version version query) (abort 409)
      my_id ← user_row me
      require (not stale) (abort 409)
      modify (record_changes (edited assignments my_id query) my_id)
      commit

module _ (me : Principal) (org : ℕ) where
  -- QueryResource.delete
  unfoldable pub delete : ℕ → Action (Unit {0})
  delete query_id = do
    query ← gets (query_by_id_and_org query_id org)
    query ← get_object_or_404 query
    require_admin_or_owner me org query.user_id
    my_id ← user_row me
    modify (archive query my_id)
    commit

  -- QueryForkResource.post. A query with no data source ends in an exception.
  unfoldable pub fork : ℕ → String → Action (Unit {0})
  fork query_id token = do
    require_permission me org "edit_query"
    query ← gets (query_by_id_and_org query_id org)
    query ← get_object_or_404 query
    require (is_some query.data_source_id) exception
    require_access me org (query_groups query) false
    my_id ← user_row me
    modify (fork_query query my_id token)
    commit
    record_event "fork" "query" query_id
