-- ===== src/DataSources.antt =====
-- redash/handlers/data_sources.py and DataSource of redash/models.py: the requests that create, edit and delete a
-- data source, and its pauses. `schema_of_type` is get_configuration_schema_for_query_runner_type, `refuses` tells
-- the contents that the database does not accept at a commit (IntegrityError).
pub mod Links
pub mod Requests
pub mod Edits
pub mod Answers
use redash.Prelude.{
  ℕ, zero, suc, ◌+◌, ◌-◌, ◌*◌, ◌/◌, ◌%◌, ◌^◌, ◌≤◌, ◌<◌, min, max, String, ◌≡◌, refl, sym, ap, ◌∙◌,
  subst, ◌≢◌, ◌↔◌, ◌⊎◌, inl, inr, Bool, true, false, ◌&&◌, ◌||◌, not, Option, none, some, List, [],
  ◌∷◌, ◌++◌, map, arith, ltb, leb, nat_beq, if◌then◌else◌, ltb→lt, lt→ltb, leb→le, nat_beq_iff,
  tests, Eq, ◌==◌, nat_eq, string_eq, list_eq, option_eq, list_beq_iff, option_beq_iff, Bool-cases,
  Option-cases, is_some, length, take, drop, select, find, any, all, length-append,
  length-select-le, any-append, contains, contains-append, reject, update, option_all-find,
  insert_by, sort_by, any-sort_by, any-select, pair_eq, pair_beq_iff, option_all, any-reject_self,
  length-update, without_first, count, count-without_first, count-without_first_ne, contains-eq-ltb,
  Assoc, lookup, insert, remove, lookup-insert, lookup-remove, printed, concat, all-append, any_ext,
  select_ext,
}
use redash.Tables.{Group, DataSource, DataSourceGroup, QueryResult, Query, QueryResultSet, Db}
use redash.Permissions.{Principal}
use redash.Handler.{
  Failure, abort, exception, Action, pure, fail, gets, modify, commit, record_event, ◌>>=◌, ◌>>◌,
  one, require,
}
use redash.Groups.{require_permission, data_source_by_id_and_org}
use redash.Configuration
use redash.Configuration.{Schema, Container, update_config, set_schema}

-- The JSON text of SECRET_PLACEHOLDER.
abbrev pub placeholder : String
placeholder = "\"--------\""

-- utils.filter_none
unfoldable pub filter_none : Assoc String String → Assoc String String
filter_none d = reject (λ p. p.1 == "null") d

-- How `options.update` ends: with new options, with a ValidationError, or with another exception.
abbrev pub updated : Configuration.Result (Container String) → Action (Assoc String String)
updated (Configuration.ok c) = pure c.config
updated (Configuration.raise Configuration.validation_error) = fail (abort 400)
updated (Configuration.raise _) = fail exception

-- `if not test: abort(400)` on a value that may be missing.
abbrev pub present : {A : Type 0} → Option A → Action A
present none = fail (abort 400)
present (some a) = pure a

unfoldable pub set_data_source : ℕ → String → String → Assoc String String → Db → Db
set_data_source id type name options db = record db {
  data_sources =
      update (λ d. d.id == id) (λ d. record d { type = type; name = name; options = options })
        db.data_sources;
}

-- Organization.default_group
unfoldable pub default_group : ℕ → Db → Option Group
default_group org db =
    find (λ g. g.org_id == org && (g.name == "default" && g.type == "builtin")) db.groups

-- The row of DataSourceGroup; one without a group gives nothing to anybody, and is left out.
abbrev pub default_row : ℕ → ℕ → Option Group → List DataSourceGroup
default_row id ds none = []
default_row id ds (some g) =
    record { id = id; data_source_id = ds; group_id = g.id; view_only = false } ∷ []

-- DataSource.create_with_group
unfoldable pub create_with_group : ℕ → String → String → Assoc String String → Db → Db
unfolding default_group
create_with_group org name type options db = record db {
  data_sources =
      db.data_sources
      ++ record {
        id = db.next_id;
        org_id = org;
        name = name;
        type = type;
        options = options;
        queue_name = "queries";
        scheduled_queue_name = "scheduled_queries";
      }
        ∷ [];
  data_source_groups =
      db.data_source_groups ++ default_row (suc db.next_id) db.next_id (default_group org db);
  next_id = suc (suc db.next_id);
}

-- DataSource.delete: the UPDATE of the queries,
unfoldable pub unlink_queries : ℕ → Db → Db
unlink_queries ds db = record db {
  queries =
      update (λ q. q.data_source_id == some ds)
        (λ q. record q { data_source_id = none; latest_query_data_id = none }) db.queries;
}

-- the DELETE of the results, which the database refuses while a row refers to one of them,
abbrev pub is_result_of : ℕ → Db → ℕ → Bool
is_result_of ds db id = any (λ r. r.data_source_id == ds && r.id == id) db.query_results

unfoldable pub results_in_use : ℕ → Db → Bool
results_in_use ds db =
    any (λ s. is_result_of ds db s.result_id) db.query_resultsets
    || any (λ q. elim q.latest_query_data_id [ none ↦ false | some id ↦ is_result_of ds db id ])
        db.queries

unfoldable pub delete_results : ℕ → Db → Db
delete_results ds db = record db {
  query_results = reject (λ r. r.data_source_id == ds) db.query_results;
}

-- and `db.session.delete(self)`, with its `data_source_groups` by cascade.
unfoldable pub delete_row : ℕ → Db → Db
delete_row ds db = record db {
  data_sources = reject (λ d. d.id == ds) db.data_sources;
  data_source_groups = reject (λ r. r.data_source_id == ds) db.data_source_groups;
}

unfoldable pub delete_data_source : ℕ → Action (Unit {0})
delete_data_source ds = do
  modify (unlink_queries ds)
  in_use ← gets (results_in_use ds)
  require (not in_use) exception
  modify (delete_results ds)
  modify (delete_row ds)
  commit

module _ (schema_of_type : String → Option (Schema String)) (refuses : Db → Bool) (me : Principal)
    (org : ℕ) where
  abbrev commit_or_abort : Action (Unit {0})
  commit_or_abort = do refused ← gets refuses; require (not refused) (abort 400); commit

  -- DataSourceResource.post
  unfoldable pub edit : ℕ → String → String → Assoc String String → Action (Unit {0})
  edit data_source_id type name options = do
    require_permission me org "admin"
    data_source ← gets (data_source_by_id_and_org data_source_id org)
    data_source ← one data_source
    require (is_some (schema_of_type type)) (abort 400)
    let container : Container String = record {
      config = data_source.options;
      schema = schema_of_type type;
    }
    options ← updated (update_config placeholder (filter_none options) container)
    modify (set_data_source data_source.id type name options)
    commit_or_abort

  -- DataSourceResource.delete
  unfoldable pub delete : ℕ → Action (Unit {0})
  delete data_source_id = do
    require_permission me org "admin"
    data_source ← gets (data_source_by_id_and_org data_source_id org)
    data_source ← one data_source
    delete_data_source data_source.id
    record_event "delete" "datasource" data_source_id

  -- DataSourceListResource.post; a missing field is an absent argument.
  unfoldable pub create :
      Option (Assoc String String) → Option String → Option String → Action (Unit {0})
  create options name type = do
    require_permission me org "admin"
    options ← present options
    name ← present name
    type ← present type
    schema ← present (schema_of_type type)
    require (schema.validates (filter_none options)) (abort 400)
    id ← gets (λ db. db.next_id)
    modify (create_with_group org name type (filter_none options))
    commit_or_abort
    record_event "create" "datasource" id

-- The keys 'ds:<id>:pause' of Redis, with the reasons; `pause(None)` stores the text 'None'.
abbrev pub Pauses : Type 0
Pauses = Assoc ℕ String

unfoldable pub pause : ℕ → Option String → Pauses → Pauses
pause ds none pauses = insert ds "None" pauses
pause ds (some reason) pauses = insert ds reason pauses

unfoldable pub resume : ℕ → Pauses → Pauses
resume ds pauses = remove ds pauses

unfoldable pub paused : ℕ → Pauses → Bool
paused ds pauses = is_some (lookup ds pauses)

unfoldable pub pause_reason : ℕ → Pauses → Option String
pause_reason ds pauses = lookup ds pauses
