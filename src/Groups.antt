-- ===== src/Groups.antt =====
-- redash/handlers/groups.py: groups, their members and their data sources.
pub mod Requests
pub mod Members
pub mod DataSources
use redash.Prelude.{
  ℕ, zero, suc, ◌+◌, ◌-◌, ◌*◌, ◌/◌, ◌%◌, ◌^◌, ◌≤◌, ◌<◌, min, max, String, ◌≡◌, refl, sym, ap, ◌∙◌,
  subst, ◌≢◌, ◌↔◌, ◌⊎◌, inl, inr, Bool, true, false, ◌&&◌, ◌||◌, not, Option, none, some, List, [],
  ◌∷◌, ◌++◌, map, arith, ltb, leb, nat_beq, if◌then◌else◌, ltb→lt, lt→ltb, leb→le, nat_beq_iff,
  tests, Eq, ◌==◌, nat_eq, string_eq, list_eq, option_eq, list_beq_iff, option_beq_iff, Bool-cases,
  Option-cases, is_some, length, take, drop, select, find, any, all, length-append,
  length-select-le, any-append, contains, contains-append, reject, update, any-reject_self,
  length-update, without_first, count, count-without_first, count-without_first_ne, contains-eq-ltb,
  Assoc, lookup, insert, remove, lookup-insert, lookup-remove,
}
use redash.Tables.{Group, User, DataSource, DataSourceGroup, Db}
use redash.Permissions.{Principal, viewer, has_permission}
use redash.Handler.{
  Failure, abort, exception, Result, Action, pure, gets, modify, commit, record_event, ◌>>=◌, ◌>>◌,
  one, require,
}

-- Group.DEFAULT_PERMISSIONS
abbrev pub default_permissions : List String
default_permissions =
    "create_dashboard" ∷ "create_query" ∷ "edit_dashboard" ∷ "edit_query" ∷ "view_query"
    ∷ "view_source" ∷ "execute_query" ∷ "list_users" ∷ "schedule_query" ∷ "list_dashboards"
    ∷ "list_alerts" ∷ "list_data_sources" ∷ []

-- BelongsToOrgMixin.get_by_id_and_org
unfoldable pub group_by_id_and_org : ℕ → ℕ → Db → Option Group
group_by_id_and_org id org db = find (λ g. g.id == id && g.org_id == org) db.groups

unfoldable pub user_by_id_and_org : ℕ → ℕ → Db → Option User
user_by_id_and_org id org db = find (λ u. u.id == id && u.org_id == org) db.users

unfoldable pub data_source_by_id_and_org : ℕ → ℕ → Db → Option DataSource
data_source_by_id_and_org id org db = find (λ d. d.id == id && d.org_id == org) db.data_sources

abbrev pub is_builtin : Group → Bool
is_builtin g = g.type == "builtin"

-- `db.session.add` of a new group, which gets the next id.
unfoldable pub add_group : Group → Db → Db
add_group g db = record db { groups = db.groups ++ g ∷ []; next_id = suc db.next_id }

unfoldable pub rename_group : ℕ → String → Db → Db
rename_group id name db = record db {
  groups = update (λ g. g.id == id) (λ g. record g { name = name }) db.groups;
}

-- Group.members, each of which drops the group; then the group, with its `data_sources` by cascade.
unfoldable pub delete_group : ℕ → Db → Db
delete_group id db = record db {
  users =
      update (λ u. contains u.group_ids id)
        (λ u. record u { group_ids = without_first id u.group_ids }) db.users;
  groups = reject (λ g. g.id == id) db.groups;
  data_source_groups = reject (λ r. r.group_id == id) db.data_source_groups;
}

unfoldable pub set_group_ids : ℕ → (List ℕ → List ℕ) → Db → Db
set_group_ids id f db = record db {
  users = update (λ u. u.id == id) (λ u. record u { group_ids = f u.group_ids }) db.users;
}

-- DataSource.add_group
unfoldable pub add_data_source_group : ℕ → ℕ → Bool → Db → Db
add_data_source_group ds group view_only db = record db {
  data_source_groups =
      db.data_source_groups
      ++ record { id = db.next_id; data_source_id = ds; group_id = group; view_only = view_only }
        ∷ [];
  next_id = suc db.next_id;
}

abbrev pub links : ℕ → ℕ → DataSourceGroup → Bool
links ds group r = r.data_source_id == ds && r.group_id == group

-- DataSource.remove_group
unfoldable pub remove_data_source_group : ℕ → ℕ → Db → Db
remove_data_source_group ds group db = record db {
  data_source_groups = reject (links ds group) db.data_source_groups;
}

-- `one()`: exactly one row, or an exception.
unfoldable pub is_one : List DataSourceGroup → Bool
is_one (_ ∷ []) = true
is_one _ = false

-- DataSource.update_group_permission on the row that `one()` gives.
unfoldable pub set_view_only : ℕ → ℕ → Bool → Db → Db
set_view_only ds group view_only db = record db {
  data_source_groups =
      update (links ds group) (λ r. record r { view_only = view_only }) db.data_source_groups;
}

module _ (me : Principal) (org : ℕ) where
  -- permissions.require_permission and require_admin
  unfoldable pub require_permission : String → Action (Unit {0})
  require_permission p = do
    allowed ← gets (λ db. has_permission (viewer db.groups me) p)
    require allowed (abort 403)

  -- GroupListResource.post
  unfoldable pub create : String → Action (Unit {0})
  create name = do
    require_permission "admin"
    id ← gets (λ db. db.next_id)
    let group : Group = record {
      id = id;
      org_id = org;
      type = "regular";
      name = name;
      permissions = default_permissions;
    }
    modify (add_group group)
    commit
    record_event "create" "group" id

  -- GroupResource.post
  unfoldable pub rename : ℕ → String → Action (Unit {0})
  rename group_id name = do
    require_permission "admin"
    group ← gets (group_by_id_and_org group_id org)
    group ← one group
    require (not (is_builtin group)) (abort 400)
    modify (rename_group group.id name)
    commit
    record_event "edit" "group" group.id

  -- GroupResource.delete
  unfoldable pub delete : ℕ → Action (Unit {0})
  delete group_id = do
    require_permission "admin"
    group ← gets (group_by_id_and_org group_id org)
    group ← one group
    require (not (is_builtin group)) (abort 400)
    modify (delete_group group_id)
    commit

  -- GroupMemberListResource.post
  unfoldable pub add_member : ℕ → ℕ → Action (Unit {0})
  add_member group_id user_id = do
    require_permission "admin"
    user ← gets (user_by_id_and_org user_id org)
    user ← one user
    group ← gets (group_by_id_and_org group_id org)
    group ← one group
    modify (set_group_ids user.id (λ ids. ids ++ group.id ∷ []))
    commit
    record_event "add_member" "group" group.id

  -- GroupMemberResource.delete. `list.remove` raises where the group is not in the list.
  unfoldable pub remove_member : ℕ → ℕ → Action (Unit {0})
  remove_member group_id user_id = do
    require_permission "admin"
    user ← gets (user_by_id_and_org user_id org)
    user ← one user
    require (contains user.group_ids group_id) exception
    modify (set_group_ids user.id (without_first group_id))
    commit
    record_event "remove_member" "group" group_id

  -- GroupDataSourceListResource.post
  unfoldable pub add_data_source : ℕ → ℕ → Action (Unit {0})
  add_data_source group_id data_source_id = do
    require_permission "admin"
    ds ← gets (data_source_by_id_and_org data_source_id org)
    ds ← one ds
    group ← gets (group_by_id_and_org group_id org)
    group ← one group
    modify (add_data_source_group ds.id group.id false)
    commit
    record_event "add_data_source" "group" group_id

  -- GroupDataSourceResource.post
  unfoldable pub change_data_source_permission : ℕ → ℕ → Bool → Action (Unit {0})
  change_data_source_permission group_id data_source_id view_only = do
    require_permission "admin"
    ds ← gets (data_source_by_id_and_org data_source_id org)
    ds ← one ds
    group ← gets (group_by_id_and_org group_id org)
    group ← one group
    rows ← gets (λ db. select (links ds.id group.id) db.data_source_groups)
    require (is_one rows) exception
    modify (set_view_only ds.id group.id view_only)
    commit
    record_event "change_data_source_permission" "group" group_id

  -- GroupDataSourceResource.delete
  unfoldable pub remove_data_source : ℕ → ℕ → Action (Unit {0})
  remove_data_source group_id data_source_id = do
    require_permission "admin"
    ds ← gets (data_source_by_id_and_org data_source_id org)
    ds ← one ds
    group ← gets (group_by_id_and_org group_id org)
    group ← one group
    modify (remove_data_source_group ds.id group.id)
    commit
    record_event "remove_data_source" "group" group_id
