-- ===== src/Sharing.antt =====
-- AccessPermission of redash/models.py, can_modify of redash/permissions.py, and the requests of
-- redash/handlers/permissions.py: who may change a query or a dashboard of somebody else.
pub mod Grants
pub mod Sequences
use redash.Prelude.{
  ℕ, zero, suc, ◌+◌, ◌-◌, ◌*◌, ◌/◌, ◌%◌, ◌^◌, ◌≤◌, ◌<◌, min, max, String, ◌≡◌, refl, sym, ap, ◌∙◌,
  subst, ◌≢◌, ◌↔◌, ◌⊎◌, inl, inr, Bool, true, false, ◌&&◌, ◌||◌, not, Option, none, some, List, [],
  ◌∷◌, ◌++◌, map, arith, ltb, leb, nat_beq, if◌then◌else◌, ltb→lt, lt→ltb, leb→le, nat_beq_iff,
  tests, Eq, ◌==◌, nat_eq, string_eq, list_eq, option_eq, list_beq_iff, option_beq_iff, Bool-cases,
  Option-cases, is_some, length, take, drop, select, find, any, all, length-append,
  length-select-le, any-append, contains, contains-append, reject, update, option_all-find,
  insert_by, sort_by, any-sort_by, any-select, pair_eq, pair_beq_iff, option_all, any-reject_self,
  length-update, without_first, count, count-without_first, count-without_first_ne, contains-eq-ltb,
  Assoc, lookup, insert, remove, lookup-insert, lookup-remove,
}
use redash.Tables.{User, Query, Dashboard, AccessPermission, Db}
use redash.Permissions.{Principal, user, api_user, is_admin_or_owner}
use redash.Handler.{
  Failure, abort, exception, Action, pure, fail, gets, modify, commit, record_event, ◌>>=◌, ◌>>◌,
  require, get_object_or_404,
}
use redash.Groups.{user_by_id_and_org}

-- ACCESS_TYPES
abbrev pub access_types : List String
access_types = "view" ∷ "modify" ∷ "delete" ∷ []

-- A filter that is left out where its argument is None.
abbrev pub unless_none : Option ℕ → ℕ → Bool
unless_none none n = true
unless_none (some m) n = m == n

-- AccessPermission._query, as a test on a row. The access type is left out where it is empty.
unfoldable pub query_permission :
    String → ℕ → String → Option ℕ → Option ℕ → AccessPermission → Bool
query_permission object_type object_id access_type grantee grantor p =
    p.object_id == object_id
    && (p.object_type == object_type
        && ((access_type == "" || p.access_type == access_type)
            && (unless_none grantee p.grantee_id && unless_none grantor p.grantor_id)))

-- AccessPermission.exists
unfoldable pub exists : String → ℕ → String → ℕ → Db → Bool
unfolding query_permission
exists object_type object_id access_type grantee db =
    any (query_permission object_type object_id access_type (some grantee) none)
      db.access_permissions

-- AccessPermission.revoke
unfoldable pub revoke : String → ℕ → ℕ → String → Db → Db
unfolding query_permission
revoke object_type object_id grantee access_type db = record db {
  access_permissions =
      reject (query_permission object_type object_id access_type (some grantee) none)
        db.access_permissions;
}

-- The rows that `grant` looks for.
abbrev pub same_grant : String → ℕ → String → ℕ → ℕ → AccessPermission → Bool
same_grant object_type object_id access_type grantee grantor p =
    p.object_type == object_type
    && (p.object_id == object_id
        && (p.access_type == access_type && (p.grantee_id == grantee && p.grantor_id == grantor)))

unfoldable pub add_grant : String → ℕ → String → ℕ → ℕ → Db → Db
add_grant object_type object_id access_type grantee grantor db = record db {
  access_permissions =
      db.access_permissions
      ++ record {
        id = db.next_id;
        object_type = object_type;
        object_id = object_id;
        access_type = access_type;
        grantor_id = grantor;
        grantee_id = grantee;
      }
        ∷ [];
  next_id = suc db.next_id;
}

-- AccessPermission.grant: `one_or_none` raises where there is more than one row.
unfoldable pub grant : String → ℕ → String → ℕ → ℕ → Action (Unit {0})
grant object_type object_id access_type grantee grantor = do
  n ← gets (λ db.
      length (
        select (same_grant object_type object_id access_type grantee grantor)
          db.access_permissions))
  require (leb n 1) exception
  modify
      (λ db. if n == 0 then add_grant object_type object_id access_type grantee grantor db else db)

-- `has_access` of User and of ApiUser, on one object.
unfoldable pub has_access_to : Principal → String → ℕ → String → Db → Bool
unfolding exists
has_access_to (user u) object_type object_id access_type db =
    exists object_type object_id access_type u.id db
has_access_to (api_user a) object_type object_id access_type db = false

unfoldable pub can_modify : Principal → String → ℕ → ℕ → Db → Bool
can_modify me object_type object_id owner_id db =
    is_admin_or_owner db.groups me owner_id || has_access_to me object_type object_id "modify" db

-- The owner of the object that `model.get_by_id_and_org` finds.
unfoldable pub owner_of : String → ℕ → ℕ → Db → Option ℕ
owner_of object_type object_id org db =
    if object_type == "queries"
    then elim (find (λ q. q.id == object_id && q.org_id == org) db.queries) [
      | none ↦ none
      | some q ↦ some q.user_id
    ]
    else if object_type == "dashboards"
    then elim (find (λ d. d.id == object_id && d.org_id == org) db.dashboards) [
      | none ↦ none
      | some d ↦ some d.user_id
    ]
    else none

-- `current_user.id` where it must be the id of a row.
unfoldable pub user_row : Principal → Action ℕ
user_row (user u) = pure u.id
user_row (api_user a) = fail exception

module _ (me : Principal) (org : ℕ) where
  unfoldable pub require_admin_or_owner : ℕ → Action (Unit {0})
  require_admin_or_owner owner_id = do
    allowed ← gets (λ db. is_admin_or_owner db.groups me owner_id)
    require allowed (abort 403)

  unfoldable pub require_object_modify_permission : String → ℕ → ℕ → Action (Unit {0})
  require_object_modify_permission object_type object_id owner_id = do
    allowed ← gets (can_modify me object_type object_id owner_id)
    require allowed (abort 403)

  -- ObjectPermissionsListResource.post
  unfoldable pub grant_permission : String → ℕ → String → ℕ → Action (Unit {0})
  grant_permission object_type object_id access_type user_id = do
    owner ← gets (owner_of object_type object_id org)
    owner ← get_object_or_404 owner
    require_admin_or_owner owner
    require (contains access_types access_type) (abort 400)
    grantee ← gets (user_by_id_and_org user_id org)
    require (is_some grantee) (abort 400)
    grantor ← user_row me
    grant object_type object_id access_type user_id grantor
    commit
    record_event "grant_permission" object_type object_id

  -- ObjectPermissionsListResource.delete
  unfoldable pub revoke_permission : String → ℕ → String → ℕ → Action (Unit {0})
  revoke_permission object_type object_id access_type user_id = do
    owner ← gets (owner_of object_type object_id org)
    owner ← get_object_or_404 owner
    require_admin_or_owner owner
    grantee ← gets (λ db. find (λ u. u.id == user_id) db.users)
    require (is_some grantee) (abort 400)
    modify (revoke object_type object_id user_id access_type)
    commit
    record_event "revoke_permission" object_type object_id

  -- CheckPermissionResource.get
  unfoldable pub check_permission : String → ℕ → String → Action Bool
  check_permission object_type object_id access_type = do
    owner ← gets (owner_of object_type object_id org)
    owner ← get_object_or_404 owner
    gets (has_access_to me object_type object_id access_type)
