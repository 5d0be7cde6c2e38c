-- ===== src/Permissions.antt =====
-- redash/permissions.py, and the permissions that redash/models.py gives to users.
pub mod Access
use redash.Prelude.{
  ℕ, zero, suc, ◌+◌, ◌-◌, ◌*◌, ◌/◌, ◌%◌, ◌^◌, ◌≤◌, ◌<◌, min, max, String, ◌≡◌, refl, sym, ap, ◌∙◌,
  subst, ◌≢◌, ◌↔◌, ◌⊎◌, inl, inr, Bool, true, false, ◌&&◌, ◌||◌, not, Option, none, some, List, [],
  ◌∷◌, ◌++◌, map, arith, ltb, leb, nat_beq, if◌then◌else◌, ltb→lt, lt→ltb, leb→le, nat_beq_iff,
  tests, Eq, ◌==◌, nat_eq, string_eq, list_eq, option_eq, list_beq_iff, option_beq_iff, Bool-cases,
  Option-cases, is_some, length, take, drop, select, find, any, all, length-append,
  length-select-le, any-append, contains, contains-append, Assoc, lookup, insert, remove,
  lookup-insert, lookup-remove,
}
use redash.Tables.{Group, User, ApiUser, DataSourceGroup, AccessPermission, Db}

-- Who makes the request, once `login_required` has passed.
pub data Principal : Type 0 where
  user : User → Principal
  api_user : ApiUser → Principal

-- What the checks ask of `user`: `user.permissions` and `user.group_ids`.
pub record Viewer : Type 0 where
  pub permissions : List String
  pub group_ids : List ℕ

-- User.permissions: the permissions of every group that the user is in.
unfoldable pub user_permissions : List Group → User → List String
user_permissions [] u = []
user_permissions (g ∷ gs) u =
    let rest = user_permissions gs u in
    if contains u.group_ids g.id then g.permissions ++ rest else rest

unfoldable pub viewer : List Group → Principal → Viewer
viewer groups (user u) = record { permissions = user_permissions groups u; group_ids = u.group_ids }
viewer groups (api_user a) = record { permissions = "view_query" ∷ []; group_ids = a.group_ids }

-- PermissionsCheckMixin: `reduce` of `and` over the wanted permissions.
unfoldable pub has_permissions : Viewer → List String → Bool
has_permissions u wanted = all (λ p. contains u.permissions p) wanted

unfoldable pub has_permission : Viewer → String → Bool
has_permission u p = has_permissions u (p ∷ [])

-- DataSource.groups: `dict` of the rows' pairs, so a later row for a group wins.
unfoldable pub groups_from : List DataSourceGroup → ℕ → Assoc ℕ Bool → Assoc ℕ Bool
groups_from [] ds acc = acc
groups_from (r ∷ rs) ds acc =
    groups_from rs ds (if r.data_source_id == ds then insert r.group_id r.view_only acc else acc)

unfoldable pub data_source_groups : List DataSourceGroup → ℕ → Assoc ℕ Bool
unfolding groups_from
data_source_groups rows ds = groups_from rows ds []

abbrev pub keys : Assoc ℕ Bool → List ℕ
keys m = map (λ p. p.0) m

-- `object_groups[group]`; the key is there for every matching group.
abbrev level_of : Assoc ℕ Bool → ℕ → Bool
level_of m g = elim (lookup g m) [ none ↦ true | some v ↦ v ]

abbrev is_empty {ℓ} : {A : Type ℓ} → List A → Bool
is_empty [] = true
is_empty (_ ∷ _) = false

unfoldable pub has_access : Assoc ℕ Bool → Viewer → Bool → Bool
has_access object_groups u need_view_only =
    if contains u.permissions "admin"
    then true
    else let matching_groups = select (λ g. contains u.group_ids g) (keys object_groups) in
      if is_empty matching_groups
      then false
      else let required_level = if need_view_only then 1 else 2 in
        let group_level = if all (level_of object_groups) matching_groups then 1 else 2 in
        leb required_level group_level

-- `current_user.id` of an ApiUser is its key, which is never equal to a user's id.
unfoldable pub is_owner : Principal → ℕ → Bool
is_owner (user u) owner_id = owner_id == u.id
is_owner (api_user a) owner_id = false

unfoldable pub has_permission_or_owner : List Group → Principal → String → ℕ → Bool
unfolding is_owner
has_permission_or_owner groups p permission owner_id =
    is_owner p owner_id || has_permission (viewer groups p) permission

unfoldable pub is_admin_or_owner : List Group → Principal → ℕ → Bool
unfolding has_permission_or_owner
is_admin_or_owner groups p owner_id = has_permission_or_owner groups p "admin" owner_id
