-- ===== src/Examples/Requests.antt =====
-- Requests on groups, and what the access rules say of them.
use redash.Prelude.{
  ◌+◌, ◌≡◌, refl, true, false, ◌||◌, [], ◌∷◌, nat_eq, string_eq, list_eq, option_eq, select, find,
  any, all, contains, reject, update, pair_eq,
}
use redash.Examples.Rows.{as_admin, as_member, rows}
use redash.Permissions.{
  Viewer, viewer, user_permissions, has_permission, has_permissions, has_access,
}
use redash.Permissions.Access.{some_group, has_access_iff}
use redash.Handler.{abort, err, serve, ◌>>=◌}
use redash.Groups.{
  require_permission, rename, delete, add_member, remove_member, add_data_source,
  change_data_source_permission, remove_data_source, group_by_id_and_org, user_by_id_and_org,
  data_source_by_id_and_org, delete_group, rename_group as set_name, set_group_ids, is_one,
  add_data_source_group, remove_data_source_group, set_view_only,
}
use redash.Groups.Requests.{rename_group, handle, handle_forbidden}
use redash.Groups.Members.{times, add_member-times}

abbrev bobs_view : Viewer
bobs_view = record { permissions = "view_query" ∷ []; group_ids = 2 ∷ [] }

has_access_iff_example : has_access ((1, false) ∷ (2, true) ∷ []) bobs_view false ≡ (
    contains bobs_view.permissions "admin"
    || some_group ((1, false) ∷ (2, true) ∷ []) bobs_view.group_ids false)
unfolding contains
has_access_iff_example =
    has_access_iff ((1, false) ∷ (2, true) ∷ []) bobs_view false (refl, (refl, tt))

handle_forbidden_example :
    serve (handle as_member 1 (rename_group 2 "x")) rows ≡ (err (abort 403), rows)
unfolding serve handle rename delete add_member remove_member add_data_source
    change_data_source_permission remove_data_source require_permission ◌>>=◌ group_by_id_and_org
    user_by_id_and_org data_source_by_id_and_org delete_group set_group_ids is_one
    add_data_source_group remove_data_source_group set_view_only set_name viewer user_permissions
    has_permission has_permissions all any contains find select update reject
handle_forbidden_example = handle_forbidden as_member 1 (rename_group 2 "x") rows refl

add_member-times_example :
    times 1 1 2 (serve (add_member as_admin 1 2 1) rows).1.users ≡ times 1 1 2 rows.users + 1
unfolding serve handle rename delete add_member remove_member add_data_source
    change_data_source_permission remove_data_source require_permission ◌>>=◌ group_by_id_and_org
    user_by_id_and_org data_source_by_id_and_org delete_group set_group_ids is_one
    add_data_source_group remove_data_source_group set_view_only set_name viewer user_permissions
    has_permission has_permissions all any contains find select update reject
add_member-times_example = add_member-times as_admin 1 2 1 rows refl
