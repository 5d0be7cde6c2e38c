-- ===== src/Examples/Queries.antt =====
-- Requests on queries.
use redash.Prelude.{
  String, ◌≡◌, refl, false, some, [], ◌∷◌, nat_eq, string_eq, list_eq, option_eq, find, all,
  contains, pair_eq,
}
use redash.Tables.{Visualization, Db}
use redash.Permissions.{
  has_permission, has_permissions, viewer, user_permissions, is_owner, has_permission_or_owner,
  is_admin_or_owner,
}
use redash.Handler.{Failure, err, serve, ◌>>=◌}
use redash.Groups.{require_permission}
use redash.Sharing.{user_row, can_modify, require_object_modify_permission}
use redash.Alerts.Requests.{query_by_id_and_org}
use redash.Examples.Rows.{rows, report, as_admin, as_member}
use redash.Tracking.{set_name, set_query_text}
use redash.Queries.{edit}
use redash.Queries.Requests.{handle, archive_query}
use redash.Queries.Versions.{edit_twice}
use redash.Queries.Guards.{allowed, handle-allowed}

-- Every text has the hash "h".
abbrev same_hash : String → String
same_hash _ = "h"

edit_twice_example :
    (e : Failure) × (serve
        (edit same_hash as_admin 1 7 (some 1) (set_name "mine" ∷ []) false)
        (serve
          (edit same_hash as_member 1 7 (some 1) (set_query_text "SELECT 2" ∷ []) false)
          rows).1
      ≡ (
        err e,
        (serve
            (edit same_hash as_member 1 7 (some 1) (set_query_text "SELECT 2" ∷ []) false)
            rows).1,
      ))
unfolding edit serve ◌>>=◌ require_permission user_row query_by_id_and_org find all contains
    has_permission has_permissions viewer user_permissions require_object_modify_permission
    can_modify is_admin_or_owner has_permission_or_owner is_owner
edit_twice_example =
    edit_twice same_hash 1 7 1 rows as_member as_admin (set_query_text "SELECT 2" ∷ [])
      (set_name "mine" ∷ []) false false refl

abbrev of_admin : Db
of_admin = record rows { queries = record report { user_id = 1 } ∷ [] }

handle-allowed_example :
    (serve (handle same_hash as_member 1 (archive_query 7)) of_admin).1 ≡ of_admin
unfolding allowed query_by_id_and_org find is_admin_or_owner has_permission_or_owner is_owner
    has_permission has_permissions viewer user_permissions all contains
handle-allowed_example = handle-allowed same_hash as_member 1 (archive_query 7) of_admin refl

abbrev chart : Visualization
chart = record {
  id = 13;
  type = "CHART";
  query_id = 7;
  name = "Chart";
  description = "";
  options = "{}";
}

abbrev with_chart : Db
with_chart = record rows { visualizations = chart ∷ [] }
