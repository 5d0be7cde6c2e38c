-- ===== src/Groups/Requests.antt =====
-- The requests of handlers/groups.py that change the database, as one type.
use redash.Prelude.{ℕ, String, ◌≡◌, Bool, false, arith, nat_eq, string_eq, list_eq, option_eq}
use redash.Tables.{Db}
use redash.Permissions.{Principal, viewer, has_permission}
use redash.Handler.{Failure, abort, err, Action, ◌>>=◌, serve}
use redash.Handler.Rules.{Atomic, Reads, serve-Atomic, atomic_rules, reads}
use redash.Groups.{
  require_permission, create, rename, delete, add_member, remove_member, add_data_source,
  change_data_source_permission, remove_data_source,
}

pub data Request : Type 0 where
  create_group : (name : String) → Request
  rename_group : (group_id : ℕ) (name : String) → Request
  delete_group : (group_id : ℕ) → Request
  add_group_member remove_group_member : (group_id user_id : ℕ) → Request
  add_group_data_source remove_group_data_source : (group_id data_source_id : ℕ) → Request
  change_permission : (group_id data_source_id : ℕ) (view_only : Bool) → Request

module _ (me : Principal) (org : ℕ) where
  unfoldable pub handle : Request → Action (Unit {0})
  handle (create_group name) = create me org name
  handle (rename_group g name) = rename me org g name
  handle (delete_group g) = delete me org g
  handle (add_group_member g u) = add_member me org g u
  handle (remove_group_member g u) = remove_member me org g u
  handle (add_group_data_source g d) = add_data_source me org g d
  handle (remove_group_data_source g d) = remove_data_source me org g d
  handle (change_permission g d v) = change_data_source_permission me org g d v

  pub Reads-require_permission : (p : String) → Reads (require_permission me org p)
  unfolding require_permission
  Reads-require_permission p = search reads

  handle-Atomic : (r : Request) → Atomic (handle r)
  unfolding handle create rename delete add_member remove_member add_data_source
      change_data_source_permission remove_data_source
  handle-Atomic (rename_group g name) = search (atomic_rules, Reads-require_permission) depth 20
  handle-Atomic _ = search (atomic_rules, Reads-require_permission) depth 20

  -- A request on groups that fails, by an abort or by an exception, leaves the database as it was.
  pub handle_failure :
      (r : Request) (db : Db) (e : Failure)
      → (serve (handle r) db).0 ≡ err e
      → (serve (handle r) db).1 ≡ db
  handle_failure r db e h = serve-Atomic (handle r) db e (handle-Atomic r) h

  -- Every request on groups by somebody without the permission 'admin' is answered by 403 and changes
  -- nothing.
  pub handle_forbidden :
      (r : Request) (db : Db)
      → has_permission (viewer db.groups me) "admin" ≡ false
      → serve (handle r) db ≡ (err (abort 403), db)
  unfolding serve handle create rename delete add_member remove_member add_data_source
      change_data_source_permission remove_data_source require_permission ◌>>=◌
  handle_forbidden (rename_group g name) db h = ground arith
  handle_forbidden _ db h = ground arith
