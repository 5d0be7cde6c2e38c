-- ===== src/Queries/Requests.antt =====
-- The requests on queries together: they change nothing when they fail.
use redash.Prelude.{
  ℕ, String, ◌≡◌, Bool, Option, List, nat_eq, string_eq, list_eq, option_eq, pair_eq,
}
use redash.Tables.{Db}
use redash.Permissions.{Principal}
use redash.Handler.{Failure, Action, err, serve}
use redash.Handler.Rules.{Atomic, serve-Atomic, atomic_rules}
use redash.Groups.Requests.{Reads-require_permission}
use redash.Alerts.Requests.Subscriptions.{
  Reads-user_row, Reads-require_access, Reads-require_admin_or_owner,
}
use redash.Visuals.Guards.{Reads-require_object_modify_permission}
use redash.Tracking.{Assignment}
use redash.Queries.{NewQuery, create, edit, delete, fork}

pub data Request : Type 0 where
  create_query : NewQuery → String → Request
  edit_query : ℕ → Option ℕ → List Assignment → Bool → Request
  archive_query : ℕ → Request
  fork_query : ℕ → String → Request

module _ (hash : String → String) (me : Principal) (org : ℕ) where
  unfoldable pub handle : Request → Action (Unit {0})
  handle (create_query p token) = create hash me org p token
  handle (edit_query id version assignments stale) = edit hash me org id version assignments stale
  handle (archive_query id) = delete me org id
  handle (fork_query id token) = fork me org id token

  pub handle-Atomic : (r : Request) → Atomic (handle r)
  unfolding handle create edit delete fork
  handle-Atomic (create_query p token) =
      search (atomic_rules, Reads-require_permission, Reads-user_row, Reads-require_access) depth 20
  handle-Atomic (edit_query id version assignments stale) =
      search
        (
          atomic_rules, Reads-require_permission, Reads-user_row,
          Reads-require_object_modify_permission,
        )
        depth 20
  handle-Atomic (archive_query id) =
      search (atomic_rules, Reads-user_row, Reads-require_admin_or_owner) depth 20
  handle-Atomic (fork_query id token) =
      search (atomic_rules, Reads-require_permission, Reads-user_row, Reads-require_access) depth 20

  -- A request on queries that fails, by an abort or by an exception, leaves the database as it was.
  pub requests_failure :
      (r : Request) (db : Db) (e : Failure)
      → (serve (handle r) db).0 ≡ err e
      → (serve (handle r) db).1 ≡ db
  requests_failure r db e h = serve-Atomic (handle r) db e (handle-Atomic r) h
