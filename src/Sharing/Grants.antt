-- ===== src/Sharing/Grants.antt =====
-- What granting and revoking a permission changes.
use redash.Prelude.{
  ℕ, String, ◌≡◌, refl, Bool, true, false, none, some, List, [], ◌∷◌, ◌++◌, arith, if◌then◌else◌,
  ◌==◌, nat_eq, string_eq, list_eq, option_eq, length, select, any, pair_eq, any-reject_self,
}
use redash.Tables.{AccessPermission, Db}
use redash.Permissions.{Principal}
use redash.Handler.{ok, ◌>>=◌, ◌>>◌, commit, record_event, serve}
use redash.Handler.Ensures.{Ensures, serve-Ensures, ensures}
use redash.Sharing.{
  same_grant, query_permission, exists, revoke, add_grant, grant, require_admin_or_owner,
  grant_permission, revoke_permission,
}

module _ (object_type : String) (object_id : ℕ) (access_type : String) (grantee grantor : ℕ) where
  -- A row that `grant` finds is one that `exists` finds.
  any-same_grant :
      (rows : List AccessPermission)
      → any (query_permission object_type object_id access_type (some grantee) none) rows ≡ false
      → length (select (same_grant object_type object_id access_type grantee grantor) rows) ≡ 0
  unfolding any select query_permission
  any-same_grant [] h = refl
  any-same_grant (p ∷ rows) h = ground (arith, any-same_grant rows)

  any-snoc :
      (rows : List AccessPermission) (p : AccessPermission)
      → query_permission object_type object_id access_type (some grantee) none p ≡ true
      → any
          (query_permission object_type object_id access_type (some grantee) none)
          (rows ++ p ∷ [])
        ≡ true
  unfolding any
  any-snoc [] p h = ground arith
  any-snoc (q ∷ rows) p h = ground (arith, any-snoc rows p h)

  -- Behind `grant` the permission is there, whether a row for it was found or not.
  exists-grant :
      (db : Db)
      → exists object_type object_id access_type grantee (
          if length (
              select
                (same_grant object_type object_id access_type grantee grantor)
                db.access_permissions)
            == 0
          then add_grant object_type object_id access_type grantee grantor db
          else db)
        ≡ true
  unfolding exists add_grant query_permission
  exists-grant db = ground (
    arith,
    any-same_grant db.access_permissions,
    any-snoc db.access_permissions (record {
      id = db.next_id;
      object_type = object_type;
      object_id = object_id;
      access_type = access_type;
      grantor_id = grantor;
      grantee_id = grantee;
    }),
    string_eq.beq_iff object_type object_type,
    string_eq.beq_iff access_type access_type,
  )

module _ (org : ℕ) (object_type : String) (object_id : ℕ) (access_type : String) (user_id : ℕ)
    (db : Db) where
  abbrev has_it : Db → Bool
  has_it = exists object_type object_id access_type user_id

  Ensures-grant :
      (grantor : ℕ)
      → Ensures has_it (
          grant object_type object_id access_type user_id grantor
          >> (commit >> record_event "grant_permission" object_type object_id))
  unfolding grant ◌>>=◌
  Ensures-grant grantor = record {
    at = λ w a e.
        ground (arith, exists-grant object_type object_id access_type user_id grantor w.session);
  }

  -- After a successful request to grant a permission the grantee has it.
  pub grant_permission-exists :
      (me : Principal)
      → (serve (grant_permission me org object_type object_id access_type user_id) db).0 ≡ ok tt
      → exists object_type object_id access_type user_id
          (serve (grant_permission me org object_type object_id access_type user_id) db).1
        ≡ true
  unfolding grant_permission
  grant_permission-exists me h =
      serve-Ensures has_it (grant_permission me org object_type object_id access_type user_id) db tt
        (search (ensures, Ensures-grant) depth 20) h

  -- After a successful request to revoke a permission the user does not have it, whoever granted it.
  pub revoke_permission-exists :
      (me : Principal)
      → (serve (revoke_permission me org object_type object_id access_type user_id) db).0 ≡ ok tt
      → exists object_type object_id access_type user_id
          (serve (revoke_permission me org object_type object_id access_type user_id) db).1
        ≡ false
  unfolding serve revoke_permission require_admin_or_owner ◌>>=◌ exists revoke
  revoke_permission-exists me h = ground (
    arith,
    any-reject_self (query_permission object_type object_id access_type (some user_id) none)
        db.access_permissions,
  )
