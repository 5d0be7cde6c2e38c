-- ===== src/Queries/Guards.antt =====
-- Who may create, edit, archive and fork queries.
use redash.Prelude.{
  ℕ, String, ◌≡◌, ap, inl, inr, Bool, true, false, ◌&&◌, Option, none, some, List, arith, ◌==◌,
  nat_eq, string_eq, list_eq, option_eq, option_all-find, pair_eq,
}
use redash.Tables.{Query, Db}
use redash.Permissions.{
  Principal, has_access, has_permission, viewer, data_source_groups, is_admin_or_owner,
}
use redash.Handler.{ok, serve, ◌>>=◌}
use redash.Handler.Rules.{serve-cases}
use redash.Groups.{data_source_by_id_and_org, require_permission}
use redash.Sharing.{user_row, can_modify, require_admin_or_owner, require_object_modify_permission}
use redash.Alerts.Requests.{query_by_id_and_org, query_groups, require_access}
use redash.Tracking.{Assignment}
use redash.Queries.{NewQuery, create, edit, delete, fork}
use redash.Queries.Requests.{
  Request, handle, handle-Atomic, create_query as create_request, edit_query, archive_query,
  fork_query as fork_request,
}

abbrev of_query : ℕ → ℕ → Db → (Query → Bool) → Bool
of_query id org db p = elim (query_by_id_and_org id org db) [ none ↦ false | some q ↦ p q ]

-- The permission of the user, and the tie to the query or the data source, that a request needs.
unfoldable pub allowed : Principal → ℕ → Db → Request → Bool
allowed me org db (create_request p token) =
    has_permission (viewer db.groups me) "create_query"
    && has_access (data_source_groups db.data_source_groups p.data_source_id) (viewer db.groups me)
        false
allowed me org db (edit_query id version assignments stale) =
    has_permission (viewer db.groups me) "edit_query"
    && of_query id org db (λ q. can_modify me "queries" q.id q.user_id db)
allowed me org db (archive_query id) =
    of_query id org db (λ q. is_admin_or_owner db.groups me q.user_id)
allowed me org db (fork_request id token) =
    has_permission (viewer db.groups me) "edit_query"
    && of_query id org db (λ q. has_access (query_groups q db) (viewer db.groups me) false)

module _ (hash : String → String) (me : Principal) (org : ℕ) (db : Db) where
  succeeded-create :
      (p : NewQuery) (token : String)
      → (serve (create hash me org p token) db).0 ≡ ok tt
      → allowed me org db (create_request p token) ≡ true
  unfolding serve create ◌>>=◌ require_permission require_access user_row data_source_by_id_and_org
      allowed
  succeeded-create p token h =
      ground (
        arith,
        h,
        option_all-find (λ d. d.id == p.data_source_id && d.org_id == org) db.data_sources,
      )

  succeeded-edit :
      (id : ℕ) (version : Option ℕ) (assignments : List Assignment) (stale : Bool)
      → (serve (edit hash me org id version assignments stale) db).0 ≡ ok tt
      → allowed me org db (edit_query id version assignments stale) ≡ true
  unfolding serve edit ◌>>=◌ require_permission require_object_modify_permission user_row allowed
  succeeded-edit id version assignments stale h = ground (arith, h)

  succeeded-archive :
      (id : ℕ)
      → (serve (delete me org id) db).0 ≡ ok tt
      → allowed me org db (archive_query id) ≡ true
  unfolding serve delete ◌>>=◌ require_admin_or_owner user_row allowed
  succeeded-archive id h = ground (arith, h)

  succeeded-fork :
      (id : ℕ) (token : String)
      → (serve (fork me org id token) db).0 ≡ ok tt
      → allowed me org db (fork_request id token) ≡ true
  unfolding serve fork ◌>>=◌ require_permission require_access user_row allowed
  succeeded-fork id token h = ground (arith, h)

  succeeded-allowed :
      (r : Request) → (serve (handle hash me org r) db).0 ≡ ok tt → allowed me org db r ≡ true
  unfolding handle
  succeeded-allowed (create_request p token) h = succeeded-create p token h
  succeeded-allowed (edit_query id version assignments stale) h =
      succeeded-edit id version assignments stale h
  succeeded-allowed (archive_query id) h = succeeded-archive id h
  succeeded-allowed (fork_request id token) h = succeeded-fork id token h

-- A request on queries changes nothing unless it is allowed: to create a query takes the permission
-- create_query and more than view-only access to the data source, to fork one edit_query and such access to its
-- data source, to edit one edit_query and that the user can modify it, to archive one its owner or an admin.
pub handle-allowed :
    (hash : String → String) (me : Principal) (org : ℕ) (r : Request) (db : Db)
    → allowed me org db r ≡ false
    → (serve (handle hash me org r) db).1 ≡ db
handle-allowed hash me org r db a =
    elim (serve-cases (handle hash me org r) db (handle-Atomic hash me org r)) [
      | inl (e, s) ↦ ap (λ x. x.1) s
      | inr h ↦ absurd (differ (succeeded-allowed hash me org db r h) a)
    ]
  where
    differ : {b : Bool} → b ≡ true → b ≡ false → ⊥
    differ p q = cc (p, q)
