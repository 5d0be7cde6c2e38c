-- ===== src/Queries/Consistent.antt =====
-- The hash of a query's text, by which its results are found, is that of its text.
use redash.Prelude.{
  ℕ, String, ◌≡◌, ◌≢◌, Bool, true, not, none, some, arith, nat_eq, string_eq, list_eq, option_eq,
  any, pair_eq,
}
use redash.Tables.{Query, Db}
use redash.Permissions.{Principal}
use redash.Handler.{ok, serve, ◌>>=◌}
use redash.Groups.{require_permission}
use redash.Sharing.{user_row}
use redash.Alerts.Requests.{query_by_id_and_org, require_access}
use redash.Queries.{fork_query, fork}
use redash.Queries.Requests.{
  Request, create_query as create_request, edit_query, fork_query as fork_request,
}
use redash.Queries.Versions.{id_of}
use redash.Queries.Hashes.{sets_hash}

module _ (me : Principal) (org : ℕ) (db : Db) where
  pub fork-none :
      (id : ℕ) (token : String)
      → query_by_id_and_org id org db ≡ none
      → (serve (fork me org id token) db).0 ≢ ok tt
  unfolding serve fork ◌>>=◌ require_permission require_access user_row
  fork-none id token e h = ground (arith, e, h)

  pub fork-some :
      (id : ℕ) (token : String) (q : Query)
      → query_by_id_and_org id org db ≡ some q
      → (serve (fork me org id token) db).0 ≡ ok tt
      → (serve (fork me org id token) db).1 ≡ fork_query q (id_of me) token db
  unfolding serve fork ◌>>=◌ require_permission require_access user_row
  fork-some id token q e h = ground (arith, e, h)

-- The request sends no hash of its own.
abbrev pub leaves_hash : Request → Bool
leaves_hash (edit_query id version assignments stale) = not (any sets_hash assignments)
leaves_hash _ = true
