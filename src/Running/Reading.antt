-- ===== src/Running/Reading.antt =====
-- QueryResultResource.get of redash/handlers/query_results.py: who may read which result.
use redash.Prelude.{
  ℕ, String, ◌≡◌, refl, sym, subst, ◌≢◌, inl, inr, Bool, true, false, ◌&&◌, Option, none, some,
  arith, ltb, if◌then◌else◌, ◌==◌, nat_eq, string_eq, list_eq, option_eq, Option-cases, length,
  find, option_all-find, pair_eq, Assoc,
}
use redash.Tables.{DataSource, Query, QueryResult, Db}
use redash.Permissions.{Principal, user, api_user, has_access, viewer, data_source_groups}
use redash.Handler.{
  abort, exception, ok, Action, pure, fail, gets, record_event, serve, ◌>>=◌, ◌>>◌, require,
  get_object_or_404,
}
use redash.Groups.{require_permission}
use redash.Alerts.Requests.{query_by_id_and_org, require_access}
use redash.Tasks.Executor.{RunQuery}
use redash.Running.{Context, run_query_sync, data_source_of, is_user}

-- QueryResult.get_by_id_and_org
unfoldable pub query_result_by_id_and_org : ℕ → ℕ → Db → Option QueryResult
query_result_by_id_and_org id org db = find (λ r. r.id == id && r.org_id == org) db.query_results

-- `query_hash` of the result is that of the query, where the request was made with an API key.
abbrev pub right_hash : Principal → Query → Option QueryResult → Bool
right_hash (user u) q r = true
right_hash (api_user a) q none = true
right_hash (api_user a) q (some r) = q.query_hash == r.query_hash

-- `allow` is ALLOW_PARAMETERS_IN_EMBEDS, `runner` the query runner of a data source.
module _ (c : Context) (allow : Bool) (runner : ℕ → String → ℕ × RunQuery) (me : Principal)
    (org : ℕ) where
  unfoldable pub result_by_id : Option ℕ → Action (Option QueryResult)
  result_by_id none = pure none
  result_by_id (some id) = do
    r ← gets (query_result_by_id_and_org id org)
    r ← get_object_or_404 r
    pure (some r)

  unfoldable pub sync :
      Assoc String String → Option ℕ → Query → Option DataSource → Action (Option QueryResult)
  sync values max_age q none = fail exception
  sync values max_age q (some ds) = run_query_sync c (runner ds.id) ds values q.query_text max_age

  -- The result of a query that the request does not name.
  unfoldable pub own_result : Assoc String String → Option ℕ → Query → Action (Option QueryResult)
  unfolding sync result_by_id
  own_result values max_age q =
      if allow && ltb 0 (length values)
      then (do ds ← gets (data_source_of q); sync values max_age q ds)
      else result_by_id q.latest_query_data_id

  unfoldable pub checked_result :
      Assoc String String → Option ℕ → Option ℕ → Option QueryResult → Action (Option QueryResult)
  unfolding own_result
  checked_result values max_age none r = pure r
  checked_result values max_age (some id) r = do
    q ← gets (query_by_id_and_org id org)
    q ← get_object_or_404 q
    r ← elim r [ none ↦ own_result values max_age q | some r ↦ pure (some r) ]
    require (right_hash me q r) (abort 404)
    pure r

  unfoldable pub answer_result : Option ℕ → Option QueryResult → Action QueryResult
  answer_result query_id none = fail (abort 404)
  answer_result query_id (some r) = do
    require_access me org (λ db. data_source_groups db.data_source_groups r.data_source_id) true
    elim query_id [
      | none ↦ if is_user me then pure tt else record_event "api_get" "query_result" r.id
      | some id ↦ if is_user me then pure tt else record_event "api_get" "query" id
    ]
    pure r

  -- QueryResultResource.get
  unfoldable pub get : Option ℕ → Option ℕ → Assoc String String → Option ℕ → Action QueryResult
  unfolding checked_result answer_result
  get query_id query_result_id values max_age = do
    require_permission me org "view_query"
    r ← result_by_id query_result_id
    r ← checked_result values max_age query_id r
    answer_result query_id r

-- What a request for a result may be shown: a result of the organization, on a data source that the viewer may
-- see, and, with an API key and for a query, one with the hash of that query.
abbrev pub Readable : Principal → ℕ → Db → Option ℕ → QueryResult → Type 0
Readable me org db query_id r =
    (r.org_id ≡ org)
    × (has_access (data_source_groups db.data_source_groups r.data_source_id) (viewer db.groups me)
          true
        ≡ true)
    × ((id : ℕ) (q : Query)
        → query_id ≡ some id
        → query_by_id_and_org id org db ≡ some q
        → is_user me ≡ false
        → r.query_hash ≡ q.query_hash)

found-org :
    (org : ℕ) (db : Db) (id : ℕ) (s : QueryResult)
    → query_result_by_id_and_org id org db ≡ some s
    → s.org_id ≡ org
unfolding query_result_by_id_and_org
found-org org db id s e =
    let h = option_all-find (λ (r : QueryResult). r.id == id && r.org_id == org) db.query_results in
    ground (arith, h, e)

abbrev may_see : Principal → Db → QueryResult → Bool
may_see me db r =
    has_access (data_source_groups db.data_source_groups r.data_source_id) (viewer db.groups me)
      true

module _ (c : Context) (runner : ℕ → String → ℕ × RunQuery) (me : Principal) (org : ℕ)
    (values : Assoc String String) (max_age : Option ℕ) (db : Db) (r : QueryResult) where
  by_nothing : (serve (get c false runner me org none none values max_age) db).0 ≢ ok r
  unfolding get result_by_id checked_result answer_result serve ◌>>=◌ require_permission
  by_nothing h = ground (arith, h)

  by_result :
      (result_id : ℕ)
      → (serve (get c false runner me org none (some result_id) values max_age) db).0 ≡ ok r
      → (query_result_by_id_and_org result_id org db ≡ some r) × (may_see me db r ≡ true)
  unfolding get result_by_id checked_result answer_result serve ◌>>=◌ require_permission
      require_access
  by_result result_id h = ground (arith, h)

  by_no_query :
      (id : ℕ) (result_id : Option ℕ)
      → query_by_id_and_org id org db ≡ none
      → (serve (get c false runner me org (some id) result_id values max_age) db).0 ≢ ok r
  unfolding get result_by_id checked_result answer_result serve ◌>>=◌ require_permission
  by_no_query id none e h = ground (arith, e, h)
  by_no_query id (some result_id) e h = ground (arith, e, h)

  by_both :
      (id result_id : ℕ) (q : Query)
      → query_by_id_and_org id org db ≡ some q
      → (serve (get c false runner me org (some id) (some result_id) values max_age) db).0 ≡ ok r
      → (query_result_by_id_and_org result_id org db ≡ some r)
        × (may_see me db r ≡ true)
        × (right_hash me q (some r) ≡ true)
  unfolding get result_by_id checked_result answer_result serve ◌>>=◌ require_permission
      require_access
  by_both id result_id q e h = ground (arith, e, h)

  by_query_none :
      (id : ℕ) (q : Query)
      → query_by_id_and_org id org db ≡ some q
      → q.latest_query_data_id ≡ none
      → (serve (get c false runner me org (some id) none values max_age) db).0 ≢ ok r
  unfolding get result_by_id checked_result own_result answer_result serve ◌>>=◌ require_permission
      require_access
  by_query_none id q e l h = ground (arith, e, l, h)

  by_query_some :
      (id result_id : ℕ) (q : Query)
      → query_by_id_and_org id org db ≡ some q
      → q.latest_query_data_id ≡ some result_id
      → (serve (get c false runner me org (some id) none values max_age) db).0 ≡ ok r
      → query_result_by_id_and_org result_id org db ≡ some r
  unfolding get result_by_id checked_result own_result answer_result serve ◌>>=◌ require_permission
      require_access
  by_query_some id result_id q e l h = ground (arith, e, l, h)

  by_query_seen :
      (id result_id : ℕ) (q : Query)
      → query_by_id_and_org id org db ≡ some q
      → q.latest_query_data_id ≡ some result_id
      → (serve (get c false runner me org (some id) none values max_age) db).0 ≡ ok r
      → (may_see me db r ≡ true) × (right_hash me q (some r) ≡ true)
  unfolding get result_by_id checked_result own_result answer_result serve ◌>>=◌ require_permission
      require_access
  by_query_seen id result_id q e l h = ground (arith, e, l, h)

same_hash :
    (me : Principal) (q : Query) (r : QueryResult)
    → right_hash me q (some r) ≡ true
    → is_user me ≡ false
    → r.query_hash ≡ q.query_hash
same_hash (user u) q r h e = cc
same_hash (api_user a) q r h e = sym ((string_eq.beq_iff q.query_hash r.query_hash).0 h)

module _ (me : Principal) (org : ℕ) (db : Db) (r : QueryResult) where
  readable :
      (id result_id : ℕ) (q : Query)
      → query_by_id_and_org id org db ≡ some q
      → query_result_by_id_and_org result_id org db ≡ some r
      → may_see me db r ≡ true
      → right_hash me q (some r) ≡ true
      → Readable me org db (some id) r
  readable id result_id q e f s h = (
    found-org org db result_id r f,
    s,
    λ j p i g u. same_hash me p r (subst (λ x. right_hash me x (some r) ≡ true) (same j p i g) h) u,
  )
    where
      same :
          (j : ℕ) (p : Query)
          → Option.some id ≡ some j
          → query_by_id_and_org j org db ≡ some p
          → q ≡ p
      same j p i g = cc (i, g, e)

-- Whoever is shown a result, by its id or as the latest one of a query, it is a result of the organization, on
-- a data source that they may at least view; and where an API key asks for a query, the result has the hash of
-- the query. (Parameters in embedded queries are not allowed, as is the default.)
pub get-Readable :
    (c : Context) (runner : ℕ → String → ℕ × RunQuery) (me : Principal) (org : ℕ)
    (query_id result_id : Option ℕ) (values : Assoc String String) (max_age : Option ℕ) (db : Db)
    (r : QueryResult)
    → (serve (get c false runner me org query_id result_id values max_age) db).0 ≡ ok r
    → Readable me org db query_id r
get-Readable c runner me org none none values max_age db r h =
    absurd (by_nothing c runner me org values max_age db r h)
get-Readable c runner me org none (some n) values max_age db r h =
    let (f, s) = by_result c runner me org values max_age db r n h in
    (found-org org db n r f, s, λ j p i. cc)
get-Readable c runner me org (some id) result_id values max_age db r h =
    elim (Option-cases (query_by_id_and_org id org db)) [
      | inl e ↦ absurd (by_no_query c runner me org values max_age db r id result_id e h)
      | inr (q, e) ↦ of_query result_id q e h
    ]
  where
    latest :
        (l : Option ℕ) (q : Query)
        → q.latest_query_data_id ≡ l
        → query_by_id_and_org id org db ≡ some q
        → (serve (get c false runner me org (some id) none values max_age) db).0 ≡ ok r
        → Readable me org db (some id) r
    latest none q l e h = absurd (by_query_none c runner me org values max_age db r id q e l h)
    latest (some n) q l e h =
        let f = by_query_some c runner me org values max_age db r id n q e l h in
        let (s, k) = by_query_seen c runner me org values max_age db r id n q e l h in
        readable me org db r id n q e f s k

    of_query :
        (result_id : Option ℕ) (q : Query)
        → query_by_id_and_org id org db ≡ some q
        → (serve (get c false runner me org (some id) result_id values max_age) db).0 ≡ ok r
        → Readable me org db (some id) r
    of_query none q e h = latest q.latest_query_data_id q refl e h
    of_query (some n) q e h =
        let (f, s, k) = by_both c runner me org values max_age db r id n q e h in
        readable me org db r id n q e f s k
