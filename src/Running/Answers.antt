-- ===== src/Running/Answers.antt =====
-- How a request to run a query is answered, and when a task is submitted.
use redash.Prelude.{
  ℕ, zero, suc, ◌+◌, ◌*◌, ◌≤◌, String, ◌≡◌, refl, sym, ap, ◌∙◌, subst, ◌⊎◌, inl, inr, Bool, true,
  false, ◌&&◌, Option, none, some, List, [], ◌∷◌, arith, leb, nat_eq, string_eq, list_eq, option_eq,
  Option-cases, is_some, any, pair_eq, Assoc,
}
use redash.Tables.{DataSource, QueryResult, Db}
use redash.Permissions.{Principal, has_access, has_permission, viewer, data_source_groups}
use redash.Groups.{data_source_by_id_and_org}
use redash.Alerts.Requests.{query_by_id_and_org, query_groups}
use redash.Results.{get_latest}
use redash.Results.Stored.{result_of, is_from, get_latest_unbounded, get_latest_fresh}
use redash.Tasks.Enqueue.{Broker, Interference}
use redash.Tasks.Enqueue.Dedup.{enqueue_query_some}
use redash.Running.{
  Context, stored, job, missing_params, rendered, cached, call_of, answer_job, answer_with,
  run_query, is_user, execute, refresh,
}

module _ (c : Context) (others : List Interference) (ds : DataSource) (values : Assoc String String)
    (query_text : String) (query_id max_age : Option ℕ) (user_id : ℕ) (results : List QueryResult)
    (b : Broker) where
  run_query-with :
      missing_params c values query_text ≡ []
      → c.paused ds.id ≡ none
      → run_query c others ds values query_text query_id max_age user_id results b
        ≡ answer_with c others ds
            (rendered c values query_text)
            query_id
            user_id
            (cached c ds.id (rendered c values query_text) max_age results)
            b
  unfolding run_query
  run_query-with m p = rw (m, p)

-- The result is of the text as it is run, and of the data source, and no older than was asked for.
abbrev pub Fits : Context → ℕ → String → Option ℕ → QueryResult → Type 0
Fits c ds text max_age r =
    (r.query_hash ≡ c.hash text)
    × (r.data_source_id ≡ ds)
    × ((age : ℕ) → max_age ≡ some age → c.now ≤ r.retrieved_at + age * 1_000_000)

cached-Fits :
    (c : Context) (ds : ℕ) (text : String) (max_age : Option ℕ) (results : List QueryResult)
    (r : QueryResult)
    → cached c ds text max_age results ≡ some r
    → Fits c ds text max_age r
cached-Fits c ds text none results r e =
    let h = (get_latest_unbounded ds (c.hash text) c.now 0 results).0 in
    let k : result_of (c.hash text) ds r ≡ true = rw e at h in
    (
      ground (arith, k, string_eq.beq_iff r.query_hash (c.hash text)),
      ground (arith, k),
      λ age p. cc,
    )
cached-Fits c ds text (some zero) results r e = cc
cached-Fits c ds text (some (suc n)) results r e =
    let (h, d, t) = get_latest_fresh ds (c.hash text) (suc n) c.now results r e in
    (h, d, λ age p. subst (λ a. c.now ≤ r.retrieved_at + a * 1_000_000) (same (suc n) age p) t)
  where
    same : (m n : ℕ) → Option.some m ≡ some n → m ≡ n
    same m n p = cc p

-- A request to run a query whose parameters are given, on a data source that is not paused, is answered by a
-- stored result that fits, and then nothing is submitted, or by a job.
pub run_query_answered :
    (c : Context) (others : List Interference) (ds : DataSource) (values : Assoc String String)
    (query_text : String) (query_id max_age : Option ℕ) (user_id : ℕ) (results : List QueryResult)
    (b : Broker)
    → missing_params c values query_text ≡ []
    → c.paused ds.id ≡ none
    → ((r : QueryResult) × (run_query c others ds values query_text query_id max_age user_id results
            b
          ≡ (stored r, b))
        × Fits c ds.id (rendered c values query_text) max_age r)
      ⊎ ((id : ℕ) × ((run_query c others ds values query_text query_id max_age user_id results b).0
            ≡ job id))
unfolding answer_with
run_query_answered c others ds values query_text query_id max_age user_id results b m p =
    let text = rendered c values query_text in
    let with =
      run_query-with c others ds values query_text query_id max_age user_id results b m p in
    elim (Option-cases (cached c ds.id text max_age results)) [
      | inr (r, e) ↦ inl (
        r,
        with ∙ ap (λ o. answer_with c others ds text query_id user_id o b) e,
        cached-Fits c ds.id text max_age results r e,
      )
      | inl e ↦
          let call = call_of c ds text query_id user_id in
          let (id, j) = some-job _ (enqueue_query_some call others b) in
          inr (
            id,
            ap (λ x. x.0) (with ∙ ap (λ o. answer_with c others ds text query_id user_id o b) e)
                ∙ ap answer_job j,
          )
    ]
  where
    some-job : (o : Option ℕ) → is_some o ≡ true → (id : ℕ) × (o ≡ some id)
    some-job none h = cc
    some-job (some id) h = (id, refl)

any-from_start :
    (hash : String) (ds : ℕ) (results : List QueryResult)
    → any (result_of hash ds) results ≡ true
    → any (λ r. result_of hash ds r && leb 0 r.retrieved_at) results ≡ true
unfolding any
any-from_start hash ds [] h = cc
any-from_start hash ds (r ∷ results) h = ground (arith, h, any-from_start hash ds results)

-- A request that omits max_age is answered by a stored result, whatever its age, if there is one for its text
-- and its data source: nothing is submitted. (The parameters are given and the data source is not paused.)
pub run_query_omitted :
    (c : Context) (others : List Interference) (ds : DataSource) (values : Assoc String String)
    (query_text : String) (query_id : Option ℕ) (user_id : ℕ) (results : List QueryResult)
    (b : Broker)
    → missing_params c values query_text ≡ []
    → c.paused ds.id ≡ none
    → any (result_of (c.hash (rendered c values query_text)) ds.id) results ≡ true
    → (r : QueryResult) × (run_query c others ds values query_text query_id none user_id results b
        ≡ (stored r, b))
unfolding answer_with
run_query_omitted c others ds values query_text query_id user_id results b m p h =
    let text = rendered c values query_text in
    let with = run_query-with c others ds values query_text query_id none user_id results b m p in
    elim (Option-cases (get_latest ds.id (c.hash text) none c.now results)) [
      | inr (r, e) ↦ (r, with ∙ ap (λ o. answer_with c others ds text query_id user_id o b) e)
      | inl e ↦
          let found = (get_latest_unbounded ds.id (c.hash text) c.now 0 results).1 in
          absurd (
            no-true (sym (any-from_start (c.hash text) ds.id results h) ∙ found ∙ ap (is_from 0) e))
    ]
  where
    no-true : true ≡ false → ⊥
    no-true q = cc q

-- Who may have a query run: with the permission execute_query, and more than view-only access to the data source.
abbrev pub may_execute : Principal → ℕ → Db → ℕ → Bool
may_execute me org db data_source_id =
    has_permission (viewer db.groups me) "execute_query"
    && (elim (data_source_by_id_and_org data_source_id org db) [
      | none ↦ false
      | some ds ↦
          has_access (data_source_groups db.data_source_groups ds.id) (viewer db.groups me) false
    ])

abbrev pub may_refresh : Principal → ℕ → Db → ℕ → Bool
may_refresh me org db query_id = is_user me && (elim (query_by_id_and_org query_id org db) [
  | none ↦ false
  | some q ↦ has_access (query_groups q db) (viewer db.groups me) false
])

-- Nobody else has a task submitted, or anything else changed in Redis: neither by a request to execute a text,
-- nor by one to refresh a query, for which any user with that access is enough.
pub execute_forbidden :
    (c : Context) (others : List Interference) (me : Principal) (org : ℕ) (db : Db) (b : Broker)
    (id : ℕ) (query_text : String) (values : Assoc String String) (query_id max_age : Option ℕ)
    → (may_execute me org db id ≡ false
        → (execute c others me org db id query_text values query_id max_age b).1 ≡ b)
      × (may_refresh me org db id ≡ false → (refresh c others me org db id values b).1 ≡ b)
unfolding execute refresh
execute_forbidden c others me org db b id query_text values query_id max_age =
    (λ h. ground (arith, h), λ h. ground (arith, h))
