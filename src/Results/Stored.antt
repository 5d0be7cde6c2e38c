-- ===== src/Results/Stored.antt =====
-- What storing a result changes.
use redash.Prelude.{
  ℕ, ◌+◌, ◌*◌, ◌≤◌, String, ◌≡◌, refl, sym, ◌∙◌, Bool, true, false, ◌&&◌, Option, none, some, List,
  [], ◌∷◌, arith, leb, if◌then◌else◌, ◌==◌, nat_eq, string_eq, list_eq, option_eq, select, find,
  any, update, any-select, pair_eq, option_all,
}
use redash.Tables.{QueryResult, Query, Db}
use redash.Results.{runs_as, store_result, latest, get_latest}

-- The query with the id.
unfoldable pub query_with : ℕ → List Query → Option Query
query_with id queries = find (λ q. q.id == id) queries

find-update :
    (id : ℕ) (hash : String) (ds new : ℕ) (queries : List Query)
    → query_with id
        (update (runs_as hash ds) (λ q. record q { latest_query_data_id = some new }) queries)
      ≡ elim (query_with id queries) [
        | none ↦ none
        | some q ↦
            some (if runs_as hash ds q then record q { latest_query_data_id = some new } else q)
      ]
unfolding query_with find update
find-update id hash ds new [] = refl
find-update id hash ds new (q ∷ queries) = ground (arith, find-update id hash ds new queries)

-- Storing a result makes it the latest result of every query with its hash and data source, and changes nothing
-- else of any query.
pub store_result-query :
    (id org ds : ℕ) (hash text : String) (data_text : Option String) (run_time at : ℕ) (db : Db)
    → let (new, ids, db') = store_result org ds hash text data_text run_time at db in
      query_with id db'.queries ≡ elim (query_with id db.queries) [
        | none ↦ none
        | some q ↦
            some (if runs_as hash ds q then record q { latest_query_data_id = some new } else q)
      ]
unfolding store_result
store_result-query id org ds hash text data_text run_time at db =
    find-update id hash ds db.next_id db.queries

-- A result that is at least as late as `t`.
abbrev pub is_from : ℕ → Option QueryResult → Bool
is_from t none = false
is_from t (some r) = leb t r.retrieved_at

any-latest :
    (t : ℕ) (rs : List QueryResult) → any (λ r. leb t r.retrieved_at) rs ≡ is_from t (latest rs)
unfolding any latest
any-latest t [] = refl
any-latest t (r ∷ rs) = ground (arith, any-latest t rs)

option_all-latest :
    (p : QueryResult → Bool) (rs : List QueryResult) → option_all p (latest (select p rs)) ≡ true
unfolding latest select
option_all-latest p [] = refl
option_all-latest p (r ∷ rs) = ground (arith, option_all-latest p rs)

-- A stored result for a query: its hash and its data source.
abbrev pub result_of : String → ℕ → QueryResult → Bool
result_of hash ds r = r.query_hash == hash && r.data_source_id == ds

-- With no bound on the age a result of the hash and data source is found just where one is stored, and none that is
-- stored for them is later than the one found.
pub get_latest_unbounded :
    (ds : ℕ) (hash : String) (now t : ℕ) (results : List QueryResult)
    → (option_all (result_of hash ds) (get_latest ds hash none now results) ≡ true)
      × (any (λ r. result_of hash ds r && leb t r.retrieved_at) results
          ≡ is_from t (get_latest ds hash none now results))
unfolding get_latest
get_latest_unbounded ds hash now t results = (
  option_all-latest (result_of hash ds) results,
  sym (any-select (λ r. leb t r.retrieved_at) (result_of hash ds) results)
      ∙ any-latest t (select (result_of hash ds) results),
)

-- With a bound a result is found only if it is of the hash and data source and was retrieved at most that many
-- seconds ago.
pub get_latest_fresh :
    (ds : ℕ) (hash : String) (age now : ℕ) (results : List QueryResult) (r : QueryResult)
    → get_latest ds hash (some age) now results ≡ some r
    → (r.query_hash ≡ hash) × (r.data_source_id ≡ ds) × (now ≤ r.retrieved_at + age * 1_000_000)
unfolding get_latest
get_latest_fresh ds hash age now results r found =
    let recent =
      λ (r : QueryResult). result_of hash ds r && leb now (r.retrieved_at + age * 1_000_000) in
    let h : recent r ≡ true = rw found at (option_all-latest recent results) in
    ground (arith, string_eq.beq_iff r.query_hash hash)
