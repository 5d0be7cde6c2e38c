-- ===== src/Results/Stale/Trimmed.antt =====
-- What the clean-up of results takes away.
use redash.Prelude.{
  ℕ, zero, suc, ◌<◌, ◌≡◌, refl, subst, inl, inr, Bool, true, false, ◌&&◌, ◌||◌, not, Option, none,
  some, List, [], ◌∷◌, map, arith, ltb, nat_beq_iff, ◌==◌, nat_eq, string_eq, list_eq, option_eq,
  Bool-cases, length, take, select, any, contains, reject, pair_eq,
}
use redash.Tables.{QueryResult, Query, QueryResultSet, Db}
use redash.Results.Stale.{
  result_ids, stale_ids, delete_resultsets, delete_results, trim_other, unused, size_of, is_latest,
  is_unused, delete_unused,
}

any-reject-contains :
    (ids : List ℕ) (id : ℕ) (rows : List QueryResultSet)
    → contains ids id ≡ true
    → any (λ s. s.result_id == id) (reject (λ s. contains ids s.result_id) rows) ≡ false
unfolding any reject
any-reject-contains ids id [] h = refl
any-reject-contains ids id (s ∷ rows) h = ground (arith, any-reject-contains ids id rows h)

-- Trimming a query to the number of results that it keeps takes its oldest results away from every other query as
-- well, whatever number that one keeps.
pub trim_other-any :
    (q : Query) (db : Db) (id : ℕ)
    → size_of q < length (result_ids q.id db)
    → contains (stale_ids q db) id ≡ true
    → any (λ s. s.result_id == id) (trim_other q db).query_resultsets ≡ false
unfolding trim_other delete_resultsets
trim_other-any q db id many stale =
    ground (arith, any-reject-contains (stale_ids q db) id db.query_resultsets stale)

module _ (age_threshold : ℕ) (db : Db) where
  -- No query has one of the ids as its latest result, and none keeps one.
  abbrev unused_ids : List ℕ → Bool
  unused_ids ids =
      not (any (is_latest ids) db.queries)
      && not (any (λ s. contains ids s.result_id) db.query_resultsets)

  no_latest :
      (id : ℕ) (ids : List ℕ) (queries : List Query)
      → any (λ q. q.latest_query_data_id == some id) queries ≡ false
      → any (is_latest ids) queries ≡ false
      → any (is_latest (id ∷ ids)) queries ≡ false
  unfolding any contains
  no_latest id ids [] h g = refl
  no_latest id ids (q ∷ queries) h g = ground (arith, h, g, no_latest id ids queries)

  none_kept :
      (id : ℕ) (ids : List ℕ) (rows : List QueryResultSet)
      → any (λ s. s.result_id == id) rows ≡ false
      → any (λ s. contains ids s.result_id) rows ≡ false
      → any (λ s. contains (id ∷ ids) s.result_id) rows ≡ false
  unfolding any contains
  none_kept id ids [] h g = refl
  none_kept id ids (s ∷ rows) h g = ground (arith, h, g, none_kept id ids rows)

  no_latest_nil : (queries : List Query) → any (is_latest []) queries ≡ false
  unfolding any contains
  no_latest_nil [] = refl
  no_latest_nil (q ∷ queries) = ground (arith, no_latest_nil queries)

  none_kept_nil : (rows : List QueryResultSet) → any (λ s. contains [] s.result_id) rows ≡ false
  unfolding any contains
  none_kept_nil [] = refl
  none_kept_nil (s ∷ rows) = ground (arith, none_kept_nil rows)

  is_unused-parts :
      (r : QueryResult)
      → is_unused age_threshold db r ≡ true
      → (any (λ q. q.latest_query_data_id == some r.id) db.queries ≡ false)
        × (any (λ s. s.result_id == r.id) db.query_resultsets ≡ false)
        × (ltb r.retrieved_at age_threshold ≡ true)
  unfolding is_unused
  is_unused-parts r h = (ground (arith, h), ground (arith, h), ground (arith, h))

  unused_ids-take :
      (limit : ℕ) (rows : List QueryResult)
      → unused_ids
          (take limit (map (λ (r : QueryResult). r.id) (select (is_unused age_threshold db) rows)))
        ≡ true
  unfolding select
  unused_ids-take zero rows = rw (no_latest_nil db.queries) (rw (none_kept_nil db.query_resultsets))
  unused_ids-take (suc limit) [] =
      rw (no_latest_nil db.queries) (rw (none_kept_nil db.query_resultsets))
  unused_ids-take (suc limit) (r ∷ rows) = elim (Bool-cases (is_unused age_threshold db r)) [
    | inr e ↦ rw e (unused_ids-take (suc limit) rows)
    | inl e ↦
        let (l, k, o) = is_unused-parts r e in
        let ids =
          take limit (map (λ (r : QueryResult). r.id) (select (is_unused age_threshold db) rows)) in
        let h = unused_ids-take limit rows in
        rw e (
          ground
            (arith, h, no_latest r.id ids db.queries l, none_kept r.id ids db.query_resultsets k))
  ]

  -- A query has the result with the id as its latest one, or keeps it, or none of the rows with the id is old enough.
  abbrev needed_among : ℕ → List QueryResult → Bool
  needed_among id rows =
      any (λ q. q.latest_query_data_id == some id) db.queries
      || any (λ s. s.result_id == id) db.query_resultsets
      || not (any (λ r. r.id == id && ltb r.retrieved_at age_threshold) rows)

  needed-tail :
      (id : ℕ) (r : QueryResult) (rows : List QueryResult)
      → needed_among id (r ∷ rows) ≡ true
      → needed_among id rows ≡ true
  unfolding any
  needed-tail id r rows h = ground (arith, h)

  needed-head :
      (id : ℕ) (r : QueryResult) (rows : List QueryResult)
      → needed_among id (r ∷ rows) ≡ true
      → (any (λ q. q.latest_query_data_id == some id) db.queries ≡ false)
        × (any (λ s. s.result_id == id) db.query_resultsets ≡ false)
        × (ltb r.retrieved_at age_threshold ≡ true)
      → (r.id == id) ≡ false
  unfolding any
  needed-head id r rows h (l, k, o) = ground (arith, h, l, k, o)

  not_unused :
      (limit id : ℕ) (rows : List QueryResult)
      → needed_among id rows ≡ true
      → contains
          (take limit (map (λ (r : QueryResult). r.id) (select (is_unused age_threshold db) rows)))
          id
        ≡ false
  unfolding select any contains
  not_unused zero id rows h = refl
  not_unused (suc limit) id [] h = refl
  not_unused (suc limit) id (r ∷ rows) h = elim (Bool-cases (is_unused age_threshold db r)) [
    | inr e ↦ rw e (not_unused (suc limit) id rows (needed-tail id r rows h))
    | inl e ↦
        let rest = not_unused limit id rows (needed-tail id r rows h) in
        let parts = is_unused-parts r e in
        rw e (elim (Bool-cases (r.id == id)) [
          | inr n ↦ ground (arith, n, rest)
          | inl y ↦
              let same = (nat_beq_iff r.id id).0 y in
              let n = needed-head id r rows h (
                subst
                  (λ i.
                    (any (λ q. q.latest_query_data_id == some i) db.queries ≡ false)
                    × (any (λ s. s.result_id == i) db.query_resultsets ≡ false)
                    × (ltb r.retrieved_at age_threshold ≡ true))
                  same parts) in
              cc (y, n)
        ])
  ]

  abbrev pub is_needed : ℕ → Bool
  is_needed id = needed_among id db.query_results

any-reject_results :
    (ids : List ℕ) (id : ℕ) (rows : List QueryResult)
    → contains ids id ≡ false
    → any (λ r. r.id == id) (reject (λ r. contains ids r.id) rows) ≡ any (λ r. r.id == id) rows
unfolding any reject
any-reject_results ids id [] h = refl
any-reject_results ids id (r ∷ rows) h = ground (arith, any-reject_results ids id rows h)

-- The deletion was not refused, and a result with the id is there if there was one before.
abbrev pub leaves : ℕ → Db → Option (ℕ × Db) → Bool
leaves id db none = false
leaves id db (some (n, db')) =
    any (λ r. r.id == id) db'.query_results || not (any (λ r. r.id == id) db.query_results)

-- The database does not refuse to delete the results that count as unused, and the deletion leaves each result that is
-- the latest one of a query, is kept by a query, or is not old enough.
pub delete_unused-leaves :
    (age_threshold limit id : ℕ) (db : Db)
    → is_needed age_threshold db id ≡ true
    → leaves id db (delete_unused age_threshold limit db) ≡ true
unfolding delete_unused unused delete_results
delete_unused-leaves age_threshold limit id db h =
    let ids = take limit (unused age_threshold db) in
    let free = unused_ids-take age_threshold db limit db.query_results in
    let out = not_unused age_threshold db limit id db.query_results h in
    ground (arith, free, any-reject_results ids id db.query_results out)
