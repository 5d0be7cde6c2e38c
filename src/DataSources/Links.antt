-- ===== src/DataSources/Links.antt =====
-- The columns that name a data source or a result of a query name one that is there.
use redash.Prelude.{
  ℕ, suc, String, ◌≡◌, refl, ◌∙◌, inl, inr, Bool, true, false, ◌&&◌, Option, none, some, List, [],
  ◌∷◌, arith, if◌then◌else◌, ◌==◌, nat_eq, string_eq, list_eq, option_eq, Bool-cases, Option-cases,
  any, all, any-append, update, pair_eq, Assoc, all-append, all-update, all-reject, all_except,
  all_mono, any_left, any_never,
}
use redash.Tables.{Group, DataSource, QueryResult, Query, Db}
use redash.DataSources.{
  set_data_source, default_row, default_group, create_with_group, unlink_queries, is_result_of,
  results_in_use, delete_results, delete_row,
}

abbrev pub source_exists : Db → ℕ → Bool
source_exists db id = any (λ (d : DataSource). d.id == id) db.data_sources

abbrev pub result_exists : Db → ℕ → Bool
result_exists db id = any (λ (r : QueryResult). r.id == id) db.query_results

abbrev pub or_null : (ℕ → Bool) → Option ℕ → Bool
or_null p none = true
or_null p (some id) = p id

-- The foreign keys on data sources and on results.
pub record IsLinked (db : Db) : Type 0 where
  pub sources : all (λ q. or_null (source_exists db) q.data_source_id) db.queries ≡ true
  pub latest : all (λ q. or_null (result_exists db) q.latest_query_data_id) db.queries ≡ true
  pub kept : all (λ s. result_exists db s.result_id) db.query_resultsets ≡ true
  pub results : all (λ r. source_exists db r.data_source_id) db.query_results ≡ true
  pub members : all (λ r. source_exists db r.data_source_id) db.data_source_groups ≡ true

any-update_id :
    (id i : ℕ) (f : DataSource → DataSource) (ds : List DataSource)
    → ((d : DataSource) → (f d).id ≡ d.id)
    → any (λ d. d.id == i) (update (λ d. d.id == id) f ds) ≡ any (λ d. d.id == i) ds
unfolding any update
any-update_id id i f [] k = refl
any-update_id id i f (d ∷ ds) k = ground (arith, k d, any-update_id id i f ds k)

module _ (ds : ℕ) (db : Db) where
  -- The rows when the data source is deleted.
  abbrev pub left : Db
  left = delete_row ds (delete_results ds (unlink_queries ds db))

  other_source :
      (id : ℕ) → (id == ds) ≡ false → source_exists db id ≡ true → source_exists left id ≡ true
  unfolding delete_row delete_results unlink_queries
  other_source id e h =
      any_left (λ (d : DataSource). d.id == id) (λ d. d.id == ds) db.data_sources h
        (any_never (λ (d : DataSource). d.id == ds && d.id == id) db.data_sources
          (λ d. ground (arith, e)))

  other_result :
      (id : ℕ)
      → is_result_of ds db id ≡ false
      → result_exists db id ≡ true
      → result_exists left id ≡ true
  unfolding delete_row delete_results unlink_queries
  other_result id e h =
      any_left (λ (r : QueryResult). r.id == id) (λ r. r.data_source_id == ds) db.query_results h e

  sources-left :
      all (λ q. or_null (source_exists db) q.data_source_id) db.queries ≡ true
      → all (λ q. or_null (source_exists left) q.data_source_id) left.queries ≡ true
  unfolding delete_row delete_results unlink_queries
  sources-left h = all-update _ _ _ _ db.queries keep h
    where
      keep :
          (q : Query)
          → or_null (source_exists db) q.data_source_id ≡ true
          → or_null
              (source_exists left)
              (if q.data_source_id == some ds
                then record q { data_source_id = none; latest_query_data_id = none }
                else q).data_source_id
            ≡ true
      keep q e = elim (Option-cases q.data_source_id) [
        | inl none_e ↦ ground (arith, none_e)
        | inr (id, some_e) ↦ ground (arith, some_e, e, other_source id)
      ]

  latest-unlinked :
      all (λ q. or_null (result_exists db) q.latest_query_data_id) db.queries ≡ true
      → all (λ q. or_null (result_exists db) q.latest_query_data_id) left.queries ≡ true
  unfolding delete_row delete_results unlink_queries
  latest-unlinked h = all-update _ _ _ _ db.queries keep h
    where
      keep :
          (q : Query)
          → or_null (result_exists db) q.latest_query_data_id ≡ true
          → or_null
              (result_exists db)
              (if q.data_source_id == some ds
                then record q { data_source_id = none; latest_query_data_id = none }
                else q).latest_query_data_id
            ≡ true
      keep q e = elim (Bool-cases (q.data_source_id == some ds)) [
        | inl y ↦ rw y refl
        | inr n ↦ rw n e
      ]

  left_result :
      (o : Option ℕ)
      → elim o [ none ↦ false | some id ↦ is_result_of ds db id ] ≡ false
      → or_null (result_exists db) o ≡ true
      → or_null (result_exists left) o ≡ true
  left_result none b h = refl
  left_result (some id) b h = other_result id b h

  in_use-parts :
      results_in_use ds (unlink_queries ds db) ≡ false
      → (any (λ s. is_result_of ds db s.result_id) db.query_resultsets ≡ false)
        × (any
              (λ q. elim q.latest_query_data_id [ none ↦ false | some id ↦ is_result_of ds db id ])
              left.queries
            ≡ false)
  unfolding results_in_use unlink_queries delete_row delete_results
  in_use-parts h = (ground (arith, h), ground (arith, h))

  -- Deleting a data source whose results are no longer in use leaves no dangling reference.
  pub left-IsLinked : results_in_use ds (unlink_queries ds db) ≡ false → IsLinked db → IsLinked left
  unfolding delete_row delete_results unlink_queries
  left-IsLinked free l =
      let (no_set, no_latest) = in_use-parts free in
      record {
        sources = sources-left l.sources;
        latest =
            all_except _ _ _ left.queries (λ q. left_result q.latest_query_data_id) no_latest
              (latest-unlinked l.latest);
        kept =
            kept-left
              (all_except _ _ _ db.query_resultsets (λ s. other_result s.result_id) no_set l.kept);
        results = results-left l.results;
        members = members-left l.members;
      }
    where
      kept-left :
          all (λ s. result_exists left s.result_id) db.query_resultsets ≡ true
          → all (λ s. result_exists left s.result_id) left.query_resultsets ≡ true
      kept-left h = h

      results-left :
          all (λ r. source_exists db r.data_source_id) db.query_results ≡ true
          → all (λ r. source_exists left r.data_source_id) left.query_results ≡ true
      results-left h = all-reject _ _ _ db.query_results (λ r. other_source r.data_source_id) h

      members-left :
          all (λ r. source_exists db r.data_source_id) db.data_source_groups ≡ true
          → all (λ r. source_exists left r.data_source_id) left.data_source_groups ≡ true
      members-left h = all-reject _ _ _ db.data_source_groups (λ r. other_source r.data_source_id) h

-- The same rows with data sources of the same ids.
module _ (db new : Db)
    (more_sources : (id : ℕ) → source_exists db id ≡ true → source_exists new id ≡ true)
    (same_results : new.query_results ≡ db.query_results) (same_queries : new.queries ≡ db.queries)
    (same_sets : new.query_resultsets ≡ db.query_resultsets)
    (members_linked : all (λ r. source_exists new r.data_source_id) new.data_source_groups
      ≡ true) where
  more-or_null :
      (o : Option ℕ) → or_null (source_exists db) o ≡ true → or_null (source_exists new) o ≡ true
  more-or_null none h = refl
  more-or_null (some id) h = more_sources id h

  pub more-IsLinked : IsLinked db → IsLinked new
  more-IsLinked l = record {
    sources =
        rw same_queries (all_mono _ _ db.queries (λ q. more-or_null q.data_source_id) l.sources);
    latest = rw (same_queries, same_results) l.latest;
    kept = rw (same_sets, same_results) l.kept;
    results =
        rw same_results
          (all_mono _ _ db.query_results (λ r. more_sources r.data_source_id) l.results);
    members = members_linked;
  }

-- Editing a data source keeps its id.
pub edited-IsLinked :
    (id : ℕ) (type name : String) (options : Assoc String String) (db : Db)
    → IsLinked db
    → IsLinked (set_data_source id type name options db)
unfolding set_data_source
edited-IsLinked id type name options db l =
    more-IsLinked db _ same refl refl refl
      (all_mono _ _ db.data_source_groups (λ r. same r.data_source_id) l.members) l
  where
    same :
        (i : ℕ)
        → source_exists db i ≡ true
        → source_exists (set_data_source id type name options db) i ≡ true
    same i h = any-update_id id i _ db.data_sources (λ d. refl) ∙ h

-- A new data source is there when its row of DataSourceGroup is.
pub created-IsLinked :
    (org : ℕ) (name type : String) (options : Assoc String String) (db : Db)
    → IsLinked db
    → IsLinked (create_with_group org name type options db)
unfolding create_with_group any all
created-IsLinked org name type options db l = more-IsLinked db _ more refl refl refl members l
  where
    newest : source_exists (create_with_group org name type options db) db.next_id ≡ true
    newest =
        any-append (λ (d : DataSource). d.id == db.next_id) db.data_sources _
        ∙ ground (arith, nat_eq.beq_iff db.next_id db.next_id)

    row :
        (g : Option Group)
        → all
            (λ r. source_exists (create_with_group org name type options db) r.data_source_id)
            (default_row (suc db.next_id) db.next_id g)
          ≡ true
    row none = refl
    row (some g) = rw newest refl

    more :
        (i : ℕ)
        → source_exists db i ≡ true
        → source_exists (create_with_group org name type options db) i ≡ true
    more i h = any-append (λ (d : DataSource). d.id == i) db.data_sources _ ∙ rw h refl

    members :
        all
          (λ r. source_exists (create_with_group org name type options db) r.data_source_id)
          (create_with_group org name type options db).data_source_groups
        ≡ true
    members =
        all-append _ db.data_source_groups
          (default_row (suc db.next_id) db.next_id (default_group org db))
        ∙ rw (all_mono _ _ db.data_source_groups (λ r. more r.data_source_id) l.members)
            (row (default_group org db))
