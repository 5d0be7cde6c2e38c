-- ===== src/Listing.antt =====
-- What the lists of data sources and of queries show: DataSource.all and Query.all_queries of redash/models.py,
-- DataSourceListResource.get of redash/handlers/data_sources.py, QueryListResource.get of
-- redash/handlers/queries.py. `known` tells the registered types of query runners, `below` compares two names
-- by their lower case, `found` is the full-text search. The order of a list of queries is left to the database.
pub mod Visible
pub mod Entries
pub mod Levels
pub mod Dashboards
use redash.Prelude.{
  ℕ, zero, suc, ◌+◌, ◌-◌, ◌*◌, ◌/◌, ◌%◌, ◌^◌, ◌≤◌, ◌<◌, min, max, String, ◌≡◌, refl, sym, ap, ◌∙◌,
  subst, ◌≢◌, ◌↔◌, ◌⊎◌, inl, inr, Bool, true, false, ◌&&◌, ◌||◌, not, Option, none, some, List, [],
  ◌∷◌, ◌++◌, map, arith, ltb, leb, nat_beq, if◌then◌else◌, ltb→lt, lt→ltb, leb→le, nat_beq_iff,
  tests, Eq, ◌==◌, nat_eq, string_eq, list_eq, option_eq, list_beq_iff, option_beq_iff, Bool-cases,
  Option-cases, is_some, length, take, drop, select, find, any, all, length-append,
  length-select-le, any-append, contains, contains-append, reject, update, option_all-find,
  insert_by, sort_by, any-sort_by, any-select, pair_eq, pair_beq_iff, option_all, any-reject_self,
  length-update, without_first, count, count-without_first, count-without_first_ne, contains-eq-ltb,
  Assoc, lookup, insert, remove, lookup-insert, lookup-remove, printed, concat, all-append, any_ext,
  select_ext, find-update,
}
use redash.Tables.{DataSource, DataSourceGroup, Query, Db}
use redash.Permissions.{Principal, viewer, has_permission, data_source_groups, is_owner}
use redash.Handler.{Failure, Action, pure, fail, gets, record_event, ◌>>=◌, ◌>>◌, Result, ok, err}
use redash.Groups.{require_permission}
use redash.Sharing.{user_row}
use redash.Paging.{Page, paginate}

-- The join with the rows of DataSourceGroup: one of them gives the data source to one of the groups.
unfoldable pub joined : List ℕ → ℕ → Db → Bool
joined group_ids ds db =
    any (λ (r : DataSourceGroup). r.data_source_id == ds && contains group_ids r.group_id)
      db.data_source_groups

-- `if group_ids:`, where None and an empty list are alike.
unfoldable pub in_some_group : Option (List ℕ) → ℕ → Db → Bool
unfolding joined
in_some_group none ds db = true
in_some_group (some []) ds db = true
in_some_group (some (g ∷ gs)) ds db = joined (g ∷ gs) ds db

-- DataSource.all
unfoldable pub all_data_sources : ℕ → Option (List ℕ) → Db → List DataSource
unfolding in_some_group
all_data_sources org group_ids db =
    select (λ d. in_some_group group_ids d.id db)
      (sort_by (λ d. d.id) (select (λ d. d.org_id == org) db.data_sources))

-- An entry of the answer: `to_dict()` of the data source, with `view_only`.
pub record Listed : Type 0 where
  pub data_source : DataSource
  pub view_only : Bool

-- `all(project(ds.groups, group_ids).values())`
unfoldable pub only_view : Assoc ℕ Bool → List ℕ → Bool
only_view groups group_ids =
    all (λ (p : ℕ × Bool). p.1) (select (λ p. contains group_ids p.0) groups)

module _ (known : String → Bool) (below : String → String → Bool) where
  -- The loop that fills `response`. `to_dict` fails on a type without a query runner.
  unfoldable pub describe : List ℕ → Db → List DataSource → List Listed → List Listed
  unfolding only_view
  describe group_ids db [] response = response
  describe group_ids db (d ∷ ds) response = describe group_ids db ds (
      if any (λ l. l.data_source.id == d.id) response || not (known d.type)
      then response
      else response
        ++ record {
          data_source = d;
          view_only = only_view (data_source_groups db.data_source_groups d.id) group_ids;
        }
          ∷ [])

  unfoldable pub place : Listed → List Listed → List Listed
  place a [] = a ∷ []
  place a (l ∷ ls) =
      if below l.data_source.name a.data_source.name then l ∷ place a ls else a ∷ l ∷ ls

  -- `sorted(response.values(), key=...)`
  unfoldable pub by_name : List Listed → List Listed
  unfolding place
  by_name [] = []
  by_name (l ∷ ls) = place l (by_name ls)

  -- DataSourceListResource.get
  unfoldable pub list_data_sources : Principal → ℕ → Action (List Listed)
  list_data_sources me org = do
    require_permission me org "list_data_sources"
    admin ← gets (λ db. has_permission (viewer db.groups me) "admin")
    ids ← gets (λ db. (viewer db.groups me).group_ids)
    rows ← gets (all_data_sources org (if admin then none else some ids))
    response ← gets (λ db. describe ids db rows [])
    record_event "view" "api_call" 0
    pure (by_name response)

-- Query.all_queries, with the id of the user where there is one.
unfoldable pub all_queries : List ℕ → Principal → Bool → Db → List Query
unfolding joined
all_queries group_ids me drafts db =
    select
      (λ q.
        not q.is_archived
        && (elim q.data_source_id [ none ↦ false | some ds ↦ joined group_ids ds db ]
            && (drafts || (not q.is_draft || is_owner me q.user_id))))
      db.queries

-- filter_by_tags: a query without tags has none of those that are asked for.
unfoldable pub has_tags : List String → Query → Bool
has_tags [] q = true
has_tags (t ∷ ts) q = elim q.tags [ none ↦ false | some tags ↦ all (λ t. contains tags t) (t ∷ ts) ]

abbrev pub answer : {A : Type 0} → Result A → Action A
answer (ok a) = pure a
answer (err e) = fail e

module _ (found : String → Query → Bool) where
  -- QueryListResource.get, where `term` is the search term that is given.
  unfoldable pub list_queries :
      {B : Type 0}
      → Principal
      → ℕ
      → Option String
      → List String
      → ℕ
      → ℕ
      → (Query → B)
      → Action (Page B)
  list_queries me org term tags page page_size serializer = do
    require_permission me org "view_query"
    ids ← gets (λ db. (viewer db.groups me).group_ids)
    results ← gets (all_queries ids me true)
    let searched : List Query = elim term [ none ↦ results | some t ↦ select (found t) results ]
    answer (paginate (select (has_tags tags) searched) page page_size serializer)

  -- Query.by_user, and MyQueriesResource.get, where a search is over the same queries.
  unfoldable pub my_queries :
      {B : Type 0}
      → Principal
      → ℕ
      → Option String
      → List String
      → ℕ
      → ℕ
      → (Query → B)
      → Action (Page B)
  my_queries me org term tags page page_size serializer = do
    require_permission me org "view_query"
    my_id ← user_row me
    ids ← gets (λ db. (viewer db.groups me).group_ids)
    rows ← gets (all_queries ids me false)
    let results : List Query = select (λ q. q.user_id == my_id) rows
    let searched : List Query = elim term [ none ↦ results | some t ↦ select (found t) results ]
    answer (paginate (select (has_tags tags) searched) page page_size serializer)
