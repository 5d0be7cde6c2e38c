-- ===== src/Listing/Levels.antt =====
-- The mark `view_only` of a data source, and the list of queries, agree with `has_access`.
use redash.Prelude.{
  ℕ, String, ◌≡◌, refl, sym, ap, ◌∙◌, inl, inr, Bool, true, false, ◌&&◌, ◌||◌, not, none, some,
  List, [], ◌∷◌, arith, if◌then◌else◌, nat_eq, string_eq, list_eq, option_eq, Option-cases, select,
  any, all, contains, pair_eq, Assoc, all-append, select_ext,
}
use redash.Tables.{DataSource, Query, Db}
use redash.Permissions.{Principal, Viewer, viewer, has_access, is_owner}
use redash.Permissions.Access.{some_group, has_access_iff}
use redash.Handler.{ok, serve}
use redash.Alerts.Requests.{query_groups}
use redash.Listing.{
  joined, Listed, only_view, describe, place, by_name, list_data_sources, all_queries,
}
use redash.Listing.Visible.{groups_of, groups_of-IsDict, joined-has_access}
use redash.Listing.Entries.{list_data_sources-ok}

only_view-some_group :
    (m : Assoc ℕ Bool) (ids : List ℕ) → only_view m ids ≡ not (some_group m ids false)
unfolding only_view select all any some_group
only_view-some_group [] ids = refl
only_view-some_group (p ∷ m) ids = ground (arith, only_view-some_group m ids)

-- The entry is marked view-only if the viewer may not run queries on the data source, and only then.
abbrev pub is_marked : Viewer → Db → Listed → Bool
is_marked u db l =
    let full = has_access (groups_of l.data_source.id db) u false in
    if l.view_only then not full else full

all-nil : (p : Listed → Bool) → all p [] ≡ true
unfolding all
all-nil p = refl

module _ (known : String → Bool) (below : String → String → Bool) where
  all-place :
      (p : Listed → Bool) (a : Listed) (ls : List Listed)
      → all p (place known below a ls) ≡ (p a && all p ls)
  unfolding all place
  all-place p a [] = refl
  all-place p a (l ∷ ls) = ground (arith, all-place p a ls)

  all-by_name : (p : Listed → Bool) (ls : List Listed) → all p (by_name known below ls) ≡ all p ls
  unfolding all by_name
  all-by_name p [] = refl
  all-by_name p (l ∷ ls) = all-place p l (by_name known below ls) ∙ rw (all-by_name p ls)

  module _ (u : Viewer) (db : Db) (no_admin : contains u.permissions "admin" ≡ false) where
    is_marked-only_view :
        (d : DataSource)
        → is_marked u db
            (record { data_source = d; view_only = only_view (groups_of d.id db) u.group_ids })
          ≡ true
    is_marked-only_view d = ground (
      arith,
      only_view-some_group (groups_of d.id db) u.group_ids,
      has_access_iff (groups_of d.id db) u false (groups_of-IsDict d.id db),
    )

    all-describe :
        (ds : List DataSource) (ls : List Listed)
        → all (is_marked u db) ls ≡ true
        → all (is_marked u db) (describe known below u.group_ids db ds ls) ≡ true
    unfolding describe all
    all-describe [] ls h = h
    all-describe (d ∷ ds) ls h = all-describe ds _ (
        ground (
          arith,
          h,
          is_marked-only_view d,
          all-append (is_marked u db) ls (
              record { data_source = d; view_only = only_view (groups_of d.id db) u.group_ids }
              ∷ []),
        ))

  -- A reader without the permission 'admin' is told of every data source in the list that it is view-only exactly
  -- if the reader may not run queries on it.
  pub list_data_sources-marked :
      (me : Principal) (org : ℕ) (db : Db) (rows : List Listed)
      → contains (viewer db.groups me).permissions "admin" ≡ false
      → (serve (list_data_sources known below me org) db).0 ≡ ok rows
      → all (is_marked (viewer db.groups me) db) rows ≡ true
  list_data_sources-marked me org db rows no_admin h =
      ap (all (is_marked (viewer db.groups me) db))
        (sym (list_data_sources-ok known below me org db rows h).1)
      ∙ all-by_name (is_marked (viewer db.groups me) db) _
      ∙ all-describe (viewer db.groups me) db no_admin _ []
          (all-nil (is_marked (viewer db.groups me) db))

joined-query_groups :
    (u : Viewer) (q : Query) (db : Db)
    → contains u.permissions "admin" ≡ false
    → elim q.data_source_id [ none ↦ false | some ds ↦ joined u.group_ids ds db ]
      ≡ has_access (query_groups q db) u true
unfolding query_groups has_access select
joined-query_groups u q db h = elim (Option-cases q.data_source_id) [
  | inl e ↦ rw (e, h) refl
  | inr (ds, e) ↦ rw e (joined-has_access u ds db h)
]

-- Where the viewer is no administrator the list of queries that are not archived has exactly the queries that
-- `has_access` lets the viewer see, drafts of others only where these are asked for.
pub all_queries-has_access :
    (me : Principal) (drafts : Bool) (db : Db)
    → contains (viewer db.groups me).permissions "admin" ≡ false
    → all_queries (viewer db.groups me).group_ids me drafts db
      ≡ select
          (λ q.
            not q.is_archived
            && (has_access (query_groups q db) (viewer db.groups me) true
                && (drafts || (not q.is_draft || is_owner me q.user_id))))
          db.queries
unfolding all_queries
all_queries-has_access me drafts db no_admin =
    select_ext _ _ db.queries λ q. rw (joined-query_groups (viewer db.groups me) q db no_admin) refl
