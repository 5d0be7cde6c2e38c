-- ===== src/Favorites.antt =====
-- redash/handlers/favorites.py and Favorite of redash/models.py.
pub mod Marks
use redash.Prelude.{
  ℕ, zero, suc, ◌+◌, ◌-◌, ◌*◌, ◌/◌, ◌%◌, ◌^◌, ◌≤◌, ◌<◌, min, max, String, ◌≡◌, refl, sym, ap, ◌∙◌,
  subst, ◌≢◌, ◌↔◌, ◌⊎◌, inl, inr, Bool, true, false, ◌&&◌, ◌||◌, not, Option, none, some, List, [],
  ◌∷◌, ◌++◌, map, arith, ltb, leb, nat_beq, if◌then◌else◌, ltb→lt, lt→ltb, leb→le, nat_beq_iff,
  tests, Eq, ◌==◌, nat_eq, string_eq, list_eq, option_eq, list_beq_iff, option_beq_iff, Bool-cases,
  Option-cases, is_some, length, take, drop, select, find, any, all, length-append,
  length-select-le, any-append, contains, contains-append, reject, update, option_all-find,
  insert_by, sort_by, any-sort_by, any-select, pair_eq, pair_beq_iff, option_all, any-reject_self,
  length-update, without_first, count, count-without_first, count-without_first_ne, contains-eq-ltb,
  Assoc, lookup, insert, remove, lookup-insert, lookup-remove,
}
use redash.Tables.{Query, Dashboard, Favorite, Db}
use redash.Permissions.{Principal}
use redash.Handler.{
  Failure, Action, gets, modify, commit, rollback, record_event, ◌>>=◌, ◌>>◌, get_object_or_404,
}
use redash.Sharing.{user_row}
use redash.Alerts.Requests.{query_by_id_and_org, query_groups, require_access}

-- The row of an object and a user. The type is the name of the object's class.
abbrev pub marks : String → ℕ → ℕ → Favorite → Bool
marks object_type object_id user_id f =
    f.object_type == object_type && (f.object_id == object_id && f.user_id == user_id)

-- Favorite.is_favorite
unfoldable pub is_favorite : ℕ → String → ℕ → Db → Bool
is_favorite user_id object_type object_id db =
    any (marks object_type object_id user_id) db.favorites

unfoldable pub add_favorite : ℕ → String → ℕ → ℕ → Db → Db
add_favorite org object_type object_id user_id db = record db {
  favorites =
      db.favorites
      ++ record {
        id = db.next_id;
        org_id = org;
        object_type = object_type;
        object_id = object_id;
        user_id = user_id;
      }
        ∷ [];
  next_id = suc db.next_id;
}

unfoldable pub delete_favorite : String → ℕ → ℕ → Db → Db
delete_favorite object_type object_id user_id db = record db {
  favorites = reject (marks object_type object_id user_id) db.favorites;
}

-- The commit of a new row: the constraint `unique_favorite` refuses a second row, and the session is rolled
-- back.
unfoldable pub commit_favorite : ℕ → String → ℕ → ℕ → Bool → Action (Unit {0})
commit_favorite org object_type object_id user_id true = rollback
commit_favorite org object_type object_id user_id false = do
  modify (add_favorite org object_type object_id user_id)
  commit

-- Dashboard.get_by_slug_and_org
unfoldable pub dashboard_by_slug_and_org : List ℕ → ℕ → Db → Option Dashboard
dashboard_by_slug_and_org slug org db = find (λ d. d.slug == slug && d.org_id == org) db.dashboards

module _ (me : Principal) (org : ℕ) where
  unfoldable pub favor : String → ℕ → Action (Unit {0})
  favor object_type object_id = do
    user_id ← user_row me
    taken ← gets (is_favorite user_id object_type object_id)
    commit_favorite org object_type object_id user_id taken

  unfoldable pub disfavor : String → ℕ → Action (Unit {0})
  disfavor object_type object_id = do
    user_id ← user_row me
    modify (delete_favorite object_type object_id user_id)
    commit

  -- QueryFavoriteResource.post
  unfoldable pub favorite_query : ℕ → Action (Unit {0})
  favorite_query query_id = do
    query ← gets (query_by_id_and_org query_id org)
    query ← get_object_or_404 query
    require_access me org (query_groups query) true
    favor "Query" query.id
    record_event "favorite" "query" query.id

  -- QueryFavoriteResource.delete
  unfoldable pub unfavorite_query : ℕ → Action (Unit {0})
  unfavorite_query query_id = do
    query ← gets (query_by_id_and_org query_id org)
    query ← get_object_or_404 query
    require_access me org (query_groups query) true
    disfavor "Query" query.id
    record_event "favorite" "query" query.id

  -- DashboardFavoriteResource.post
  unfoldable pub favorite_dashboard : List ℕ → Action (Unit {0})
  favorite_dashboard slug = do
    dashboard ← gets (dashboard_by_slug_and_org slug org)
    dashboard ← get_object_or_404 dashboard
    favor "Dashboard" dashboard.id
    record_event "favorite" "dashboard" dashboard.id

  -- DashboardFavoriteResource.delete
  unfoldable pub unfavorite_dashboard : List ℕ → Action (Unit {0})
  unfavorite_dashboard slug = do
    dashboard ← gets (dashboard_by_slug_and_org slug org)
    dashboard ← get_object_or_404 dashboard
    disfavor "Dashboard" dashboard.id
    record_event "unfavorite" "dashboard" dashboard.id

pub data Request : Type 0 where
  mark_query unmark_query : (query_id : ℕ) → Request
  mark_dashboard unmark_dashboard : (slug : List ℕ) → Request

unfoldable pub handle : Principal → ℕ → Request → Action (Unit {0})
handle me org (mark_query id) = favorite_query me org id
handle me org (unmark_query id) = unfavorite_query me org id
handle me org (mark_dashboard slug) = favorite_dashboard me org slug
handle me org (unmark_dashboard slug) = unfavorite_dashboard me org slug
