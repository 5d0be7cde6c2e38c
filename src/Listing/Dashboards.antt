-- ===== src/Listing/Dashboards.antt =====
-- Dashboard.all and Dashboard.search of redash/models.py. A join on a primary key is the row of that key; `found` tells
-- the names that match a search term (ILIKE).
pub mod Shown
use redash.Prelude.{
  ℕ, zero, suc, ◌+◌, ◌-◌, ◌*◌, ◌/◌, ◌%◌, ◌^◌, ◌≤◌, ◌<◌, min, max, String, ◌≡◌, refl, sym, ap, ◌∙◌,
  subst, ◌≢◌, ◌↔◌, ◌⊎◌, inl, inr, Bool, true, false, ◌&&◌, ◌||◌, not, Option, none, some, List, [],
  ◌∷◌, ◌++◌, map, arith, ltb, leb, nat_beq, if◌then◌else◌, ltb→lt, lt→ltb, leb→le, nat_beq_iff,
  tests, Eq, ◌==◌, nat_eq, string_eq, list_eq, option_eq, list_beq_iff, option_beq_iff, Bool-cases,
  Option-cases, is_some, length, take, drop, select, find, any, all, length-append,
  length-select-le, any-append, contains, contains-append, reject, update, option_all-find,
  insert_by, sort_by, any-sort_by, any-select, pair_eq, pair_beq_iff, option_all, any-reject_self,
  length-update, without_first, count, count-without_first, count-without_first_ne, contains-eq-ltb,
  Assoc, lookup, insert, remove, lookup-insert, lookup-remove, printed, concat, all-append, any_ext,
  select_ext, find-update,
}
use redash.Tables.{Query, Visualization, Widget, Dashboard, Db}
use redash.Visuals.{query_of}
use redash.Serializers.{visualization_of}
use redash.Permissions.{Principal, viewer}
use redash.Handler.{Failure, Action, pure, fail, gets, ◌>>=◌, ◌>>◌}
use redash.Groups.{require_permission}
use redash.Sharing.{user_row}
use redash.Paging.{Page, paginate}
use redash.Listing.{joined, answer}

abbrev source_joined : Option Query → List ℕ → Db → Bool
source_joined none group_ids db = false
source_joined (some q) group_ids db = elim q.data_source_id [
  | none ↦ false
  | some ds ↦ joined group_ids ds db
]

-- The outer joins from a widget to the groups of its query's data source find one of the groups.
unfoldable pub widget_joined : List ℕ → Db → Option Visualization → Bool
widget_joined group_ids db none = false
widget_joined group_ids db (some v) = source_joined (query_of v db) group_ids db

-- `(Widget.dashboard != None) & (Widget.visualization == None)`
abbrev pub is_text_box : Widget → Bool
is_text_box w = not (is_some w.visualization_id)

-- `Dashboard.is_draft == include_drafts`
abbrev same_bool : Bool → Bool → Bool
same_bool true b = b
same_bool false b = not b

-- The filters on one dashboard.
unfoldable pub is_listed : ℕ → List ℕ → ℕ → Bool → Db → Dashboard → Bool
unfolding widget_joined
is_listed org group_ids user_id include_drafts db d =
    not d.is_archived
    && ((any
            (λ w.
              w.dashboard_id == d.id
              && (widget_joined group_ids db (visualization_of w db) || is_text_box w))
            db.widgets
          || d.user_id == user_id)
        && (d.org_id == org && (d.user_id == user_id || same_bool d.is_draft include_drafts)))

-- Dashboard.all
unfoldable pub all_dashboards : ℕ → List ℕ → ℕ → Bool → Db → List Dashboard
unfolding is_listed
all_dashboards org group_ids user_id include_drafts db =
    select (is_listed org group_ids user_id include_drafts db) db.dashboards

-- Dashboard.search
unfoldable pub search_dashboards :
    (String → String → Bool) → ℕ → List ℕ → ℕ → String → Bool → Db → List Dashboard
unfolding all_dashboards
search_dashboards found org group_ids user_id search_term include_drafts db =
    select (λ d. found search_term d.name) (all_dashboards org group_ids user_id include_drafts db)

-- DashboardListResource.get; `include_drafts` counts in a search only.
unfoldable pub list_dashboards :
    {B : Type 0}
    → (String → String → Bool)
    → Principal
    → ℕ
    → Option String
    → Bool
    → List String
    → ℕ
    → ℕ
    → (Dashboard → B)
    → Action (Page B)
list_dashboards found me org term include_drafts tags page page_size serializer = do
  require_permission me org "list_dashboards"
  my_id ← user_row me
  ids ← gets (λ db. (viewer db.groups me).group_ids)
  results ← gets (λ db. elim term [
    | none ↦ all_dashboards org ids my_id false db
    | some t ↦ search_dashboards found org ids my_id t include_drafts db
  ])
  answer
      (paginate (select (λ d. all (λ t. contains d.tags t) tags) results) page page_size serializer)
