-- ===== src/Listing/Dashboards/Shown.antt =====
-- What a reader finds on a dashboard that is listed.
use redash.Prelude.{
  ℕ, String, ◌≡◌, refl, inl, inr, Bool, true, false, ◌&&◌, ◌||◌, Option, none, some, List, [], ◌∷◌,
  map, arith, ◌==◌, nat_eq, string_eq, list_eq, option_eq, Option-cases, select, any, all, contains,
  pair_eq,
}
use redash.Tables.{Query, Visualization, Widget, Dashboard, Db}
use redash.Permissions.{Viewer}
use redash.Alerts.Requests.{query_groups}
use redash.Visuals.{query_of}
use redash.Serializers.{
  Entry, whole, restricted, visualization_of, widget_groups, may_view, entry_of, widget_entries,
}
use redash.Listing.Visible.{joined-has_access}
use redash.Listing.Dashboards.{
  source_joined, widget_joined, is_text_box, is_listed, all_dashboards, search_dashboards,
}

-- The reader is sent the widget, not only that there is one.
abbrev pub is_whole : Entry → Bool
is_whole (whole w) = true
is_whole (restricted id width dashboard_id options) = false

module _ (u : Viewer) (db : Db) (no_admin : contains u.permissions "admin" ≡ false) where
  source_joined-may_view :
      (o : Option Query)
      → source_joined o u.group_ids db ≡ true
      → elim o [ none ↦ false | some q ↦ may_view (some u) (query_groups q db) ] ≡ true
  unfolding may_view query_groups
  source_joined-may_view none h = h
  source_joined-may_view (some q) h = elim (Option-cases q.data_source_id) [
    | inl e ↦ absurd (ground (arith, e, h))
    | inr (ds, e) ↦ ground (arith, e, h, joined-has_access u ds db no_admin)
  ]

  widget_joined-may_view :
      (v : Option Visualization)
      → widget_joined u.group_ids db v ≡ true
      → may_view (some u) (widget_groups v db) ≡ true
  unfolding widget_joined widget_groups
  widget_joined-may_view none h = absurd (cc h)
  widget_joined-may_view (some v) h = elim (Option-cases (query_of v db)) [
    | inl e ↦ absurd (ground (arith, e, h))
    | inr (q, e) ↦ ground (arith, e, h, source_joined-may_view (query_of v db))
  ]

  entry_of-is_whole :
      (w : Widget)
      → (widget_joined u.group_ids db (visualization_of w db) || is_text_box w) ≡ true
      → is_whole (entry_of (some u) db w) ≡ true
  unfolding entry_of
  entry_of-is_whole w h = ground (arith, h, widget_joined-may_view (visualization_of w db))

  any-is_whole :
      (d : Dashboard) (ws : List Widget)
      → any
          (λ w.
            w.dashboard_id == d.id
            && (widget_joined u.group_ids db (visualization_of w db) || is_text_box w))
          ws
        ≡ true
      → any is_whole (map (λ w. entry_of (some u) db w) (select (λ w. w.dashboard_id == d.id) ws))
        ≡ true
  unfolding any select
  any-is_whole d [] h = h
  any-is_whole d (w ∷ ws) h = ground (arith, h, entry_of-is_whole w, any-is_whole d ws)

  -- A reader who is no administrator is sent at least one widget whole of every dashboard of somebody else that is
  -- listed for the reader's groups.
  pub is_listed-is_whole :
      (org user_id : ℕ) (include_drafts : Bool) (d : Dashboard)
      → is_listed org u.group_ids user_id include_drafts db d ≡ true
      → (d.user_id == user_id) ≡ false
      → any is_whole (widget_entries (some u) d db) ≡ true
  unfolding is_listed widget_entries
  is_listed-is_whole org user_id include_drafts d h n =
      any-is_whole d db.widgets (ground (arith, h, n))

all-select_drafts :
    (org user_id : ℕ) (group_ids : List ℕ) (db : Db) (found : Dashboard → Bool)
    (ds : List Dashboard)
    → all
        (λ d. d.user_id == user_id || d.is_draft)
        (select found (select (is_listed org group_ids user_id true db) ds))
      ≡ true
unfolding all select is_listed
all-select_drafts org user_id group_ids db found [] = refl
all-select_drafts org user_id group_ids db found (d ∷ ds) =
    ground (arith, all-select_drafts org user_id group_ids db found ds)

-- A search that is to include drafts finds nothing but drafts among the dashboards of others: none that is published.
pub search_dashboards_drafts :
    (found : String → String → Bool) (org : ℕ) (group_ids : List ℕ) (user_id : ℕ)
    (search_term : String) (db : Db)
    → all
        (λ d. d.user_id == user_id || d.is_draft)
        (search_dashboards found org group_ids user_id search_term true db)
      ≡ true
unfolding search_dashboards all_dashboards
search_dashboards_drafts found org group_ids user_id search_term db =
    all-select_drafts org user_id group_ids db (λ d. found search_term d.name) db.dashboards
