-- ===== src/Serializers/Hidden.antt =====
-- A dashboard tells a viewer nothing of the queries that the viewer may not see.
use redash.Prelude.{
  ℕ, ◌≡◌, refl, ap, ◌⊎◌, inl, inr, Bool, true, false, not, Option, none, some, List, [], ◌∷◌, map,
  arith, if◌then◌else◌, ◌==◌, nat_eq, string_eq, list_eq, option_eq, Option-cases, is_some, select,
  update, pair_eq, find-update,
}
use redash.Tables.{Query, Visualization, Widget, Dashboard, Db}
use redash.Permissions.{Viewer}
use redash.Alerts.Requests.{query_groups}
use redash.Visuals.{query_of}
use redash.Serializers.{
  name_of, serialize_query, serialize_visualization, visualization_of, serialize_widget,
  widget_groups, may_view, entry_of, widget_entries, serialize_dashboard,
}

-- The queries that the viewer may not see, rewritten by `f`.
unfoldable pub disguise : (Query → Query) → Option Viewer → Db → Db
disguise f me db = record db {
  queries = update (λ q. not (may_view me (query_groups q db))) f db.queries;
}

module _ (f : Query → Query) (me : Option Viewer) (db : Db)
    (same_id : (q : Query) → (f q).id ≡ q.id)
    (same_source : (q : Query) → (f q).data_source_id ≡ q.data_source_id) where
  query_of-disguise :
      (v : Visualization)
      → query_of v (disguise f me db) ≡ elim (query_of v db) [
        | none ↦ none
        | some q ↦ some (if not (may_view me (query_groups q db)) then f q else q)
      ]
  unfolding query_of disguise
  query_of-disguise v =
      find-update (λ q. q.id == v.query_id) (λ q. not (may_view me (query_groups q db))) f
        (λ q. ap (λ n. n == v.query_id) (same_id q)) db.queries

  query_groups-disguise : (q : Query) → query_groups (f q) (disguise f me db) ≡ query_groups q db
  unfolding query_groups disguise
  query_groups-disguise q = ground (arith, same_source q)

  query_groups-same : (q : Query) → query_groups q (disguise f me db) ≡ query_groups q db
  unfolding query_groups disguise
  query_groups-same q = refl

  widget_groups-disguise :
      (v : Option Visualization) → widget_groups v (disguise f me db) ≡ widget_groups v db
  unfolding widget_groups
  widget_groups-disguise none = refl
  widget_groups-disguise (some v) = elim (Option-cases (query_of v db)) [
    | inl e ↦ ground (arith, e, query_of-disguise v)
    | inr (q, e) ↦
        ground (arith, e, query_of-disguise v, query_groups-disguise q, query_groups-same q)
  ]

  name_of-disguise : (id : Option ℕ) → name_of id (disguise f me db) ≡ name_of id db
  unfolding name_of disguise
  name_of-disguise none = refl
  name_of-disguise (some id) = refl

  serialize_query-disguise :
      (q : Query) → serialize_query q (disguise f me db) ≡ serialize_query q db
  unfolding serialize_query
  serialize_query-disguise q =
      ground (arith, name_of-disguise (some q.user_id), name_of-disguise q.last_modified_by_id)

  serialize_visualization-disguise :
      (v : Visualization)
      → may_view me (widget_groups (some v) db) ≡ true
      → serialize_visualization v (disguise f me db) ≡ serialize_visualization v db
  unfolding serialize_visualization widget_groups
  serialize_visualization-disguise v h = elim (Option-cases (query_of v db)) [
    | inl e ↦ ground (arith, e, query_of-disguise v)
    | inr (q, e) ↦ ground (arith, e, h, query_of-disguise v, serialize_query-disguise q)
  ]

  visualization_of-disguise :
      (w : Widget) → visualization_of w (disguise f me db) ≡ visualization_of w db
  unfolding visualization_of disguise
  visualization_of-disguise w = refl

  visualization_of-none :
      (w : Widget) → is_some w.visualization_id ≡ false → visualization_of w db ≡ none
  unfolding visualization_of
  visualization_of-none w h = ground (arith, h)

  serialize_widget-disguise :
      (w : Widget)
      → (visualization_of w db ≡ none)
        ⊎ (may_view me (widget_groups (visualization_of w db) db) ≡ true)
      → serialize_widget w (disguise f me db) ≡ serialize_widget w db
  unfolding serialize_widget
  serialize_widget-disguise w h = elim (Option-cases (visualization_of w db)) [
    | inl e ↦ ground (arith, e, visualization_of-disguise w)
    | inr (v, e) ↦
        ground (arith, e, h, visualization_of-disguise w, serialize_visualization-disguise v)
  ]

  entry_of-disguise : (w : Widget) → entry_of me (disguise f me db) w ≡ entry_of me db w
  unfolding entry_of
  entry_of-disguise w = ground (
    arith,
    visualization_of-disguise w,
    widget_groups-disguise (visualization_of w db),
    visualization_of-none w,
    serialize_widget-disguise w,
  )

  map-entry_of :
      (ws : List Widget)
      → map (λ w. entry_of me (disguise f me db) w) ws ≡ map (λ w. entry_of me db w) ws
  map-entry_of [] = refl
  map-entry_of (w ∷ ws) = ground (arith, entry_of-disguise w, map-entry_of ws)

  widget_entries-disguise :
      (d : Dashboard) → widget_entries me d (disguise f me db) ≡ widget_entries me d db
  unfolding widget_entries disguise
  widget_entries-disguise d = map-entry_of (select (λ w. w.dashboard_id == d.id) db.widgets)

  -- What a viewer is sent of a dashboard is the same whatever the queries hold that the viewer may not see:
  -- any change of these that keeps their ids and their data sources is invisible.
  pub serialize_dashboard-disguise :
      (d : Dashboard) (with_widgets : Bool)
      → serialize_dashboard d with_widgets me (disguise f me db)
        ≡ serialize_dashboard d with_widgets me db
  unfolding serialize_dashboard
  serialize_dashboard-disguise d with_widgets = rw (widget_entries-disguise d)
