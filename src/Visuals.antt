-- ===== src/Visuals.antt =====
-- redash/handlers/visualizations.py and redash/handlers/widgets.py: the visualizations of queries, and the
-- widgets that show them on dashboards.
pub mod Guards
use redash.Prelude.{
  ℕ, zero, suc, ◌+◌, ◌-◌, ◌*◌, ◌/◌, ◌%◌, ◌^◌, ◌≤◌, ◌<◌, min, max, String, ◌≡◌, refl, sym, ap, ◌∙◌,
  subst, ◌≢◌, ◌↔◌, ◌⊎◌, inl, inr, Bool, true, false, ◌&&◌, ◌||◌, not, Option, none, some, List, [],
  ◌∷◌, ◌++◌, map, arith, ltb, leb, nat_beq, if◌then◌else◌, ltb→lt, lt→ltb, leb→le, nat_beq_iff,
  tests, Eq, ◌==◌, nat_eq, string_eq, list_eq, option_eq, list_beq_iff, option_beq_iff, Bool-cases,
  Option-cases, is_some, length, take, drop, select, find, any, all, length-append,
  length-select-le, any-append, contains, contains-append, reject, update, option_all-find,
  insert_by, sort_by, any-sort_by, any-select, pair_eq, pair_beq_iff, option_all, any-reject_self,
  length-update, without_first, count, count-without_first, count-without_first_ne, contains-eq-ltb,
  Assoc, lookup, insert, remove, lookup-insert, lookup-remove,
}
use redash.Tables.{Query, Visualization, Widget, Dashboard, Db}
use redash.Permissions.{Principal, viewer, has_permission}
use redash.Handler.{
  Failure, no_result, Action, pure, fail, gets, modify, commit, record_event, ◌>>=◌, ◌>>◌, one,
  get_object_or_404,
}
use redash.Groups.{require_permission}
use redash.Sharing.{require_object_modify_permission}
use redash.Alerts.Requests.{query_by_id_and_org, query_groups, require_access}

-- The fields that an update of a visualization may give.
pub record Changes : Type 0 where
  pub type : Option String
  pub name : Option String
  pub description : Option String
  pub options : Option String

abbrev given : Option String → String → String
given none a = a
given (some b) a = b

abbrev in_org : ℕ → ℕ → Db → Bool
in_org query_id org db = any (λ q. q.id == query_id && q.org_id == org) db.queries

-- Visualization.get_by_id_and_org
unfoldable pub visualization_by_id_and_org : ℕ → ℕ → Db → Option Visualization
visualization_by_id_and_org id org db =
    find (λ v. v.id == id && in_org v.query_id org db) db.visualizations

unfoldable pub dashboard_by_id_and_org : ℕ → ℕ → Db → Option Dashboard
dashboard_by_id_and_org id org db = find (λ d. d.id == id && d.org_id == org) db.dashboards

-- Widget.get_by_id_and_org
unfoldable pub widget_by_id_and_org : ℕ → ℕ → Db → Option Widget
widget_by_id_and_org id org db =
    find (λ w. w.id == id && any (λ d. d.id == w.dashboard_id && d.org_id == org) db.dashboards)
      db.widgets

-- `visualization.query_rel` and `widget.dashboard`.
unfoldable pub query_of : Visualization → Db → Option Query
query_of v db = find (λ q. q.id == v.query_id) db.queries

unfoldable pub dashboard_of : Widget → Db → Option Dashboard
dashboard_of w db = find (λ d. d.id == w.dashboard_id) db.dashboards

unfoldable pub add_visualization : ℕ → String → String → String → String → Db → Db
add_visualization query_id type name description options db = record db {
  visualizations =
      db.visualizations
      ++ record {
        id = db.next_id;
        type = type;
        query_id = query_id;
        name = name;
        description = description;
        options = options;
      }
        ∷ [];
  next_id = suc db.next_id;
}

unfoldable pub update_visualization : ℕ → Changes → Db → Db
update_visualization id c db = record db {
  visualizations =
      update (λ v. v.id == id)
        (λ v. record v {
          type = given c.type v.type;
          name = given c.name v.name;
          description = given c.description v.description;
          options = given c.options v.options;
        })
        db.visualizations;
}

-- `db.session.delete(vis)`: the widgets that showed it show nothing.
unfoldable pub delete_visualization : ℕ → Db → Db
delete_visualization id db = record db {
  visualizations = reject (λ v. v.id == id) db.visualizations;
  widgets =
      update (λ w. w.visualization_id == some id) (λ w. record w { visualization_id = none })
        db.widgets;
}

unfoldable pub add_widget : ℕ → Option ℕ → Option String → ℕ → String → Db → Db
add_widget dashboard_id visualization_id text width options db = record db {
  widgets =
      db.widgets
      ++ record {
        id = db.next_id;
        visualization_id = visualization_id;
        text = text;
        width = width;
        options = options;
        dashboard_id = dashboard_id;
      }
        ∷ [];
  next_id = suc db.next_id;
}

unfoldable pub update_widget : ℕ → String → String → Db → Db
update_widget id text options db = record db {
  widgets =
      update (λ w. w.id == id) (λ w. record w { text = some text; options = options }) db.widgets;
}

unfoldable pub delete_widget : ℕ → Db → Db
delete_widget id db = record db { widgets = reject (λ w. w.id == id) db.widgets }

module _ (me : Principal) (org : ℕ) where
  unfoldable pub modifiable_query : Visualization → Action (Unit {0})
  modifiable_query vis = do
    query ← gets (query_of vis)
    query ← one query
    require_object_modify_permission me org "queries" query.id query.user_id

  unfoldable pub modifiable_dashboard : Dashboard → Action (Unit {0})
  modifiable_dashboard d = require_object_modify_permission me org "dashboards" d.id d.user_id

  -- VisualizationListResource.post
  unfoldable pub create_visualization : ℕ → String → String → String → String → Action (Unit {0})
  create_visualization query_id type name description options = do
    require_permission me org "edit_query"
    query ← gets (query_by_id_and_org query_id org)
    query ← get_object_or_404 query
    require_object_modify_permission me org "queries" query.id query.user_id
    modify (add_visualization query.id type name description options)
    commit

  -- VisualizationResource.post
  unfoldable pub edit_visualization : ℕ → Changes → Action (Unit {0})
  edit_visualization visualization_id changes = do
    require_permission me org "edit_query"
    vis ← gets (visualization_by_id_and_org visualization_id org)
    vis ← get_object_or_404 vis
    modifiable_query vis
    modify (update_visualization vis.id changes)
    commit

  -- VisualizationResource.delete
  unfoldable pub remove_visualization : ℕ → Action (Unit {0})
  remove_visualization visualization_id = do
    require_permission me org "edit_query"
    vis ← gets (visualization_by_id_and_org visualization_id org)
    vis ← get_object_or_404 vis
    modifiable_query vis
    record_event "delete" "visualization" visualization_id
    modify (delete_visualization vis.id)
    commit

  -- The visualization of a new widget, if it has one: its query must be visible to the user.
  unfoldable pub visible_visualization : Option ℕ → Action (Unit {0})
  visible_visualization none = pure tt
  visible_visualization (some id) = do
    vis ← gets (visualization_by_id_and_org id org)
    vis ← one vis
    query ← gets (query_of vis)
    query ← one query
    require_access me org (query_groups query) true

  -- WidgetListResource.post
  unfoldable pub create_widget : ℕ → Option ℕ → Option String → ℕ → String → Action (Unit {0})
  create_widget dashboard_id visualization_id text width options = do
    require_permission me org "edit_dashboard"
    dashboard ← gets (dashboard_by_id_and_org dashboard_id org)
    dashboard ← one dashboard
    modifiable_dashboard dashboard
    visible_visualization visualization_id
    modify (add_widget dashboard.id visualization_id text width options)
    commit

  -- WidgetResource.post
  unfoldable pub edit_widget : ℕ → String → String → Action (Unit {0})
  edit_widget widget_id text options = do
    require_permission me org "edit_dashboard"
    widget ← gets (widget_by_id_and_org widget_id org)
    widget ← one widget
    dashboard ← gets (dashboard_of widget)
    dashboard ← one dashboard
    modifiable_dashboard dashboard
    modify (update_widget widget.id text options)
    commit

  -- WidgetResource.delete
  unfoldable pub remove_widget : ℕ → Action (Unit {0})
  remove_widget widget_id = do
    require_permission me org "edit_dashboard"
    widget ← gets (widget_by_id_and_org widget_id org)
    widget ← one widget
    dashboard ← gets (dashboard_of widget)
    dashboard ← one dashboard
    modifiable_dashboard dashboard
    modify (delete_widget widget.id)
    commit
    record_event "delete" "widget" widget_id
