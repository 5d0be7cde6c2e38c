-- ===== src/Visuals/Guards.antt =====
-- Who can change visualizations and widgets, and what a change leaves of them.
use redash.Prelude.{
  ℕ, String, ◌≡◌, false, Option, none, some, arith, nat_eq, string_eq, list_eq, option_eq, pair_eq,
}
use redash.Tables.{Query, Visualization, Dashboard, Db}
use redash.Permissions.{Principal}
use redash.Handler.{Failure, err, Action, serve, ◌>>=◌}
use redash.Handler.Rules.{Reads, Reads-pure, Atomic, serve-Atomic, atomic_rules, reads}
use redash.Groups.Requests.{Reads-require_permission}
use redash.Sharing.{can_modify, require_object_modify_permission}
use redash.Alerts.Requests.{query_by_id_and_org}
use redash.Alerts.Requests.Subscriptions.{Reads-require_access}
use redash.Groups.{require_permission}
use redash.Visuals.{
  visualization_by_id_and_org, dashboard_by_id_and_org, widget_by_id_and_org, query_of,
  dashboard_of, Changes, modifiable_query, modifiable_dashboard, visible_visualization,
  create_visualization, edit_visualization, remove_visualization, create_widget, edit_widget,
  remove_widget,
}

pub data Request : Type 0 where
  new_visualization : (query_id : ℕ) (type name description options : String) → Request
  change_visualization : (visualization_id : ℕ) (changes : Changes) → Request
  drop_visualization : (visualization_id : ℕ) → Request
  new_widget :
      (dashboard_id : ℕ) (visualization_id : Option ℕ) (text : Option String) (width : ℕ)
      (options : String)
      → Request
  change_widget : (widget_id : ℕ) (text options : String) → Request
  drop_widget : (widget_id : ℕ) → Request

-- The requests that change visualizations and widgets, as one type.
unfoldable pub handle : Principal → ℕ → Request → Action (Unit {0})
handle me org (new_visualization q t n d o) = create_visualization me org q t n d o
handle me org (change_visualization v c) = edit_visualization me org v c
handle me org (drop_visualization v) = remove_visualization me org v
handle me org (new_widget d v t w o) = create_widget me org d v t w o
handle me org (change_widget w t o) = edit_widget me org w t o
handle me org (drop_widget w) = remove_widget me org w

module _ (me : Principal) (org : ℕ) where
  pub Reads-require_object_modify_permission :
      (t : String) (id owner : ℕ) → Reads (require_object_modify_permission me org t id owner)
  unfolding require_object_modify_permission
  Reads-require_object_modify_permission t id owner = search reads

  Reads-modifiable_query : (v : Visualization) → Reads (modifiable_query me org v)
  unfolding modifiable_query
  Reads-modifiable_query v = search (reads, Reads-require_object_modify_permission) depth 20

  Reads-modifiable_dashboard : (d : Dashboard) → Reads (modifiable_dashboard me org d)
  unfolding modifiable_dashboard
  Reads-modifiable_dashboard d = Reads-require_object_modify_permission "dashboards" d.id d.user_id

  Reads-visible_visualization : (o : Option ℕ) → Reads (visible_visualization me org o)
  unfolding visible_visualization
  Reads-visible_visualization none = Reads-pure tt
  Reads-visible_visualization (some id) = search (reads, Reads-require_access) depth 20

  handle-Atomic : (r : Request) → Atomic (handle me org r)
  unfolding handle create_visualization edit_visualization remove_visualization create_widget
      edit_widget remove_widget
  handle-Atomic (new_visualization q t n d o) =
      search (atomic_rules, Reads-require_permission, Reads-require_object_modify_permission) depth
        25
  handle-Atomic (change_visualization v c) =
      search (atomic_rules, Reads-require_permission, Reads-modifiable_query) depth 25
  handle-Atomic (drop_visualization v) =
      search (atomic_rules, Reads-require_permission, Reads-modifiable_query) depth 25
  handle-Atomic (new_widget d v t w o) =
      search
        (
          atomic_rules, Reads-require_permission, Reads-modifiable_dashboard,
          Reads-visible_visualization,
        )
        depth 25
  handle-Atomic _ =
      search (atomic_rules, Reads-require_permission, Reads-modifiable_dashboard) depth 25

  -- A request on visualizations or widgets that fails leaves the database as it was.
  pub handle-failure_unchanged :
      (r : Request) (db : Db) (e : Failure)
      → (serve (handle me org r) db).0 ≡ err e
      → (serve (handle me org r) db).1 ≡ db
  handle-failure_unchanged r db e h = serve-Atomic (handle me org r) db e (handle-Atomic r) h

abbrev of_query : Option Query → Option (String × ℕ × ℕ)
of_query none = none
of_query (some q) = some ("queries", q.id, q.user_id)

abbrev of_dashboard : Option Dashboard → Option (String × ℕ × ℕ)
of_dashboard none = none
of_dashboard (some d) = some ("dashboards", d.id, d.user_id)

-- The query or the dashboard that a request is about, with its owner.
unfoldable pub target : ℕ → Request → Db → Option (String × ℕ × ℕ)
target org (new_visualization q t n d o) db = of_query (query_by_id_and_org q org db)
target org (change_visualization v c) db = elim (visualization_by_id_and_org v org db) [
  | none ↦ none
  | some v ↦ of_query (query_of v db)
]
target org (drop_visualization v) db = elim (visualization_by_id_and_org v org db) [
  | none ↦ none
  | some v ↦ of_query (query_of v db)
]
target org (new_widget d v t w o) db = of_dashboard (dashboard_by_id_and_org d org db)
target org (change_widget w t o) db = elim (widget_by_id_and_org w org db) [
  | none ↦ none
  | some w ↦ of_dashboard (dashboard_of w db)
]
target org (drop_widget w) db = elim (widget_by_id_and_org w org db) [
  | none ↦ none
  | some w ↦ of_dashboard (dashboard_of w db)
]

-- A request on visualizations or widgets by somebody who cannot modify the query or the dashboard that it is
-- about changes nothing.
pub handle-guarded :
    (me : Principal) (org : ℕ) (r : Request) (db : Db) (object_type : String) (id owner : ℕ)
    → target org r db ≡ some (object_type, id, owner)
    → can_modify me object_type id owner db ≡ false
    → (serve (handle me org r) db).1 ≡ db
unfolding serve handle target create_visualization edit_visualization remove_visualization
    create_widget edit_widget remove_widget modifiable_query modifiable_dashboard
    require_object_modify_permission require_permission ◌>>=◌
handle-guarded me org (new_visualization q t n d o) db object_type id owner h g = ground arith
handle-guarded me org (change_visualization v c) db object_type id owner h g = ground arith
handle-guarded me org (drop_visualization v) db object_type id owner h g = ground arith
handle-guarded me org (new_widget d v t w o) db object_type id owner h g = ground arith
handle-guarded me org (change_widget w t o) db object_type id owner h g = ground arith
handle-guarded me org (drop_widget w) db object_type id owner h g = ground arith
