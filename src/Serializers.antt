-- ===== src/Serializers.antt =====
-- redash/serializers.py: what a viewer is sent of a dashboard, its widgets and their visualizations. The JSON
-- texts of `layout` and `options` stay as they are.
pub mod Hidden
use redash.Prelude.{
  ℕ, zero, suc, ◌+◌, ◌-◌, ◌*◌, ◌/◌, ◌%◌, ◌^◌, ◌≤◌, ◌<◌, min, max, String, ◌≡◌, refl, sym, ap, ◌∙◌,
  subst, ◌≢◌, ◌↔◌, ◌⊎◌, inl, inr, Bool, true, false, ◌&&◌, ◌||◌, not, Option, none, some, List, [],
  ◌∷◌, ◌++◌, map, arith, ltb, leb, nat_beq, if◌then◌else◌, ltb→lt, lt→ltb, leb→le, nat_beq_iff,
  tests, Eq, ◌==◌, nat_eq, string_eq, list_eq, option_eq, list_beq_iff, option_beq_iff, Bool-cases,
  Option-cases, is_some, length, take, drop, select, find, any, all, length-append,
  length-select-le, any-append, contains, contains-append, reject, update, option_all-find,
  insert_by, sort_by, any-sort_by, any-select, pair_eq, pair_beq_iff, option_all, any-reject_self,
  length-update, without_first, count, count-without_first, count-without_first_ne, contains-eq-ltb,
  Assoc, lookup, insert, remove, lookup-insert, lookup-remove, printed, concat,
}
use redash.Tables.{User, Query, Visualization, Widget, Dashboard, Db}
use redash.Permissions.{Viewer, has_access}
use redash.Alerts.Requests.{query_groups}
use redash.Visuals.{query_of}

-- The keys that `serialize_query` always gives; `author` is the user's name, of `query.user.to_dict()`.
pub record QueryDict : Type 0 where
  pub id : ℕ
  pub latest_query_data_id : Option ℕ
  pub name : String
  pub description : Option String
  pub query : String
  pub query_hash : String
  pub schedule : Option (List ℕ)
  pub schedule_until : Option ℕ
  pub schedule_resultset_size : Option ℕ
  pub api_key : String
  pub is_archived : Bool
  pub is_draft : Bool
  pub data_source_id : Option ℕ
  pub options : String
  pub version : ℕ
  pub tags : List String
  pub author : Option String
  pub last_modified_by : Option String

pub record VisualizationDict : Type 0 where
  pub id : ℕ
  pub type : String
  pub name : String
  pub description : String
  pub options : String
  pub query : Option QueryDict

pub record WidgetDict : Type 0 where
  pub id : ℕ
  pub width : ℕ
  pub options : String
  pub dashboard_id : ℕ
  pub text : Option String
  pub visualization : Option VisualizationDict

-- An entry of `widgets`: the widget, or the keys that `project` keeps of one, with `restricted`.
pub data Entry : Type 0 where
  whole : WidgetDict → Entry
  restricted : ℕ → ℕ → ℕ → String → Entry

pub record DashboardDict : Type 0 where
  pub id : ℕ
  pub slug : List ℕ
  pub name : String
  pub user_id : ℕ
  pub layout : String
  pub dashboard_filters_enabled : Bool
  pub widgets : Option (List Entry)
  pub is_archived : Bool
  pub is_draft : Bool
  pub tags : List String
  pub version : ℕ

-- `query.tags or []`
abbrev or_empty : Option (List String) → List String
or_empty none = []
or_empty (some tags) = tags

-- `to_dict()['name']` of the user that a column names.
unfoldable pub name_of : Option ℕ → Db → Option String
name_of none db = none
name_of (some id) db = elim (find (λ (u : User). u.id == id) db.users) [
  | none ↦ none
  | some u ↦ some u.name
]

unfoldable pub serialize_query : Query → Db → QueryDict
unfolding name_of
serialize_query q db = record {
  id = q.id;
  latest_query_data_id = q.latest_query_data_id;
  name = q.name;
  description = q.description;
  query = q.query_text;
  query_hash = q.query_hash;
  schedule = q.schedule;
  schedule_until = q.schedule_until;
  schedule_resultset_size = q.schedule_resultset_size;
  api_key = q.api_key;
  is_archived = q.is_archived;
  is_draft = q.is_draft;
  data_source_id = q.data_source_id;
  options = q.options;
  version = q.version;
  tags = or_empty q.tags;
  author = name_of (some q.user_id) db;
  last_modified_by = name_of q.last_modified_by_id db;
}

abbrev query_dict : Option Query → Db → Option QueryDict
query_dict none db = none
query_dict (some q) db = some (serialize_query q db)

-- With `with_query`.
unfoldable pub serialize_visualization : Visualization → Db → VisualizationDict
serialize_visualization v db = record {
  id = v.id;
  type = v.type;
  name = v.name;
  description = v.description;
  options = v.options;
  query = query_dict (query_of v db) db;
}

-- `widget.visualization`
unfoldable pub visualization_of : Widget → Db → Option Visualization
visualization_of w db = elim w.visualization_id [
  | none ↦ none
  | some id ↦ find (λ v. v.id == id) db.visualizations
]

abbrev visualization_dict : Option Visualization → Db → Option VisualizationDict
visualization_dict none db = none
visualization_dict (some v) db = some (serialize_visualization v db)

unfoldable pub serialize_widget : Widget → Db → WidgetDict
serialize_widget w db = record {
  id = w.id;
  width = w.width;
  options = w.options;
  dashboard_id = w.dashboard_id;
  text = w.text;
  visualization = visualization_dict (visualization_of w db) db;
}

-- `w.visualization.query_rel.groups`
unfoldable pub widget_groups : Option Visualization → Db → Assoc ℕ Bool
widget_groups none db = []
widget_groups (some v) db = elim (query_of v db) [ none ↦ [] | some q ↦ query_groups q db ]

-- `user and has_access(...)`
unfoldable pub may_view : Option Viewer → Assoc ℕ Bool → Bool
may_view none groups = false
may_view (some u) groups = has_access groups u true

-- The loop's body.
unfoldable pub entry_of : Option Viewer → Db → Widget → Entry
entry_of me db w =
    if not (is_some w.visualization_id)
    then whole (serialize_widget w db)
    else if may_view me (widget_groups (visualization_of w db) db)
    then whole (serialize_widget w db)
    else restricted w.id w.width w.dashboard_id w.options

unfoldable pub widget_entries : Option Viewer → Dashboard → Db → List Entry
unfolding entry_of
widget_entries me d db =
    map (λ w. entry_of me db w) (select (λ w. w.dashboard_id == d.id) db.widgets)

unfoldable pub serialize_dashboard : Dashboard → Bool → Option Viewer → Db → DashboardDict
serialize_dashboard d with_widgets me db = record {
  id = d.id;
  slug = d.slug;
  name = d.name;
  user_id = d.user_id;
  layout = d.layout;
  dashboard_filters_enabled = d.dashboard_filters_enabled;
  widgets = if with_widgets then some (widget_entries me d db) else none;
  is_archived = d.is_archived;
  is_draft = d.is_draft;
  tags = d.tags;
  version = d.version;
}
