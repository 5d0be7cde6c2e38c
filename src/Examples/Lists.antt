-- ===== src/Examples/Lists.antt =====
-- Lists, dashboards, data sources and the runner over results of queries.
use redash.Prelude.{
  String, ◌≡◌, refl, Bool, true, false, ◌&&◌, ◌||◌, not, Option, none, some, List, [], ◌∷◌, ◌++◌,
  map, if◌then◌else◌, ◌==◌, nat_eq, string_eq, list_eq, option_eq, select, find, any, all, contains,
  reject, insert_by, sort_by, pair_eq, Assoc, lookup, insert,
}
use redash.Examples.Rows.{as_admin, as_member, warehouse, report, rows}
use redash.Tables.{Query, Dashboard, Db}
use redash.Permissions.{
  Viewer, viewer, user_permissions, has_permission, has_permissions, has_access, data_source_groups,
  groups_from, is_owner,
}
use redash.Handler.{ok, serve, ◌>>=◌}
use redash.Groups.{require_permission, data_source_by_id_and_org}
use redash.Alerts.Requests.{query_groups}
use redash.Listing.{
  Listed, list_data_sources, all_data_sources, describe, place, by_name, in_some_group, joined,
  only_view, all_queries,
}
use redash.Listing.Entries.{about, to_be_listed, list_data_sources-visible}
use redash.Listing.Levels.{all_queries-has_access}
use redash.Serializers.{serialize_dashboard}
use redash.Listing.Dashboards.{is_listed, widget_joined}
use redash.Listing.Dashboards.Shown.{is_whole, is_listed-is_whole}
use redash.Visuals.{query_of}
use redash.Serializers.{visualization_of, widget_entries}
use redash.Serializers.Hidden.{disguise, serialize_dashboard-disguise}
use redash.Configuration.{Schema, to_dict, mask, schema_of}
use redash.DataSources.{edit, filter_none, placeholder}
use redash.DataSources.Requests.{delete_data_source_by_id, handle}
use redash.DataSources.Links.{IsLinked}
use redash.DataSources.Edits.{handle-IsLinked}
use redash.DataSources.Answers.{edit_shown}
use redash.Tables.{NotificationDestination}
use redash.Runner.{fetch_columns}
use redash.Runner.QueryResults.{
  note_rows, Cell, integer, text, run_query, query_word, extract_query_ids, Table, Created,
  create_tables, load_query, create_table,
}
use redash.Runner.QueryResults.Types.{row_fits, different, run_query-fits}
use redash.Runner.QueryResults.Ids.{join_or_from, extract_query_ids_complete}
use redash.Runner.QueryResults.Loaded.{AllHold, may_execute, create_tables-may_execute}
use redash.Prelude.Decimal.{decimal}

-- The types of query runners; names compare as they stand.
abbrev known : String → Bool
known t = t == "pg"

abbrev below : String → String → Bool
below a b = false

abbrev listed : List Listed
listed = record { data_source = warehouse; view_only = false } ∷ []

list_data_sources-visible_example :
    any (about 5) listed
    ≡ any
        (λ d. d.id == 5 && to_be_listed known (viewer rows.groups as_member) 1 rows d)
        rows.data_sources
unfolding serve list_data_sources require_permission ◌>>=◌ viewer user_permissions has_permission
    has_permissions all any contains all_data_sources describe by_name place in_some_group joined
    only_view select sort_by insert_by data_source_groups groups_from insert
list_data_sources-visible_example =
    list_data_sources-visible known below as_member 1 rows listed 5 refl

all_queries-has_access_example :
    all_queries (viewer rows.groups as_member).group_ids as_member false rows
    ≡ select
        (λ q.
          not q.is_archived
          && (has_access (query_groups q rows) (viewer rows.groups as_member) true
              && (false || (not q.is_draft || is_owner as_member q.user_id))))
        rows.queries
unfolding viewer user_permissions contains
all_queries-has_access_example = all_queries-has_access as_member false rows refl

-- A dashboard with a chart of the report, which an API key of another query may not see.
abbrev board : Dashboard
board = record {
  id = 20;
  version = 1;
  org_id = 1;
  slug = b'b' ∷ [];
  name = "board";
  user_id = 2;
  layout = "[]";
  dashboard_filters_enabled = false;
  is_archived = false;
  is_draft = false;
  tags = [];
}

abbrev with_chart : Db
with_chart = record rows {
  dashboards = board ∷ [];
  visualizations =
      record {
        id = 21;
        type = "CHART";
        query_id = 7;
        name = "chart";
        description = "";
        options = "{}";
      }
      ∷ [];
  widgets =
      record {
        id = 22;
        visualization_id = some 21;
        text = none;
        width = 1;
        options = "{}";
        dashboard_id = 20;
      }
      ∷ [];
}

-- A member of the group that the report's data source is given to.
abbrev member_viewer : Viewer
member_viewer = record { permissions = "view_query" ∷ []; group_ids = 2 ∷ [] }

is_listed-is_whole_example :
    any is_whole (widget_entries (some member_viewer) board with_chart) ≡ true
unfolding contains is_listed widget_joined visualization_of query_of joined find any
is_listed-is_whole_example =
    is_listed-is_whole member_viewer with_chart refl 1 9 false board refl refl

abbrev stranger : Option Viewer
stranger = some (record { permissions = "view_query" ∷ []; group_ids = [] })

serialize_dashboard-disguise_example :
    serialize_dashboard board true stranger
      (disguise (λ q. record q { name = "?"; query_text = "?" }) stranger with_chart)
    ≡ serialize_dashboard board true stranger with_chart
serialize_dashboard-disguise_example =
    serialize_dashboard-disguise (λ q. record q { name = "?"; query_text = "?" }) stranger
      with_chart (λ q. refl) (λ q. refl) board true

abbrev password_schema : Schema String
password_schema = record { secret = some ("password" ∷ []); validates = λ c. true }

abbrev schema_of_type : String → Option (Schema String)
schema_of_type t = if t == "pg" then some password_schema else none

abbrev shown_options : Assoc String String
shown_options = ("host", "\"db\"") ∷ ("password", placeholder) ∷ []

edit_shown_example :
    ((serve (edit schema_of_type (λ db. false) as_admin 1 5 "pg" "warehouse" shown_options) rows).0
      ≡ ok tt)
    × (data_source_by_id_and_org 5 1
          (serve
            (edit schema_of_type (λ db. false) as_admin 1 5 "pg" "warehouse" shown_options)
            rows).1
        ≡ some warehouse)
unfolding viewer user_permissions has_permission has_permissions all contains
    data_source_by_id_and_org find to_dict mask schema_of filter_none reject lookup
edit_shown_example =
    edit_shown schema_of_type (λ db. false) as_admin 1 rows refl 5 warehouse refl password_schema
      shown_options refl (refl, (refl, tt)) refl refl refl refl

-- The report keeps its result.
abbrev with_set : Db
with_set = record rows { query_resultsets = record { query_id = 7; result_id = 9 } ∷ [] }

rows-IsLinked : IsLinked rows
unfolding any all
rows-IsLinked = record {
  sources = refl;
  latest = refl;
  kept = refl;
  results = refl;
  members = refl;
}

handle-IsLinked_example :
    IsLinked
      (serve (handle schema_of_type (λ db. false) as_admin 1 (delete_data_source_by_id 5)) rows).1
handle-IsLinked_example =
    handle-IsLinked schema_of_type (λ db. false) as_admin 1 (delete_data_source_by_id 5) rows
      rows-IsLinked

-- Mail to the team.
abbrev mail : NotificationDestination
mail = record { id = 3; org_id = 1; user_id = 1; name = "mail"; type = "email"; options = [] }

abbrev with_mail : Db
with_mail = record rows {
  notification_destinations = mail ∷ [];
  alert_subscriptions =
      record { id = 40; user_id = 2; destination_id = some 3; alert_id = 11 } ∷ [];
}

-- A column with a number and a text.
abbrev mixed : List (List Cell)
mixed = (integer 1 ∷ []) ∷ (text (b'a' ∷ []) ∷ []) ∷ []

run_query-fits_example :
    let result = run_query (λ s. s) (λ s. false) ((b'n' ∷ []) ∷ []) mixed in
    all (row_fits (λ s. s) (λ s. false) result.columns) result.rows ≡ true
unfolding run_query fetch_columns different contains any all note_rows
run_query-fits_example = run_query-fits (λ s. s) (λ s. false) ((b'n' ∷ []) ∷ []) mixed refl refl

-- 'x from query_7 '
extract_query_ids_complete_example :
    contains
      (extract_query_ids
        ((b'x' ∷ b' ' ∷ []) ++ join_or_from false ++ b' ' ∷ query_word ++ decimal 7 ++ b' ' ∷ []))
      7
    ≡ true
extract_query_ids_complete_example =
    extract_query_ids_complete 7 (b' ' ∷ []) refl (b'x' ∷ b' ' ∷ []) false

abbrev numbers : Table
numbers = record { columns = (b'n' ∷ []) ∷ []; rows = ((b'n' ∷ [], integer 1) ∷ []) ∷ [] }

abbrev made : List (Query × Created)
made = (report, create_table (query_word ++ decimal 7) numbers) ∷ []

create_tables-may_execute_example :
    (all (λ (t : Query × Created). may_execute (viewer rows.groups as_member) 1 rows t.0) made
      ≡ true)
    × (map (λ (t : Query × Created). t.0.id) made ≡ 7 ∷ [])
    × AllHold (λ q. some numbers) made
unfolding create_tables load_query find viewer user_permissions contains has_access
    data_source_groups groups_from insert select all lookup
create_tables-may_execute_example =
    create_tables-may_execute (viewer rows.groups as_member) 1 rows (λ q. some numbers) (7 ∷ [])
      made refl
