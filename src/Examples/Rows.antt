-- ===== src/Examples/Rows.antt =====
-- Rows of a small organization: an administrator, a member, two groups, a data source and its queries.
use redash.Prelude.{
  ℕ, ◌*◌, false, none, some, List, [], ◌∷◌, nat_eq, string_eq, list_eq, option_eq, pair_eq,
}
use redash.Tables.{
  Group, User, DataSource, DataSourceGroup, QueryResult, Query, Alert, triggered, AlertSubscription,
  Db,
}
use redash.Permissions.{Principal, user}
use redash.Groups.{default_permissions}

abbrev pub admins : Group
admins = record {
  id = 1;
  org_id = 1;
  type = "builtin";
  name = "admin";
  permissions = "admin" ∷ "super_admin" ∷ [];
}

abbrev pub analysts : Group
analysts = record {
  id = 2;
  org_id = 1;
  type = "regular";
  name = "analysts";
  permissions = default_permissions;
}

abbrev pub ada : User
ada = record {
  id = 1;
  org_id = 1;
  name = "Ada";
  email = "ada@example.com";
  password_hash = none;
  group_ids = 1 ∷ [];
  api_key = "a";
  disabled_at = none;
}

abbrev pub bob : User
bob = record {
  id = 2;
  org_id = 1;
  name = "Bob";
  email = "bob@example.com";
  password_hash = none;
  group_ids = 2 ∷ [];
  api_key = "b";
  disabled_at = none;
}

abbrev pub as_admin : Principal
as_admin = user ada

abbrev pub as_member : Principal
as_member = user bob

abbrev pub warehouse : DataSource
warehouse = record {
  id = 5;
  org_id = 1;
  name = "warehouse";
  type = "pg";
  options = ("host", "\"db\"") ∷ ("password", "\"sesame\"") ∷ [];
  queue_name = "queries";
  scheduled_queue_name = "scheduled_queries";
}

abbrev pub warehouse_analysts : DataSourceGroup
warehouse_analysts = record { id = 6; data_source_id = 5; group_id = 2; view_only = false }

-- '08:30'
abbrev pub half_past_eight : List ℕ
half_past_eight = b'0' ∷ b'8' ∷ b':' ∷ b'3' ∷ b'0' ∷ []

-- '60'
abbrev pub every_minute : List ℕ
every_minute = b'6' ∷ b'0' ∷ []

abbrev pub report : Query
report = record {
  id = 7;
  version = 1;
  org_id = 1;
  data_source_id = some 5;
  latest_query_data_id = some 9;
  name = "report";
  description = none;
  query_text = "SELECT 1";
  query_hash = "h";
  api_key = "k";
  user_id = 2;
  last_modified_by_id = none;
  is_archived = false;
  is_draft = false;
  schedule = some every_minute;
  schedule_failures = 0;
  schedule_until = none;
  schedule_resultset_size = some 3;
  options = "{}";
  tags = none;
}

-- In 2020.
abbrev pub in_2020 : ℕ
in_2020 = 737_425 * 86_400_000_000

abbrev pub old_result : QueryResult
old_result = record {
  id = 9;
  org_id = 1;
  data_source_id = 5;
  query_hash = "h";
  query_text = "SELECT 1";
  data_text = some "[1]";
  runtime = 10;
  retrieved_at = in_2020;
}

abbrev pub alert : Alert
alert = record {
  id = 11;
  name = "low";
  query_id = 7;
  user_id = 2;
  options = record { column = "n"; op = "less than"; value = "3" };
  state = triggered;
  last_triggered_at = some 5_000_000;
  rearm = some 60;
}

abbrev pub subscription : AlertSubscription
subscription = record { id = 12; user_id = 2; destination_id = none; alert_id = 11 }

abbrev pub rows : Db
rows = record {
  groups = admins ∷ analysts ∷ [];
  users = ada ∷ bob ∷ [];
  data_sources = warehouse ∷ [];
  data_source_groups = warehouse_analysts ∷ [];
  access_permissions = [];
  api_keys = [];
  query_results = old_result ∷ [];
  queries = report ∷ [];
  query_resultsets = [];
  visualizations = [];
  widgets = [];
  dashboards = [];
  alerts = alert ∷ [];
  alert_subscriptions = subscription ∷ [];
  changes = [];
  favorites = [];
  query_snippets = [];
  notification_destinations = [];
  next_id = 20;
}
