-- ===== src/Tables/Content.antt =====
-- models.py: Query, QueryResult, QueryResultSet, Visualization, Widget, Dashboard, Alert,
-- AlertSubscription, Change, Favorite.
use redash.Prelude.{ℕ, String, Bool, Option, List, nat_eq, string_eq, list_eq, option_eq, Assoc}

pub record QueryResult : Type 0 where
  pub id : ℕ
  pub org_id : ℕ
  pub data_source_id : ℕ
  pub query_hash : String
  pub query_text : String
  pub data_text : Option String  -- the column `data`
  pub runtime : ℕ
  pub retrieved_at : ℕ

pub record Query : Type 0 where
  pub id : ℕ
  pub version : ℕ
  pub org_id : ℕ
  pub data_source_id : Option ℕ
  pub latest_query_data_id : Option ℕ
  pub name : String
  pub description : Option String
  pub query_text : String
  pub query_hash : String
  pub api_key : String
  pub user_id : ℕ
  pub last_modified_by_id : Option ℕ
  pub is_archived : Bool
  pub is_draft : Bool
  pub schedule : Option (List ℕ)  -- the characters of 'HH:MM' or of a number of seconds
  pub schedule_failures : ℕ
  pub schedule_until : Option ℕ
  pub schedule_resultset_size : Option ℕ
  pub options : String
  pub tags : Option (List String)

pub record QueryResultSet : Type 0 where
  pub query_id : ℕ
  pub result_id : ℕ

pub record Visualization : Type 0 where
  pub id : ℕ
  pub type : String
  pub query_id : ℕ
  pub name : String
  pub description : String
  pub options : String

pub record Widget : Type 0 where
  pub id : ℕ
  pub visualization_id : Option ℕ
  pub text : Option String
  pub width : ℕ
  pub options : String
  pub dashboard_id : ℕ

pub record Dashboard : Type 0 where
  pub id : ℕ
  pub version : ℕ
  pub org_id : ℕ
  pub slug : List ℕ
  pub name : String
  pub user_id : ℕ
  pub layout : String
  pub dashboard_filters_enabled : Bool
  pub is_archived : Bool
  pub is_draft : Bool
  pub tags : List String

-- The states 'unknown', 'ok' and 'triggered'.
pub data AlertState : Type 0 where
  unknown ok triggered : AlertState

-- The keys of `options` that the code reads; `value` keeps its JSON text.
pub record AlertOptions : Type 0 where
  pub column : String
  pub op : String
  pub value : String

pub record Alert : Type 0 where
  pub id : ℕ
  pub name : String
  pub query_id : ℕ
  pub user_id : ℕ
  pub options : AlertOptions
  pub state : AlertState
  pub last_triggered_at : Option ℕ
  pub rearm : Option ℕ

pub record AlertSubscription : Type 0 where
  pub id : ℕ
  pub user_id : ℕ
  pub destination_id : Option ℕ
  pub alert_id : ℕ

-- A value of a column, as `record_changes` compares and keeps it.
pub data Value : Type 0 where
  null : Value
  number : ℕ → Value
  flag : Bool → Value
  text : String → Value
  texts : List String → Value
  chars : List ℕ → Value

-- `change` is the dictionary of `record_changes`: column, previous value, current value.
pub record Change : Type 0 where
  pub id : ℕ
  pub object_type : String
  pub object_id : ℕ
  pub object_version : ℕ
  pub user_id : ℕ
  pub change : Assoc String (Value × Value)

pub record Favorite : Type 0 where
  pub id : ℕ
  pub org_id : ℕ
  pub object_type : String
  pub object_id : ℕ
  pub user_id : ℕ

pub record QuerySnippet : Type 0 where
  pub id : ℕ
  pub org_id : ℕ
  pub trigger : String
  pub description : String
  pub user_id : ℕ
  pub snippet : String

pub record NotificationDestination : Type 0 where
  pub id : ℕ
  pub org_id : ℕ
  pub user_id : ℕ
  pub name : String
  pub type : String
  pub options : Assoc String String  -- the JSON text of each value
