-- ===== src/Tables/Access.antt =====
-- models.py: Group, User, ApiUser, DataSource, DataSourceGroup, AccessPermission, ApiKey.
use redash.Prelude.{ℕ, String, Bool, Option, List, nat_eq, string_eq, list_eq, option_eq, Assoc}

pub record Group : Type 0 where
  pub id : ℕ
  pub org_id : ℕ
  pub type : String
  pub name : String
  pub permissions : List String

pub record User : Type 0 where
  pub id : ℕ
  pub org_id : ℕ
  pub name : String
  pub email : String
  pub password_hash : Option String
  pub group_ids : List ℕ
  pub api_key : String
  pub disabled_at : Option ℕ

-- A request that was authenticated by an API key, not by a user.
pub record ApiUser : Type 0 where
  pub id : String
  pub name : String
  pub group_ids : List ℕ
  pub org_id : ℕ

pub record DataSource : Type 0 where
  pub id : ℕ
  pub org_id : ℕ
  pub name : String
  pub type : String
  pub options : Assoc String String  -- the JSON text of each value
  pub queue_name : String
  pub scheduled_queue_name : String

pub record DataSourceGroup : Type 0 where
  pub id : ℕ
  pub data_source_id : ℕ
  pub group_id : ℕ
  pub view_only : Bool

-- `object_type` is the table's name, 'queries' or 'dashboards'.
pub record AccessPermission : Type 0 where
  pub id : ℕ
  pub object_type : String
  pub object_id : ℕ
  pub access_type : String
  pub grantor_id : ℕ
  pub grantee_id : ℕ

pub record ApiKey : Type 0 where
  pub id : ℕ
  pub org_id : ℕ
  pub api_key : String
  pub active : Bool
  pub object_type : String
  pub object_id : ℕ
  pub created_by_id : Option ℕ
