-- ===== src/Tables.antt =====
-- The rows of the database (redash/models.py) that the modelled code reads and writes. A column that
-- names another row holds its id. Times are microseconds since the least `datetime`.
mod Access
mod Content
pub use Access.*
pub use Content.*
use redash.Prelude.{ℕ, List}

-- The tables. `next_id` stands for the sequences that give new rows their ids.
pub record Db : Type 0 where
  pub groups : List Group
  pub users : List User
  pub data_sources : List DataSource
  pub data_source_groups : List DataSourceGroup
  pub access_permissions : List AccessPermission
  pub api_keys : List ApiKey
  pub query_results : List QueryResult
  pub queries : List Query
  pub query_resultsets : List QueryResultSet
  pub visualizations : List Visualization
  pub widgets : List Widget
  pub dashboards : List Dashboard
  pub alerts : List Alert
  pub alert_subscriptions : List AlertSubscription
  pub changes : List Change
  pub favorites : List Favorite
  pub query_snippets : List QuerySnippet
  pub notification_destinations : List NotificationDestination
  pub next_id : ℕ
