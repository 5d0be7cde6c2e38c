-- ===== src/Lib.antt =====
-- Redash, the server side (redash/, Python): its access rules, the requests that change groups, permissions,
-- alerts, favourites, visualizations, widgets, users and queries, who is let in, the schedules of queries, their execution by background tasks,
-- stored results and their clean-up, alerts and configurations.
--
-- A web request is authenticated, passes the checks of redash/permissions.py and runs a handler of
-- redash/handlers on the models of redash/models.py. Queries are run by Celery tasks (redash/tasks/queries.py):
-- a request or the periodic refresh submits a task under a lock in Redis, and a worker executes it, stores its
-- result and has the alerts checked (redash/tasks/alerts.py).
--
-- Which file models which part:
--   Prelude            lists, association lists, Boolean tests and decimals over the native numbers
--   Tables             the rows and tables of redash/models.py
--   Permissions        redash/permissions.py (has_access, has_permission_or_owner, is_admin_or_owner) and the
--                      permissions and groups that redash/models.py gives to users, API users and data sources
--   Handler            requests: a session over the stored rows, commit and rollback, early ends
--                      (redash/handlers/base.py)
--   Paging             paginate of redash/handlers/base.py
--   Groups             redash/handlers/groups.py, one function per request; Groups.Requests joins them
--   Sharing            AccessPermission, can_modify and redash/handlers/permissions.py; Sharing.Sequences has
--                      requests that follow each other
--   Schedule           should_schedule_next of redash/models.py; Schedule.Clock has datetime with its range
--                      errors, Schedule.Outdated is Query.outdated_queries
--   Configuration      ConfigurationContainer of redash/utils/configuration.py
--   Alerts             Alert.evaluate, should_notify and check_alerts_for_query
--   Alerts.Requests    redash/handlers/alerts.py
--   Favorites          redash/handlers/favorites.py
--   Snippets           redash/handlers/query_snippets.py
--   Destinations       redash/handlers/destinations.py
--   DataSources        redash/handlers/data_sources.py: creating, editing and deleting data sources
--   Listing            the lists of data sources, queries and dashboards
--   Serializers        redash/serializers.py: what a viewer is sent of a dashboard
--   Visuals            redash/handlers/visualizations.py and redash/handlers/widgets.py
--   Users              redash/handlers/users.py: editing, disabling and enabling users
--   Results            QueryResult.store_result and QueryResult.get_latest
--   Results.Stale      QueryResult.unused, Query.delete_stale_resultsets and cleanup_query_results
--   Authentication     redash/authentication/__init__.py: sessions, API keys and signatures
--   Tracking           ChangeTrackingMixin of redash/models.py
--   Queries            Query.create, Query.archive, Query.fork and the requests of redash/handlers/queries.py
--                      that use them; Queries.Requests joins them
--   Dashboards         generate_slug, slugify of redash/utils/__init__.py, and the requests of
--                      redash/handlers/dashboards.py that share and unshare a dashboard
--   Running            redash/handlers/query_results.py and QueryRefreshResource: answering with a stored result
--                      or a job; Running.Reading is QueryResultResource.get
--   Runner             BaseQueryRunner.fetch_columns of redash/query_runner/__init__.py; Runner.Base
--                      has the rest of the base classes, Runner.QueryResults is query_results.py, and
--                      Runner.Mongo, Runner.Jql, Runner.Influx and Runner.Sheets are the tables that mongodb.py,
--                      jql.py, influx_db.py and google_spreadsheets.py make of what they are answered
--   Tasks.Tracker      QueryTaskTracker of redash/tasks/queries.py and its lists in Redis
--   Tasks.Status       QueryTask.to_dict
--   Tasks.Enqueue      enqueue_query: the lock, the transaction, and what other clients do in between
--   Tasks.Executor     QueryExecutor
--   Tasks.Cleanup      cleanup_tasks
--   Tasks.Refresh      refresh_queries
--   Tasks.System       calls, executions and expiries of locks as steps that follow each other in any order
--   Examples           rows and requests at which the theorems are applied
--
-- Numbers are natural numbers; a time is a number of microseconds since the least datetime. A column that names
-- another row holds its id, and one counter gives all new ids. Text is a String where the code only compares
-- it, and a list of characters where the code takes it apart (schedules, names of columns). The loop of
-- enqueue_query runs 5 times as in the code. The loop that prunes a list of trackers runs on fuel, one more than the
-- list is long, which is enough since each round but the last removes a member; the search for a slug
-- on one more than there are slugs, which is enough since the candidates differ. All other loops are recursions on
-- lists.
--
-- Not under the repository, hence parameters: what a query runner returns, whether the worker is killed before, whether
-- the database takes what an execution writes, what a JSON schema accepts and how
-- JSON values compare, the digest of a signature, whether a task is ready, the hash and the rendering of a query's text, the hashes of passwords, and what other
-- clients do to Redis. Parameters are also which organizations are disabled, which data sources are
-- paused when queries are refreshed, and which destinations an alert may be sent to. Not modelled: drivers for databases,
-- notification services, the forms and providers of log-in, the command line, migrations, settings, metrics and the web client, and
-- most requests that only read. Within a call of enqueue_query the expiry of a lock is what another client may do; in
-- Tasks.System it is a step of its own.
pub mod Prelude
pub mod Tables
pub mod Paging
pub mod Listing
pub mod Permissions
pub mod Handler
pub mod Groups
pub mod Serializers
pub mod Sharing
pub mod Snippets
pub mod Schedule
pub mod Configuration
pub mod Alerts
pub mod Authentication
pub mod Favorites
pub mod Visuals
pub mod Users
pub mod Runner
pub mod Running
pub mod Queries
pub mod Results
pub mod Tasks
pub mod Tracking
pub mod Dashboards
pub mod DataSources
pub mod Destinations
pub mod Examples
