-- ===== src/Examples.antt =====
-- Every theorem with hypotheses, at rows and requests where they hold.
mod Rows
mod Keys
mod Queries
mod Running
mod Requests
mod Models
mod Accounts
mod Stale
mod Content
mod QueryTasks
mod Lists
mod Shapes
