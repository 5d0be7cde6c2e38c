-- ===== src/Alerts/Requests.antt =====
-- redash/handlers/alerts.py: the requests that change alerts and their subscriptions.
pub mod Subscriptions
use redash.Prelude.{
  ℕ, zero, suc, ◌+◌, ◌-◌, ◌*◌, ◌/◌, ◌%◌, ◌^◌, ◌≤◌, ◌<◌, min, max, String, ◌≡◌, refl, sym, ap, ◌∙◌,
  subst, ◌≢◌, ◌↔◌, ◌⊎◌, inl, inr, Bool, true, false, ◌&&◌, ◌||◌, not, Option, none, some, List, [],
  ◌∷◌, ◌++◌, map, arith, ltb, leb, nat_beq, if◌then◌else◌, ltb→lt, lt→ltb, leb→le, nat_beq_iff,
  tests, Eq, ◌==◌, nat_eq, string_eq, list_eq, option_eq, list_beq_iff, option_beq_iff, Bool-cases,
  Option-cases, is_some, length, take, drop, select, find, any, all, length-append,
  length-select-le, any-append, contains, contains-append, reject, update, option_all-find,
  insert_by, sort_by, any-sort_by, any-select, pair_eq, pair_beq_iff, option_all, any-reject_self,
  length-update, without_first, count, count-without_first, count-without_first_ne, contains-eq-ltb,
  Assoc, lookup, insert, remove, lookup-insert, lookup-remove,
}
use redash.Tables.{Query, Alert, AlertOptions, AlertState, unknown, AlertSubscription, Db}
use redash.Permissions.{Principal, viewer, data_source_groups, has_access}
use redash.Handler.{
  Failure, abort, no_result, exception, Action, gets, modify, commit, record_event, ◌>>=◌, ◌>>◌,
  one, require, get_object_or_404,
}
use redash.Sharing.{user_row, require_admin_or_owner}

-- What an edit request may give: the keys that `project` keeps.
pub record Params : Type 0 where
  pub options : Option AlertOptions
  pub name : Option String
  pub query_id : Option ℕ
  pub rearm : Option (Option ℕ)

abbrev given {ℓ} : {A : Type ℓ} → Option A → A → A
given none a = a
given (some b) a = b

unfoldable pub query_by_id_and_org : ℕ → ℕ → Db → Option Query
query_by_id_and_org id org db = find (λ q. q.id == id && q.org_id == org) db.queries

-- Alert.get_by_id_and_org: the alert, if its query is of the organization.
unfoldable pub alert_by_id_and_org : ℕ → ℕ → Db → Option Alert
alert_by_id_and_org id org db =
    find (λ a. a.id == id && any (λ q. q.id == a.query_id && q.org_id == org) db.queries) db.alerts

-- Query.groups
unfoldable pub query_groups : Query → Db → Assoc ℕ Bool
query_groups q db = elim q.data_source_id [
  | none ↦ []
  | some ds ↦ data_source_groups db.data_source_groups ds
]

-- Alert.groups
unfoldable pub alert_groups : Alert → Db → Assoc ℕ Bool
alert_groups a db = elim (find (λ q. q.id == a.query_id) db.queries) [
  | none ↦ []
  | some q ↦ query_groups q db
]

unfoldable pub update_alert : ℕ → Params → Db → Db
update_alert id params db = record db {
  alerts =
      update (λ a. a.id == id)
        (λ a. record a {
          options = given params.options a.options;
          name = given params.name a.name;
          query_id = given params.query_id a.query_id;
          rearm = given params.rearm a.rearm;
        })
        db.alerts;
}

-- `db.session.delete(alert)`, with its subscriptions by cascade.
unfoldable pub delete_alert : ℕ → Db → Db
delete_alert id db = record db {
  alerts = reject (λ a. a.id == id) db.alerts;
  alert_subscriptions = reject (λ s. s.alert_id == id) db.alert_subscriptions;
}

unfoldable pub add_alert : ℕ → String → ℕ → Option ℕ → AlertOptions → Db → Db
add_alert user_id name query_id rearm options db = record db {
  alerts =
      db.alerts
      ++ record {
        id = db.next_id;
        name = name;
        query_id = query_id;
        user_id = user_id;
        options = options;
        state = unknown;
        last_triggered_at = none;
        rearm = rearm;
      }
        ∷ [];
  next_id = suc db.next_id;
}

-- A subscription with the same destination and alert, which the unique index of the table refuses.
unfoldable pub same_subscription : Option ℕ → ℕ → AlertSubscription → Bool
same_subscription none alert_id s = false
same_subscription (some d) alert_id s = s.destination_id == some d && s.alert_id == alert_id

unfoldable pub add_subscription : ℕ → Option ℕ → ℕ → Db → Db
add_subscription user_id destination_id alert_id db = record db {
  alert_subscriptions =
      db.alert_subscriptions
      ++ record {
        id = db.next_id;
        user_id = user_id;
        destination_id = destination_id;
        alert_id = alert_id;
      }
        ∷ [];
  next_id = suc db.next_id;
}

unfoldable pub delete_subscription : ℕ → Db → Db
delete_subscription id db = record db {
  alert_subscriptions = reject (λ s. s.id == id) db.alert_subscriptions;
}

module _ (me : Principal) (org : ℕ) where
  unfoldable pub require_access : (Db → Assoc ℕ Bool) → Bool → Action (Unit {0})
  require_access groups need_view_only = do
    allowed ← gets (λ db. has_access (groups db) (viewer db.groups me) need_view_only)
    require allowed (abort 403)

  -- AlertResource.post
  unfoldable pub edit : ℕ → Params → Action (Unit {0})
  edit alert_id params = do
    alert ← gets (alert_by_id_and_org alert_id org)
    alert ← get_object_or_404 alert
    require_admin_or_owner me org alert.user_id
    modify (update_alert alert.id params)
    commit
    record_event "edit" "alert" alert.id

  -- AlertResource.delete
  unfoldable pub delete : ℕ → Action (Unit {0})
  delete alert_id = do
    alert ← gets (alert_by_id_and_org alert_id org)
    alert ← get_object_or_404 alert
    require_admin_or_owner me org alert.user_id
    modify (delete_alert alert.id)
    commit

  -- AlertListResource.post
  unfoldable pub create : String → ℕ → Option ℕ → AlertOptions → Action (Unit {0})
  create name query_id rearm options = do
    query ← gets (query_by_id_and_org query_id org)
    query ← one query
    require_access (query_groups query) true
    user_id ← user_row me
    id ← gets (λ db. db.next_id)
    modify (add_alert user_id name query.id rearm options)
    commit
    record_event "create" "alert" id

  -- AlertSubscriptionListResource.post. `is_destination` tells the ids of the organization's destinations.
  unfoldable pub subscribe : (ℕ → Bool) → ℕ → Option ℕ → Action (Unit {0})
  subscribe is_destination alert_id destination_id = do
    alert ← gets (alert_by_id_and_org alert_id org)
    alert ← one alert
    require_access (alert_groups alert) true
    require (elim destination_id [ none ↦ true | some d ↦ is_destination d ]) no_result
    user_id ← user_row me
    taken ← gets (λ db. any (same_subscription destination_id alert.id) db.alert_subscriptions)
    require (not taken) exception
    modify (add_subscription user_id destination_id alert.id)
    commit
    record_event "subscribe" "alert" alert_id

  -- AlertSubscriptionResource.delete
  unfoldable pub unsubscribe : ℕ → ℕ → Action (Unit {0})
  unsubscribe alert_id subscriber_id = do
    subscription ← gets (λ db. find (λ s. s.id == subscriber_id) db.alert_subscriptions)
    subscription ← get_object_or_404 subscription
    require_admin_or_owner me org subscription.user_id
    modify (delete_subscription subscription.id)
    commit
    record_event "unsubscribe" "alert" alert_id

pub data Request : Type 0 where
  edit_alert : (alert_id : ℕ) (params : Params) → Request
  delete_alert_row : (alert_id : ℕ) → Request
  create_alert :
      (name : String) (query_id : ℕ) (rearm : Option ℕ) (options : AlertOptions) → Request
  subscribe_to : (is_destination : ℕ → Bool) (alert_id : ℕ) (destination_id : Option ℕ) → Request
  unsubscribe_from : (alert_id subscriber_id : ℕ) → Request

-- The requests of handlers/alerts.py that change the database, as one type.
unfoldable pub handle : Principal → ℕ → Request → Action (Unit {0})
handle me org (edit_alert a p) = edit me org a p
handle me org (delete_alert_row a) = delete me org a
handle me org (create_alert n q r o) = create me org n q r o
handle me org (subscribe_to f a d) = subscribe me org f a d
handle me org (unsubscribe_from a s) = unsubscribe me org a s
