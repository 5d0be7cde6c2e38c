-- ===== src/Destinations.antt =====
-- redash/handlers/destinations.py: the requests that create, edit and delete a notification destination.
-- `schema_of_type` is get_configuration_schema_for_destination_type. No two destinations of an organization may have
-- one name: the database refuses a commit that breaks this (IntegrityError, which nobody catches).
pub mod Served
pub mod Requests
use redash.Prelude.{
  ℕ, zero, suc, ◌+◌, ◌-◌, ◌*◌, ◌/◌, ◌%◌, ◌^◌, ◌≤◌, ◌<◌, min, max, String, ◌≡◌, refl, sym, ap, ◌∙◌,
  subst, ◌≢◌, ◌↔◌, ◌⊎◌, inl, inr, Bool, true, false, ◌&&◌, ◌||◌, not, Option, none, some, List, [],
  ◌∷◌, ◌++◌, map, arith, ltb, leb, nat_beq, if◌then◌else◌, ltb→lt, lt→ltb, leb→le, nat_beq_iff,
  tests, Eq, ◌==◌, nat_eq, string_eq, list_eq, option_eq, list_beq_iff, option_beq_iff, Bool-cases,
  Option-cases, is_some, length, take, drop, select, find, any, all, length-append,
  length-select-le, any-append, contains, contains-append, reject, update, option_all-find,
  insert_by, sort_by, any-sort_by, any-select, pair_eq, pair_beq_iff, option_all, any-reject_self,
  length-update, without_first, count, count-without_first, count-without_first_ne, contains-eq-ltb,
  Assoc, lookup, insert, remove, lookup-insert, lookup-remove, printed, concat, all-append, any_ext,
  select_ext, find-update,
}
use redash.Tables.{NotificationDestination, AlertSubscription, Db}
use redash.Permissions.{Principal}
use redash.Handler.{
  Failure, abort, exception, Action, pure, fail, gets, modify, commit, record_event, ◌>>=◌, ◌>>◌,
  one, require,
}
use redash.Groups.{require_permission}
use redash.Sharing.{user_row}
use redash.Configuration
use redash.Configuration.{Schema, Container, update_config}
use redash.DataSources.{placeholder, updated, present}

-- NotificationDestination.get_by_id_and_org
unfoldable pub destination_by_id_and_org : ℕ → ℕ → Db → Option NotificationDestination
destination_by_id_and_org id org db =
    find (λ d. d.id == id && d.org_id == org) db.notification_destinations

-- The unique index on the organization and the name.
unfoldable pub unique_names : List NotificationDestination → Bool
unique_names [] = true
unique_names (d ∷ rest) =
    not (any (λ e. e.org_id == d.org_id && e.name == d.name) rest) && unique_names rest

unfoldable pub set_destination : ℕ → String → String → Assoc String String → Db → Db
set_destination id type name options db = record db {
  notification_destinations =
      update (λ d. d.id == id) (λ d. record d { type = type; name = name; options = options })
        db.notification_destinations;
}

unfoldable pub add_destination : ℕ → ℕ → String → String → Assoc String String → Db → Db
add_destination org user_id name type options db = record db {
  notification_destinations =
      db.notification_destinations
      ++ record {
        id = db.next_id;
        org_id = org;
        user_id = user_id;
        name = name;
        type = type;
        options = options;
      }
        ∷ [];
  next_id = suc db.next_id;
}

unfoldable pub delete_destination : ℕ → Db → Db
delete_destination id db = record db {
  notification_destinations = reject (λ d. d.id == id) db.notification_destinations;
}

-- A subscription of an alert names the destination. The foreign key of AlertSubscription.destination_id has no ON DELETE
-- and the model no backref, so the database refuses to delete such a destination.
unfoldable pub is_subscribed : ℕ → Db → Bool
is_subscribed id db = any (λ s. s.destination_id == some id) db.alert_subscriptions

module _ (schema_of_type : String → Option (Schema String)) (me : Principal) (org : ℕ) where
  -- DestinationResource.post
  unfoldable pub edit : ℕ → String → String → Assoc String String → Action (Unit {0})
  edit destination_id type name options = do
    require_permission me org "admin"
    destination ← gets (destination_by_id_and_org destination_id org)
    destination ← one destination
    require (is_some (schema_of_type type)) (abort 400)
    let container : Container String = record {
      config = destination.options;
      schema = schema_of_type type;
    }
    options ← updated (update_config placeholder options container)
    modify (set_destination destination.id type name options)
    accepted ← gets (λ db. unique_names db.notification_destinations)
    require accepted exception
    commit

  -- DestinationResource.delete
  unfoldable pub delete : ℕ → Action (Unit {0})
  delete destination_id = do
    require_permission me org "admin"
    destination ← gets (destination_by_id_and_org destination_id org)
    destination ← one destination
    subscribed ← gets (is_subscribed destination.id)
    require (not subscribed) exception
    modify (delete_destination destination.id)
    commit
    record_event "delete" "destination" destination_id

  -- DestinationListResource.post; a missing field is an absent argument.
  unfoldable pub create :
      Option (Assoc String String) → Option String → Option String → Action (Unit {0})
  create options name type = do
    require_permission me org "admin"
    options ← present options
    name ← present name
    type ← present type
    schema ← present (schema_of_type type)
    require (schema.validates options) (abort 400)
    my_id ← user_row me
    modify (add_destination org my_id name type options)
    accepted ← gets (λ db. unique_names db.notification_destinations)
    require accepted exception
    commit

pub data Request : Type 0 where
  edit_destination : (id : ℕ) (type name : String) (options : Assoc String String) → Request
  delete_destination_by_id : (id : ℕ) → Request
  create_destination :
      (options : Option (Assoc String String)) (name type : Option String) → Request

unfoldable pub handle :
    (String → Option (Schema String)) → Principal → ℕ → Request → Action (Unit {0})
handle schema_of_type me org (edit_destination id type name options) =
    edit schema_of_type me org id type name options
handle schema_of_type me org (delete_destination_by_id id) = delete schema_of_type me org id
handle schema_of_type me org (create_destination options name type) =
    create schema_of_type me org options name type
