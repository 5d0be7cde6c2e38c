-- ===== src/Destinations/Requests.antt =====
-- What a request on destinations leaves.
use redash.Prelude.{
  ℕ, String, ◌≡◌, refl, sym, ap, subst, ◌≢◌, ◌⊎◌, inl, inr, false, Option, none, some, arith,
  nat_eq, string_eq, list_eq, option_eq, Option-cases, pair_eq, Assoc,
}
use redash.Tables.{NotificationDestination, Db}
use redash.Permissions.{Principal}
use redash.Handler.{ok, serve, ◌>>=◌}
use redash.Handler.Rules.{Atomic, serve-cases, atomic_rules}
use redash.Groups.{require_permission}
use redash.Groups.Requests.{Reads-require_permission}
use redash.Sharing.{user_row}
use redash.Alerts.Requests.Subscriptions.{Reads-user_row}
use redash.Configuration
use redash.Configuration.{Schema, Container, update_config}
use redash.DataSources.{placeholder}
use redash.DataSources.Requests.{Reads-updated, Reads-present}
use redash.Queries.Versions.{id_of}
use redash.DataSources.Edits.{Result-cases}
use redash.Destinations.Served.{
  IsServed, set_destination-IsServed, add_destination-IsServed, delete_destination-IsServed,
}
use redash.Destinations.{
  destination_by_id_and_org, set_destination, add_destination, delete_destination, is_subscribed,
  edit, delete, create, Request, edit_destination, delete_destination_by_id, create_destination,
  handle,
}

module _ (schema_of_type : String → Option (Schema String)) (me : Principal) (org : ℕ) where
  handle-Atomic : (r : Request) → Atomic (handle schema_of_type me org r)
  unfolding handle edit delete create
  handle-Atomic (edit_destination id type name options) =
      search (atomic_rules, Reads-require_permission, Reads-updated) depth 20
  handle-Atomic (delete_destination_by_id id) =
      search (atomic_rules, Reads-require_permission) depth 20
  handle-Atomic (create_destination options name type) =
      search (atomic_rules, Reads-require_permission, Reads-present, Reads-user_row) depth 24

module _ (schema_of_type : String → Option (Schema String)) (me : Principal) (org : ℕ)
    (db : Db) where
  delete-none :
      (id : ℕ)
      → destination_by_id_and_org id org db ≡ none
      → (serve (delete schema_of_type me org id) db).0 ≢ ok tt
  unfolding serve delete ◌>>=◌ require_permission
  delete-none id e h = ground (arith, e, h)

  delete-some :
      (id : ℕ) (d : NotificationDestination)
      → destination_by_id_and_org id org db ≡ some d
      → (serve (delete schema_of_type me org id) db).0 ≡ ok tt
      → (is_subscribed d.id db ≡ false)
        × ((serve (delete schema_of_type me org id) db).1 ≡ delete_destination d.id db)
  unfolding serve delete ◌>>=◌ require_permission
  delete-some id d e h = (ground (arith, e, h), ground (arith, e, h))

  module _ (id : ℕ) (type name : String) (options : Assoc String String) where
    edit-none :
        destination_by_id_and_org id org db ≡ none
        → (serve (edit schema_of_type me org id type name options) db).0 ≢ ok tt
    unfolding serve edit ◌>>=◌ require_permission
    edit-none e h = ground (arith, e, h)

    edit-raise :
        (d : NotificationDestination) (x : Configuration.Error)
        → destination_by_id_and_org id org db ≡ some d
        → update_config placeholder options
            (record { config = d.options; schema = schema_of_type type })
          ≡ Configuration.raise x
        → (serve (edit schema_of_type me org id type name options) db).0 ≢ ok tt
    unfolding serve edit ◌>>=◌ require_permission
    edit-raise d Configuration.validation_error e f h = ground (arith, e, f, h)
    edit-raise d Configuration.runtime_error e f h = ground (arith, e, f, h)
    edit-raise d Configuration.key_error e f h = ground (arith, e, f, h)

    edit-some :
        (d : NotificationDestination) (c : Container String)
        → destination_by_id_and_org id org db ≡ some d
        → update_config placeholder options
            (record { config = d.options; schema = schema_of_type type })
          ≡ Configuration.ok c
        → (serve (edit schema_of_type me org id type name options) db).0 ≡ ok tt
        → (serve (edit schema_of_type me org id type name options) db).1
          ≡ set_destination d.id type name c.config db
    unfolding serve edit ◌>>=◌ require_permission
    edit-some d c e f h = ground (arith, e, f, h)

  create-missing :
      (options : Option (Assoc String String)) (name type : Option String)
      → (options ≡ none) ⊎ ((name ≡ none) ⊎ (type ≡ none))
      → (serve (create schema_of_type me org options name type) db).0 ≢ ok tt
  unfolding serve create ◌>>=◌ require_permission
  create-missing none name type m h = ground (arith, h)
  create-missing (some options) none type m h = ground (arith, h)
  create-missing (some options) (some name) none m h = ground (arith, h)
  create-missing (some options) (some name) (some type) m h = ground (arith, m)

  create-some :
      (options : Assoc String String) (name type : String)
      → (serve (create schema_of_type me org (some options) (some name) (some type)) db).0 ≡ ok tt
      → (serve (create schema_of_type me org (some options) (some name) (some type)) db).1
        ≡ add_destination org (id_of me) name type options db
  unfolding serve create user_row ◌>>=◌ require_permission
  create-some options name type h = ground (arith, h)

  succeeded-IsServed :
      (r : Request)
      → IsServed db
      → (serve (handle schema_of_type me org r) db).0 ≡ ok tt
      → IsServed (serve (handle schema_of_type me org r) db).1
  unfolding handle
  succeeded-IsServed (edit_destination id type name options) s h =
      elim (Option-cases (destination_by_id_and_org id org db)) [
        | inl e ↦ absurd (edit-none id type name options e h)
        | inr (d, e) ↦
            elim (Result-cases (
              update_config placeholder options
                (record { config = d.options; schema = schema_of_type type }))) [
                  | inl (c, f) ↦
                      subst IsServed (sym (edit-some id type name options d c e f h))
                        (set_destination-IsServed d.id type name c.config db s)
                  | inr (x, f) ↦ absurd (edit-raise id type name options d x e f h)
                ]
      ]
  succeeded-IsServed (delete_destination_by_id id) s h =
      elim (Option-cases (destination_by_id_and_org id org db)) [
        | inl e ↦ absurd (delete-none id e h)
        | inr (d, e) ↦
            let (free, left_e) = delete-some id d e h in
            subst IsServed (sym left_e) (delete_destination-IsServed d.id db free s)
      ]
  succeeded-IsServed (create_destination (some options) (some name) (some type)) s h =
      subst IsServed (sym (create-some options name type h))
        (add_destination-IsServed org (id_of me) name type options db s)
  succeeded-IsServed (create_destination none name type) s h =
      absurd (create-missing none name type (inl refl) h)
  succeeded-IsServed (create_destination (some options) none type) s h =
      absurd (create-missing (some options) none type (inr (inl refl)) h)
  succeeded-IsServed (create_destination (some options) (some name) none) s h =
      absurd (create-missing (some options) (some name) none (inr (inr refl)) h)

-- Every subscription that names a destination names one that is there, and a request on destinations keeps that,
-- whether it succeeds or not.
pub handle-IsServed :
    (schema_of_type : String → Option (Schema String)) (me : Principal) (org : ℕ) (r : Request)
    (db : Db)
    → IsServed db
    → IsServed (serve (handle schema_of_type me org r) db).1
handle-IsServed schema_of_type me org r db s =
    elim (serve-cases (handle schema_of_type me org r) db (handle-Atomic schema_of_type me org r)) [
      | inl (e, same) ↦ subst IsServed (sym (ap (λ x. x.1) same)) s
      | inr h ↦ succeeded-IsServed schema_of_type me org db r s h
    ]
