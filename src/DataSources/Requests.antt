-- ===== src/DataSources/Requests.antt =====
-- The requests that change data sources, as one type: what fails changes nothing, and no reference is left
-- dangling.
use redash.Prelude.{
  ℕ, String, Bool, Option, none, some, nat_eq, string_eq, list_eq, option_eq, pair_eq, Assoc,
}
use redash.Tables.{Db}
use redash.Permissions.{Principal}
use redash.Handler.{Action}
use redash.Handler.Rules.{Atomic, Reads, Atomic-then, atomic_rules, reads}
use redash.Groups.Requests.{Reads-require_permission}
use redash.Configuration
use redash.Configuration.{Schema, Container, update_config}
use redash.DataSources.{updated, present, delete_data_source, edit, delete, create}

pub data Request : Type 0 where
  edit_data_source : (id : ℕ) (type name : String) (options : Assoc String String) → Request
  delete_data_source_by_id : (id : ℕ) → Request
  create_data_source :
      (options : Option (Assoc String String)) (name type : Option String) → Request

pub Reads-updated : (r : Configuration.Result (Container String)) → Reads (updated r)
Reads-updated (Configuration.ok c) = search reads
Reads-updated (Configuration.raise Configuration.validation_error) = search reads
Reads-updated (Configuration.raise Configuration.runtime_error) = search reads
Reads-updated (Configuration.raise Configuration.key_error) = search reads

pub Reads-present : {A : Type 0} (o : Option A) → Reads (present o)
Reads-present none = search reads
Reads-present (some a) = search reads

module _ (schema_of_type : String → Option (Schema String)) (refuses : Db → Bool) (me : Principal)
    (org : ℕ) where
  unfoldable pub handle : Request → Action (Unit {0})
  handle (edit_data_source id type name options) =
      edit schema_of_type refuses me org id type name options
  handle (delete_data_source_by_id id) = delete schema_of_type refuses me org id
  handle (create_data_source options name type) =
      create schema_of_type refuses me org options name type

  pub handle-Atomic : (r : Request) → Atomic (handle r)
  unfolding handle edit delete create delete_data_source
  handle-Atomic (edit_data_source id type name options) =
      search (atomic_rules, Reads-require_permission, Reads-updated) depth 20
  handle-Atomic (delete_data_source_by_id id) =
      search (atomic_rules, Atomic-then, Reads-require_permission) depth 20
  handle-Atomic (create_data_source options name type) =
      search (atomic_rules, Atomic-then, Reads-require_permission, Reads-present) depth 20
