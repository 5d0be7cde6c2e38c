-- ===== src/DataSources/Edits.antt =====
-- What a request on data sources that succeeds leaves, and that no reference is left dangling.
use redash.Prelude.{
  ℕ, String, ◌≡◌, refl, sym, ap, subst, ◌≢◌, ◌⊎◌, inl, inr, Bool, false, Option, none, some, arith,
  nat_eq, string_eq, list_eq, option_eq, Option-cases, pair_eq, Assoc,
}
use redash.Tables.{DataSource, Db}
use redash.Permissions.{Principal}
use redash.Handler.{ok, serve, ◌>>=◌}
use redash.Handler.Rules.{serve-cases}
use redash.Groups.{require_permission, data_source_by_id_and_org}
use redash.Configuration
use redash.Configuration.{Schema, Container, update_config}
use redash.DataSources.{
  set_data_source, create_with_group, unlink_queries, results_in_use, delete_data_source, edit,
  delete, create, filter_none, placeholder,
}
use redash.DataSources.Links.{IsLinked, left, left-IsLinked, edited-IsLinked, created-IsLinked}
use redash.DataSources.Requests.{
  Request, edit_data_source, delete_data_source_by_id, create_data_source, handle, handle-Atomic,
}

pub Result-cases :
    (r : Configuration.Result (Container String))
    → ((c : Container String) × (r ≡ Configuration.ok c))
      ⊎ ((e : Configuration.Error) × (r ≡ Configuration.raise e))
Result-cases (Configuration.ok c) = inl (c, refl)
Result-cases (Configuration.raise e) = inr (e, refl)

module _ (schema_of_type : String → Option (Schema String)) (refuses : Db → Bool) (me : Principal)
    (org : ℕ) (db : Db) where
  -- `data_source.options.update(filter_none(req['options']))`
  abbrev new_options :
      DataSource → String → Assoc String String → Configuration.Result (Container String)
  new_options d type options =
      update_config placeholder (filter_none options)
        (record { config = d.options; schema = schema_of_type type })

  module _ (id : ℕ) where
    delete-none :
        data_source_by_id_and_org id org db ≡ none
        → (serve (delete schema_of_type refuses me org id) db).0 ≢ ok tt
    unfolding serve delete delete_data_source ◌>>=◌ require_permission
    delete-none e h = ground (arith, e, h)

    delete-some :
        (d : DataSource)
        → data_source_by_id_and_org id org db ≡ some d
        → (serve (delete schema_of_type refuses me org id) db).0 ≡ ok tt
        → (results_in_use d.id (unlink_queries d.id db) ≡ false)
          × ((serve (delete schema_of_type refuses me org id) db).1 ≡ left d.id db)
    unfolding serve delete delete_data_source ◌>>=◌ require_permission
    delete-some d e h = (ground (arith, e, h), ground (arith, e, h))

    module _ (type name : String) (options : Assoc String String) where
      edit-none :
          data_source_by_id_and_org id org db ≡ none
          → (serve (edit schema_of_type refuses me org id type name options) db).0 ≢ ok tt
      unfolding serve edit ◌>>=◌ require_permission
      edit-none e h = ground (arith, e, h)

      edit-raise :
          (d : DataSource) (x : Configuration.Error)
          → data_source_by_id_and_org id org db ≡ some d
          → new_options d type options ≡ Configuration.raise x
          → (serve (edit schema_of_type refuses me org id type name options) db).0 ≢ ok tt
      unfolding serve edit ◌>>=◌ require_permission
      edit-raise d Configuration.validation_error e f h = ground (arith, e, f, h)
      edit-raise d Configuration.runtime_error e f h = ground (arith, e, f, h)
      edit-raise d Configuration.key_error e f h = ground (arith, e, f, h)

      pub edit-some :
          (d : DataSource) (c : Container String)
          → data_source_by_id_and_org id org db ≡ some d
          → new_options d type options ≡ Configuration.ok c
          → (serve (edit schema_of_type refuses me org id type name options) db).0 ≡ ok tt
          → (serve (edit schema_of_type refuses me org id type name options) db).1
            ≡ set_data_source d.id type name c.config db
      unfolding serve edit ◌>>=◌ require_permission
      edit-some d c e f h = ground (arith, e, f, h)

  create-some :
      (options : Assoc String String) (name type : String)
      → (serve (create schema_of_type refuses me org (some options) (some name) (some type)) db).0
        ≡ ok tt
      → (serve (create schema_of_type refuses me org (some options) (some name) (some type)) db).1
        ≡ create_with_group org name type (filter_none options) db
  unfolding serve create ◌>>=◌ require_permission
  create-some options name type h = ground (arith, h)

  create-missing :
      (options : Option (Assoc String String)) (name type : Option String)
      → (options ≡ none) ⊎ ((name ≡ none) ⊎ (type ≡ none))
      → (serve (create schema_of_type refuses me org options name type) db).0 ≢ ok tt
  unfolding serve create ◌>>=◌ require_permission
  create-missing none name type m h = ground (arith, h)
  create-missing (some options) none type m h = ground (arith, h)
  create-missing (some options) (some name) none m h = ground (arith, h)
  create-missing (some options) (some name) (some type) m h = ground (arith, m)

  succeeded-IsLinked :
      (r : Request)
      → IsLinked db
      → (serve (handle schema_of_type refuses me org r) db).0 ≡ ok tt
      → IsLinked (serve (handle schema_of_type refuses me org r) db).1
  unfolding handle
  succeeded-IsLinked (edit_data_source id type name options) l h =
      elim (Option-cases (data_source_by_id_and_org id org db)) [
        | inl e ↦ absurd (edit-none id type name options e h)
        | inr (d, e) ↦ elim (Result-cases (new_options d type options)) [
          | inl (c, f) ↦
              subst IsLinked (sym (edit-some id type name options d c e f h))
                (edited-IsLinked d.id type name c.config db l)
          | inr (x, f) ↦ absurd (edit-raise id type name options d x e f h)
        ]
      ]
  succeeded-IsLinked (delete_data_source_by_id id) l h =
      elim (Option-cases (data_source_by_id_and_org id org db)) [
        | inl e ↦ absurd (delete-none id e h)
        | inr (d, e) ↦
            let (free, left_e) = delete-some id d e h in
            subst IsLinked (sym left_e) (left-IsLinked d.id db free l)
      ]
  succeeded-IsLinked (create_data_source (some options) (some name) (some type)) l h =
      subst IsLinked (sym (create-some options name type h))
        (created-IsLinked org name type (filter_none options) db l)
  succeeded-IsLinked (create_data_source none name type) l h =
      absurd (create-missing none name type (inl refl) h)
  succeeded-IsLinked (create_data_source (some options) none type) l h =
      absurd (create-missing (some options) none type (inr (inl refl)) h)
  succeeded-IsLinked (create_data_source (some options) (some name) none) l h =
      absurd (create-missing (some options) (some name) none (inr (inr refl)) h)

-- Every column that names a data source or a result of a query names one that is there, and a request that creates,
-- edits or deletes a data source keeps that, whether it succeeds or not.
pub handle-IsLinked :
    (schema_of_type : String → Option (Schema String)) (refuses : Db → Bool) (me : Principal)
    (org : ℕ) (r : Request) (db : Db)
    → IsLinked db
    → IsLinked (serve (handle schema_of_type refuses me org r) db).1
handle-IsLinked schema_of_type refuses me org r db l =
    elim (serve-cases (handle schema_of_type refuses me org r) db
      (handle-Atomic schema_of_type refuses me org r)) [
        | inl (e, s) ↦ subst IsLinked (sym (ap (λ x. x.1) s)) l
        | inr h ↦ succeeded-IsLinked schema_of_type refuses me org db r l h
      ]
