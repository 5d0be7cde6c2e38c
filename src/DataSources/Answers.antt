-- ===== src/DataSources/Answers.antt =====
-- Two requests of an administrator: to send back the options as they were shown, and to delete a data source whose
-- results are in use.
use redash.Prelude.{
  ℕ, String, ◌≡◌, refl, ap, ◌∙◌, Bool, true, false, ◌&&◌, Option, some, arith, ◌==◌, nat_eq,
  string_eq, list_eq, option_eq, pair_eq, Assoc, find-update,
}
use redash.Tables.{DataSource, Db}
use redash.Permissions.{Principal, viewer, has_permission}
use redash.Handler.{exception, ok, err, serve, ◌>>=◌}
use redash.Groups.{require_permission, data_source_by_id_and_org}
use redash.Configuration
use redash.Configuration.{Schema, Container, update_config, to_dict}
use redash.Configuration.Secrets.{IsDict, update-to_dict}
use redash.DataSources.{
  set_data_source, unlink_queries, results_in_use, delete_data_source, edit, delete, filter_none,
  placeholder,
}

module _ (schema_of_type : String → Option (Schema String)) (refuses : Db → Bool) (me : Principal)
    (org : ℕ) (db : Db) (admin : has_permission (viewer db.groups me) "admin" ≡ true) (id : ℕ)
    (d : DataSource) (found : data_source_by_id_and_org id org db ≡ some d) where
  -- An administrator's request to delete a data source one of whose results is still referred to, by a kept result
  -- set or by a query on another data source, ends in an exception and changes nothing.
  pub delete-in_use :
      results_in_use d.id (unlink_queries d.id db) ≡ true
      → serve (delete schema_of_type refuses me org id) db ≡ (err exception, db)
  unfolding serve delete delete_data_source ◌>>=◌ require_permission
  delete-in_use h = ground (arith, admin, found, h)

  edit-accepted :
      (s : Schema String) (shown : Assoc String String) (c : Container String)
      → schema_of_type d.type ≡ some s
      → filter_none shown ≡ shown
      → refuses (set_data_source d.id d.type d.name c.config db) ≡ false
      → update_config placeholder shown (record { config = d.options; schema = some s })
        ≡ Configuration.ok c
      → serve (edit schema_of_type refuses me org id d.type d.name shown) db
        ≡ (ok tt, set_data_source d.id d.type d.name c.config db)
  unfolding serve edit ◌>>=◌ require_permission
  edit-accepted s shown c known plain accepted e =
      ground (arith, admin, found, known, plain, accepted, e)

  same-found :
      data_source_by_id_and_org id org (set_data_source d.id d.type d.name d.options db) ≡ some d
  unfolding data_source_by_id_and_org set_data_source
  same-found = ground (
    arith,
    found,
    find-update (λ (x : DataSource). x.id == id && x.org_id == org) (λ x. x.id == d.id)
        (λ x. record x { type = d.type; name = d.name; options = d.options }) (λ x. refl)
        db.data_sources,
  )

  -- An administrator who sends a data source back as it is shown, its secrets masked, leaves it as it was, secrets
  -- included. (No option is null, the schema accepts the options as shown, the database the rows.)
  pub edit_shown :
      (s : Schema String) (shown : Assoc String String)
      → schema_of_type d.type ≡ some s
      → IsDict d.options
      → to_dict placeholder true (record { config = d.options; schema = some s })
        ≡ Configuration.ok shown
      → filter_none shown ≡ shown
      → s.validates shown ≡ true
      → refuses (set_data_source d.id d.type d.name d.options db) ≡ false
      → ((serve (edit schema_of_type refuses me org id d.type d.name shown) db).0 ≡ ok tt)
        × (data_source_by_id_and_org id org
              (serve (edit schema_of_type refuses me org id d.type d.name shown) db).1
            ≡ some d)
  edit_shown s shown known dict e plain valid accepted =
      let c : Container String = record { config = d.options; schema = some s } in
      let h =
        edit-accepted s shown c known plain accepted
          (update-to_dict placeholder c s shown refl dict e valid) in
      (ap (λ x. x.0) h, ap (λ x. data_source_by_id_and_org id org x.1) h ∙ same-found)
