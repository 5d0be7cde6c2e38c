-- ===== src/Groups/DataSources.antt =====
-- What the handlers for a group's data sources do to `DataSource.groups`, which `has_access` reads.
use redash.Prelude.{
  ℕ, ◌≡◌, refl, Bool, true, false, ◌&&◌, Option, none, some, List, [], ◌∷◌, ◌++◌, arith,
  if◌then◌else◌, ◌==◌, nat_eq, string_eq, list_eq, option_eq, select, reject, update,
  option_all-find, option_all, Assoc, lookup, insert, lookup-insert,
}
use redash.Tables.{Group, DataSource, DataSourceGroup, Db}
use redash.Permissions.{Principal, data_source_groups, groups_from}
use redash.Handler.{ok, ◌>>=◌, serve}
use redash.Groups.{
  require_permission, add_data_source, change_data_source_permission, remove_data_source,
  data_source_by_id_and_org, group_by_id_and_org, links, is_one, add_data_source_group,
  remove_data_source_group, set_view_only,
}

module _ (ds group : ℕ) where
  groups_from-reject :
      (rows : List DataSourceGroup) (acc : Assoc ℕ Bool)
      → lookup group (groups_from (reject (links ds group) rows) ds acc) ≡ lookup group acc
  unfolding groups_from reject
  groups_from-reject [] acc = refl
  groups_from-reject (r ∷ rows) acc = ground (
    arith,
    lookup-insert r.group_id group r.view_only acc,
    groups_from-reject rows acc,
    groups_from-reject rows (insert r.group_id r.view_only acc),
  )

  groups_from-append :
      (rows : List DataSourceGroup) (r : DataSourceGroup) (acc : Assoc ℕ Bool)
      → r.data_source_id ≡ ds
      → r.group_id ≡ group
      → lookup group (groups_from (rows ++ r ∷ []) ds acc) ≡ some r.view_only
  unfolding groups_from
  groups_from-append [] r acc d g = ground (arith, lookup-insert r.group_id group r.view_only acc)
  groups_from-append (q ∷ rows) r acc d g =
      groups_from-append rows r
        (if q.data_source_id == ds then insert q.group_id q.view_only acc else acc) d g

  -- With no row for the pair the accumulator's value is kept.
  groups_from-none :
      (rows : List DataSourceGroup) (acc : Assoc ℕ Bool)
      → select (links ds group) rows ≡ []
      → lookup group (groups_from rows ds acc) ≡ lookup group acc
  unfolding groups_from select
  groups_from-none [] acc h = refl
  groups_from-none (r ∷ rows) acc h = ground (
    arith,
    lookup-insert r.group_id group r.view_only acc,
    groups_from-none rows acc,
    groups_from-none rows (insert r.group_id r.view_only acc),
  )

  select-update :
      (v : Bool) (rows : List DataSourceGroup)
      → select (links ds group) rows ≡ []
      → select (links ds group) (update (links ds group) (λ r. record r { view_only = v }) rows)
        ≡ []
  unfolding select update
  select-update v [] h = refl
  select-update v (r ∷ rows) h = ground (arith, select-update v rows)

  groups_from-update :
      (v : Bool) (rows : List DataSourceGroup) (acc : Assoc ℕ Bool)
      → is_one (select (links ds group) rows) ≡ true
      → lookup group
          (groups_from (update (links ds group) (λ r. record r { view_only = v }) rows) ds acc)
        ≡ some v
  unfolding groups_from select update is_one
  groups_from-update v [] acc h = cc
  groups_from-update v (r ∷ rows) acc h =
      let rest = update (links ds group) (λ r. record r { view_only = v }) rows in
      ground (
        arith,
        lookup-insert r.group_id group v acc,
        select-update v rows,
        groups_from-none rest (insert r.group_id v acc),
        groups_from-update v rows acc,
        groups_from-update v rows (insert r.group_id r.view_only acc),
      )

data_source_by_id_and_org-id :
    (id org : ℕ) (db : Db)
    → option_all (λ d. d.id == id) (data_source_by_id_and_org id org db) ≡ true
unfolding data_source_by_id_and_org
data_source_by_id_and_org-id id org db =
    ground
      (arith, option_all-find (λ (d : DataSource). d.id == id && d.org_id == org) db.data_sources)

group_by_id_and_org-id :
    (id org : ℕ) (db : Db) → option_all (λ g. g.id == id) (group_by_id_and_org id org db) ≡ true
unfolding group_by_id_and_org
group_by_id_and_org-id id org db =
    ground (arith, option_all-find (λ (g : Group). g.id == id && g.org_id == org) db.groups)

-- The level of the group in `DataSource.groups` once a request is over.
abbrev pub level : ℕ → ℕ → Db → Option Bool
level group_id ds db = lookup group_id (data_source_groups db.data_source_groups ds)

module _ (me : Principal) (org group_id ds : ℕ) (db : Db) where
  -- After a successful request to remove a data source from a group, the group is no longer among the
  -- groups of the data source.
  pub remove_data_source-level :
      (serve (remove_data_source me org group_id ds) db).0 ≡ ok tt
      → level group_id ds (serve (remove_data_source me org group_id ds) db).1 ≡ none
  unfolding serve remove_data_source require_permission ◌>>=◌ remove_data_source_group
      data_source_groups lookup
  remove_data_source-level h = ground (
    arith,
    data_source_by_id_and_org-id ds org db,
    group_by_id_and_org-id group_id org db,
    groups_from-reject ds group_id db.data_source_groups [],
  )

  -- After a successful request to add a data source to a group, the group is among the groups of the data
  -- source, with more than view-only access, whatever it had before.
  pub add_data_source-level :
      (serve (add_data_source me org group_id ds) db).0 ≡ ok tt
      → level group_id ds (serve (add_data_source me org group_id ds) db).1 ≡ some false
  unfolding serve add_data_source require_permission ◌>>=◌ add_data_source_group data_source_groups
  add_data_source-level h = ground (
    arith,
    data_source_by_id_and_org-id ds org db,
    group_by_id_and_org-id group_id org db,
    groups_from-append ds group_id db.data_source_groups
        (record { id = db.next_id; data_source_id = ds; group_id = group_id; view_only = false }) []
        refl refl,
  )

  -- After a successful request to change a group's permission on a data source, the group is among the groups
  -- of the data source with the access that was asked for.
  pub change_data_source_permission-level :
      (view_only : Bool)
      → (serve (change_data_source_permission me org group_id ds view_only) db).0 ≡ ok tt
      → level group_id ds (serve (change_data_source_permission me org group_id ds view_only) db).1
        ≡ some view_only
  unfolding serve change_data_source_permission require_permission ◌>>=◌ set_view_only
      data_source_groups
  change_data_source_permission-level v h = ground (
    arith,
    data_source_by_id_and_org-id ds org db,
    group_by_id_and_org-id group_id org db,
    groups_from-update ds group_id v db.data_source_groups [],
  )
