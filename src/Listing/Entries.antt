-- ===== src/Listing/Entries.antt =====
-- What the lists of data sources and of queries show is what `has_access` lets their reader see.
use redash.Prelude.{
  ℕ, String, ◌≡◌, refl, sym, ap, ◌∙◌, ◌≢◌, ◌⊎◌, inl, Bool, true, false, ◌&&◌, ◌||◌, not, Option,
  none, some, List, [], ◌∷◌, ◌++◌, arith, if◌then◌else◌, ◌==◌, nat_eq, string_eq, list_eq,
  option_eq, select, any, all, any-append, contains, sort_by, any-sort_by, any-select, pair_eq,
  any_ext,
}
use redash.Tables.{DataSource, Group, User, Db}
use redash.Permissions.{
  Principal, Viewer, viewer, has_permission, has_permissions, has_access, user_permissions, user,
  api_user,
}
use redash.Permissions.Access.{has_access_iff}
use redash.Handler.{ok, serve, ◌>>=◌}
use redash.Groups.{require_permission}
use redash.Listing.{
  in_some_group, all_data_sources, Listed, only_view, describe, place, by_name, list_data_sources,
}
use redash.Listing.Visible.{groups_of, groups_of-IsDict, joined-has_access}

-- A user in no group has no permission.
permissions-no_group : (gs : List Group) (u : User) → u.group_ids ≡ [] → user_permissions gs u ≡ []
unfolding user_permissions contains
permissions-no_group [] u h = refl
permissions-no_group (g ∷ gs) u h = ground (arith, h, permissions-no_group gs u)

viewer-no_group :
    (gs : List Group) (me : Principal)
    → (viewer gs me).group_ids ≡ []
    → has_permission (viewer gs me) "list_data_sources" ≡ false
unfolding viewer has_permission has_permissions all contains
viewer-no_group gs (user u) h = ground (arith, permissions-no_group gs u h)
viewer-no_group gs (api_user a) h = refl

-- Which data source an entry is about.
abbrev pub about : ℕ → Listed → Bool
about i l = l.data_source.id == i

-- May the viewer see the data source?
abbrev pub visible : Viewer → Db → DataSource → Bool
visible u db d = has_access (groups_of d.id db) u true

module _ (known : String → Bool) (below : String → String → Bool) where
  any-place :
      (p : Listed → Bool) (a : Listed) (ls : List Listed)
      → any p (place known below a ls) ≡ (p a || any p ls)
  unfolding any place
  any-place p a [] = refl
  any-place p a (l ∷ ls) = ground (arith, any-place p a ls)

  any-by_name : (p : Listed → Bool) (ls : List Listed) → any p (by_name known below ls) ≡ any p ls
  unfolding any by_name
  any-by_name p [] = refl
  any-by_name p (l ∷ ls) = any-place p l (by_name known below ls) ∙ rw (any-by_name p ls)

  any-next :
      (i : ℕ) (d : DataSource) (l : Listed) (response : List Listed)
      → l.data_source ≡ d
      → any (about i) (
          if any (λ l. l.data_source.id == d.id) response || not (known d.type)
          then response
          else response ++ l ∷ [])
        ≡ (any (about i) response || (d.id == i && known d.type))
  unfolding any
  any-next i d l response e = ground (
    arith,
    any-append (about i) response (l ∷ []),
    ap (λ (x : DataSource). x.id) e,
    nat_eq.beq_iff d.id i,
    λ (h : d.id ≡ i). ap (λ n. any (about n) response) h,
  )

  any-describe :
      (i : ℕ) (ids : List ℕ) (db : Db) (ds : List DataSource) (response : List Listed)
      → any (about i) (describe known below ids db ds response)
        ≡ (any (about i) response || any (λ d. d.id == i && known d.type) ds)
  unfolding any describe
  any-describe i ids db [] response = ground arith
  any-describe i ids db (d ∷ ds) response =
      let l : Listed = record { data_source = d; view_only = only_view (groups_of d.id db) ids } in
      any-describe i ids db ds (
        if any (λ l. l.data_source.id == d.id) response || not (known d.type)
        then response
        else response ++ l ∷ [])
      ∙ rw (any-next i d l response refl) (ground arith)

any-all_data_sources :
    (p : DataSource → Bool) (org : ℕ) (ids : Option (List ℕ)) (db : Db)
    → any p (all_data_sources org ids db)
      ≡ any (λ d. d.org_id == org && (in_some_group ids d.id db && p d)) db.data_sources
unfolding all_data_sources
any-all_data_sources p org ids db =
    any-select p (λ d. in_some_group ids d.id db)
      (sort_by (λ d. d.id) (select (λ d. d.org_id == org) db.data_sources))
    ∙ any-sort_by (λ d. in_some_group ids d.id db && p d) (λ d. d.id)
        (select (λ d. d.org_id == org) db.data_sources)
    ∙ any-select (λ d. in_some_group ids d.id db && p d) (λ d. d.org_id == org) db.data_sources

in_some_group-visible :
    (u : Viewer) (ds : ℕ) (db : Db)
    → (u.group_ids ≢ []) ⊎ (has_permission u "admin" ≡ true)
    → in_some_group (if has_permission u "admin" then none else some u.group_ids) ds db
      ≡ has_access (groups_of ds db) u true
unfolding in_some_group has_permission has_permissions all
in_some_group-visible u ds db h = ground (
  arith,
  h,
  has_access_iff (groups_of ds db) u true (groups_of-IsDict ds db),
  joined-has_access u ds db,
)

and_swap : (a b c d : Bool) → (a && (b && (c && d))) ≡ (c && (a && (d && b)))
and_swap a b c d = ground arith

-- The data source is in the organization, its type is known, and the viewer may see it.
abbrev pub to_be_listed : (String → Bool) → Viewer → ℕ → Db → DataSource → Bool
to_be_listed known u org db d = d.org_id == org && (known d.type && visible u db d)

module _ (known : String → Bool) (below : String → String → Bool) (me : Principal) (org : ℕ)
    (db : Db) where
  abbrev me_viewer : Viewer
  me_viewer = viewer db.groups me

  abbrev response : List Listed
  response = by_name known below (
      describe known below me_viewer.group_ids db
        (all_data_sources org
          (if has_permission me_viewer "admin" then none else some me_viewer.group_ids) db)
        [])

  pub list_data_sources-ok :
      (rows : List Listed)
      → (serve (list_data_sources known below me org) db).0 ≡ ok rows
      → (has_permission me_viewer "list_data_sources" ≡ true) × (response ≡ rows)
  unfolding serve list_data_sources require_permission ◌>>=◌
  list_data_sources-ok rows h = ground (arith, h)

  has_group : has_permission me_viewer "list_data_sources" ≡ true → me_viewer.group_ids ≢ []
  has_group h e = cc (viewer-no_group db.groups me e, h)

  -- The list of data sources shows a data source exactly if it is in the organization, its type is known and
  -- `has_access` lets the reader see it.
  pub list_data_sources-visible :
      (rows : List Listed) (i : ℕ)
      → (serve (list_data_sources known below me org) db).0 ≡ ok rows
      → any (about i) rows
        ≡ any (λ d. d.id == i && to_be_listed known (viewer db.groups me) org db d) db.data_sources
  unfolding any
  list_data_sources-visible rows i h =
      let (allowed, e) = list_data_sources-ok rows h in
      let ids : Option (List ℕ) =
        if has_permission me_viewer "admin" then none else some me_viewer.group_ids in
      ap (any (about i)) (sym e)
      ∙ any-by_name known below (about i)
          (describe known below me_viewer.group_ids db (all_data_sources org ids db) [])
      ∙ any-describe known below i me_viewer.group_ids db (all_data_sources org ids db) []
      ∙ any-all_data_sources (λ d. d.id == i && known d.type) org ids db
      ∙ any_ext _ _ db.data_sources (λ d.
        rw (in_some_group-visible me_viewer d.id db (inl (has_group allowed)))
          (and_swap (d.org_id == org) (visible me_viewer db d) (d.id == i) (known d.type)))
